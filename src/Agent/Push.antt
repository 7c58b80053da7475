-- ===== src/Agent/Push.antt =====
-- internal/agent/push.go: the params of a `metrics.push`, written in one pass. RFC 3339 and the JSON of the
-- ports are parameters, and a buffer is the bytes it holds.
pub mod Reader
pub mod Runes
pub mod Buffer
pub mod RoundTrip
use perch_apd.Base.{
  ℕ, zero, suc, ◌+◌, ◌-◌, ◌*◌, ◌/◌, ◌%◌, Bool, true, false, not, ◌&&◌, ◌||◌, Option, none, some,
  List, [], ◌∷◌, ◌++◌, ◌==◌, nat_eq, ltb, leb, if◌then◌else◌, Bytes, codes, length, take, drop,
}
use perch_apd.Base.Text.{within, itoa}

-- `utf8.DecodeRune` of UTF-8's second, third and fourth bytes.
abbrev is_tail : ℕ → Bool
is_tail = within 128 191

two : ℕ → Bytes → Option (ℕ × ℕ)
two c [] = none
two c (d ∷ s) = if is_tail d then some ((c - 192) * 64 + (d - 128), 2) else none

three : ℕ → Bytes → Option (ℕ × ℕ)
three c [] = none
three c (d ∷ []) = none
three c (d ∷ e ∷ s) =
    if within (if c == 224 then 160 else 128) (if c == 237 then 159 else 191) d && is_tail e
    then some ((c - 224) * 4096 + (d - 128) * 64 + (e - 128), 3)
    else none

four : ℕ → Bytes → Option (ℕ × ℕ)
four c [] = none
four c (d ∷ []) = none
four c (d ∷ e ∷ []) = none
four c (d ∷ e ∷ f ∷ s) =
    if within (if c == 240 then 144 else 128) (if c == 244 then 143 else 191) d
      && (is_tail e && is_tail f)
    then some ((c - 240) * 262144 + (d - 128) * 4096 + (e - 128) * 64 + (f - 128), 4)
    else none

-- `utf8.DecodeRune`: the rune and its size, or none for `RuneError` and 1.
unfoldable pub decode_rune : Bytes → Option (ℕ × ℕ)
unfolding two three four
decode_rune [] = none
decode_rune (c ∷ s) =
    if ltb c 128
    then some (c, 1)
    else if ltb c 194
    then none
    else if ltb c 224
    then two c s
    else if ltb c 240
    then three c s
    else if ltb c 245
    then four c s
    else none

-- `hexDigits`, at an index below 16.
abbrev pub hex_digit : ℕ → ℕ
hex_digit k = if ltb k 10 then b'0' + k else b'a' + (k - 10)

abbrev pub is_plain : ℕ → Bool
is_plain c = leb 32 c && (not (c == b'"') && not (c == b'\\'))

-- The escape of an ASCII byte.
unfoldable pub escaped : ℕ → Bytes
escaped c =
    if c == b'"' || c == b'\\'
    then b'\\' ∷ c ∷ []
    else if c == b'\n'
    then b'\\' ∷ b'n' ∷ []
    else if c == b'\r'
    then b'\\' ∷ b'r' ∷ []
    else if c == b'\t'
    then b'\\' ∷ b't' ∷ []
    else b'\\' ∷ b'u' ∷ b'0' ∷ b'0' ∷ hex_digit (c / 16) ∷ hex_digit (c % 16) ∷ []

-- U+FFFD.
abbrev pub replacement : Bytes
replacement = 239 ∷ 191 ∷ 189 ∷ []

-- Whether a rune is U+2028 or U+2029.
abbrev pub is_separator : ℕ → Bool
is_separator r = r == 8232 || r == 8233

abbrev pub escaped_separator : ℕ → Bytes
escaped_separator r = b'\\' ∷ b'u' ∷ b'2' ∷ b'0' ∷ b'2' ∷ hex_digit (r % 16) ∷ []

rune_piece : Option (ℕ × ℕ) → Bytes → Bool × Bytes × Bytes
rune_piece none s = (false, replacement, drop 1 s)
rune_piece (some (r, size)) s =
    if is_separator r
    then (false, escaped_separator r, drop size s)
    else (true, take size s, drop size s)

-- A round of the loop: whether it leaves the bytes as they are, what it writes for them, and `s[i:]` behind
-- them.
unfoldable pub piece : ℕ → Bytes → Bool × Bytes × Bytes
unfolding rune_piece
piece c s =
    if ltb c 128
    then (if is_plain c then (true, c ∷ [], s) else (false, escaped c, s))
    else rune_piece (decode_rune (c ∷ s)) (c ∷ s)

-- The loop, on what is written, `s[start:i]` and `s[i:]`, with the number of rounds as fuel.
unfoldable pub escape_loop : ℕ → Bytes → Bytes → Bytes → Bytes
escape_loop zero dst chunk s = dst ++ (chunk ++ s)
escape_loop (suc n) dst chunk [] = dst ++ chunk
escape_loop (suc n) dst chunk (c ∷ s) =
    let (is_kept, text, rest) = piece c s in
    let kept = escape_loop n dst (chunk ++ text) rest in
    let flushed = escape_loop n (dst ++ (chunk ++ text)) [] rest in
    if is_kept then kept else flushed

-- `appendJSONString`.
unfoldable pub append_json_string : Bytes → Bytes → Bytes
unfolding escape_loop
append_json_string dst s = escape_loop (length s) (dst ++ b'"' ∷ []) [] s ++ b'"' ∷ []

module _ {Time Ports : Type 0} (rfc3339 : Time → Bytes) (encode_ports : Ports → Option Bytes) where
  -- `appendPorts`, on the array that `Encode` writes, without the line break behind it.
  append_ports : Bytes → Ports → Bytes
  append_ports b ports = elim (encode_ports ports) [
    | none ↦ b
    | some array ↦ b ++ (codes ",\"ports\":" ++ array)
  ]

  with_ports : Bytes → Option Ports → Bytes
  unfolding append_ports
  with_ports b none = b
  with_ports b (some ports) = append_ports b ports

  -- `pushParams`, of a duration that is not negative.
  unfoldable pub push_params : Bytes → Time → ℕ → ℕ → Option Ports → Bytes
  unfolding with_ports append_json_string itoa
  push_params text collected_at took_ms seq ports =
      let head =
        codes "{\"format\":\"prometheus-text\",\"collectedAt\":\""
        ++ (rfc3339 collected_at
            ++ (codes "\",\"durationMs\":" ++ (itoa took_ms ++ (codes ",\"seq\":" ++ itoa seq)))) in
      append_json_string (with_ports head ports ++ codes ",\"text\":") text ++ b'}' ∷ []
