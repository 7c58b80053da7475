-- ===== src/Agent/Push/Reader.antt =====
-- A reader of JSON's strings, and how it takes bytes and escapes.
use perch_apd.Base.{
  ℕ, ◌+◌, ◌-◌, ◌*◌, ◌/◌, ◌%◌, ◌<◌, true, ◌||◌, Option, none, some, [], ◌∷◌, ◌++◌, ◌≡◌, refl, sym,
  ap, ◌∙◌, append_assoc, arith, ◌==◌, nat_eq, ltb, leb, if◌then◌else◌, Bytes, all,
}
use perch_apd.Base.Text.{within}
use perch_apd.Agent.Push.{hex_digit, is_plain}

-- A reader of the strings of RFC 8259. It stands in a string, behind a backslash, or before this many more
-- digits of a number.
pub data Mode : Type 0 where
  inside behind_slash : Mode
  digits : ℕ → ℕ → Mode

abbrev hex_value : ℕ → Option ℕ
hex_value c =
    if within b'0' b'9' c
    then some (c - b'0')
    else if within b'a' b'f' c
    then some (c - b'a' + 10)
    else if within b'A' b'F' c
    then some (c - b'A' + 10)
    else none

-- The byte that an escape of one letter stands for.
abbrev letter : ℕ → Option ℕ
letter c =
    if c == b'"' || c == b'\\' || c == b'/'
    then some c
    else if c == b'b'
    then some 8
    else if c == b'f'
    then some 12
    else if c == b'n'
    then some 10
    else if c == b'r'
    then some 13
    else if c == b't'
    then some 9
    else none

-- UTF-8 of a rune below 2^16.
abbrev pub utf8_of : ℕ → Bytes
utf8_of v =
    if ltb v 128
    then v ∷ []
    else if ltb v 2048
    then (192 + v / 64) ∷ (128 + v % 64) ∷ []
    else (224 + v / 4096) ∷ (128 + v / 64 % 64) ∷ (128 + v % 64) ∷ []

abbrev pub read_on : Bytes → Option (Bytes × Bytes) → Option (Bytes × Bytes)
read_on front none = none
read_on front (some (text, rest)) = some (front ++ text, rest)

-- The text of a string and what follows its closing quote.
unfoldable pub read_from : Mode → Bytes → Option (Bytes × Bytes)
read_from m [] = none
read_from inside (c ∷ s) =
    let more = read_from inside s in
    let slash = read_from behind_slash s in
    if c == b'"'
    then some ([], s)
    else if c == b'\\'
    then slash
    else if ltb c 32
    then none
    else read_on (c ∷ []) more
read_from behind_slash (c ∷ s) =
    let more = read_from inside s in
    let number = read_from (digits 4 0) s in
    if c == b'u' then number else elim (letter c) [ none ↦ none | some b ↦ read_on (b ∷ []) more ]
read_from (digits n v) (c ∷ s) = elim (hex_value c) [
  | none ↦ none
  | some d ↦
      let more = read_from inside s in
      let number = read_from (digits (n - 1) (v * 16 + d)) s in
      if n == 1 then read_on (utf8_of (v * 16 + d)) more else number
]

-- A string and what follows it.
unfoldable pub read_string : Bytes → Option (Bytes × Bytes)
unfolding read_from
read_string [] = none
read_string (c ∷ s) = if c == b'"' then read_from inside s else none

read_on-nil : (r : Option (Bytes × Bytes)) → read_on [] r ≡ r
read_on-nil none = refl
read_on-nil (some (text, rest)) = refl

read_on-append :
    (front back : Bytes) (r : Option (Bytes × Bytes))
    → read_on front (read_on back r) ≡ read_on (front ++ back) r
read_on-append front back none = refl
read_on-append front back (some (text, rest)) =
    ap (λ t. some (t, rest)) (sym (append_assoc front back text))

pub read_from-plain :
    (c : ℕ) (s : Bytes)
    → is_plain c ≡ true
    → read_from inside (c ∷ s) ≡ read_on (c ∷ []) (read_from inside s)
unfolding read_from
read_from-plain c s h = ground arith

-- A text of bytes that JSON takes as they are.
pub read_from-high :
    (front s : Bytes)
    → all (λ b. leb 128 b) front ≡ true
    → read_from inside (front ++ s) ≡ read_on front (read_from inside s)
read_from-high [] s h = sym (read_on-nil (read_from inside s))
read_from-high (c ∷ front) s h =
    read_from-plain c (front ++ s) (ground arith)
    ∙ (ap (read_on (c ∷ [])) (read_from-high front s (ground arith))
        ∙ read_on-append (c ∷ []) front (read_from inside s))

hex_value-hex_digit : (k : ℕ) → k < 16 → hex_value (hex_digit k) ≡ some k
hex_value-hex_digit k h = ground arith

-- The four digits behind a backslash and a u.
pub read_from-digits :
    (a b c d v : ℕ) (t : Bytes)
    → a < 16
    → b < 16
    → c < 16
    → d < 16
    → v ≡ ((a * 16 + b) * 16 + c) * 16 + d
    → read_from inside (b'\\' ∷ b'u' ∷ hex_digit a ∷ hex_digit b ∷ hex_digit c ∷ hex_digit d ∷ t)
      ≡ read_on (utf8_of v) (read_from inside t)
unfolding read_from
read_from-digits a b c d v t ha hb hc hd is =
    let value : (((0 + a) * 16 + b) * 16 + c) * 16 + d ≡ v = omega (arith, is) in
    rw
      (
        hex_value-hex_digit a ha,
        hex_value-hex_digit b hb,
        hex_value-hex_digit c hc,
        hex_value-hex_digit d hd,
      )
      (ap (λ x. read_on (utf8_of x) (read_from inside t)) value)
