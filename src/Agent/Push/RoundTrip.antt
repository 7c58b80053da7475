-- ===== src/Agent/Push/RoundTrip.antt =====
-- internal/agent/push.go: what a JSON reader makes of an escaped text.
use perch_apd.Base.{
  ℕ, zero, suc, ◌/◌, ◌%◌, ◌≤◌, ◌<◌, Bool, true, false, none, some, [], ◌∷◌, ◌++◌, ◌≡◌, refl, sym,
  ap, ◌∙◌, append_assoc, arith, ◌==◌, nat_eq, ltb, leb, ltb→lt, if◌then◌else◌, Bytes, length, take,
  drop, all, inl, inr, Bool-cases, Option-cases, if-cases, subst,
}
use perch_apd.Agent.Push.{
  decode_rune, piece, rune_piece, is_plain, escaped, replacement, is_separator, escaped_separator,
  escape_loop, append_json_string,
}
use perch_apd.Agent.Push.Reader.{
  inside, utf8_of, read_on, read_from, read_string, read_from-plain, read_from-high,
  read_from-digits,
}
use perch_apd.Agent.Push.Runes.{IsRune, decode_rune-IsRune}
use perch_apd.Agent.Push.Buffer.{escape_loop-cons, escape_loop-buffer}

-- A text with U+FFFD for each byte that no rune of UTF-8 begins with.
clean : ℕ → Bytes → Bytes
clean zero s = s
clean (suc n) [] = []
clean (suc n) (c ∷ s) =
    let bad = replacement ++ clean n s in
    elim (decode_rune (c ∷ s)) [
      | none ↦ bad
      | some (r, size) ↦ take size (c ∷ s) ++ clean n (drop size (c ∷ s))
    ]

-- The same for a whole text.
unfoldable pub valid_utf8 : Bytes → Bytes
unfolding clean
valid_utf8 s = clean (length s) s

-- What a round writes for the bytes that it takes, and what a reader makes of it.
record IsRead (c : ℕ) (s : Bytes) (p : Bool × Bytes × Bytes) : Type 0 where
  raw : Bytes
  cleaned : (n : ℕ) → clean (suc n) (c ∷ s) ≡ raw ++ clean n p.2
  reads : (t : Bytes) → read_from inside (p.1 ++ t) ≡ read_on raw (read_from inside t)
  shorter : length p.2 ≤ length s

escaped-reads :
    (c : ℕ) (t : Bytes)
    → c < 128
    → is_plain c ≡ false
    → read_from inside (escaped c ++ t) ≡ read_on (c ∷ []) (read_from inside t)
unfolding escaped read_from
escaped-reads c t lo h = elim (Bool-cases (c == b'"')) [
  | inl e ↦ let is : c ≡ 34 = ground arith in rw is refl
  | inr n1 ↦ elim (Bool-cases (c == b'\\')) [
    | inl e ↦ let is : c ≡ 92 = ground arith in rw is refl
    | inr n2 ↦ elim (Bool-cases (c == b'\n')) [
      | inl e ↦ let is : c ≡ 10 = ground arith in rw is refl
      | inr n3 ↦ elim (Bool-cases (c == b'\r')) [
        | inl e ↦ let is : c ≡ 13 = ground arith in rw is refl
        | inr n4 ↦ elim (Bool-cases (c == b'\t')) [
          | inl e ↦ let is : c ≡ 9 = ground arith in rw is refl
          | inr n5 ↦
              let same : utf8_of c ≡ c ∷ [] = ground arith in
              rw (n1, n2, n3, n4, n5)
                (read_from-digits 0 0 (c / 16) (c % 16) c t (omega arith) (omega arith)
                    (omega arith) (omega arith) (omega arith)
                  ∙ ap (λ x. read_on x (read_from inside t)) same)
        ]
      ]
    ]
  ]
]

escaped_separator-reads :
    (r : ℕ) (t : Bytes)
    → is_separator r ≡ true
    → read_from inside (escaped_separator r ++ t) ≡ read_on (utf8_of r) (read_from inside t)
escaped_separator-reads r t h =
    read_from-digits 2 0 2 (r % 16) r t (omega arith) (omega arith) (omega arith) (omega arith)
      (ground arith)

replacement-reads :
    (t : Bytes) → read_from inside (replacement ++ t) ≡ read_on replacement (read_from inside t)
replacement-reads t = read_from-high replacement t refl

clean-decode_rune :
    (n c : ℕ) (s : Bytes) (r size : ℕ)
    → decode_rune (c ∷ s) ≡ some (r, size)
    → clean (suc n) (c ∷ s) ≡ take size (c ∷ s) ++ clean n (drop size (c ∷ s))
unfolding clean
clean-decode_rune n c s r size e = rw (clean, e) refl

clean-bad :
    (n c : ℕ) (s : Bytes)
    → decode_rune (c ∷ s) ≡ none
    → clean (suc n) (c ∷ s) ≡ replacement ++ clean n s
unfolding clean
clean-bad n c s e = rw (clean, e) refl

rune_piece-IsRead :
    (c : ℕ) (s : Bytes) (r size : ℕ)
    → decode_rune (c ∷ s) ≡ some (r, size)
    → IsRune c s r size
    → IsRead c s (rune_piece (some (r, size)) (c ∷ s))
unfolding rune_piece
rune_piece-IsRead c s r size e k =
    if-cases (IsRead c s) (false, escaped_separator r, drop size (c ∷ s))
      (true, take size (c ∷ s), drop size (c ∷ s)) (is_separator r)
      (λ sep. record {
        raw = utf8_of r;
        cleaned = λ n.
            clean-decode_rune n c s r size e
            ∙ ap (λ x. x ++ clean n (drop size (c ∷ s))) (k.taken ∙ k.separates sep);
        reads = λ t. escaped_separator-reads r t sep;
        shorter = subst (λ x. length x ≤ length s) (sym k.dropped) k.shorter;
      })
      (λ other. record {
        raw = take size (c ∷ s);
        cleaned = λ n. clean-decode_rune n c s r size e;
        reads = λ t.
            read_from-high (take size (c ∷ s)) t
              (subst (λ x. all (λ b. leb 128 b) x ≡ true) (sym k.taken) k.high);
        shorter = subst (λ x. length x ≤ length s) (sym k.dropped) k.shorter;
      })

decode_rune-ascii : (c : ℕ) (s : Bytes) → c < 128 → decode_rune (c ∷ s) ≡ some (c, 1)
unfolding decode_rune
decode_rune-ascii c s h = ground arith

ascii-IsRead :
    (c : ℕ) (s : Bytes)
    → c < 128
    → IsRead c s (if is_plain c then (true, c ∷ [], s) else (false, escaped c, s))
ascii-IsRead c s lo =
    if-cases (IsRead c s) (true, c ∷ [], s) (false, escaped c, s) (is_plain c)
      (λ plain. record {
        raw = c ∷ [];
        cleaned = λ n. clean-decode_rune n c s c 1 (decode_rune-ascii c s lo);
        reads = λ t. read_from-plain c t plain;
        shorter = omega arith;
      })
      (λ other. record {
        raw = c ∷ [];
        cleaned = λ n. clean-decode_rune n c s c 1 (decode_rune-ascii c s lo);
        reads = λ t. escaped-reads c t lo other;
        shorter = omega arith;
      })

bad-IsRead : (c : ℕ) (s : Bytes) → decode_rune (c ∷ s) ≡ none → IsRead c s (rune_piece none (c ∷ s))
unfolding rune_piece
bad-IsRead c s e = record {
  raw = replacement;
  cleaned = λ n. clean-bad n c s e;
  reads = λ t. replacement-reads t;
  shorter = omega arith;
}

piece-IsRead : (c : ℕ) (s : Bytes) → IsRead c s (piece c s)
unfolding piece
piece-IsRead c s =
    if-cases (IsRead c s) (if is_plain c then (true, c ∷ [], s) else (false, escaped c, s))
      (rune_piece (decode_rune (c ∷ s)) (c ∷ s)) (ltb c 128)
      (λ ascii. ascii-IsRead c s (ltb→lt c 128 ascii))
      (λ high. elim (Option-cases (decode_rune (c ∷ s))) [
        | inl e ↦ subst (λ o. IsRead c s (rune_piece o (c ∷ s))) (sym e) (bad-IsRead c s e)
        | inr ((r, size), e) ↦
            subst (λ o. IsRead c s (rune_piece o (c ∷ s))) (sym e)
              (rune_piece-IsRead c s r size e (decode_rune-IsRune c s r size (ground arith) e))
      ])

-- What the loop writes is read as the text without its bad bytes.
escape_loop-read :
    (n : ℕ) (s rest : Bytes)
    → length s ≤ n
    → read_from inside (escape_loop n [] [] s ++ b'"' ∷ rest) ≡ some (clean n s, rest)
unfolding escape_loop read_from clean
escape_loop-read zero [] rest h = refl
escape_loop-read zero (c ∷ s) rest h = absurd (omega (arith, h))
escape_loop-read (suc n) [] rest h = refl
escape_loop-read (suc n) (c ∷ s) rest h =
    let k = piece-IsRead c s in
    let p = piece c s in
    let more = escape_loop n [] [] p.2 in
    ap (λ t. read_from inside (t ++ b'"' ∷ rest)) (escape_loop-cons n c s (escape_loop-buffer n))
    ∙ (ap (read_from inside) (append_assoc p.1 more (b'"' ∷ rest))
        ∙ (k.reads (more ++ b'"' ∷ rest)
            ∙ (ap (read_on k.raw) (escape_loop-read n p.2 rest (omega (arith, k.shorter)))
                ∙ ap (λ t. some (t, rest)) (sym (k.cleaned n)))))

-- The string that `appendJSONString` writes behind a buffer comes back from a JSON reader, whatever
-- follows it: it is the text in which U+FFFD stands for each byte that no rune of UTF-8 begins with. In
-- particular, the loop reads the whole text.
pub read_string-append_json_string :
    (dst s rest : Bytes)
    → (out : Bytes) × (append_json_string dst s ≡ dst ++ out)
      × (read_string (out ++ rest) ≡ some (valid_utf8 s, rest))
unfolding append_json_string read_string valid_utf8
read_string-append_json_string dst s rest =
    let body = escape_loop (length s) [] [] s in
    (
      b'"' ∷ (body ++ b'"' ∷ []),
      ap (λ t. t ++ b'"' ∷ []) (escape_loop-buffer (length s) (dst ++ b'"' ∷ []) [] s)
          ∙ (append_assoc (dst ++ b'"' ∷ []) body (b'"' ∷ [])
              ∙ append_assoc dst (b'"' ∷ []) (body ++ b'"' ∷ [])),
      ap (read_from inside) (append_assoc body (b'"' ∷ []) rest)
          ∙ escape_loop-read (length s) s rest (omega arith),
    )
