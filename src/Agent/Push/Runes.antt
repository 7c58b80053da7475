-- ===== src/Agent/Push/Runes.antt =====
-- internal/agent/push.go: the bytes of a rune that `utf8.DecodeRune` finds.
use perch_apd.Base.{
  ℕ, ◌+◌, ◌-◌, ◌*◌, ◌≤◌, ◌<◌, true, ◌&&◌, some, [], ◌∷◌, ◌++◌, ◌≡◌, refl, arith, ◌==◌, nat_eq, ltb,
  leb, if◌then◌else◌, Bytes, length, take, drop, all, inl, inr, Bool-cases,
}
use perch_apd.Base.Text.{within}
use perch_apd.Agent.Push.{decode_rune, is_separator, is_tail, two, three, four}
use perch_apd.Agent.Push.Reader.{utf8_of}

-- The bytes of a rune that has more than one.
pub record IsRune (c : ℕ) (s : Bytes) (r size : ℕ) : Type 0 where
  pub front : Bytes
  pub back : Bytes
  pub splits : c ∷ s ≡ front ++ back
  pub taken : take size (c ∷ s) ≡ front
  pub dropped : drop size (c ∷ s) ≡ back
  pub high : all (λ b. leb 128 b) front ≡ true
  pub shorter : length back ≤ length s
  pub separates : is_separator r ≡ true → front ≡ utf8_of r

two-IsRune :
    (c : ℕ) (s : Bytes) (r size : ℕ)
    → 194 ≤ c
    → c < 224
    → two c s ≡ some (r, size)
    → IsRune c s r size
unfolding two
two-IsRune c [] r size lo hi e = absurd (ground arith)
two-IsRune c (d ∷ s) r size lo hi e = elim (Bool-cases (is_tail d)) [
  | inl h ↦
      let is : size ≡ 2 = ground arith in
      let small : r < 2048 = ground arith in
      record {
        front = c ∷ d ∷ [];
        back = s;
        splits = refl;
        taken = rw is refl;
        dropped = rw is refl;
        high = ground arith;
        shorter = omega arith;
        separates = λ sep. absurd (ground arith);
      }
  | inr h ↦ absurd (ground arith)
]

-- The only bytes of U+2028 and U+2029.
three-is_separator :
    (c d e r : ℕ)
    → 224 ≤ c
    → c < 240
    → is_tail d ≡ true
    → is_tail e ≡ true
    → r ≡ (c - 224) * 4096 + (d - 128) * 64 + (e - 128)
    → is_separator r ≡ true
    → c ∷ d ∷ e ∷ [] ≡ utf8_of r
three-is_separator c d e r lo hi hd he is sep =
    let c_is : c ≡ 226 = ground arith in
    let d_is : d ≡ 128 = ground arith in
    elim (Bool-cases (r == 8232)) [
      | inl first ↦
          let r_is : r ≡ 8232 = ground arith in
          let e_is : e ≡ 168 = ground arith in rw (c_is, d_is, e_is, r_is) refl
      | inr second ↦
          let r_is : r ≡ 8233 = ground arith in
          let e_is : e ≡ 169 = ground arith in rw (c_is, d_is, e_is, r_is) refl
    ]

three-IsRune :
    (c : ℕ) (s : Bytes) (r size : ℕ)
    → 224 ≤ c
    → c < 240
    → three c s ≡ some (r, size)
    → IsRune c s r size
unfolding three
three-IsRune c [] r size lo hi e = absurd (ground arith)
three-IsRune c (d ∷ []) r size lo hi e = absurd (ground arith)
three-IsRune c (d ∷ f ∷ s) r size lo hi e =
    elim (Bool-cases
      (within (if c == 224 then 160 else 128) (if c == 237 then 159 else 191) d && is_tail f)) [
        | inl h ↦
            let is : size ≡ 3 = ground arith in
            let value : r ≡ (c - 224) * 4096 + (d - 128) * 64 + (f - 128) = ground arith in
            let hd : is_tail d ≡ true = ground arith in
            let hf : is_tail f ≡ true = ground arith in
            record {
              front = c ∷ d ∷ f ∷ [];
              back = s;
              splits = refl;
              taken = rw is refl;
              dropped = rw is refl;
              high = ground arith;
              shorter = omega arith;
              separates = three-is_separator c d f r lo hi hd hf value;
            }
        | inr h ↦ absurd (ground arith)
      ]

four-IsRune :
    (c : ℕ) (s : Bytes) (r size : ℕ)
    → 240 ≤ c
    → c < 245
    → four c s ≡ some (r, size)
    → IsRune c s r size
unfolding four
four-IsRune c [] r size lo hi e = absurd (ground arith)
four-IsRune c (d ∷ []) r size lo hi e = absurd (ground arith)
four-IsRune c (d ∷ f ∷ []) r size lo hi e = absurd (ground arith)
four-IsRune c (d ∷ f ∷ g ∷ s) r size lo hi e =
    elim (Bool-cases (
      within (if c == 240 then 144 else 128) (if c == 244 then 143 else 191) d
      && (is_tail f && is_tail g))) [
        | inl h ↦
            let is : size ≡ 4 = ground arith in
            let value : r ≡ (c - 240) * 262144 + (d - 128) * 4096 + (f - 128) * 64 + (g - 128) =
              ground arith in
            let large : 8233 < r = ground arith in
            record {
              front = c ∷ d ∷ f ∷ g ∷ [];
              back = s;
              splits = refl;
              taken = rw is refl;
              dropped = rw is refl;
              high = ground arith;
              shorter = omega arith;
              separates = λ sep. absurd (ground arith);
            }
        | inr h ↦ absurd (ground arith)
      ]

pub decode_rune-IsRune :
    (c : ℕ) (s : Bytes) (r size : ℕ)
    → 128 ≤ c
    → decode_rune (c ∷ s) ≡ some (r, size)
    → IsRune c s r size
unfolding decode_rune
decode_rune-IsRune c s r size high e = elim (Bool-cases (ltb c 194)) [
  | inl h ↦ absurd (ground arith)
  | inr h1 ↦ elim (Bool-cases (ltb c 224)) [
    | inl h ↦ two-IsRune c s r size (ground arith) (ground arith) (ground arith)
    | inr h2 ↦ elim (Bool-cases (ltb c 240)) [
      | inl h ↦ three-IsRune c s r size (ground arith) (ground arith) (ground arith)
      | inr h3 ↦ elim (Bool-cases (ltb c 245)) [
        | inl h ↦ four-IsRune c s r size (ground arith) (ground arith) (ground arith)
        | inr h4 ↦ absurd (ground arith)
      ]
    ]
  ]
]
