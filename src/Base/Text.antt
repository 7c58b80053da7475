-- ===== src/Base/Text.antt =====
-- The functions of Go's `strings` and `strconv` packages that the program calls, over byte lists.
use Prim.Native.Nat.{ℕ, zero, suc, ◌+◌, ◌/◌, ◌%◌, ◌<◌}
use mathlib.Core.Path.{◌≡◌, refl}
use mathlib.Core.Logic.{◌≢◌, inl, inr}
use mathlib.Core.Bool.{Bool, true, false, not, ◌&&◌, ◌||◌}
use mathlib.Core.Option.{Option, none, some}
use mathlib.Core.List.{List, [], ◌∷◌, ◌++◌}
use native.Mathlib.Omega.{arith}
use perch_apd.Base.Tests.{leb, if◌then◌else◌, Bool-cases}
use perch_apd.Base.Lists.{all}
use perch_apd.Base.Equality.{Bytes, bytes_beq, ◌==◌, nat_eq, bytes_eq}

abbrev pub within : ℕ → ℕ → ℕ → Bool
within lo hi c = leb lo c && leb c hi

abbrev pub is_digit : ℕ → Bool
is_digit = within b'0' b'9'

-- `strings.HasPrefix`.
unfoldable pub has_prefix : Bytes → Bytes → Bool
has_prefix s [] = true
has_prefix [] (p ∷ ps) = false
has_prefix (c ∷ s) (p ∷ ps) = c == p && has_prefix s ps

-- `strings.HasSuffix`.
unfoldable pub has_suffix : Bytes → Bytes → Bool
unfolding bytes_beq
has_suffix [] suffix = suffix == []
has_suffix (c ∷ s) suffix = suffix == c ∷ s || has_suffix s suffix

-- `strings.Contains` and `bytes.Contains`.
unfoldable pub contains : Bytes → Bytes → Bool
unfolding has_prefix
contains [] part = has_prefix [] part
contains (c ∷ s) part = has_prefix (c ∷ s) part || contains s part

-- `strings.CutPrefix`: the rest behind the prefix.
unfoldable pub cut_prefix : Bytes → Bytes → Option Bytes
cut_prefix s [] = some s
cut_prefix [] (p ∷ ps) = none
cut_prefix (c ∷ s) (p ∷ ps) = let rest = cut_prefix s ps in if c == p then rest else none

-- `strings.Cut` at one byte: the parts before and after its first occurrence.
unfoldable pub cut : ℕ → Bytes → Option (Bytes × Bytes)
cut b [] = none
cut b (c ∷ s) =
    let rest = cut b s in
    if c == b
    then some ([], s)
    else elim rest [ none ↦ none | some (before, after) ↦ some (c ∷ before, after) ]

-- `strings.Split` at one byte.
unfoldable pub split : ℕ → Bytes → List Bytes
split b [] = [] ∷ []
split b (c ∷ s) =
    let rest = split b s in
    if c == b then [] ∷ rest else elim rest [ [] ↦ (c ∷ []) ∷ [] | l ∷ ls ↦ (c ∷ l) ∷ ls ]

-- `strings.TrimLeft` and `strings.TrimRight` of the bytes that pass.
unfoldable pub trim_left : (ℕ → Bool) → Bytes → Bytes
trim_left p [] = []
trim_left p (c ∷ s) = let rest = trim_left p s in if p c then rest else c ∷ s

unfoldable pub trim_right : (ℕ → Bool) → Bytes → Bytes
trim_right p [] = []
trim_right p (c ∷ s) =
    let rest = trim_right p s in elim rest [ [] ↦ if p c then [] else c ∷ [] | d ∷ r ↦ c ∷ d ∷ r ]

unfoldable pub trim : (ℕ → Bool) → Bytes → Bytes
unfolding trim_left trim_right
trim p s = trim_right p (trim_left p s)

-- The ASCII white space of `strings.TrimSpace` and `strings.Fields`.
abbrev pub is_space : ℕ → Bool
is_space c = c == b' ' || within 9 13 c

unfoldable pub trim_space : Bytes → Bytes
unfolding trim
trim_space = trim is_space

-- `strings.ToLower` on ASCII.
abbrev pub lower : ℕ → ℕ
lower c = if within b'A' b'Z' c then c + 32 else c

unfoldable pub to_lower : Bytes → Bytes
to_lower [] = []
to_lower (c ∷ s) = lower c ∷ to_lower s

abbrev push_word : Bytes → List Bytes → List Bytes
push_word [] ws = ws
push_word (c ∷ s) ws = (c ∷ s) ∷ ws

-- The words between white space, with the word being read.
fields_from : Bytes → Bytes → List Bytes
fields_from word [] = push_word word []
fields_from word (c ∷ s) =
    let next = push_word word (fields_from [] s) in
    let more = fields_from (word ++ c ∷ []) s in if is_space c then next else more

-- `strings.Fields`.
unfoldable pub fields : Bytes → List Bytes
unfolding fields_from
fields = fields_from []

-- `strconv.Itoa` of a number that is not negative. A number has at most as many digits as its
-- value, plus one.
digits_from : ℕ → ℕ → Bytes → Bytes
digits_from zero n acc = acc
digits_from (suc f) n acc =
    let d = b'0' + n % 10 in
    let rest = digits_from f (n / 10) (d ∷ acc) in if n / 10 == 0 then d ∷ acc else rest

unfoldable pub itoa : ℕ → Bytes
unfolding digits_from
itoa n = digits_from (suc n) n []

-- `cut` at the first occurrence.
pub cut-append :
    (b : ℕ) (before after : Bytes)
    → all (λ c. not (c == b)) before ≡ true
    → cut b (before ++ b ∷ after) ≡ some (before, after)
unfolding cut
cut-append b [] after h = ground (arith, nat_eq.beq_iff b b)
cut-append b (c ∷ s) after h = ground (arith, cut-append b s after)

digits_from-digits :
    (f n : ℕ) (acc : Bytes)
    → n < f
    → all is_digit acc ≡ true
    → (all is_digit (digits_from f n acc) ≡ true) × (digits_from f n acc ≢ [])
unfolding digits_from
digits_from-digits zero n acc h a = elim h [ ]
digits_from-digits (suc f) n acc h a =
    let d : is_digit (b'0' + n % 10) ≡ true = ground arith in
    elim (Bool-cases (n / 10 == 0)) [
      | inl done ↦ (rw done (ground arith), rw done (λ e. cc))
      | inr more ↦ rw more (digits_from-digits f (n / 10) _ (ground arith) (ground arith))
    ]

-- A number is written in digits, at least one.
pub itoa-digits : (n : ℕ) → (all is_digit (itoa n) ≡ true) × (itoa n ≢ [])
unfolding itoa
itoa-digits n = digits_from-digits (suc n) n [] (omega arith) refl

has_prefix-append : (s part : Bytes) → has_prefix (part ++ s) part ≡ true
unfolding has_prefix
has_prefix-append [] [] = refl
has_prefix-append (c ∷ s) [] = refl
has_prefix-append s (p ∷ part) = ground (arith, has_prefix-append s part)

contains-prefix : (s part : Bytes) → has_prefix s part ≡ true → contains s part ≡ true
unfolding contains
contains-prefix [] part h = h
contains-prefix (c ∷ s) part h = ground arith

-- A part is found wherever it stands.
pub contains-append : (before part after : Bytes) → contains (before ++ (part ++ after)) part ≡ true
unfolding contains
contains-append [] part after = contains-prefix (part ++ after) part (has_prefix-append after part)
contains-append (c ∷ before) part after = ground (arith, contains-append before part after)

pub contains-cons : (c : ℕ) (s part : Bytes) → contains s part ≡ true → contains (c ∷ s) part ≡ true
unfolding contains
contains-cons c s part h = ground arith
