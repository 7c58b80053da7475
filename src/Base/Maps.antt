-- ===== src/Base/Maps.antt =====
-- Go's maps from strings, as association lists without two entries of one key, and sets of strings.
use mathlib.Core.Path.{◌≡◌, refl, ap}
use mathlib.Core.Logic.{inl, inr}
use mathlib.Core.Bool.{Bool, true, ◌||◌}
use mathlib.Core.Option.{Option, none, some}
use mathlib.Core.List.{List, [], ◌∷◌}
use native.Mathlib.Omega.{arith}
use perch_apd.Base.Tests.{if◌then◌else◌, Bool-cases}
use perch_apd.Base.Equality.{Bytes, ◌==◌, bytes_eq, beq_self}
use perch_apd.Base.Lists.{any, all}
use perch_apd.Base.Sort.{insert, sort}

module _ {ℓ} {A : Type ℓ} where
  -- `m[k]`, `none` for a missing key.
  abbrev pub at_key : Bytes → List (Bytes × A) → Option A
  at_key k [] = none
  at_key k ((n, a) ∷ m) = let rest = at_key k m in if n == k then some a else rest

  -- `m[k] = a`.
  abbrev pub put_key : Bytes → A → List (Bytes × A) → List (Bytes × A)
  put_key k a [] = (k, a) ∷ []
  put_key k a ((n, b) ∷ m) =
      let rest = put_key k a m in if n == k then (n, a) ∷ m else (n, b) ∷ rest

  abbrev pub keys_of : List (Bytes × A) → List Bytes
  keys_of [] = []
  keys_of ((n, a) ∷ m) = n ∷ keys_of m

abbrev pub is_in_set : Bytes → List Bytes → Bool
is_in_set k s = any (λ n. n == k) s

abbrev pub put_in_set : Bytes → List Bytes → List Bytes
put_in_set k s = if is_in_set k s then s else k ∷ s

-- The set of the elements.
abbrev pub set_of : List Bytes → List Bytes
set_of [] = []
set_of (k ∷ ks) = put_in_set k (set_of ks)

pub put_in_set-is_in_set :
    (k j : Bytes) (s : List Bytes) → is_in_set k (put_in_set j s) ≡ (j == k || is_in_set k s)
put_in_set-is_in_set k j s = elim (Bool-cases (j == k)) [
  | inr apart ↦ ground arith
  | inl same ↦
      let eq : j ≡ k = (bytes_eq.beq_iff j k).0 same in ground (arith, ap (λ i. is_in_set i s) eq)
]

pub set_of-is_in_set : (k : Bytes) (s : List Bytes) → is_in_set k (set_of s) ≡ is_in_set k s
set_of-is_in_set k [] = refl
set_of-is_in_set k (j ∷ s) =
    ground (arith, put_in_set-is_in_set k j (set_of s), set_of-is_in_set k s)

pub insert-is_in_set :
    (leb : Bytes → Bytes → Bool) (k j : Bytes) (s : List Bytes)
    → is_in_set k (insert leb j s) ≡ (j == k || is_in_set k s)
unfolding insert
insert-is_in_set leb k j [] = refl
insert-is_in_set leb k j (i ∷ s) = ground (arith, insert-is_in_set leb k j s)

pub sort-is_in_set :
    (leb : Bytes → Bytes → Bool) (k : Bytes) (s : List Bytes)
    → is_in_set k (sort leb s) ≡ is_in_set k s
unfolding sort
sort-is_in_set leb k [] = refl
sort-is_in_set leb k (j ∷ s) =
    ground (arith, insert-is_in_set leb k j (sort leb s), sort-is_in_set leb k s)

-- A test of every element.
pub all-is_in_set :
    (p : Bytes → Bool) (s : List Bytes)
    → all p s ≡ true
    → (k : Bytes) → is_in_set k s ≡ true
    → p k ≡ true
all-is_in_set p [] h k i = ground arith
all-is_in_set p (j ∷ s) h k i = elim (Bool-cases (j == k)) [
  | inl same ↦ ground (arith, ap p ((bytes_eq.beq_iff j k).0 same))
  | inr apart ↦ all-is_in_set p s (ground arith) k (ground arith)
]

pub is_in_set-all :
    (p : Bytes → Bool) (s : List Bytes)
    → ((k : Bytes) → is_in_set k s ≡ true → p k ≡ true)
    → all p s ≡ true
is_in_set-all p [] h = refl
is_in_set-all p (j ∷ s) h =
    let first : p j ≡ true = h j (ground (arith, beq_self j)) in
    let rest : all p s ≡ true = is_in_set-all p s (λ k i. h k (ground arith)) in ground arith
