-- ===== src/Base/Sort/Canonical.antt =====
-- Two lists with the same strings, each as often, are sorted to one list, and the other way round.
use Prim.Native.Nat.{ℕ, suc, ◌+◌}
use mathlib.Core.Path.{◌≡◌, refl, sym, ap, ◌∙◌}
use mathlib.Core.Logic.{◌↔◌, inl, inr}
use mathlib.Core.Bool.{true, ◌||◌}
use mathlib.Core.List.{List, [], ◌∷◌, ◌++◌}
use native.Mathlib.Omega.{arith}
use perch_apd.Base.Tests.{if◌then◌else◌, Bool-cases}
use perch_apd.Base.Equality.{Bytes, ◌==◌, bytes_eq, beq_self}
use perch_apd.Base.Sort.{insert, sort, bytes_leb}

-- How often a string is in a list.
abbrev pub count : Bytes → List Bytes → ℕ
count a [] = 0
count a (x ∷ xs) = (if x == a then 1 else 0) + count a xs

abbrev pub SameItems : List Bytes → List Bytes → Type 0
SameItems xs ys = (a : Bytes) → count a xs ≡ count a ys

bytes_leb_total : (a b : Bytes) → (bytes_leb a b || bytes_leb b a) ≡ true
unfolding bytes_leb
bytes_leb_total [] b = refl
bytes_leb_total (x ∷ a) [] = refl
bytes_leb_total (x ∷ a) (y ∷ b) = ground (arith, bytes_leb_total a b)

bytes_leb_antisym : (a b : Bytes) → bytes_leb a b ≡ true → bytes_leb b a ≡ true → a ≡ b
unfolding bytes_leb
bytes_leb_antisym [] [] h k = refl
bytes_leb_antisym [] (y ∷ b) h k = cc
bytes_leb_antisym (x ∷ a) [] h k = cc
bytes_leb_antisym (x ∷ a) (y ∷ b) h k = ground (arith, bytes_leb_antisym a b)

bytes_leb_trans :
    (a b c : Bytes) → bytes_leb a b ≡ true → bytes_leb b c ≡ true → bytes_leb a c ≡ true
unfolding bytes_leb
bytes_leb_trans [] b c h k = refl
bytes_leb_trans (x ∷ a) [] c h k = cc
bytes_leb_trans (x ∷ a) (y ∷ b) [] h k = cc
bytes_leb_trans (x ∷ a) (y ∷ b) (z ∷ c) h k = ground (arith, bytes_leb_trans a b c)

abbrev put : Bytes → List Bytes → List Bytes
put = insert bytes_leb

insert_comm : (a b : Bytes) (xs : List Bytes) → put a (put b xs) ≡ put b (put a xs)
unfolding insert
insert_comm a b [] = ground (arith, bytes_leb_total a b, bytes_leb_antisym a b)
insert_comm a b (x ∷ xs) = ground (
  arith,
  insert_comm a b xs,
  bytes_leb_total a b,
  bytes_leb_total a x,
  bytes_leb_total b x,
  bytes_leb_antisym a b,
  bytes_leb_trans a b x,
  bytes_leb_trans b a x,
)

abbrev sorted : List Bytes → List Bytes
sorted = sort bytes_leb

-- A string in the middle may be sorted in last.
sort-middle :
    (x : Bytes) (front back : List Bytes)
    → sorted (front ++ x ∷ back) ≡ put x (sorted (front ++ back))
unfolding sort
sort-middle x [] back = refl
sort-middle x (y ∷ front) back =
    ap (put y) (sort-middle x front back) ∙ insert_comm y x (sorted (front ++ back))

count-insert : (a x : Bytes) (xs : List Bytes) → count a (put x xs) ≡ count a (x ∷ xs)
unfolding insert
count-insert a x [] = refl
count-insert a x (y ∷ xs) = ground (arith, count-insert a x xs)

count-sort : (a : Bytes) (xs : List Bytes) → count a (sorted xs) ≡ count a xs
unfolding sort
count-sort a [] = refl
count-sort a (x ∷ xs) = count-insert a x (sorted xs) ∙ ground (arith, count-sort a xs)

count-middle :
    (a x : Bytes) (front back : List Bytes)
    → count a (front ++ x ∷ back) ≡ count a (x ∷ (front ++ back))
count-middle a x [] back = refl
count-middle a x (y ∷ front) back = ground (arith, count-middle a x front back)

-- A string that is counted stands somewhere.
find_middle :
    (x : Bytes) (ys : List Bytes) (n : ℕ)
    → count x ys ≡ suc n
    → (front : List Bytes) × (back : List Bytes) × (ys ≡ front ++ x ∷ back)
find_middle x [] n h = absurd (omega (arith, h))
find_middle x (y ∷ ys) n h = elim (Bool-cases (y == x)) [
  | inl same ↦ ([], ys, ap (λ z. z ∷ ys) ((bytes_eq.beq_iff y x).0 same))
  | inr apart ↦
      let (front, back, e) = find_middle x ys n (ground arith) in
      (y ∷ front, back, ap (λ zs. y ∷ zs) e)
]

empty_of_counts : (ys : List Bytes) → SameItems [] ys → ys ≡ []
empty_of_counts [] h = refl
empty_of_counts (y ∷ ys) h = absurd (ground (arith, h y, beq_self y))

sort-SameItems_eq : (xs ys : List Bytes) → SameItems xs ys → sorted xs ≡ sorted ys
unfolding sort
sort-SameItems_eq [] ys h = ap sorted (sym (empty_of_counts ys h))
sort-SameItems_eq (x ∷ xs) ys h =
    let (front, back, e) = find_middle x ys (count x xs) (ground (arith, h x, beq_self x)) in
    let rest : SameItems xs (front ++ back) =
      λ a. ground (arith, h a, ap (count a) e, count-middle a x front back) in
    ap (put x) (sort-SameItems_eq xs (front ++ back) rest)
    ∙ (sym (sort-middle x front back) ∙ ap sorted (sym e))

pub sort-SameItems :
    (xs ys : List Bytes) → (sort bytes_leb xs ≡ sort bytes_leb ys) ↔ SameItems xs ys
sort-SameItems xs ys =
    (λ e a. sym (count-sort a xs) ∙ (ap (count a) e ∙ count-sort a ys), sort-SameItems_eq xs ys)
