-- ===== src/Base/Sort.antt =====
-- Go's `sort.Strings` and `sort.Ints`: insertion sort by a test of order.
pub mod Canonical
use mathlib.Core.Bool.{Bool, true, false}
use mathlib.Core.List.{List, [], ◌∷◌}
use perch_apd.Base.Tests.{ltb, nat_beq, if◌then◌else◌}
use perch_apd.Base.Equality.{Bytes}

-- The order of strings: by bytes, a prefix first.
unfoldable pub bytes_leb : Bytes → Bytes → Bool
bytes_leb [] ys = true
bytes_leb (x ∷ xs) [] = false
bytes_leb (x ∷ xs) (y ∷ ys) = if nat_beq x y then bytes_leb xs ys else ltb x y

module _ {ℓ} {A : Type ℓ} (leq : A → A → Bool) where
  unfoldable pub insert : A → List A → List A
  insert a [] = a ∷ []
  insert a (x ∷ xs) = let rest = insert a xs in if leq a x then a ∷ x ∷ xs else x ∷ rest

  unfoldable pub sort : List A → List A
  unfolding insert
  sort [] = []
  sort (x ∷ xs) = insert x (sort xs)
