-- ===== src/Groups/Kit.antt =====
-- The UCI package that internal/groups calls (perch-agentkit/openwrt/uci), as parameters: its code is
-- not part of this repository. A configuration is its list of sections.
use perch_apd.Base.{
  Bool, false, Option, none, some, List, [], ◌∷◌, ◌≡◌, ◌==◌, bytes_eq, if◌then◌else◌, Bytes, keep,
  any,
}
use perch_apd.Base.Text.{fields}

pub record Kit : Type 1 where
  pub Section : Type 0
  pub Value : Type 0
  -- `uci.String`, `uci.List`, `Value.Str`, `Value.IsList` and `Value.Items`.
  pub string : Bytes → Value
  pub list : List Bytes → Value
  pub str_of : Value → Bytes
  pub is_list : Value → Bool
  pub items : Value → List Bytes
  -- The literal `uci.Section{Name, Type, Options}`.
  pub section : Bytes → Bytes → List (Bytes × Value) → Section
  -- The fields `Name` and `Anonymous`.
  pub name : Section → Bytes
  pub anonymous : Section → Bool
  -- Whether `OfType` of this type returns the section, and `Section` of this name finds it.
  pub has_type : Section → Bytes → Bool
  pub has_name : Section → Bytes → Bool
  -- `Section.Get`, `Section.Set` and `Section.Delete`.
  pub get : Section → Bytes → Option Value
  pub set : Section → Bytes → Value → Section
  pub delete : Section → Bytes → Section
  -- `Config.Reindex`.
  pub reindex : List Section → List Section

-- What the package documents of them. Options are set one by one, a section keeps its name and its
-- type, and a section is found by its name.
pub record Laws (k : Kit) : Type 0 where
  pub str_string : (b : Bytes) → k.str_of (k.string b) ≡ b
  pub get_set :
      (s : k.Section) (n m : Bytes) (v : k.Value)
      → k.get (k.set s n v) m ≡ (if m == n then some v else k.get s m)
  pub get_delete :
      (s : k.Section) (n m : Bytes) → k.get (k.delete s n) m ≡ (if m == n then none else k.get s m)
  pub name_set : (s : k.Section) (n : Bytes) (v : k.Value) → k.name (k.set s n v) ≡ k.name s
  pub name_delete : (s : k.Section) (n : Bytes) → k.name (k.delete s n) ≡ k.name s
  pub anonymous_set :
      (s : k.Section) (n : Bytes) (v : k.Value) → k.anonymous (k.set s n v) ≡ k.anonymous s
  pub anonymous_delete : (s : k.Section) (n : Bytes) → k.anonymous (k.delete s n) ≡ k.anonymous s
  pub has_name_iff : (s : k.Section) (n : Bytes) → k.has_name s n ≡ (k.name s == n)
  pub name_section : (n t : Bytes) (o : List (Bytes × k.Value)) → k.name (k.section n t o) ≡ n
  pub anonymous_section :
      (n t : Bytes) (o : List (Bytes × k.Value)) → k.anonymous (k.section n t o) ≡ false

-- Of these, what is documented of a section's name.
pub record NameLaws (k : Kit) : Type 0 where
  pub name_set : (s : k.Section) (n : Bytes) (v : k.Value) → k.name (k.set s n v) ≡ k.name s
  pub name_section : (n t : Bytes) (o : List (Bytes × k.Value)) → k.name (k.section n t o) ≡ n

-- A Go map from strings: an association list without two entries of one key.
abbrev pub put : Bytes → Bytes → List (Bytes × Bytes) → List (Bytes × Bytes)
put a b [] = (a, b) ∷ []
put a b ((c, d) ∷ m) = let rest = put a b m in if c == a then (a, b) ∷ m else (c, d) ∷ rest

abbrev pub is_member : Bytes → List Bytes → Bool
is_member a names = any (λ n. n == a) names

module _ (k : Kit) where
  open k use {Section, str_of, is_list, items, has_type, has_name, get}

  -- `str`.
  unfoldable pub str : Section → Bytes → Bytes
  str s n = elim (get s n) [ none ↦ [] | some v ↦ str_of v ]

  -- `listOf`.
  unfoldable pub list_of : Section → Bytes → List Bytes
  unfolding fields
  list_of s n = elim (get s n) [
    | none ↦ []
    | some v ↦ if is_list v then items v else fields (str_of v)
  ]

  -- `Config.OfType`.
  abbrev pub of_type : Bytes → List Section → List Section
  of_type t = keep (λ s. has_type s t)

  -- `Config.Section`: the first section of the name.
  unfoldable pub find : Bytes → List Section → Option Section
  find n [] = none
  find n (s ∷ ss) = let rest = find n ss in if has_name s n then some s else rest

  -- A change, through its pointer, of the section that `Config.Section` finds.
  unfoldable pub update : Bytes → (Section → Section) → List Section → List Section
  update n f [] = []
  update n f (s ∷ ss) = let rest = update n f ss in if has_name s n then f s ∷ ss else s ∷ rest
