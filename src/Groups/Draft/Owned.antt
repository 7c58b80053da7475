-- ===== src/Groups/Draft/Owned.antt =====
-- internal/groups/plan.go: the planner creates sections under names of its own only, and adds as many sections.
use perch_apd.Base.{
  ℕ, true, Option, List, [], ◌∷◌, ◌++◌, ◌≡◌, Bytes, codes, map, length, ltb, ◌==◌, nat_eq, All,
  All-append, append_assoc, ap, refl, ◌∙◌, option-both, if-both,
}
use perch_apd.Groups.Names.{owned_name, untagged_name}
use perch_apd.Groups.Names.Owned.{owned_name-numbered}
use perch_apd.Groups.Kit.{Kit, NameLaws, find, str, list_of}
use perch_apd.Groups.Ledger.{Conversion, vlan_of}
use perch_apd.Groups.Draft.{
  Draft, Planner, moves, move_devices, Outcome, ok, refused, add, convert, convert_with,
  untagged_options, untagged_for,
}

abbrev pub AllOwned : List Bytes → Type 0
AllOwned = All (λ n. owned_name n ≡ true)

-- What holds of the value of an outcome.
abbrev pub OnOk {ℓ κ} : {A : Type ℓ} → (A → Type κ) → Outcome A → Type κ
OnOk P (ok a) = P a
OnOk P (refused r) = Unit

map-append {ℓ κ} :
    {A : Type ℓ} {B : Type κ} (f : A → B) (xs ys : List A) → map f (xs ++ ys) ≡ map f xs ++ map f ys
map-append f [] ys = refl
map-append f (x ∷ xs) ys = ap (λ l. f x ∷ l) (map-append f xs ys)

-- The names of the sections.
abbrev pub names : (k : Kit) → List k.Section → List Bytes
names k = map k.name

-- From a configuration with the names `base` and a planner that had created the names `before`: what the
-- planner has created since are the sections that the configuration has got, in this order, and all that
-- it created are the engine's.
pub record IsOwnedDraft (k : Kit) (base before : List Bytes) (d : Draft k) : Type 0 where
  pub owned : AllOwned d.0.created
  pub added : List Bytes
  pub created : d.0.created ≡ before ++ added
  pub named : names k d.1 ≡ base ++ added

module _ (k : Kit) (laws : NameLaws k) (base before : List Bytes) where
  pub add-IsOwnedDraft :
      (typ n : Bytes) (opts : List (Bytes × k.Value)) (d : Draft k)
      → owned_name n ≡ true
      → IsOwnedDraft k base before d
      → IsOwnedDraft k base before (add k typ n opts d)
  unfolding add
  add-IsOwnedDraft typ n opts (p, c) own h =
      option-both (IsOwnedDraft k base before)
        (record p { created = p.created ++ n ∷ [] }, c ++ k.section n typ opts ∷ [])
        (λ s. (record p { taken = true }, c)) (find k n c)
        (record {
          owned = All-append (λ m. owned_name m ≡ true) p.created (n ∷ []) (h.owned, (own, tt));
          added = h.added ++ n ∷ [];
          created = ap (λ l. l ++ n ∷ []) h.created ∙ append_assoc before h.added (n ∷ []);
          named =
              map-append k.name c (k.section n typ opts ∷ [])
              ∙ ap (λ m. names k c ++ m ∷ []) (laws.name_section n typ opts)
              ∙ ap (λ l. l ++ n ∷ []) h.named
              ∙ append_assoc base h.added (n ∷ []);
        })
        (λ s. record { owned = h.owned; added = h.added; created = h.created; named = h.named })

  move_devices-names :
      (p : Planner) (bridge : Bytes) (untagged : ℕ) (ss : List k.Section)
      → names k (move_devices k p bridge untagged ss) ≡ names k ss
  unfolding move_devices
  move_devices-names p bridge untagged [] = refl
  move_devices-names p bridge untagged (s ∷ ss) =
      let rest = move_devices-names p bridge untagged ss in
      if-both (λ l. names k l ≡ names k (s ∷ ss)) _ (s ∷ move_devices k p bridge untagged ss)
        (moves k p bridge s)
        (ap (λ l. k.name (moved s) ∷ l) rest
          ∙ ap (λ m. m ∷ names k ss)
              (laws.name_set s (codes "device") (k.string (vlan_of bridge untagged))))
        (ap (λ l. k.name s ∷ l) rest)
    where
      moved : k.Section → k.Section
      moved t = k.set t (codes "device") (k.string (vlan_of bridge untagged))

  move_devices-IsOwnedDraft :
      (bridge : Bytes) (untagged : ℕ) (d : Draft k)
      → IsOwnedDraft k base before d
      → IsOwnedDraft k base before (d.0, move_devices k d.0 bridge untagged d.1)
  move_devices-IsOwnedDraft bridge untagged d h = record {
    owned = h.owned;
    added = h.added;
    created = h.created;
    named = move_devices-names d.0 bridge untagged d.1 ∙ h.named;
  }

  pub convert-IsOwnedDraft :
      (bridge : k.Section) (vids : List ℕ) (prev : Option Conversion) (d : Draft k)
      → IsOwnedDraft k base before d
      → OnOk
          (λ (r : Draft k × Conversion). IsOwnedDraft k base before r.0)
          (convert k bridge vids prev d)
  unfolding convert convert_with
  convert-IsOwnedDraft bridge vids prev d h =
      let named = str k bridge (codes "name") in
      let untagged = untagged_for named vids prev in
      let ports = map (λ p. p ++ codes ":u*") (list_of k bridge (codes "ports")) in
      if-both (OnOk (λ (r : Draft k × Conversion). IsOwnedDraft k base before r.0)) _ _
        (ltb 4094 untagged) tt
        (if-both (OnOk (λ (r : Draft k × Conversion). IsOwnedDraft k base before r.0)) _
          (ok (convert_with k named untagged ports d)) (length ports == 0) tt
          (move_devices-IsOwnedDraft named untagged _ (
            add-IsOwnedDraft (codes "bridge-vlan") untagged_name
              (untagged_options k named untagged ports) d (owned_name-numbered 0).5 h)))
