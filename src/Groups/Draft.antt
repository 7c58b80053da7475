-- ===== src/Groups/Draft.antt =====
-- internal/groups/plan.go: the planner, the outcome of a plan, and `convert`.
pub mod Owned
pub mod Untagged
use perch_apd.Base.{
  ℕ, zero, suc, ◌+◌, Bool, true, false, not, ◌&&◌, ◌||◌, Option, none, some, List, [], ◌∷◌, ◌++◌,
  map, ◌==◌, nat_eq, bytes_eq, ltb, if◌then◌else◌, Bytes, codes, keep, any, all, length,
}
use perch_apd.Base.Text.{itoa}
use perch_apd.Groups.Names.{untagged_name}
use perch_apd.Groups.Desired.{Refusal, refuse, no_untagged_vlan, bridge_empty}
use perch_apd.Groups.Kit.{Kit, put, is_member, str, list_of, of_type, find}
use perch_apd.Groups.Ledger.{Conversion, vlan_of}

-- A value, or the refusal that ends `Plan`.
pub data Outcome {ℓ} (A : Type ℓ) : Type ℓ where
  ok : A → Outcome A
  refused : Refusal → Outcome A

infixl 5 ◌>>=◌
abbrev pub ◌>>=◌ {ℓ κ} : {A : Type ℓ} {B : Type κ} → Outcome A → (A → Outcome B) → Outcome B
ok a >>= f = f a
refused r >>= f = refused r

-- The planner: the names it created, and whether a name was taken.
pub record Planner : Type 0 where
  pub created : List Bytes
  pub taken : Bool

-- `createdHere`.
abbrev pub created_here : Bytes → Planner → Bool
created_here n p = is_member n p.created

abbrev pub is_used : ℕ → List ℕ → Bool
is_used v used = any (λ u. u == v) used

-- The loop `for used[untagged] { untagged++ }`. It stops after as many rounds as there are used
-- ids, at the latest (`Plan.Untagged`).
unfoldable pub next_free : ℕ → List ℕ → ℕ → ℕ
next_free zero used v = v
next_free (suc f) used v = let rest = next_free f used (suc v) in if is_used v used then rest else v

-- Where the search for the untagged VLAN starts.
unfoldable pub first_untagged : Bytes → List ℕ → Option Conversion → ℕ
first_untagged name used none = 1
first_untagged name used (some prev) =
    if prev.bridge == name && not (is_used prev.untagged_vlan used) then prev.untagged_vlan else 1

unfoldable pub untagged_for : Bytes → List ℕ → Option Conversion → ℕ
unfolding next_free first_untagged
untagged_for name used prev = next_free (length used) used (first_untagged name used prev)

module _ (k : Kit) where
  open k use {Section, Value, string, list, section, name, set, has_type}

  -- The network or the wireless sections, with the planner.
  abbrev pub Draft : Type 0
  Draft = Planner × List Section

  -- `planner.add`.
  unfoldable pub add : Bytes → Bytes → List (Bytes × Value) → Draft → Draft
  add typ n opts (p, c) = elim (find k n c) [
    | some _ ↦ (record p { taken = true }, c)
    | none ↦ (record p { created = p.created ++ n ∷ [] }, c ++ section n typ opts ∷ [])
  ]

  -- The interfaces on the bare bridge, and what `Moved` records of them.
  abbrev pub moves : Planner → Bytes → Section → Bool
  moves p bridge s =
      has_type s (codes "interface")
      && not (created_here (name s) p)
      && str k s (codes "device") == bridge

  unfoldable pub moved_names : Planner → Bytes → List Section → List (Bytes × Bytes)
  moved_names p bridge [] = []
  moved_names p bridge (s ∷ ss) =
      let rest = moved_names p bridge ss in
      if moves p bridge s then put (name s) bridge rest else rest

  unfoldable pub move_devices : Planner → Bytes → ℕ → List Section → List Section
  move_devices p bridge untagged [] = []
  move_devices p bridge untagged (s ∷ ss) =
      let rest = move_devices p bridge untagged ss in
      if moves p bridge s
      then set s (codes "device") (string (vlan_of bridge untagged)) ∷ rest
      else s ∷ rest

  untagged_options : Bytes → ℕ → List Bytes → List (Bytes × Value)
  untagged_options bridge untagged ports =
      (codes "device", string bridge)
      ∷ (codes "vlan", string (itoa untagged))
      ∷ (codes "ports", list ports)
      ∷ []

  -- The end of `convert`: the untagged VLAN's section, and the interfaces moved onto it.
  convert_with : Bytes → ℕ → List Bytes → Draft → Draft × Conversion
  convert_with bridge untagged ports d =
      let (p, n) =
        add (codes "bridge-vlan") untagged_name (untagged_options bridge untagged ports) d in
      (
        (p, move_devices p bridge untagged n),
        record { bridge = bridge; untagged_vlan = untagged; moved = moved_names p bridge n },
      )

  -- `convert` of the bridge's section.
  unfoldable pub convert :
      Section → List ℕ → Option Conversion → Draft → Outcome (Draft × Conversion)
  unfolding convert_with untagged_options untagged_for add move_devices moved_names str
  convert bridge vids prev d =
      let named = str k bridge (codes "name") in
      let untagged = untagged_for named vids prev in
      let ports = map (λ p. p ++ codes ":u*") (list_of k bridge (codes "ports")) in
      if ltb 4094 untagged
      then refused (refuse no_untagged_vlan)
      else if length ports == 0
      then refused (refuse bridge_empty)
      else ok (convert_with named untagged ports d)
