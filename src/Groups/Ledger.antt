-- ===== src/Groups/Ledger.antt =====
-- internal/groups/plan.go: the ledger, and `undo`.
use perch_apd.Base.{
  ℕ, not, ◌&&◌, ◌||◌, Option, none, some, List, [], ◌∷◌, ◌++◌, map, ◌==◌, bytes_eq, if◌then◌else◌,
  Bytes, codes, keep, any,
}
use perch_apd.Base.Text.{itoa}
use perch_apd.Groups.Names.{owned_name, untagged_name}
use perch_apd.Groups.Kit.{Kit, is_member, str, of_type, update}

pub record Conversion : Type 0 where
  pub bridge : Bytes
  pub untagged_vlan : ℕ
  pub moved : List (Bytes × Bytes)

-- `owned` is `none` for the source's nil.
pub record Ledger : Type 0 where
  pub owned : Option (List Bytes)
  pub dynamic_vlan : List (Bytes × Bytes)
  pub converted : Option Conversion

-- `fmt.Sprintf("%s.%d", device, vid)`.
abbrev pub vlan_of : Bytes → ℕ → Bytes
vlan_of device vid = device ++ b'.' ∷ itoa vid

module _ (k : Kit) where
  open k use {Section, string, name, anonymous, set, delete, reindex}

  -- `bridgeVLANs`.
  unfoldable pub bridge_vlans : Bytes → List Section → List Section
  unfolding str
  bridge_vlans bridge n =
      keep (λ s. str k s (codes "device") == bridge) (of_type k (codes "bridge-vlan") n)

  -- `ownedSet`.
  unfoldable pub owned_set : Ledger → List Section → List Section → List Bytes
  owned_set prev w n = elim prev.owned [
    | some names ↦ names
    | none ↦ map name (keep (λ s. not (anonymous s) && owned_name (name s)) (w ++ n))
  ]

  -- The conversion that stays: the bridge carries a VLAN that the engine does not own.
  unfoldable pub kept_conversion : List Bytes → List Section → Option Conversion → Option Conversion
  unfolding bridge_vlans
  kept_conversion owned n none = none
  kept_conversion owned n (some c) =
      if any (λ s. not (is_member (name s) owned)) (bridge_vlans c.bridge n) then some c else none

  -- `delete(owned, "perch_bvu")` where the conversion stays.
  unfoldable pub dropped_names : List Bytes → Option Conversion → List Bytes
  dropped_names owned none = owned
  dropped_names owned (some c) = keep (λ n. not (n == untagged_name)) owned

  unfoldable pub drop_owned : List Bytes → List Section → List Section
  drop_owned owned = keep (λ s. anonymous s || not (is_member (name s) owned))

  put_back_dynamic : Bytes → Section → Section
  put_back_dynamic [] s = delete s (codes "dynamic_vlan")
  put_back_dynamic (c ∷ was) s = set s (codes "dynamic_vlan") (string (c ∷ was))

  -- The loop over the ledger's `DynamicVLAN`.
  unfoldable pub restore_dynamic : List (Bytes × Bytes) → List Section → List Section
  unfolding put_back_dynamic update
  restore_dynamic [] w = w
  restore_dynamic ((iface, was) ∷ m) w = restore_dynamic m (update k iface (put_back_dynamic was) w)

  put_back_device : Conversion → Bytes → Section → Section
  unfolding str
  put_back_device c dev s =
      if str k s (codes "device") == vlan_of c.bridge c.untagged_vlan
      then set s (codes "device") (string dev)
      else s

  move_back : Conversion → List (Bytes × Bytes) → List Section → List Section
  move_back c [] n = n
  move_back c ((iface, dev) ∷ m) n = move_back c m (update k iface (put_back_device c dev) n)

  -- The loop over the conversion's `Moved`, where the conversion does not stay.
  unfoldable pub restore_devices :
      Option Conversion → Option Conversion → List Section → List Section
  unfolding put_back_device move_back update
  restore_devices (some c) none n = move_back c c.moved n
  restore_devices _ _ n = n

  pub record Undone : Type 0 where
    pub wireless : List Section
    pub network : List Section
    pub kept : Option Conversion

  unfoldable pub undo : List Section → List Section → Ledger → Undone
  unfolding owned_set kept_conversion dropped_names drop_owned restore_dynamic restore_devices
  undo w n prev =
      let owned = owned_set prev w n in
      let kept = kept_conversion owned n prev.converted in
      let names = dropped_names owned kept in
      record {
        wireless = reindex (restore_dynamic prev.dynamic_vlan (drop_owned names w));
        network = reindex (restore_devices prev.converted kept (drop_owned names n));
        kept = kept;
      }
