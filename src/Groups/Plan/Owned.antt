-- ===== src/Groups/Plan/Owned.antt =====
-- internal/groups/plan.go: the network sections of a plan have names that the engine owns.
use perch_apd.Base.{ℕ, List, [], ◌∷◌, ◌++◌, Bytes, codes, option-both}
use perch_apd.Groups.Names.{bridge_vlan_name, interface_name, vlan_device_name, bridge_device_name}
use perch_apd.Groups.Names.Owned.{owned_name-numbered}
use perch_apd.Groups.Kit.{Kit, NameLaws}
use perch_apd.Groups.Ledger.{vlan_of}
use perch_apd.Groups.Draft.{Draft, add}
use perch_apd.Groups.Draft.Owned.{IsOwnedDraft, add-IsOwnedDraft}
use perch_apd.Groups.Plan.{
  Issue, router_vlan, bridge_vlan_options, interface_options, bridge_vlan_step, add_bridge_vlans,
  add_bridge_interfaces, port_vlan_step, add_port_vlans,
}

module _ (k : Kit) (digest : Bytes → Bytes) (laws : NameLaws k) (base before : List Bytes) where
  open k use {Section, Value, string}

  bridge_vlan_step-IsOwnedDraft :
      (bridge port : Bytes) (v : ℕ) (d : Draft k)
      → IsOwnedDraft k base before d
      → IsOwnedDraft k base before (bridge_vlan_step k digest bridge port v d).0
  unfolding bridge_vlan_step
  bridge_vlan_step-IsOwnedDraft bridge port v d h =
      option-both (λ (r : Draft k × List Issue). IsOwnedDraft k base before r.0)
        (
          add k (codes "bridge-vlan") (bridge_vlan_name v)
              (bridge_vlan_options k digest bridge port v) d,
          [],
        )
        (λ s. (d, _)) (router_vlan k digest bridge v d)
        (add-IsOwnedDraft k laws base before (codes "bridge-vlan") (bridge_vlan_name v)
          (bridge_vlan_options k digest bridge port v) d (owned_name-numbered v).1 h)
        (λ s. h)

  pub add_bridge_vlans-IsOwnedDraft :
      (bridge port : Bytes) (vs : List ℕ) (d : Draft k) (issues : List Issue)
      → IsOwnedDraft k base before d
      → IsOwnedDraft k base before (add_bridge_vlans k digest bridge port vs d issues).0
  unfolding add_bridge_vlans
  add_bridge_vlans-IsOwnedDraft bridge port [] d issues h = h
  add_bridge_vlans-IsOwnedDraft bridge port (v ∷ vs) d issues h =
      add_bridge_vlans-IsOwnedDraft bridge port vs (bridge_vlan_step k digest bridge port v d).0
        (issues ++ (bridge_vlan_step k digest bridge port v d).1)
        (bridge_vlan_step-IsOwnedDraft bridge port v d h)

  pub add_bridge_interfaces-IsOwnedDraft :
      (bridge : Bytes) (vs : List ℕ) (d : Draft k)
      → IsOwnedDraft k base before d
      → IsOwnedDraft k base before (add_bridge_interfaces k digest bridge vs d)
  unfolding add_bridge_interfaces
  add_bridge_interfaces-IsOwnedDraft bridge [] d h = h
  add_bridge_interfaces-IsOwnedDraft bridge (v ∷ vs) d h =
      add_bridge_interfaces-IsOwnedDraft bridge vs _ (
        add-IsOwnedDraft k laws base before (codes "interface") (interface_name v)
          (interface_options k digest (vlan_of bridge v)) d (owned_name-numbered v).2 h)

  port_vlan_step-IsOwnedDraft :
      (port : Bytes) (v : ℕ) (d : Draft k)
      → IsOwnedDraft k base before d
      → IsOwnedDraft k base before (port_vlan_step k digest port v d)
  unfolding port_vlan_step
  port_vlan_step-IsOwnedDraft port v d h =
      let own = owned_name-numbered v in
      add-IsOwnedDraft k laws base before _ (interface_name v) _ _ own.2 (
        add-IsOwnedDraft k laws base before _ (bridge_device_name v) _ _ own.4
          (add-IsOwnedDraft k laws base before _ (vlan_device_name v) _ d own.3 h))

  pub add_port_vlans-IsOwnedDraft :
      (port : Bytes) (vs : List ℕ) (d : Draft k)
      → IsOwnedDraft k base before d
      → IsOwnedDraft k base before (add_port_vlans k digest port vs d)
  unfolding add_port_vlans
  add_port_vlans-IsOwnedDraft port [] d h = h
  add_port_vlans-IsOwnedDraft port (v ∷ vs) d h =
      add_port_vlans-IsOwnedDraft port vs (port_vlan_step k digest port v d)
        (port_vlan_step-IsOwnedDraft port v d h)
