-- ===== src/Groups/Plan.antt =====
-- internal/groups/plan.go: `Plan`.
pub mod Owned
use perch_apd.Base.{
  ℕ, Bool, not, ◌&&◌, ◌||◌, Option, none, some, List, [], ◌∷◌, ◌++◌, map, ◌==◌, nat_eq, bytes_eq,
  if◌then◌else◌, Bytes, codes, keep, any,
}
use perch_apd.Base.Text.{itoa, cut}
use perch_apd.Base.Int.{ℤ, pos, negsuc}
use perch_apd.Groups.Names.{
  psk_encryption, bridge_vlan_name, interface_name, vlan_device_name, bridge_device_name,
}
use perch_apd.Groups.Kit.{Kit, is_member, str, list_of, of_type}
use perch_apd.Groups.Ledger.{Ledger, vlan_of, bridge_vlans}
use perch_apd.Groups.Draft.{Planner, created_here, Draft, add}

-- `Result.Issues`, without their texts.
pub data Issue : Type 0 where
  no_passphrase anonymous_section own_passphrase no_binding_key : Bytes → Issue
  vlan_present vlan_not_tagged : ℕ → Issue

-- An interface that the groups use, with its own passphrase.
pub record Iface : Type 0 where
  pub name : Bytes
  pub key : Bytes

-- The id of a VLAN. `Validate` has refused every negative one.
abbrev pub vid_of : ℤ → ℕ
vid_of (pos n) = n
vid_of (negsuc n) = 0

-- `appendUnique`.
abbrev pub append_unique : List Bytes → Bytes → List Bytes
append_unique list s = if is_member s list then list else list ++ s ∷ []

-- `port`: the trunk that the controller names, else the detected one.
unfoldable pub trunk_port : Bytes → Bytes → Bytes
trunk_port wanted detected =
    if not (wanted == []) && not (wanted == codes "auto") then wanted else detected

-- `taggedMember` of one of the ports.
tagged_port : Bytes → Option (Bytes × Bytes) → Bytes → Bool
tagged_port port none p = p == port
tagged_port port (some (n, flags)) p = n == port && not (any (λ c. c == b'u') flags)

-- The name of a station's section counts up over the stations.
pub record Stations (A : Type 0) : Type 0 where
  pub draft : A
  pub idx : ℕ
  pub issues : List Issue
  pub binding_keys : List Bytes

module _ (k : Kit) (digest : Bytes → Bytes) where
  open k use {Section, Value, string, list, name, anonymous, set, has_type, reindex}

  pub record Plan : Type 0 where
    pub wireless : List Section
    pub network : List Section
    pub ledger : Ledger
    pub trunk : Bytes
    pub bridge : Bytes
    pub converted : Bool
    pub managed : List Bytes
    pub issues : List Issue
    pub binding_keys : List Bytes

  -- An access point on a listed SSID that is not disabled.
  is_listed : List Bytes → Section → Bool
  is_listed ssids s = not (
      not (str k s (codes "mode") == codes "ap")
      || not (is_member (str k s (codes "ssid")) ssids)
      || str k s (codes "disabled") == codes "1")

  iface_of : Section → Iface
  iface_of s = record { name = name s; key = str k s (codes "key") }

  -- The managed interfaces.
  unfoldable pub managed_ifaces : List Bytes → List Section → List Iface
  unfolding is_listed iface_of psk_encryption str
  managed_ifaces ssids w = map iface_of (
      keep (λ s. is_listed ssids s && psk_encryption (str k s (codes "encryption")))
        (of_type k (codes "wifi-iface") w))

  unfoldable pub iface_issues : List Bytes → List Section → List Issue
  unfolding is_listed psk_encryption str
  iface_issues ssids [] = []
  iface_issues ssids (s ∷ ss) =
      let rest = iface_issues ssids ss in
      if not (is_listed ssids s)
      then rest
      else if not (psk_encryption (str k s (codes "encryption")))
      then no_passphrase (name s) ∷ rest
      else if anonymous s
      then anonymous_section (name s) ∷ rest
      else rest

  -- `bridgeOf`.
  unfoldable pub bridge_of : Bytes → List Section → Option Section
  bridge_of port [] = none
  bridge_of port (s ∷ ss) =
      let rest = bridge_of port ss in
      if has_type s (codes "device")
        && str k s (codes "type") == codes "bridge"
        && is_member port (list_of k s (codes "ports"))
      then some s
      else rest

  -- `taggedMember`.
  unfoldable pub tagged_member : Bytes → Section → Bool
  unfolding tagged_port cut
  tagged_member port s = any (λ p. tagged_port port (cut b':' p) p) (list_of k s (codes "ports"))

  first_router_vlan : ℕ → Planner → List Section → Option Section
  first_router_vlan vid p [] = none
  first_router_vlan vid p (s ∷ ss) =
      let rest = first_router_vlan vid p ss in
      if str k s (codes "vlan") == itoa vid && not (created_here (name s) p) then some s else rest

  -- `routerVLAN`.
  unfoldable pub router_vlan : Bytes → ℕ → Draft k → Option Section
  unfolding first_router_vlan bridge_vlans
  router_vlan bridge vid (p, n) = first_router_vlan vid p (bridge_vlans k bridge n)

  bridge_vlan_options : Bytes → Bytes → ℕ → List (Bytes × Value)
  bridge_vlan_options bridge port v =
      (codes "device", string bridge)
      ∷ (codes "vlan", string (itoa v))
      ∷ (codes "ports", list ((port ++ codes ":t") ∷ []))
      ∷ []

  interface_options : Bytes → List (Bytes × Value)
  interface_options device =
      (codes "proto", string (codes "none")) ∷ (codes "device", string device) ∷ []

  -- The first loop over the VLANs of a bridge, and its issues.
  bridge_vlan_step : Bytes → Bytes → ℕ → Draft k → Draft k × List Issue
  bridge_vlan_step bridge port v d = elim (router_vlan bridge v d) [
    | some s ↦ (d, vlan_present v ∷ (if tagged_member port s then [] else vlan_not_tagged v ∷ []))
    | none ↦
        (add k (codes "bridge-vlan") (bridge_vlan_name v) (bridge_vlan_options bridge port v) d, [])
  ]

  unfoldable pub add_bridge_vlans :
      Bytes → Bytes → List ℕ → Draft k → List Issue → Draft k × List Issue
  unfolding bridge_vlan_step bridge_vlan_options router_vlan tagged_member add
  add_bridge_vlans bridge port [] d issues = (d, issues)
  add_bridge_vlans bridge port (v ∷ vs) d issues =
      let (d', more) = bridge_vlan_step bridge port v d in
      add_bridge_vlans bridge port vs d' (issues ++ more)

  -- The second loop.
  unfoldable pub add_bridge_interfaces : Bytes → List ℕ → Draft k → Draft k
  unfolding interface_options add
  add_bridge_interfaces bridge [] d = d
  add_bridge_interfaces bridge (v ∷ vs) d =
      add_bridge_interfaces bridge vs
        (add k (codes "interface") (interface_name v) (interface_options (vlan_of bridge v)) d)

  -- The devices, the bridge and the interface of one VLAN on a port of its own.
  port_vlan_step : Bytes → ℕ → Draft k → Draft k
  port_vlan_step port v d =
      let vdev = vlan_of port v in
      let br = codes "br-pv" ++ itoa v in
      let d1 =
        add k (codes "device") (vlan_device_name v)
          ((codes "type", string (codes "8021q"))
            ∷ (codes "ifname", string port)
            ∷ (codes "vid", string (itoa v))
            ∷ (codes "name", string vdev)
            ∷ [])
          d in
      let d2 =
        add k (codes "device") (bridge_device_name v)
          ((codes "type", string (codes "bridge"))
            ∷ (codes "name", string br)
            ∷ (codes "ports", list (vdev ∷ []))
            ∷ [])
          d1 in
      add k (codes "interface") (interface_name v) (interface_options br) d2

  unfoldable pub add_port_vlans : Bytes → List ℕ → Draft k → Draft k
  unfolding port_vlan_step interface_options add
  add_port_vlans port [] d = d
  add_port_vlans port (v ∷ vs) d = add_port_vlans port vs (port_vlan_step port v d)
