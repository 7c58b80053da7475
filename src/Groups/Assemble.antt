-- ===== src/Groups/Assemble.antt =====
-- internal/groups/plan.go: the wireless half of `Plan`, and `Plan` put together.
pub mod Owned
pub mod Wireless
use perch_apd.Base.{
  ℕ, suc, Bool, true, false, not, ◌&&◌, Option, none, some, List, [], ◌∷◌, ◌++◌, map, ◌==◌, nat_eq,
  bytes_eq, leb, if◌then◌else◌, Bytes, codes, length,
}
use perch_apd.Base.Text.{itoa}
use perch_apd.Base.Sort.{sort, bytes_leb}
use perch_apd.Groups.Names.{valid_key, untagged_name, interface_name, wifi_vlan_name, station_name}
use perch_apd.Groups.Desired.{
  Desired, Station, refuse, no_managed_iface, trunk_unknown, untagged_vlan_conflict,
  conversion_conflict, name_taken, validate,
}
use perch_apd.Groups.Kit.{Kit, put, str, find, update}
use perch_apd.Groups.Ledger.{Conversion, Ledger, bridge_vlans, Undone, undo}
use perch_apd.Groups.Draft.{Outcome, ok, refused, ◌>>=◌, Draft, add, convert, is_used}
use perch_apd.Groups.Plan.{
  Issue, own_passphrase, no_binding_key, Iface, vid_of, append_unique, trunk_port, Stations, Plan,
  managed_ifaces, iface_issues, bridge_of, add_bridge_vlans, add_bridge_interfaces, add_port_vlans,
}

abbrev pub bridge_name : Option Conversion → Bytes
bridge_name none = []
bridge_name (some c) = c.bridge

abbrev pub is_some {ℓ} : {A : Type ℓ} → Option A → Bool
is_some none = false
is_some (some _) = true

-- `owned`: the names created, and the kept conversion's section.
unfoldable pub owned_names : List Bytes → Option Conversion → List Bytes
owned_names created none = created
owned_names created (some c) = created ++ untagged_name ∷ []

module _ (k : Kit) (digest : Bytes → Bytes) where
  open k use {Section, Value, string, set, reindex}

  -- What the trunk's half of the plan decides.
  pub record Carried : Type 0 where
    pub draft : Draft k
    pub issues : List Issue
    pub bridge : Bytes
    pub converted : Bool
    pub conversion : Option Conversion

  -- The `switch` on the bridge: a conversion that stays, a bridge without VLANs, any other.
  unfoldable pub prepare :
      Section
      → Bytes
      → List ℕ
      → Option Conversion
      → Option Conversion
      → Draft k
      → Outcome (Draft k × Option Conversion)
  unfolding convert bridge_vlans
  prepare bridge named vids (some c) prev (p, n) =
      if c.bridge == named
      then (if is_used c.untagged_vlan vids
          then refused (refuse untagged_vlan_conflict)
          else ok ((p, n), some c))
      else if length (bridge_vlans k named n) == 0
      then refused (refuse conversion_conflict)
      else ok ((p, n), some c)
  prepare bridge named vids none prev (p, n) =
      if length (bridge_vlans k named n) == 0
      then (convert k bridge vids prev (p, n) >>= λ r. ok (r.0, some r.1))
      else ok ((p, n), none)

  unfoldable pub carry :
      Bytes
      → List ℕ
      → Option Conversion
      → Option Conversion
      → Option Section
      → Draft k
      → Outcome Carried
  unfolding prepare add_bridge_vlans add_bridge_interfaces add_port_vlans str
  carry port vids kept prev none d = ok (record {
    draft = add_port_vlans k digest port vids d;
    issues = [];
    bridge = bridge_name kept;
    converted = is_some kept;
    conversion = kept;
  })
  carry port vids kept prev (some bridge) d = do
    let named = str k bridge (codes "name")
    (d1, conversion) ← prepare bridge named vids kept prev d
    let r : Draft k × List Issue = add_bridge_vlans k digest named port vids d1 []
    ok (record {
      draft = add_bridge_interfaces k digest named vids r.0;
      issues = r.1;
      bridge = named;
      converted = is_some conversion;
      conversion = conversion;
    })

  -- `dynamic_vlan` on one managed interface, and what it was.
  dynamic_step : Iface → List Section × List (Bytes × Bytes) → List Section × List (Bytes × Bytes)
  dynamic_step m (w, was) = elim (find k m.name w) [
    | none ↦ (w, was)
    | some s ↦ if str k s (codes "dynamic_vlan") == codes "1" then (w, was) else (
      update k m.name (λ s. set s (codes "dynamic_vlan") (string (codes "1"))) w,
      put m.name (str k s (codes "dynamic_vlan")) was,
    )
  ]

  unfoldable pub set_dynamic :
      List Iface → List Section × List (Bytes × Bytes) → List Section × List (Bytes × Bytes)
  unfolding dynamic_step find update str
  set_dynamic [] r = r
  set_dynamic (m ∷ ms) r = set_dynamic ms (dynamic_step m r)

  wifi_vlan_options : Iface → ℕ → List (Bytes × Value)
  wifi_vlan_options m v =
      (codes "iface", string m.name)
      ∷ (codes "name", string (b'g' ∷ itoa v))
      ∷ (codes "vid", string (itoa v))
      ∷ (codes "network", string (interface_name v))
      ∷ []

  wifi_vlans_of : Iface → List ℕ → Draft k → Draft k
  wifi_vlans_of m [] d = d
  wifi_vlans_of m (v ∷ vs) d =
      wifi_vlans_of m vs
        (add k (codes "wifi-vlan") (wifi_vlan_name v m.name) (wifi_vlan_options m v) d)

  -- A wifi-vlan per managed interface and VLAN.
  unfoldable pub add_wifi_vlans : List Iface → List ℕ → Draft k → Draft k
  unfolding wifi_vlans_of wifi_vlan_options add
  add_wifi_vlans [] vids d = d
  add_wifi_vlans (m ∷ ms) vids d = add_wifi_vlans ms vids (wifi_vlans_of m vids d)

  station_options : Iface → Bytes → ℕ → List (Bytes × Value)
  station_options m key vid =
      (codes "iface", string m.name)
      ∷ (codes "key", string key)
      ∷ (codes "vid", string (itoa vid))
      ∷ []

  add_station : List (Bytes × Value) → Stations (Draft k) → Stations (Draft k)
  add_station opts st = record st {
    draft = add k (codes "wifi-station") (station_name st.idx) opts st.draft;
    idx = suc st.idx;
  }

  add_mac_stations : List Bytes → List (Bytes × Value) → Stations (Draft k) → Stations (Draft k)
  add_mac_stations [] opts st = st
  add_mac_stations (mac ∷ macs) opts st =
      add_mac_stations macs opts (add_station (opts ++ (codes "mac", string mac) ∷ []) st)

  -- One section without a MAC, or one for each.
  add_entries : List Bytes → List (Bytes × Value) → Stations (Draft k) → Stations (Draft k)
  add_entries [] opts st = add_station opts st
  add_entries (mac ∷ macs) opts st = add_mac_stations (mac ∷ macs) opts st

  -- The body of the loop over the managed interfaces of one station.
  unfoldable pub station_step :
      Station → List Bytes → Iface → Stations (Draft k) → Stations (Draft k)
  unfolding add_entries add_mac_stations add_station station_options add
  station_step d macs m st =
      if not (d.key == []) && d.key == m.key
      then record st { issues = st.issues ++ own_passphrase m.name ∷ [] }
      else if d.key == []
      then (if not (valid_key m.key)
          then record st { issues = st.issues ++ no_binding_key m.name ∷ [] }
          else add_entries macs (station_options m m.key (vid_of d.vid))
              (record st { binding_keys = append_unique st.binding_keys (digest m.key) }))
      else add_entries macs (station_options m d.key (vid_of d.vid)) st

  station_ifaces : Station → List Bytes → List Iface → Stations (Draft k) → Stations (Draft k)
  station_ifaces d macs [] st = st
  station_ifaces d macs (m ∷ ms) st = station_ifaces d macs ms (station_step d macs m st)

  unfoldable pub add_stations : List Station → List Iface → Stations (Draft k) → Stations (Draft k)
  unfolding station_ifaces station_step
  add_stations [] managed st = st
  add_stations (d ∷ ds) managed st =
      add_stations ds managed (station_ifaces d (sort bytes_leb d.macs) managed st)

  -- The plan of a desired state without VLANs.
  unfoldable pub empty_plan : Undone k → Plan k digest
  unfolding owned_names
  empty_plan u = record {
    wireless = reindex u.wireless;
    network = reindex u.network;
    ledger = record { owned = some (owned_names [] u.kept); dynamic_vlan = []; converted = u.kept };
    trunk = [];
    bridge = bridge_name u.kept;
    converted = is_some u.kept;
    managed = [];
    issues = [];
    binding_keys = [];
  }

  -- Behind the trunk's half.
  unfoldable pub finish_plan :
      Desired → List ℕ → List Iface → Bytes → Undone k → Carried → Outcome (Plan k digest)
  unfolding set_dynamic add_wifi_vlans add_stations owned_names iface_issues
  finish_plan d vids managed port u c =
      let (w1, was) = set_dynamic managed (u.wireless, []) in
      let vlans : Draft k = add_wifi_vlans managed vids (c.draft.0, w1) in
      let st =
        add_stations d.stations managed
          (record { draft = vlans; idx = 0; issues = []; binding_keys = [] }) in
      if st.draft.0.taken
      then refused (refuse name_taken)
      else ok (record {
        wireless = reindex st.draft.1;
        network = reindex c.draft.1;
        ledger = record {
          owned = some (owned_names st.draft.0.created u.kept);
          dynamic_vlan = was;
          converted = c.conversion;
        };
        trunk = port;
        bridge = c.bridge;
        converted = c.converted;
        managed = map (λ (m : Iface). m.name) managed;
        issues = iface_issues k digest d.ssids u.wireless ++ c.issues ++ st.issues;
        binding_keys = st.binding_keys;
      })

  -- With VLANs to carry.
  unfoldable pub vlan_plan : Desired → Bytes → Ledger → Undone k → Outcome (Plan k digest)
  unfolding managed_ifaces trunk_port carry bridge_of finish_plan
  vlan_plan d detected prev u =
      let managed = managed_ifaces k digest d.ssids u.wireless in
      let port = trunk_port d.trunk detected in
      let vids = sort leb (map vid_of d.vlans) in
      let carried =
        carry port vids u.kept prev.converted (bridge_of k digest port u.network)
          (record { created = []; taken = false }, u.network) in
      if length managed == 0
      then refused (refuse no_managed_iface)
      else if port == []
      then refused (refuse trunk_unknown)
      else carried >>= finish_plan d vids managed port u

  -- `Plan`: the wireless and the network configuration, the desired state, the detected trunk port and
  -- the ledger of the last confirmed apply.
  unfoldable pub plan :
      List Section → List Section → Desired → Bytes → Ledger → Outcome (Plan k digest)
  unfolding undo empty_plan vlan_plan
  plan w n d detected prev =
      let u = undo k w n prev in
      elim (validate d) [
        | some r ↦ refused r
        | none ↦ if length d.vlans == 0 then ok (empty_plan u) else vlan_plan d detected prev u
      ]
