-- ===== src/Groups/Assemble/Wireless.antt =====
-- internal/groups/plan.go: the wireless sections of a plan have names that the engine owns.
use perch_apd.Base.{
  ℕ, true, not, ◌&&◌, List, [], ◌∷◌, ◌++◌, ◌≡◌, Bytes, codes, any, ◌==◌, nat_eq, bytes_eq, All,
  if-both,
}
use perch_apd.Base.Sort.{sort, bytes_leb}
use perch_apd.Groups.Names.{is_word, station_name, wifi_vlan_name}
use perch_apd.Groups.Names.Owned.{owned_name-numbered, owned_name-wifi_vlan_name}
use perch_apd.Groups.Kit.{Kit, NameLaws}
use perch_apd.Groups.Desired.{Station}
use perch_apd.Groups.Draft.{Draft}
use perch_apd.Groups.Draft.Owned.{IsOwnedDraft, add-IsOwnedDraft}
use perch_apd.Groups.Plan.{Iface, Stations}
use perch_apd.Groups.Assemble.{
  wifi_vlan_options, wifi_vlans_of, add_wifi_vlans, add_station, add_mac_stations, add_entries,
  station_step, station_ifaces, add_stations,
}

module _ (k : Kit) (digest : Bytes → Bytes) (laws : NameLaws k) (base before : List Bytes) where
  open k use {Value, string}

  wifi_vlans_of-IsOwnedDraft :
      (m : Iface) (vids : List ℕ) (d : Draft k)
      → any is_word m.name ≡ true
      → IsOwnedDraft k base before d
      → IsOwnedDraft k base before (wifi_vlans_of k digest m vids d)
  unfolding wifi_vlans_of
  wifi_vlans_of-IsOwnedDraft m [] d word h = h
  wifi_vlans_of-IsOwnedDraft m (v ∷ vs) d word h = wifi_vlans_of-IsOwnedDraft m vs _ word (
      add-IsOwnedDraft k laws base before (codes "wifi-vlan") (wifi_vlan_name v m.name)
        (wifi_vlan_options k digest m v) d (owned_name-wifi_vlan_name v m.name word).0 h)

  pub add_wifi_vlans-IsOwnedDraft :
      (ms : List Iface) (vids : List ℕ) (d : Draft k)
      → All (λ (m : Iface). any is_word m.name ≡ true) ms
      → IsOwnedDraft k base before d
      → IsOwnedDraft k base before (add_wifi_vlans k digest ms vids d)
  unfolding add_wifi_vlans
  add_wifi_vlans-IsOwnedDraft [] vids d words h = h
  add_wifi_vlans-IsOwnedDraft (m ∷ ms) vids d words h =
      add_wifi_vlans-IsOwnedDraft ms vids _ words.1 (wifi_vlans_of-IsOwnedDraft m vids d words.0 h)

  abbrev pub IsOwnedStations : Stations (Draft k) → Type 0
  IsOwnedStations st = IsOwnedDraft k base before st.draft

  add_station-IsOwnedStations :
      (opts : List (Bytes × Value)) (st : Stations (Draft k))
      → IsOwnedStations st
      → IsOwnedStations (add_station k digest opts st)
  unfolding add_station
  add_station-IsOwnedStations opts st h =
      add-IsOwnedDraft k laws base before (codes "wifi-station") (station_name st.idx) opts st.draft
        (owned_name-numbered st.idx).0 h

  add_mac_stations-IsOwnedStations :
      (macs : List Bytes) (opts : List (Bytes × Value)) (st : Stations (Draft k))
      → IsOwnedStations st
      → IsOwnedStations (add_mac_stations k digest macs opts st)
  unfolding add_mac_stations
  add_mac_stations-IsOwnedStations [] opts st h = h
  add_mac_stations-IsOwnedStations (mac ∷ macs) opts st h =
      add_mac_stations-IsOwnedStations macs opts _
        (add_station-IsOwnedStations (opts ++ (codes "mac", string mac) ∷ []) st h)

  add_entries-IsOwnedStations :
      (macs : List Bytes) (opts : List (Bytes × Value)) (st : Stations (Draft k))
      → IsOwnedStations st
      → IsOwnedStations (add_entries k digest macs opts st)
  unfolding add_entries
  add_entries-IsOwnedStations [] opts st h = add_station-IsOwnedStations opts st h
  add_entries-IsOwnedStations (mac ∷ macs) opts st h =
      add_mac_stations-IsOwnedStations (mac ∷ macs) opts st h

  station_step-IsOwnedStations :
      (d : Station) (macs : List Bytes) (m : Iface) (st : Stations (Draft k))
      → IsOwnedStations st
      → IsOwnedStations (station_step k digest d macs m st)
  unfolding station_step
  station_step-IsOwnedStations d macs m st h =
      if-both IsOwnedStations _ _ (not (d.key == []) && d.key == m.key) h (
        if-both IsOwnedStations _ _ (d.key == [])
          (if-both IsOwnedStations _ _ _ h (add_entries-IsOwnedStations macs _ _ h))
          (add_entries-IsOwnedStations macs _ st h))

  station_ifaces-IsOwnedStations :
      (d : Station) (macs : List Bytes) (ms : List Iface) (st : Stations (Draft k))
      → IsOwnedStations st
      → IsOwnedStations (station_ifaces k digest d macs ms st)
  unfolding station_ifaces
  station_ifaces-IsOwnedStations d macs [] st h = h
  station_ifaces-IsOwnedStations d macs (m ∷ ms) st h =
      station_ifaces-IsOwnedStations d macs ms _ (station_step-IsOwnedStations d macs m st h)

  pub add_stations-IsOwnedStations :
      (ds : List Station) (ms : List Iface) (st : Stations (Draft k))
      → IsOwnedStations st
      → IsOwnedStations (add_stations k digest ds ms st)
  unfolding add_stations
  add_stations-IsOwnedStations [] ms st h = h
  add_stations-IsOwnedStations (d ∷ ds) ms st h =
      add_stations-IsOwnedStations ds ms _
        (station_ifaces-IsOwnedStations d (sort bytes_leb d.macs) ms st h)
