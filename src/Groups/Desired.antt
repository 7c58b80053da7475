-- ===== src/Groups/Desired.antt =====
-- internal/groups/plan.go: the desired state of `groups.apply`, and `Validate`. A refusal keeps its
-- code and its reason; its message, which only people read, is left out.
pub mod Valid
use perch_apd.Base.{
  ℕ, zero, suc, ◌+◌, Bool, true, false, not, ◌&&◌, ◌||◌, Option, none, some, List, [], ◌∷◌, ◌==◌,
  nat_eq, bytes_eq, ltb, if◌then◌else◌, Bytes, codes, length, any, all,
}
use perch_apd.Base.Int.{ℤ, below, above, int_eq}
use perch_apd.Groups.Names.{valid_mac, valid_key, valid_ifname}

pub record Station : Type 0 where
  pub key : Bytes
  pub vid : ℤ
  pub macs : List Bytes

-- `VLANs` is a list of records with one field, the id.
pub record Desired : Type 0 where
  pub revision : ℤ
  pub confirm_seconds : ℤ
  pub trunk : Bytes
  pub ssids : List Bytes
  pub vlans : List ℤ
  pub stations : List Station

pub data Code : Type 0 where
  bad_params no_managed_iface trunk_unknown untagged_vlan_conflict conversion_conflict : Code
  no_untagged_vlan bridge_empty name_taken busy uncommitted config_unreadable apply_failed : Code
  not_pending unsafe_binding : Code

pub record Refusal : Type 0 where
  pub code : Code
  pub reason : Bytes

abbrev pub refuse : Code → Refusal
refuse c = record { code = c; reason = [] }

abbrev pub max_vlans : ℕ
max_vlans = 256

abbrev pub max_stations : ℕ
max_stations = 4096

abbrev pub count_macs : List Station → ℕ
count_macs [] = 0
count_macs (st ∷ sts) = length st.macs + count_macs sts

abbrev pub is_in : ℤ → List ℤ → Bool
is_in v seen = any (λ s. s == v) seen

-- The loop over the VLANs: `none` when one is refused, else the ids seen.
unfoldable pub check_vlans : List ℤ → List ℤ → Option (List ℤ)
check_vlans seen [] = some seen
check_vlans seen (v ∷ vs) =
    let rest = check_vlans (v ∷ seen) vs in
    if below v 1 || above v 4094 then none else if is_in v seen then none else rest

-- The body of the loop over the stations: true for a station that is not refused.
unfoldable pub station_ok : List ℤ → Station → Bool
station_ok seen st =
    if not (is_in st.vid seen)
    then false
    else if not (st.key == []) && not (valid_key st.key)
    then false
    else if st.key == [] && length st.macs == 0
    then false
    else all valid_mac st.macs

abbrev pub ssid_ok : Bytes → Bool
ssid_ok s = not (ltb (length s) 1 || ltb 32 (length s))

abbrev pub trunk_ok : Bytes → Bool
trunk_ok t = not (not (t == []) && not (t == codes "auto") && not (valid_ifname t))

-- What `Validate` tests behind the VLANs.
abbrev rest_ok : Desired → List ℤ → Bool
rest_ok d seen = all (station_ok seen) d.stations && all ssid_ok d.ssids && trunk_ok d.trunk

-- `Validate`: true for a nil error. Every refusal has the code `bad_params`.
unfoldable pub is_valid : Desired → Bool
unfolding check_vlans station_ok
is_valid d =
    if below d.revision 1
    then false
    else if ltb max_vlans (length d.vlans)
        || ltb max_stations (length d.stations)
        || ltb max_stations (count_macs d.stations)
    then false
    else elim (check_vlans [] d.vlans) [ none ↦ false | some seen ↦ rest_ok d seen ]

unfoldable pub validate : Desired → Option Refusal
unfolding is_valid
validate d = if is_valid d then none else some (refuse bad_params)
