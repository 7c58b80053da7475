-- ===== src/Nl80211/Link.antt =====
-- internal/nl80211/nl80211.go: the wireless interfaces.
pub mod Counters
use perch_apd.Base.{
  ℕ, suc, ◌+◌, ◌*◌, ◌/◌, ◌%◌, ◌^◌, Bool, true, false, not, ◌&&◌, ◌||◌, Option, none, some, List, [],
  ◌∷◌, ◌++◌, ◌==◌, nat_eq, bytes_eq, ltb, leb, if◌then◌else◌, Bytes, codes, length, take, drop,
}
use perch_apd.Base.Int.{ℤ, pos, negsuc}
use perch_apd.Nl80211.{
  Attr, Decoder, fold_attrs, fold_lenient, u32, u64, native, six_bytes, first_int8, cstring, int8,
  int32,
}

-- `IwinfoMode`.
unfoldable pub iwinfo_mode : ℕ → Bytes
iwinfo_mode t =
    if t == 3
    then codes "Master"
    else if t == 1
    then codes "Ad-Hoc"
    else if t == 2
    then codes "Client"
    else if t == 6
    then codes "Monitor"
    else if t == 4
    then codes "Master (VLAN)"
    else if t == 5
    then codes "WDS"
    else if t == 7
    then codes "Mesh Point"
    else if t == 8
    then codes "P2P Client"
    else if t == 9
    then codes "P2P Go"
    else codes "Unknown"

-- `Interface`. An absent MAC is empty.
pub record Interface : Type 0 where
  pub index : ℕ
  pub name : Bytes
  pub wiphy : ℕ
  pub typ : ℕ
  pub mac : Bytes
  pub ssid : Bytes
  pub frequency_mhz : ℕ
  pub channel_width : ℤ
  pub center_freq1 : ℕ
  pub tx_power_mbm : ℤ

module _ (decode : Decoder) (is_big : Bool) where
  abbrev word : Bytes → ℕ
  word = u32 is_big

  interface_attr : Attr → Interface → Option Interface
  unfolding cstring
  interface_attr (t, v) i = some (
      if t == 3
      then record i { index = word v }
      else if t == 4
      then record i { name = cstring v }
      else if t == 1
      then record i { wiphy = word v }
      else if t == 5
      then record i { typ = word v }
      else if t == 6
      then record i { mac = six_bytes v i.mac }
      else if t == 52
      then record i { ssid = v }
      else if t == 38
      then record i { frequency_mhz = word v }
      else if t == 159
      then record i { channel_width = pos (word v) }
      else if t == 160
      then record i { center_freq1 = word v }
      else if t == 98
      then record i { tx_power_mbm = int32 (word v) }
      else i)

  -- `parseInterface`.
  unfoldable pub parse_interface : Bytes → Option Interface
  unfolding fold_attrs interface_attr
  parse_interface b = fold_attrs decode interface_attr b (record {
    index = 0;
    name = [];
    wiphy = 0;
    typ = 0;
    mac = [];
    ssid = [];
    frequency_mhz = 0;
    channel_width = negsuc 0;
    center_freq1 = 0;
    tx_power_mbm = pos 0;
  })

  -- The loop of `Interfaces` over the messages of a dump.
  unfoldable pub interfaces : List Bytes → Option (List Interface)
  unfolding parse_interface
  interfaces [] = some []
  interfaces (b ∷ bs) = elim (parse_interface b) [
    | none ↦ none
    | some i ↦ elim (interfaces bs) [
      | none ↦ none
      | some is ↦ some (if i.index == 0 then is else i ∷ is)
    ]
  ]
