-- ===== src/Nl80211/Stations.antt =====
-- internal/nl80211/nl80211.go: the stations of an interface.
use perch_apd.Base.{
  ℕ, ◌/◌, ◌%◌, ◌^◌, Bool, true, false, not, ◌&&◌, Option, none, some, List, [], ◌∷◌, ◌==◌, nat_eq,
  bytes_eq, leb, if◌then◌else◌, Bytes, length, drop,
}
use perch_apd.Base.Int.{ℤ}
use perch_apd.Nl80211.{
  Attr, Decoder, fold_attrs, fold_lenient, u32, u64, native, six_bytes, first_int8,
}

-- `Station`, its optional values with the flag that says whether they are there.
pub record Station : Type 0 where
  pub mac : Bytes
  pub inactive_ms : ℕ
  pub connected_seconds : Option ℕ
  pub rx_bytes : ℕ
  pub tx_bytes : ℕ
  pub has_bytes : Bool
  pub rx_packets : ℕ
  pub tx_packets : ℕ
  pub has_packets : Bool
  pub tx_retries : ℕ
  pub tx_failed : ℕ
  pub signal : Option ℤ
  pub signal_avg : Option ℤ
  pub tx_bitrate : Option ℕ
  pub rx_bitrate : Option ℕ
  pub tx_bitrate16 : ℕ
  pub has_tx_bitrate16 : Bool
  pub expected_throughput : Option ℕ
  pub authorized : Bool
  pub authenticated : Bool
  pub associated : Bool
  pub has_flags : Bool

-- What `parseRate` gives.
pub record Rate : Type 0 where
  pub r32 : ℕ
  pub r16 : ℕ
  pub has32 : Bool
  pub has16 : Bool

-- What the loop of `parseStaInfo` keeps beside the station.
pub record Info : Type 0 where
  pub st : Station
  pub rx32 : ℕ
  pub tx32 : ℕ
  pub have32 : Bool

-- Bit `k` of a number.
abbrev has_bit : ℕ → ℕ → Bool
has_bit k n = n / 2 ^ k % 2 == 1

module _ (decode : Decoder) (is_big : Bool) where
  abbrev word : Bytes → ℕ
  word = u32 is_big

  rate_attr : Attr → Rate → Rate
  rate_attr (t, v) r =
      if t == 5
      then record r { r32 = word v; has32 = true }
      else if t == 1 && leb 2 (length v)
      then record r { r16 = native is_big 2 v; has16 = true }
      else r

  -- `parseRate`.
  unfoldable pub parse_rate : Bytes → Rate
  unfolding fold_lenient rate_attr
  parse_rate b =
      fold_lenient decode rate_attr b (record { r32 = 0; r16 = 0; has32 = false; has16 = false })

  abbrev rate_of : Rate → Option ℕ → Option ℕ
  rate_of r old = if r.has32 then some r.r32 else if r.has16 then some r.r16 else old

  with_tx_rate : Rate → Station → Station
  with_tx_rate r s = record s {
    tx_bitrate = rate_of r s.tx_bitrate;
    tx_bitrate16 = r.r16;
    has_tx_bitrate16 = r.has16;
  }

  with_flags : ℕ → ℕ → Station → Station
  with_flags mask set s = record s {
    authorized = has_bit 1 mask && has_bit 1 set;
    authenticated = has_bit 5 mask && has_bit 5 set;
    associated = has_bit 7 mask && has_bit 7 set;
    has_flags = true;
  }

  -- The attributes that only set a field of the station.
  station_field : ℕ → Bytes → Station → Station
  unfolding with_tx_rate parse_rate with_flags
  station_field t v s =
      if t == 1
      then record s { inactive_ms = word v }
      else if t == 16
      then record s { connected_seconds = some (word v) }
      else if t == 23
      then record s { rx_bytes = u64 is_big v; has_bytes = true }
      else if t == 24
      then record s { tx_bytes = u64 is_big v; has_bytes = true }
      else if t == 9
      then record s { rx_packets = word v; has_packets = true }
      else if t == 10
      then record s { tx_packets = word v; has_packets = true }
      else if t == 11
      then record s { tx_retries = word v }
      else if t == 12
      then record s { tx_failed = word v }
      else if t == 7
      then record s { signal = first_int8 v s.signal }
      else if t == 13
      then record s { signal_avg = first_int8 v s.signal_avg }
      else if t == 8
      then with_tx_rate (parse_rate v) s
      else if t == 14
      then record s { rx_bitrate = rate_of (parse_rate v) s.rx_bitrate }
      else if t == 27
      then record s { expected_throughput = some (word v) }
      else if t == 17 && leb 8 (length v)
      then with_flags (native is_big 4 v) (native is_big 4 (drop 4 v)) s
      else s

  unfoldable pub info_attr : Attr → Info → Option Info
  unfolding station_field
  info_attr (t, v) i = some (
      if t == 2
      then record i { rx32 = word v; have32 = true }
      else if t == 3
      then record i { tx32 = word v; have32 = true }
      else record i { st = station_field t v i.st })

  -- Behind the loop: the 32-bit counters, where there are none of 64 bits.
  unfoldable pub settle_bytes : Info → Station
  settle_bytes i =
      if not i.st.has_bytes && i.have32
      then record i.st { rx_bytes = i.rx32; tx_bytes = i.tx32; has_bytes = true }
      else i.st

  -- `parseStaInfo`.
  unfoldable pub parse_sta_info : Bytes → Station → Option Station
  unfolding fold_attrs info_attr settle_bytes
  parse_sta_info b st =
      elim (fold_attrs decode info_attr b
        (record { st = st; rx32 = 0; tx32 = 0; have32 = false })) [
          | none ↦ none
          | some i ↦ some (settle_bytes i)
        ]

  station_attr : Attr → Station → Option Station
  unfolding parse_sta_info
  station_attr (t, v) s =
      if t == 6
      then some (record s { mac = six_bytes v s.mac })
      else if t == 21
      then parse_sta_info v s
      else some s

  abbrev pub no_station : Station
  no_station = record {
    mac = [];
    inactive_ms = 0;
    connected_seconds = none;
    rx_bytes = 0;
    tx_bytes = 0;
    has_bytes = false;
    rx_packets = 0;
    tx_packets = 0;
    has_packets = false;
    tx_retries = 0;
    tx_failed = 0;
    signal = none;
    signal_avg = none;
    tx_bitrate = none;
    rx_bitrate = none;
    tx_bitrate16 = 0;
    has_tx_bitrate16 = false;
    expected_throughput = none;
    authorized = false;
    authenticated = false;
    associated = false;
    has_flags = false;
  }

  -- `parseStation`.
  unfoldable pub parse_station : Bytes → Option Station
  unfolding fold_attrs station_attr
  parse_station b = fold_attrs decode station_attr b no_station

  -- The loop of `Stations` over the messages of a dump.
  unfoldable pub stations : List Bytes → Option (List Station)
  unfolding parse_station
  stations [] = some []
  stations (b ∷ bs) = elim (parse_station b) [
    | none ↦ none
    | some s ↦ elim (stations bs) [
      | none ↦ none
      | some ss ↦ some (if s.mac == [] then ss else s ∷ ss)
    ]
  ]
