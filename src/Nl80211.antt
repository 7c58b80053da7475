-- ===== src/Nl80211.antt =====
-- internal/nl80211: the parsers of nl80211's answers. The netlink package's attribute decoder and the
-- byte order are parameters, and a Go `int` holds every `uint32`.
pub mod Bands
pub mod Combinations
pub mod Link
pub mod Radio
pub mod Regulatory
pub mod Stations
pub mod Survey
pub mod Wiphy
mod Examples
use perch_apd.Base.{
  ℕ, suc, ◌+◌, ◌*◌, ◌-◌, ◌/◌, ◌^◌, Bool, true, false, not, ◌&&◌, ◌||◌, Option, none, some, List, [],
  ◌∷◌, ◌++◌, ◌==◌, nat_eq, ltb, leb, if◌then◌else◌, Bytes, codes, length, take,
}
use perch_apd.Base.Int.{ℤ, pos, negsuc}
use perch_apd.Base.Text.{trim_right}

-- One attribute: `Type()` and `Bytes()`.
abbrev pub Attr : Type 0
Attr = ℕ × Bytes

-- `netlink.NewAttributeDecoder` and its loop: none for an error at once, otherwise the attributes that
-- `Next` gives and whether `Err` is nil behind them.
abbrev pub Decoder : Type 0
Decoder = Bytes → Option (List Attr × Bool)

module _ {ℓ} {S : Type ℓ} where
  -- A loop over attributes that an error ends.
  abbrev pub run_attrs : (Attr → S → Option S) → List Attr → S → Option S
  run_attrs f [] s = some s
  run_attrs f (a ∷ as') s = elim (f a s) [ none ↦ none | some s' ↦ run_attrs f as' s' ]

  checked : Bool → Option S → Option S
  checked true r = r
  checked false r = none

  -- Decode, loop, and ask for the decoder's error.
  unfoldable pub fold_attrs : Decoder → (Attr → S → Option S) → Bytes → S → Option S
  unfolding checked
  fold_attrs decode f b s = elim (decode b) [
    | none ↦ none
    | some (attrs, fine) ↦ checked fine (run_attrs f attrs s)
  ]

  abbrev pub loop_attrs : (Attr → S → S) → List Attr → S → S
  loop_attrs f [] s = s
  loop_attrs f (a ∷ as') s = loop_attrs f as' (f a s)

  -- The same where errors are passed over.
  unfoldable pub fold_lenient : Decoder → (Attr → S → S) → Bytes → S → S
  fold_lenient decode f b s = elim (decode b) [ none ↦ s | some (attrs, _) ↦ loop_attrs f attrs s ]

-- The number of the bytes, the lowest first or last.
abbrev little : Bytes → ℕ
little [] = 0
little (b ∷ s) = b + 256 * little s

abbrev big : ℕ → Bytes → ℕ
big n [] = n
big n (b ∷ s) = big (n * 256 + b) s

-- `binary.NativeEndian` on this many bytes.
unfoldable pub native : Bool → ℕ → Bytes → ℕ
native is_big n b = if is_big then big 0 (take n b) else little (take n b)

-- `u32`.
unfoldable pub u32 : Bool → Bytes → ℕ
unfolding native
u32 is_big [] = 0
u32 is_big (b ∷ s) =
    if leb 3 (length s)
    then native is_big 4 (b ∷ s)
    else if leb 1 (length s)
    then native is_big 2 (b ∷ s)
    else b

-- `u64`.
unfoldable pub u64 : Bool → Bytes → ℕ
unfolding native u32
u64 is_big b = if leb 8 (length b) then native is_big 8 b else u32 is_big b

abbrev is_zero : ℕ → Bool
is_zero c = c == 0

-- `cstring`.
unfoldable pub cstring : Bytes → Bytes
unfolding trim_right
cstring = trim_right is_zero

-- `int8` of a byte, and `int32` of a `uint32`.
abbrev pub int8 : ℕ → ℤ
int8 b = if ltb b 128 then pos b else negsuc (255 - b)

abbrev pub int32 : ℕ → ℤ
int32 w = if ltb w 2147483648 then pos w else negsuc (4294967295 - w)

-- A hardware address; another value is passed over.
abbrev pub six_bytes : Bytes → Bytes → Bytes
six_bytes v old = if length v == 6 then v else old

-- A signed byte, if there is one.
abbrev pub first_int8 : Bytes → Option ℤ → Option ℤ
first_int8 [] old = old
first_int8 (b ∷ s) old = some (int8 b)

-- `FreqToChannel`, of a frequency that is not negative. Below 2407 MHz the division rounds towards 0.
unfoldable pub freq_to_channel : ℕ → ℤ
freq_to_channel freq =
    if freq == 0
    then pos 0
    else if freq == 2484
    then pos 14
    else if ltb freq 2484
    then (if leb 2407 freq
        then pos ((freq - 2407) / 5)
        else if ltb (2407 - freq) 5
        then pos 0
        else negsuc ((2407 - freq) / 5 - 1))
    else if leb 4910 freq && leb freq 4980
    then pos ((freq - 4000) / 5)
    else if ltb freq 5950
    then (if leb 5000 freq
        then pos ((freq - 5000) / 5)
        else if ltb (5000 - freq) 5
        then pos 0
        else negsuc ((5000 - freq) / 5 - 1))
    else if leb freq 45000
    then pos ((freq - 5950) / 5)
    else if leb 58320 freq && leb freq 70200
    then pos ((freq - 56160) / 2160)
    else pos 0

-- `Band`.
unfoldable pub band : ℕ → Bytes
band freq =
    if freq == 0
    then []
    else if ltb freq 3000
    then codes "2.4"
    else if ltb freq 5900
    then codes "5"
    else if ltb freq 58000
    then codes "6"
    else codes "60"

-- `ChannelWidthMHz`.
unfoldable pub channel_width_mhz : ℕ → ℕ
channel_width_mhz w =
    if leb w 1
    then 20
    else if w == 2
    then 40
    else if w == 3
    then 80
    else if w == 4 || w == 5
    then 160
    else if w == 6
    then 5
    else if w == 7
    then 10
    else if w == 13
    then 320
    else 0

-- `DFSRegionName`.
unfoldable pub dfs_region_name : ℕ → Bytes
dfs_region_name r =
    if r == 1
    then codes "FCC"
    else if r == 2
    then codes "ETSI"
    else if r == 3
    then codes "JP"
    else []
