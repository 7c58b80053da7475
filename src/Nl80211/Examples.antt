-- ===== src/Nl80211/Examples.antt =====
-- internal/nl80211: the parsers on small answers.
use perch_apd.Base.{
  ℕ, zero, suc, Bool, true, false, some, List, [], ◌∷◌, ◌≡◌, refl, Bytes, codes, take, drop, length,
  ◌+◌, ◌++◌, inr,
}
use perch_apd.Nl80211.{Attr, Decoder}
use perch_apd.Nl80211.Wiphy.{parse_wiphys}
use perch_apd.Nl80211.Wiphy.Split.{IsCutWiphy, parse_wiphys-split}

-- Attributes of a type, a length and a value, without padding.
abbrev attributes : ℕ → Bytes → List Attr × Bool
attributes k [] = ([], true)
attributes zero (_ ∷ _) = ([], false)
attributes (suc k) (_ ∷ []) = ([], false)
attributes (suc k) (t ∷ n ∷ s) =
    let rest = attributes k (drop n s) in ((t, take n s) ∷ rest.0, rest.1)

abbrev small_decoder : Decoder
small_decoder b = some (attributes (length b) b)

-- A radio's number, and what two messages tell of it.
abbrev number : Bytes
number = 7 ∷ []

abbrev named : Attr
named = (2, codes "phy")

abbrev antennas : Attr
antennas = (113, 3 ∷ 0 ∷ 0 ∷ 0 ∷ [])

-- Channels 1 and 6 of the first band, the first or the second of them, or both.
abbrev channel_1 : Bytes
channel_1 = 0 ∷ 4 ∷ 1 ∷ 2 ∷ 108 ∷ 9 ∷ []

abbrev channel_6 : Bytes
channel_6 = 1 ∷ 4 ∷ 1 ∷ 2 ∷ 133 ∷ 9 ∷ []

abbrev band_with : Bytes → Bytes
band_with s = 0 ∷ (2 + length s) ∷ 1 ∷ length s ∷ s

abbrev freqs_of : Bytes → List Attr
freqs_of s = (1, s) ∷ []

abbrev bands_of : Bytes → List Attr
bands_of s = (0, 1 ∷ length s ∷ s) ∷ []

-- A message of the radio, with these bytes behind its number.
abbrev radio_7 : Bytes → Bytes
radio_7 s = 1 ∷ 1 ∷ 7 ∷ s

abbrev name_bytes : Bytes
name_bytes = 2 ∷ 3 ∷ codes "phy"

abbrev antenna_bytes : Bytes
antenna_bytes = 113 ∷ 4 ∷ 3 ∷ 0 ∷ 0 ∷ 0 ∷ []

abbrev bands_bytes : Bytes → Bytes
bands_bytes s = 22 ∷ (4 + length s) ∷ band_with s

abbrev both_channels : Bytes
both_channels = channel_1 ++ channel_6

abbrev whole_message : Bytes
whole_message = radio_7 (name_bytes ++ (bands_bytes both_channels ++ antenna_bytes))

abbrev first_message : Bytes
first_message = radio_7 (name_bytes ++ bands_bytes channel_1)

abbrev second_message : Bytes
second_message = radio_7 (bands_bytes channel_6 ++ antenna_bytes)

-- Cut between the two channels of the band.
channels_cut :
    IsCutWiphy small_decoder false
      (named ∷ (22, band_with both_channels) ∷ antennas ∷ [])
      (named ∷ (22, band_with channel_1) ∷ [])
      ((22, band_with channel_6) ∷ antennas ∷ [])
channels_cut = inr (
  named ∷ [],
  antennas ∷ [],
  22,
  band_with both_channels,
  band_with channel_1,
  band_with channel_6,
  bands_of both_channels,
  bands_of channel_1,
  bands_of channel_6,
  refl,
  refl,
  refl,
  refl,
  refl,
  refl,
  refl,
  inr (
    [],
    [],
    0,
    1 ∷ 12 ∷ both_channels,
    1 ∷ 6 ∷ channel_1,
    1 ∷ 6 ∷ channel_6,
    freqs_of both_channels,
    freqs_of channel_1,
    freqs_of channel_6,
    refl,
    refl,
    refl,
    refl,
    refl,
    refl,
    refl,
    inr (
      [],
      [],
      1,
      both_channels,
      channel_1,
      channel_6,
      (0, 1 ∷ 2 ∷ 108 ∷ 9 ∷ []) ∷ (1, 1 ∷ 2 ∷ 133 ∷ 9 ∷ []) ∷ [],
      (0, 1 ∷ 2 ∷ 108 ∷ 9 ∷ []) ∷ [],
      (1, 1 ∷ 2 ∷ 133 ∷ 9 ∷ []) ∷ [],
      refl,
      refl,
      refl,
      refl,
      refl,
      refl,
      refl,
      refl,
    ),
  ),
)

parse_wiphys-split_example :
    parse_wiphys small_decoder false (whole_message ∷ [])
    ≡ parse_wiphys small_decoder false (first_message ∷ second_message ∷ [])
parse_wiphys-split_example =
    parse_wiphys-split small_decoder false whole_message first_message second_message number
      (named ∷ (22, band_with both_channels) ∷ antennas ∷ [])
      (named ∷ (22, band_with channel_1) ∷ []) ((22, band_with channel_6) ∷ antennas ∷ [])
      channels_cut refl refl refl refl refl refl [] []
