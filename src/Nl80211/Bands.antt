-- ===== src/Nl80211/Bands.antt =====
-- internal/nl80211/wiphy.go: the channels and capabilities of the bands.
pub mod Cut
use perch_apd.Base.{
  ℕ, ◌%◌, Bool, true, false, Option, none, some, List, [], ◌∷◌, ◌++◌, ◌==◌, nat_eq, bytes_eq, ltb,
  if◌then◌else◌, Bytes,
}
use Prim.Native.Nat.{bit_or}
use perch_apd.Nl80211.{Attr, Decoder, fold_attrs, u32}
use perch_apd.Nl80211.Radio.{WiphyFreq, WiphyBand}

module _ (decode : Decoder) (is_big : Bool) where
  abbrev word : Bytes → ℕ
  word = u32 is_big

  freq_attr : Attr → WiphyFreq → Option WiphyFreq
  freq_attr (t, v) f = some (
      if t == 1
      then record f { mhz = word v }
      else if t == 2
      then record f { disabled = true }
      else if t == 3
      then record f { no_ir = true }
      else if t == 5
      then record f { radar = true }
      else if t == 6
      then record f { max_tx_power_mbm = word v }
      else if t == 7
      then record f { dfs_state = word v }
      else if t == 13
      then record f { cac_time_ms = word v }
      else if t == 14
      then record f { indoor_only = true }
      else if t == 9
      then record f { no_ht40_minus = true }
      else if t == 10
      then record f { no_ht40_plus = true }
      else if t == 11
      then record f { no_80mhz = true }
      else if t == 12
      then record f { no_160mhz = true }
      else if t == 26
      then record f { no_320mhz = true }
      else if t == 19
      then record f { no_he = true }
      else if t == 27
      then record f { no_eht = true }
      else f)

  abbrev no_freq : WiphyFreq
  no_freq = record {
    mhz = 0;
    disabled = false;
    no_ir = false;
    radar = false;
    indoor_only = false;
    max_tx_power_mbm = 0;
    dfs_state = 0;
    cac_time_ms = 0;
    no_ht40_minus = false;
    no_ht40_plus = false;
    no_80mhz = false;
    no_160mhz = false;
    no_320mhz = false;
    no_he = false;
    no_eht = false;
  }

  freqs_attr : Attr → List WiphyFreq → Option (List WiphyFreq)
  unfolding fold_attrs freq_attr
  freqs_attr (t, v) out = elim (fold_attrs decode freq_attr v no_freq) [
    | none ↦ none
    | some f ↦ some (if ltb 0 f.mhz then out ++ f ∷ [] else out)
  ]

  -- `parseFreqs`.
  unfoldable pub parse_freqs : Bytes → Option (List WiphyFreq)
  unfolding fold_attrs freqs_attr
  parse_freqs b = fold_attrs decode freqs_attr b []

  abbrev with_he : Bytes → WiphyBand → WiphyBand
  with_he [] b = b
  with_he (c ∷ s) b = record b { has_he = true; he_phy_cap0 = bit_or b.he_phy_cap0 c }

  abbrev with_eht : Bytes → WiphyBand → WiphyBand
  with_eht [] b = b
  with_eht (c ∷ s) b = record b { has_eht = true; eht_phy_cap0 = bit_or b.eht_phy_cap0 c }

  iftype_attr : Attr → WiphyBand → Option WiphyBand
  iftype_attr (t, v) b = some (if t == 3 then with_he v b else if t == 9 then with_eht v b else b)

  -- `parseIftypeData`.
  unfoldable pub parse_iftype_data : Bytes → WiphyBand → Option WiphyBand
  unfolding fold_attrs iftype_attr
  parse_iftype_data = fold_attrs decode (λ a b. fold_attrs decode iftype_attr a.1 b)

  band_attr : Attr → WiphyBand → Option WiphyBand
  unfolding parse_freqs parse_iftype_data
  band_attr (t, v) b =
      if t == 1
      then elim (parse_freqs v) [
        | none ↦ none
        | some fs ↦ some (record b { freqs = b.freqs ++ fs })
      ]
      else if t == 4
      then some (record b { ht_capa = word v % 65536 })
      else if t == 8
      then some (record b { vht_capa = word v })
      else if t == 9
      then parse_iftype_data v b
      else some b

  abbrev no_band : ℕ → WiphyBand
  no_band i = record {
    band = i;
    freqs = [];
    ht_capa = 0;
    vht_capa = 0;
    he_phy_cap0 = 0;
    eht_phy_cap0 = 0;
    has_he = false;
    has_eht = false;
  }

  -- A change of the entry of a band, which is made where there is none.
  change_band : ℕ → (WiphyBand → Option WiphyBand) → List WiphyBand → Option (List WiphyBand)
  change_band i f [] = elim (f (no_band i)) [ none ↦ none | some b ↦ some (b ∷ []) ]
  change_band i f (b ∷ bs) =
      let rest = change_band i f bs in
      if b.band == i
      then elim (f b) [ none ↦ none | some b' ↦ some (b' ∷ bs) ]
      else elim rest [ none ↦ none | some bs' ↦ some (b ∷ bs') ]

  bands_attr : Attr → List WiphyBand → Option (List WiphyBand)
  unfolding change_band fold_attrs band_attr
  bands_attr (t, v) acc = change_band t (fold_attrs decode band_attr v) acc

  -- `parseBands`.
  unfoldable pub parse_bands : Bytes → List WiphyBand → Option (List WiphyBand)
  unfolding fold_attrs bands_attr
  parse_bands = fold_attrs decode bands_attr
