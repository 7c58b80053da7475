-- ===== src/Nl80211/Wiphy.antt =====
-- internal/nl80211/wiphy.go: the radios of a dump.
pub mod Split
use perch_apd.Base.{
  ℕ, suc, ◌+◌, ◌%◌, Bool, true, false, not, ◌&&◌, ◌||◌, Option, none, some, List, [], ◌∷◌, ◌++◌,
  map, ◌==◌, nat_eq, bytes_eq, ltb, leb, if◌then◌else◌, Bytes, any,
}
use Prim.Native.Nat.{bit_or}
use perch_apd.Base.Int.{ℤ, pos, negsuc}
use perch_apd.Base.Sort.{sort}
use perch_apd.Nl80211.{Attr, Decoder, run_attrs, fold_attrs, fold_lenient, u32, cstring}
use perch_apd.Nl80211.Radio.{WiphyFreq, WiphyBand, IfaceLimit, IfaceCombination, Wiphy, no_wiphy}
use perch_apd.Nl80211.Combinations.{parse_iftype_flags, parse_combinations}
use perch_apd.Nl80211.Bands.{parse_bands}

abbrev pub has_wiphy : ℕ → List Wiphy → Bool
has_wiphy i = any (λ w. w.index == i)

unfoldable pub add_wiphy : ℕ → List Wiphy → List Wiphy
add_wiphy i ws = if has_wiphy i ws then ws else ws ++ no_wiphy i ∷ []

-- What the first loop over a message knows: `w`, `rest`, and the wiphys.
pub record Scan : Type 0 where
  pub current : Option ℕ
  pub rest : List Attr
  pub wiphys : List Wiphy

-- The rest of a message, on the wiphy with this index.
unfoldable pub change_wiphy : ℕ → (Wiphy → Option Wiphy) → List Wiphy → Option (List Wiphy)
change_wiphy i f [] = some []
change_wiphy i f (w ∷ ws) =
    let rest = change_wiphy i f ws in
    if w.index == i
    then elim (f w) [ none ↦ none | some w' ↦ some (w' ∷ ws) ]
    else elim rest [ none ↦ none | some ws' ↦ some (w ∷ ws') ]

by_band : WiphyBand → WiphyBand → Bool
by_band a b = leb a.band b.band

by_index : Wiphy → Wiphy → Bool
by_index a b = leb a.index b.index

with_sorted_bands : Wiphy → Wiphy
unfolding by_band sort
with_sorted_bands w = record w { bands = sort by_band w.bands }

module _ (decode : Decoder) (is_big : Bool) where
  abbrev word : Bytes → ℕ
  word = u32 is_big

  -- The `switch` on one attribute of a wiphy, whose bands are in the order of their first message.
  unfoldable pub wiphy_attr : Attr → Wiphy → Option Wiphy
  unfolding parse_bands parse_combinations parse_iftype_flags cstring
  wiphy_attr (t, v) w =
      if t == 2
      then some (record w { name = cstring v })
      else if t == 32
      then some (record w { if_types = w.if_types ++ parse_iftype_flags decode is_big v })
      else if t == 216
      then some (record w { self_managed_reg = true })
      else if t == 113
      then some (record w { antenna_avail_tx = word v })
      else if t == 114
      then some (record w { antenna_avail_rx = word v })
      else if t == 120
      then elim (parse_combinations decode is_big v) [
        | none ↦ none
        | some cs ↦ some (record w { combinations = w.combinations ++ cs })
      ]
      else if t == 22
      then elim (parse_bands decode is_big v w.bands) [
        | none ↦ none
        | some bs ↦ some (record w { bands = bs })
      ]
      else some w

  scan_attr : Attr → Scan → Scan
  unfolding add_wiphy
  scan_attr (t, v) s =
      if t == 1
      then record s { current = some (word v); wiphys = add_wiphy (word v) s.wiphys }
      else record s { rest = s.rest ++ (t, v) ∷ [] }

  unfoldable pub scan : List Attr → Scan → Scan
  unfolding scan_attr
  scan [] s = s
  scan (a ∷ as') s = scan as' (scan_attr a s)

  apply_rest : Scan → Option (List Wiphy)
  unfolding change_wiphy wiphy_attr
  apply_rest s = elim s.current [
    | none ↦ some s.wiphys
    | some i ↦ change_wiphy i (run_attrs wiphy_attr s.rest) s.wiphys
  ]

  read_message : List Attr × Bool → List Wiphy → Option (List Wiphy)
  unfolding apply_rest scan
  read_message (attrs, fine) ws =
      if fine
      then apply_rest (scan attrs (record { current = none; rest = []; wiphys = ws }))
      else none

  -- The loop over the messages.
  unfoldable pub read_messages : List Bytes → List Wiphy → Option (List Wiphy)
  unfolding read_message
  read_messages [] ws = some ws
  read_messages (b ∷ bs) ws = elim (decode b) [
    | none ↦ none
    | some m ↦ elim (read_message m ws) [ none ↦ none | some ws' ↦ read_messages bs ws' ]
  ]

  -- `parseWiphys`: the wiphys and their bands, each in the order of their numbers.
  unfoldable pub parse_wiphys : List Bytes → Option (List Wiphy)
  unfolding read_messages with_sorted_bands by_index sort
  parse_wiphys msgs = elim (read_messages msgs []) [
    | none ↦ none
    | some ws ↦ some (sort by_index (map with_sorted_bands ws))
  ]
