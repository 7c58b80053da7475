-- ===== src/Nl80211/Combinations.antt =====
-- internal/nl80211/wiphy.go: the interface types and their combinations.
use perch_apd.Base.{
  ℕ, Bool, Option, none, some, List, [], ◌∷◌, ◌++◌, ◌==◌, nat_eq, bytes_eq, if◌then◌else◌, Bytes,
}
use perch_apd.Nl80211.{Attr, Decoder, fold_attrs, fold_lenient, u32}
use perch_apd.Nl80211.Radio.{IfaceLimit, IfaceCombination}

module _ (decode : Decoder) (is_big : Bool) where
  abbrev word : Bytes → ℕ
  word = u32 is_big

  -- `parseIftypeFlags`.
  unfoldable pub parse_iftype_flags : Bytes → List ℕ
  unfolding fold_lenient
  parse_iftype_flags b = fold_lenient decode (λ a out. out ++ a.0 ∷ []) b []

  limit_attr : Attr → IfaceLimit → Option IfaceLimit
  unfolding parse_iftype_flags
  limit_attr (t, v) l = some (
      if t == 1
      then record l { limit = word v }
      else if t == 2
      then record l { types = parse_iftype_flags v }
      else l)

  abbrev no_limit : IfaceLimit
  no_limit = record { limit = 0; types = [] }

  limits_attr : Attr → IfaceCombination → Option IfaceCombination
  unfolding fold_attrs limit_attr
  limits_attr (t, v) c = elim (fold_attrs decode limit_attr v no_limit) [
    | none ↦ none
    | some l ↦ some (record c { limits = c.limits ++ l ∷ [] })
  ]

  combination_attr : Attr → IfaceCombination → Option IfaceCombination
  unfolding fold_attrs limits_attr
  combination_attr (t, v) c =
      if t == 1
      then fold_attrs decode limits_attr v c
      else if t == 2
      then some (record c { max_num = word v })
      else if t == 4
      then some (record c { num_channels = word v })
      else if t == 5
      then some (record c { radar_detect_widths = word v })
      else some c

  abbrev no_combination : IfaceCombination
  no_combination = record { limits = []; max_num = 0; num_channels = 0; radar_detect_widths = 0 }

  combinations_attr : Attr → List IfaceCombination → Option (List IfaceCombination)
  unfolding fold_attrs combination_attr
  combinations_attr (t, v) out = elim (fold_attrs decode combination_attr v no_combination) [
    | none ↦ none
    | some c ↦ some (out ++ c ∷ [])
  ]

  -- `parseCombinations`.
  unfoldable pub parse_combinations : Bytes → Option (List IfaceCombination)
  unfolding fold_attrs combinations_attr
  parse_combinations b = fold_attrs decode combinations_attr b []
