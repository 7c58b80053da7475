-- ===== src/Nl80211/Survey.antt =====
-- internal/nl80211/nl80211.go: the survey of the channels.
use perch_apd.Base.{
  ℕ, Bool, true, false, Option, none, some, List, [], ◌∷◌, ◌==◌, nat_eq, bytes_eq, if◌then◌else◌,
  Bytes,
}
use perch_apd.Base.Int.{ℤ}
use perch_apd.Nl80211.{Attr, Decoder, fold_attrs, u32, u64, first_int8}

-- `SurveyEntry`.
pub record SurveyEntry : Type 0 where
  pub frequency_mhz : ℕ
  pub noise : Option ℤ
  pub in_use : Bool
  pub time_ms : ℕ
  pub busy_ms : ℕ
  pub rx_ms : ℕ
  pub tx_ms : ℕ

module _ (decode : Decoder) (is_big : Bool) where
  abbrev word : Bytes → ℕ
  word = u32 is_big

  survey_field : Attr → SurveyEntry → Option SurveyEntry
  survey_field (t, v) e = some (
      if t == 1
      then record e { frequency_mhz = word v }
      else if t == 2
      then record e { noise = first_int8 v e.noise }
      else if t == 3
      then record e { in_use = true }
      else if t == 4
      then record e { time_ms = u64 is_big v }
      else if t == 5
      then record e { busy_ms = u64 is_big v }
      else if t == 7
      then record e { rx_ms = u64 is_big v }
      else if t == 8
      then record e { tx_ms = u64 is_big v }
      else e)

  survey_attr : Attr → SurveyEntry × Bool → Option (SurveyEntry × Bool)
  unfolding fold_attrs survey_field
  survey_attr (t, v) (e, found) =
      if t == 84
      then elim (fold_attrs decode survey_field v e) [ none ↦ none | some e' ↦ some (e', true) ]
      else some (e, found)

  -- `parseSurvey`: the entry, and whether there is one.
  unfoldable pub parse_survey : Bytes → Option (SurveyEntry × Bool)
  unfolding fold_attrs survey_attr
  parse_survey b = fold_attrs decode survey_attr b (
    record {
      frequency_mhz = 0;
      noise = none;
      in_use = false;
      time_ms = 0;
      busy_ms = 0;
      rx_ms = 0;
      tx_ms = 0;
    },
    false,
  )

  -- The loop of `Survey`.
  unfoldable pub survey : List Bytes → Option (List SurveyEntry)
  unfolding parse_survey
  survey [] = some []
  survey (b ∷ bs) = elim (parse_survey b) [
    | none ↦ none
    | some (e, found) ↦ elim (survey bs) [
      | none ↦ none
      | some es ↦ some (if found then e ∷ es else es)
    ]
  ]
