-- ===== src/Nl80211/Regulatory.antt =====
-- internal/nl80211/wiphy.go: the regulatory domains.
use perch_apd.Base.{
  ℕ, Bool, Option, none, some, List, [], ◌∷◌, ◌++◌, ◌==◌, nat_eq, bytes_eq, if◌then◌else◌, Bytes,
}
use perch_apd.Base.Int.{ℤ, pos, negsuc}
use perch_apd.Nl80211.{Attr, Decoder, fold_attrs, u32, cstring}

-- `RegDomain`.
pub record RegDomain : Type 0 where
  pub wiphy : ℤ
  pub alpha2 : Bytes
  pub dfs_region : ℕ

module _ (decode : Decoder) (is_big : Bool) where
  abbrev word : Bytes → ℕ
  word = u32 is_big

  abbrev first_byte : Bytes → ℕ → ℕ
  first_byte [] d = d
  first_byte (b ∷ s) d = b

  reg_attr : Attr → RegDomain → Option RegDomain
  unfolding cstring
  reg_attr (t, v) r = some (
      if t == 1
      then record r { wiphy = pos (word v) }
      else if t == 33
      then record r { alpha2 = cstring v }
      else if t == 146
      then record r { dfs_region = first_byte v r.dfs_region }
      else r)

  reg_messages : List Bytes → List RegDomain → Option (List RegDomain)
  unfolding fold_attrs reg_attr
  reg_messages [] out = some out
  reg_messages (b ∷ bs) out =
      elim (fold_attrs decode reg_attr b
        (record { wiphy = negsuc 0; alpha2 = []; dfs_region = 0 })) [
          | none ↦ none
          | some r ↦ reg_messages bs (if r.alpha2 == [] then out else out ++ r ∷ [])
        ]

  -- `parseRegDomains`.
  unfoldable pub parse_reg_domains : List Bytes → Option (List RegDomain)
  unfolding reg_messages
  parse_reg_domains msgs = reg_messages msgs []
