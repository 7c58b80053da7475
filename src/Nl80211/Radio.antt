-- ===== src/Nl80211/Radio.antt =====
-- internal/nl80211/wiphy.go: what is known of a radio, and how many interfaces it can run.
use perch_apd.Base.{
  ℕ, ◌+◌, Bool, false, ◌&&◌, Option, none, some, List, [], ◌∷◌, ◌==◌, nat_eq, bytes_eq, ltb,
  if◌then◌else◌, Bytes, any,
}

-- `WiphyFreq`.
pub record WiphyFreq : Type 0 where
  pub mhz : ℕ
  pub disabled : Bool
  pub no_ir : Bool
  pub radar : Bool
  pub indoor_only : Bool
  pub max_tx_power_mbm : ℕ
  pub dfs_state : ℕ
  pub cac_time_ms : ℕ
  pub no_ht40_minus : Bool
  pub no_ht40_plus : Bool
  pub no_80mhz : Bool
  pub no_160mhz : Bool
  pub no_320mhz : Bool
  pub no_he : Bool
  pub no_eht : Bool

-- `WiphyBand`.
pub record WiphyBand : Type 0 where
  pub band : ℕ
  pub freqs : List WiphyFreq
  pub ht_capa : ℕ
  pub vht_capa : ℕ
  pub he_phy_cap0 : ℕ
  pub eht_phy_cap0 : ℕ
  pub has_he : Bool
  pub has_eht : Bool

-- `IfaceLimit` and `IfaceCombination`.
pub record IfaceLimit : Type 0 where
  pub limit : ℕ
  pub types : List ℕ

pub record IfaceCombination : Type 0 where
  pub limits : List IfaceLimit
  pub max_num : ℕ
  pub num_channels : ℕ
  pub radar_detect_widths : ℕ

-- `Wiphy`.
pub record Wiphy : Type 0 where
  pub index : ℕ
  pub name : Bytes
  pub bands : List WiphyBand
  pub if_types : List ℕ
  pub combinations : List IfaceCombination
  pub self_managed_reg : Bool
  pub antenna_avail_tx : ℕ
  pub antenna_avail_rx : ℕ

-- The limits that name the type, added up.
limit_sum : ℕ → List IfaceLimit → ℕ
limit_sum t [] = 0
limit_sum t (l ∷ ls) =
    let rest = limit_sum t ls in if any (λ x. x == t) l.types then l.limit + rest else rest

combination_limit : ℕ → IfaceCombination → ℕ
unfolding limit_sum
combination_limit t c =
    let n = limit_sum t c.limits in if ltb 0 c.max_num && ltb c.max_num n then c.max_num else n

best_of : ℕ → ℕ → List IfaceCombination → ℕ
best_of t best [] = best
best_of t best (c ∷ cs) =
    best_of t (if ltb best (combination_limit t c) then combination_limit t c else best) cs

-- `MaxInterfaces`.
unfoldable pub max_interfaces : Wiphy → ℕ → ℕ
unfolding best_of combination_limit
max_interfaces w t =
    let best = best_of t 0 w.combinations in
    if best == 0 then (if any (λ s. s == t) w.if_types then 1 else 0) else best

-- `Wiphy.Band`.
abbrev find_band : ℕ → List WiphyBand → Option WiphyBand
find_band b [] = none
find_band b (x ∷ xs) = let rest = find_band b xs in if x.band == b then some x else rest

abbrev pub no_wiphy : ℕ → Wiphy
no_wiphy i = record {
  index = i;
  name = [];
  bands = [];
  if_types = [];
  combinations = [];
  self_managed_reg = false;
  antenna_avail_tx = 0;
  antenna_avail_rx = 0;
}
