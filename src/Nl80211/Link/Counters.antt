-- ===== src/Nl80211/Link/Counters.antt =====
-- internal/nl80211/nl80211.go: the numbers of the channels.
use perch_apd.Base.{ℕ, ◌+◌, ◌*◌, ◌≤◌, ◌≡◌, refl, arith, nat_eq, codes}
use perch_apd.Base.Int.{pos}
use perch_apd.Nl80211.{freq_to_channel, band}

-- The number of a channel comes back from its centre frequency, in each band: 2.4 GHz (1 to 13, and 14 on
-- its own), 4.9 GHz (Japan's 182 to 196), 5 GHz (1 to 179) and 6 GHz (1 to 233).
pub freq_to_channel-centre :
    (n : ℕ)
    → 1 ≤ n
    → (n ≤ 13 → (freq_to_channel (2407 + 5 * n) ≡ pos n) × (band (2407 + 5 * n) ≡ codes "2.4"))
      × (freq_to_channel 2484 ≡ pos 14)
      × (182 ≤ n → n ≤ 196 → freq_to_channel (4000 + 5 * n) ≡ pos n)
      × (n ≤ 179 → (freq_to_channel (5000 + 5 * n) ≡ pos n) × (band (5000 + 5 * n) ≡ codes "5"))
      × (n ≤ 233 → (freq_to_channel (5950 + 5 * n) ≡ pos n) × (band (5950 + 5 * n) ≡ codes "6"))
unfolding freq_to_channel band
freq_to_channel-centre n one = (
  λ h. (ground arith, ground arith),
  refl,
  λ h k. ground arith,
  λ h. (ground arith, ground arith),
  λ h. (ground arith, ground arith),
)
