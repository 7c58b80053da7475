-- ===== src/Groups/Draft/Untagged.antt =====
-- internal/groups/plan.go: the untagged VLAN that `convert` picks.
use perch_apd.Base.{
  ℕ, zero, suc, ◌+◌, ◌≤◌, ◌<◌, Bool, true, false, not, ◌&&◌, Option, none, some, List, [], ◌∷◌, ◌≡◌,
  ◌⊎◌, inl, inr, refl, arith, ◌==◌, nat_eq, bytes_eq, leb, if◌then◌else◌, Bytes, codes, map, ◌++◌,
  ltb, length, Bool-cases,
}
use perch_apd.Groups.Ledger.{Conversion}
use perch_apd.Groups.Desired.{Refusal, refuse, bridge_empty, max_vlans}
use perch_apd.Groups.Kit.{Kit, str, list_of}
use perch_apd.Groups.Draft.{
  Draft, refused, convert, is_used, next_free, first_untagged, untagged_for,
}

-- How many used ids are `v` or more.
count_from : ℕ → List ℕ → ℕ
count_from v [] = 0
count_from v (u ∷ us) = let rest = count_from v us in if leb v u then suc rest else rest

count_from-length : (v : ℕ) (us : List ℕ) → count_from v us ≤ length us
unfolding count_from
count_from-length v [] = omega arith
count_from-length v (u ∷ us) = ground (arith, count_from-length v us)

count_from-suc : (v : ℕ) (us : List ℕ) → count_from (suc v) us ≤ count_from v us
unfolding count_from
count_from-suc v [] = omega arith
count_from-suc v (u ∷ us) = ground (arith, count_from-suc v us)

-- A used id counts.
count_from_used :
    (v : ℕ) (us : List ℕ) → is_used v us ≡ true → count_from (suc v) us < count_from v us
unfolding count_from
count_from_used v [] h = ground arith
count_from_used v (u ∷ us) h = ground (arith, count_from_used v us, count_from-suc v us)

-- The loop from `v` with fuel for every used id from there on: it ends at a free id, and it passed
-- only used ones.
next_free-free :
    (f : ℕ) (used : List ℕ) (v : ℕ)
    → count_from v used ≤ f
    → (is_used (next_free f used v) used ≡ false)
      × (v ≤ next_free f used v)
      × (next_free f used v ≤ v + f)
      × ((w : ℕ) → v ≤ w → w < next_free f used v → is_used w used ≡ true)
unfolding next_free
next_free-free zero used v h = elim (Bool-cases (is_used v used)) [
  | inl taken ↦ ground (arith, count_from_used v used taken)
  | inr free ↦ (free, omega arith, omega arith, λ w low high. ground arith)
]
next_free-free (suc f) used v h = elim (Bool-cases (is_used v used)) [
  | inr free ↦ rw free (free, omega arith, omega arith, λ w low high. ground arith)
  | inl taken ↦
      let (out, low, high, passed) =
        next_free-free f used (suc v) (omega (arith, count_from_used v used taken)) in
      rw taken (
        out,
        omega arith,
        omega arith,
        λ w from to. elim (Bool-cases (w == v)) [
          | inl same ↦ ground (arith, nat_eq.beq_iff w v)
          | inr apart ↦ passed w (ground (arith, nat_eq.beq_iff w v)) to
        ],
      )
]

-- The last conversion was of this bridge, and its VLAN is free.
abbrev pub can_reuse : Bytes → List ℕ → Option Conversion → Bool
can_reuse name used none = false
can_reuse name used (some c) = c.bridge == name && not (is_used c.untagged_vlan used)

first_untagged_or :
    (name : Bytes) (used : List ℕ) (prev : Option Conversion)
    → ((can_reuse name used prev ≡ false) × (first_untagged name used prev ≡ 1))
      ⊎ ((c : Conversion) × (prev ≡ some c)
          × (c.bridge ≡ name)
          × (first_untagged name used prev ≡ c.untagged_vlan)
          × (is_used c.untagged_vlan used ≡ false))
unfolding first_untagged
first_untagged_or name used none = inl (refl, refl)
first_untagged_or name used (some c) = elim (Bool-cases (can_reuse name used (some c))) [
  | inr fresh ↦ inl (fresh, ground arith)
  | inl reused ↦
      inr (c, refl, (bytes_eq.beq_iff c.bridge name).0 (ground arith), ground arith, ground arith)
]

next_free_here : (f : ℕ) (used : List ℕ) (v : ℕ) → is_used v used ≡ false → next_free f used v ≡ v
unfolding next_free
next_free_here zero used v free = refl
next_free_here (suc f) used v free = rw free refl

-- The untagged VLAN of a converted bridge is free. It is the one of the last conversion of this
-- bridge, if that is free. Else it is the smallest free id from 1 on, at most one more than there are
-- used ids.
pub untagged_for-free :
    (name : Bytes) (used : List ℕ) (prev : Option Conversion)
    → let v = untagged_for name used prev in
      (is_used v used ≡ false)
      × (((c : Conversion) × (prev ≡ some c) × (c.bridge ≡ name) × (v ≡ c.untagged_vlan))
          ⊎ ((can_reuse name used prev ≡ false)
              × (1 ≤ v)
              × (v ≤ 1 + length used)
              × ((w : ℕ) → 1 ≤ w → w < v → is_used w used ≡ true)))
unfolding untagged_for
untagged_for-free name used prev = (
  (found (first_untagged name used prev)).0,
  elim (first_untagged_or name used prev) [
    | inl (new, one) ↦ rw one (inr (new, (found 1).1, (found 1).2, (found 1).3))
    | inr (c, is, same, at, free) ↦
        inl (c, is, same, rw at (next_free_here (length used) used c.untagged_vlan free))
  ],
)
  where
    found :
        (v : ℕ)
        → let r = next_free (length used) used v in
          (is_used r used ≡ false)
          × (v ≤ r)
          × (r ≤ v + length used)
          × ((w : ℕ) → v ≤ w → w < r → is_used w used ≡ true)
    found v = next_free-free (length used) used v (count_from-length v used)

untagged_for_bound :
    (name : Bytes) (used : List ℕ) (prev : Option Conversion)
    → length used ≤ max_vlans
    → ((c : Conversion) → prev ≡ some c → c.untagged_vlan ≤ 4094)
    → untagged_for name used prev ≤ 4094
unfolding untagged_for
untagged_for_bound name used prev few before = elim (first_untagged_or name used prev) [
  | inl (_, one) ↦
      rw one (omega (arith, (next_free-free (length used) used 1 (count_from-length 1 used)).2))
  | inr (c, is, _, same, free) ↦
      rw (same, next_free_here (length used) used c.untagged_vlan free) (before c is)
]

empty_map : (f : Bytes → Bytes) (xs : List Bytes) → (length (map f xs) == 0) ≡ true → xs ≡ []
empty_map f [] h = refl
empty_map f (x ∷ xs) h = ground arith

-- With at most 256 VLANs, as a valid desired state has, and where the VLAN of the last conversion, if
-- there was one, is at most 4094, a conversion is refused only for a bridge that has no ports, and with
-- `bridge_empty`: there is always a VLAN id left for the untagged traffic.
pub convert-refused :
    (k : Kit) (bridge : k.Section) (vids : List ℕ) (prev : Option Conversion) (d : Draft k)
    → length vids ≤ max_vlans
    → ((c : Conversion) → prev ≡ some c → c.untagged_vlan ≤ 4094)
    → {r : Refusal} → convert k bridge vids prev d ≡ refused r
    → (list_of k bridge (codes "ports") ≡ []) × (r ≡ refuse bridge_empty)
unfolding convert
convert-refused k bridge vids prev d few before {r} h =
    let room : ltb 4094 (untagged_for (str k bridge (codes "name")) vids prev) ≡ false =
      ground (arith, untagged_for_bound (str k bridge (codes "name")) vids prev few before) in
    elim (Bool-cases
      (length (map (λ p. p ++ codes ":u*") (list_of k bridge (codes "ports"))) == 0)) [
        | inl empty ↦ (empty_map _ _ empty, ground (arith, room, empty, h))
        | inr ports ↦ absurd (ground (arith, room, ports, h))
      ]
