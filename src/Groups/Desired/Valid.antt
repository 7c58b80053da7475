-- ===== src/Groups/Desired/Valid.antt =====
-- internal/groups/plan.go: what `Validate` demands, written without its loop.
use perch_apd.Base.{
  ◌≤◌, Bool, true, false, not, ◌&&◌, ◌||◌, none, some, List, [], ◌∷◌, ◌≡◌, ◌≢◌, ◌↔◌, ◌⊎◌, inl, inr,
  refl, arith, ◌==◌, nat_eq, bytes_eq, Bytes, codes, length, all, All, Bool-cases, Option-cases,
}
use perch_apd.Base.Int.{ℤ, below, above, int_eq}
use perch_apd.Groups.Names.{valid_mac, valid_key, valid_ifname}
use perch_apd.Groups.Desired.{
  Station, Desired, max_vlans, max_stations, count_macs, is_in, check_vlans, station_ok, ssid_ok,
  trunk_ok, is_valid, validate,
}

-- The id stands in the list at most once.
abbrev pub AllDistinct : List ℤ → Type 0
AllDistinct [] = Unit
AllDistinct (v ∷ vs) = (is_in v vs ≡ false) × AllDistinct vs

abbrev pub in_range : ℤ → Bool
in_range v = not (below v 1 || above v 4094)

abbrev none_in : List ℤ → List ℤ → Bool
none_in seen vs = all (λ v. not (is_in v seen)) vs

int_beq_sym : (a b : ℤ) → (a == b) ≡ (b == a)
int_beq_sym a b = ground (arith, int_eq.beq_iff a b, int_eq.beq_iff b a)

none_in_cons :
    (v : ℤ) (seen vs : List ℤ) → none_in (v ∷ seen) vs ≡ (not (is_in v vs) && none_in seen vs)
none_in_cons v seen [] = refl
none_in_cons v seen (w ∷ vs) = ground (arith, none_in_cons v seen vs, int_beq_sym v w)

-- The loop over the VLANs accepts a list in range, without repetition and without a seen id, and no
-- other, and its seen ids are then those of the list and those seen before.
check_vlans-some :
    (seen vs : List ℤ) {s : List ℤ}
    → check_vlans seen vs ≡ some s
    → (all in_range vs ≡ true)
      × AllDistinct vs
      × (none_in seen vs ≡ true)
      × ((x : ℤ) → is_in x s ≡ (is_in x vs || is_in x seen))
unfolding check_vlans
check_vlans-some seen [] h = (refl, tt, refl, λ x. ground arith)
check_vlans-some seen (v ∷ vs) {s} h =
    let (ranged, distinct, fresh, same) = check_vlans-some (v ∷ seen) vs {s = s} (ground arith) in
    (
      ground arith,
      (ground (arith, none_in_cons v seen vs), distinct),
      ground (arith, none_in_cons v seen vs),
      λ x. ground (arith, same x),
    )

check_vlans_complete :
    (seen vs : List ℤ)
    → all in_range vs ≡ true
    → AllDistinct vs
    → none_in seen vs ≡ true
    → check_vlans seen vs ≢ none
unfolding check_vlans
check_vlans_complete seen [] r d n h = ground arith
check_vlans_complete seen (v ∷ vs) r d n h =
    check_vlans_complete (v ∷ seen) vs (ground arith) (d.1)
      (ground (arith, none_in_cons v seen vs, d.0)) (ground (arith, h))

-- A station has a VLAN of the list, MACs in the lower case with colons, and a key of its own or,
-- where the managed interface's key binds it, a MAC.
pub record IsStation (vlans : List ℤ) (st : Station) : Type 0 where
  pub known : is_in st.vid vlans ≡ true
  pub bound : ((st.key ≡ []) × (1 ≤ length st.macs)) ⊎ ((st.key ≢ []) × (valid_key st.key ≡ true))
  pub macs : all valid_mac st.macs ≡ true

pub record IsValid (d : Desired) : Type 0 where
  pub positive : below d.revision 1 ≡ false
  pub few_vlans : length d.vlans ≤ max_vlans
  pub few_stations : length d.stations ≤ max_stations
  pub few_macs : count_macs d.stations ≤ max_stations
  pub ranged : all in_range d.vlans ≡ true
  pub distinct : AllDistinct d.vlans
  pub stations : All (IsStation d.vlans) d.stations
  pub ssids : All (λ s. (1 ≤ length s) × (length s ≤ 32)) d.ssids
  pub trunk : (d.trunk ≡ []) ⊎ (d.trunk ≡ codes "auto") ⊎ (valid_ifname d.trunk ≡ true)

station_ok-IsStation :
    (seen vlans : List ℤ) (st : Station)
    → ((x : ℤ) → is_in x seen ≡ is_in x vlans)
    → (station_ok seen st ≡ true) ↔ IsStation vlans st
unfolding station_ok
station_ok-IsStation seen vlans st same =
    let keyed = bytes_eq.beq_iff st.key [] in
    (
      λ h. record {
        known = ground (arith, same st.vid);
        bound = elim (Bool-cases (st.key == [])) [
          | inl empty ↦ inl (keyed.0 empty, ground (arith, same st.vid))
          | inr own ↦ inr (ground (arith, keyed), ground (arith, same st.vid))
        ];
        macs = ground (arith, same st.vid);
      },
      λ (h : IsStation vlans st). elim h.bound [
        | inl (empty, some_macs) ↦ ground (arith, same st.vid, h.known, h.macs, keyed, empty)
        | inr (own, good) ↦ ground (arith, same st.vid, h.known, h.macs, keyed, own, good)
      ],
    )

all-All {ℓ κ} :
    {A : Type ℓ} (p : A → Bool) (P : A → Type κ)
    → ((x : A) → (p x ≡ true) ↔ P x)
    → (xs : List A) → (all p xs ≡ true) ↔ All P xs
all-All p P same [] = (λ h. tt, λ h. refl)
all-All p P same (x ∷ xs) = (
  λ h. ((same x).0 (ground arith), (all-All p P same xs).0 (ground arith)),
  λ h. ground (arith, (same x).1 h.0, (all-All p P same xs).1 h.1),
)

ssid_ok_iff : (s : Bytes) → (ssid_ok s ≡ true) ↔ ((1 ≤ length s) × (length s ≤ 32))
ssid_ok_iff s = (λ h. (ground arith, ground arith), λ h. ground arith)

trunk_ok_iff :
    (t : Bytes) → (trunk_ok t ≡ true) ↔ ((t ≡ []) ⊎ (t ≡ codes "auto") ⊎ (valid_ifname t ≡ true))
trunk_ok_iff t =
    let empty = bytes_eq.beq_iff t [] in
    let auto = bytes_eq.beq_iff t (codes "auto") in
    (
      λ h. elim (Bool-cases (t == [])) [
        | inl here ↦ inl (empty.0 here)
        | inr full ↦ elim (Bool-cases (t == codes "auto")) [
          | inl here ↦ inr (inl (auto.0 here))
          | inr named ↦ inr (inr (ground arith))
        ]
      ],
      λ h. ground (arith, empty, auto, h),
    )

none_in_nil : (vs : List ℤ) → none_in [] vs ≡ true
none_in_nil [] = refl
none_in_nil (v ∷ vs) = none_in_nil vs

stations_iff :
    (d : Desired) (seen : List ℤ)
    → ((x : ℤ) → is_in x seen ≡ is_in x d.vlans)
    → (all (station_ok seen) d.stations ≡ true) ↔ All (IsStation d.vlans) d.stations
stations_iff d seen same =
    all-All (station_ok seen) (IsStation d.vlans) (λ st. station_ok-IsStation seen d.vlans st same)
      d.stations

sound : (d : Desired) → is_valid d ≡ true → IsValid d
unfolding is_valid
sound d h = elim (Option-cases (check_vlans [] d.vlans)) [
  | inl nothing ↦ absurd (ground arith)
  | inr (seen, found) ↦
      let (ranged, distinct, _, same) = check_vlans-some [] d.vlans {s = seen} found in
      record {
        positive = ground arith;
        few_vlans = ground arith;
        few_stations = ground arith;
        few_macs = ground arith;
        ranged = ranged;
        distinct = distinct;
        stations = (stations_iff d seen (λ x. ground (arith, same x))).0 (ground arith);
        ssids = (all-All ssid_ok _ ssid_ok_iff d.ssids).0 (ground arith);
        trunk = (trunk_ok_iff d.trunk).0 (ground arith);
      }
]

complete : (d : Desired) → IsValid d → is_valid d ≡ true
unfolding is_valid
complete d v = elim (Option-cases (check_vlans [] d.vlans)) [
  | inl nothing ↦
      absurd (check_vlans_complete [] d.vlans v.ranged v.distinct (none_in_nil d.vlans) nothing)
  | inr (seen, found) ↦
      let (_, _, _, same) = check_vlans-some [] d.vlans {s = seen} found in
      let stations = (stations_iff d seen (λ x. ground (arith, same x))).1 v.stations in
      let ssids = (all-All ssid_ok _ ssid_ok_iff d.ssids).1 v.ssids in
      let trunk = (trunk_ok_iff d.trunk).1 v.trunk in
      ground (arith, v.positive, v.few_vlans, v.few_stations, v.few_macs)
]

-- `Validate` accepts a desired state exactly if it is valid: within the limits, every VLAN in range
-- and listed once, every station well formed and on a listed VLAN, every SSID from 1 to 32 bytes
-- long, and the trunk empty, automatic or the name of an interface.
pub validate-IsValid : (d : Desired) → (validate d ≡ none) ↔ IsValid d
unfolding validate
validate-IsValid d = (λ h. sound d (ground arith), λ (h : IsValid d). ground (arith, complete d h))
