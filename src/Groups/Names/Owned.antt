-- ===== src/Groups/Names/Owned.antt =====
-- internal/groups/plan.go: every name that a plan creates is one that `OwnedName` knows.
use perch_apd.Base.{
  ℕ, ◌≤◌, true, false, not, [], ◌∷◌, ◌++◌, ◌==◌, nat_eq, bytes_eq, ◌≡◌, ◌≢◌, refl, arith, bytes_beq,
  if◌then◌else◌, Bool-cases, Bytes, codes, all, all-append, length, length-append, ltb, any, inl,
  inr,
}
use perch_apd.Base.Text.{is_digit, itoa, itoa-digits, cut-append}
use perch_apd.Groups.Names.{
  all_digits, is_word, owned_name, station_name, bridge_vlan_name, interface_name, vlan_device_name,
  bridge_device_name, untagged_name, wifi_vlan_name, short_name, short_from,
}

all_digits-itoa : (n : ℕ) → all_digits (itoa n) ≡ true
unfolding all_digits
all_digits-itoa n = go (itoa n) (itoa-digits n).0 (itoa-digits n).1
  where
    go : (s : Bytes) → all is_digit s ≡ true → s ≢ [] → all_digits s ≡ true
    go [] h ne = absurd (ne refl)
    go (c ∷ s) h ne = h

-- A plan's sections for stations, VLANs, devices and the untagged VLAN have names that `OwnedName`
-- knows, for every VLAN id and station index.
pub owned_name-numbered :
    (n : ℕ)
    → (owned_name (station_name n) ≡ true)
      × (owned_name (bridge_vlan_name n) ≡ true)
      × (owned_name (interface_name n) ≡ true)
      × (owned_name (vlan_device_name n) ≡ true)
      × (owned_name (bridge_device_name n) ≡ true)
      × (owned_name untagged_name ≡ true)
unfolding owned_name bytes_beq
owned_name-numbered n = ground (arith, all_digits-itoa n)

module _ (s : Bytes) where
  -- The names of the Wi-Fi config plane (`perch_n...`) are none of the engine's.
  pub owned_name_plane : owned_name (codes "perch_n" ++ s) ≡ false
  unfolding owned_name bytes_beq
  owned_name_plane = refl

short_from-is_word :
    (out s : Bytes) → all is_word out ≡ true → all is_word (short_from out s) ≡ true
unfolding short_from
short_from-is_word out [] h = h
short_from-is_word out (c ∷ s) h = elim (Bool-cases (ltb (length out) 24)) [
  | inr full ↦ rw full h
  | inl room ↦ rw room (
      short_from-is_word (if is_word c then out ++ c ∷ [] else out) s
        (ground (arith, all-append is_word out (c ∷ []))))
]

length-short_from : (out s : Bytes) → length out ≤ 24 → length (short_from out s) ≤ 24
unfolding short_from
length-short_from out [] h = h
length-short_from out (c ∷ s) h = elim (Bool-cases (ltb (length out) 24)) [
  | inr full ↦ rw full h
  | inl room ↦ rw room (
      length-short_from (if is_word c then out ++ c ∷ [] else out) s
        (ground (arith, length-append out (c ∷ []))))
]

short_from-ne-nil : (c : ℕ) (out s : Bytes) → short_from (c ∷ out) s ≢ []
unfolding short_from
short_from-ne-nil c out [] = λ e. cc
short_from-ne-nil c out (d ∷ s) = elim (Bool-cases (ltb (length (c ∷ out)) 24)) [
  | inr full ↦ rw full (λ e. cc)
  | inl room ↦ elim (Bool-cases (is_word d)) [
    | inl word ↦ rw (room, word) (short_from-ne-nil c (out ++ d ∷ []) s)
    | inr skip ↦ rw (room, skip) (short_from-ne-nil c out s)
  ]
]

short_name-ne-nil : (s : Bytes) → any is_word s ≡ true → short_name s ≢ []
unfolding short_name short_from
short_name-ne-nil [] h = cc
short_name-ne-nil (c ∷ s) h = elim (Bool-cases (is_word c)) [
  | inl word ↦ rw word (short_from-ne-nil c [] s)
  | inr skip ↦ rw skip (short_name-ne-nil s (ground arith))
]

digits-lack_underscore : (s : Bytes) → all is_digit s ≡ true → all (λ c. not (c == b'_')) s ≡ true
digits-lack_underscore [] h = refl
digits-lack_underscore (c ∷ s) h = ground (arith, digits-lack_underscore s)

-- A wifi-vlan section's name is one that `OwnedName` knows, when its interface's name has a letter,
-- a digit or an underscore, and the interface's part of it is at most 24 bytes long.
pub owned_name-wifi_vlan_name :
    (v : ℕ) (iface : Bytes)
    → any is_word iface ≡ true
    → (owned_name (wifi_vlan_name v iface) ≡ true) × (length (short_name iface) ≤ 24)
unfolding owned_name bytes_beq short_name
owned_name-wifi_vlan_name v iface h =
    let cut_at =
      cut-append b'_' (itoa v) (short_name iface)
        (digits-lack_underscore (itoa v) (itoa-digits v).0) in
    (
      ground (
        arith,
        cut_at,
        all_digits-itoa v,
        short_from-is_word [] iface refl,
        short_name-ne-nil iface h,
        bytes_eq.beq_iff (short_name iface) [],
      ),
      length-short_from [] iface (omega arith),
    )
