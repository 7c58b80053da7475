-- ===== src/Groups/Trunk/Learned.antt =====
-- internal/groups/trunk.go: the trunk is the port on which the bridge has learned the gateway.
use perch_apd.Base.{
  ℕ, zero, suc, ◌+◌, ◌-◌, ◌*◌, ◌≤◌, ◌<◌, true, false, ◌⊎◌, Option, none, some, List, [], ◌∷◌, ◌≡◌,
  refl, sym, ap, ◌∙◌, subst, arith, nat_eq, bytes_eq, leb, leb→le, Bytes, codes, length, take, drop,
  inl, inr, Bool-cases, Option-cases, ◌++◌, ◌≢◌, all, not, ◌==◌,
}
use perch_apd.Base.Int.{ℤ, pos, int_eq}
use perch_apd.Base.Number.{atoi}
use perch_apd.Base.Maps.{is_in_set}
use perch_apd.Groups.Trunk.{
  Fs, byte_at, last_dot, is_entry, entry_port, fdb_from, fdb_port, default_route, bridge_of,
  neighbor_mac, bridge_file, port_no, has_number, find_port, learned_on, behind_bridge, port_behind,
  detect_trunk,
}

-- The entry with this number in a dump of 16 bytes each.
abbrev pub entry : ℕ → Bytes → Bytes
entry k raw = take 16 (drop (16 * k) raw)

-- An entry for this address, on a port and not the bridge's own: the address, and behind it the flag.
abbrev pub IsFor : Bytes → Bytes → Type 0
IsFor mac e = (take 6 e ≡ mac) × (byte_at 7 e ≡ 0)

-- The first entry for the address is on this port, whose number is in the bytes 6 and 12.
pub record IsLearned (raw mac : Bytes) (n : ℕ) : Type 0 where
  pub at_entry : ℕ
  pub inside : 16 * at_entry + 16 ≤ length raw
  pub found : IsFor mac (entry at_entry raw)
  pub numbered : n ≡ byte_at 6 (entry at_entry raw) + 256 * byte_at 12 (entry at_entry raw)
  pub first : (j : ℕ) → j < at_entry → ¬ IsFor mac (entry j raw)

is_entry-IsFor : (mac e : Bytes) → is_entry mac e ≡ true → IsFor mac e
is_entry-IsFor mac e h = (
  (bytes_eq.beq_iff (take 6 e) mac).0 (ground arith),
  (nat_eq.beq_iff (byte_at 7 e) 0).0 (ground arith),
)

is_entry-not-IsFor : (mac e : Bytes) → is_entry mac e ≡ false → ¬ IsFor mac e
is_entry-not-IsFor mac e h k =
    ground (arith, bytes_eq.beq_iff (take 6 e) mac, nat_eq.beq_iff (byte_at 7 e) 0)

entry_port-bytes : (e : Bytes) → entry_port e ≡ byte_at 6 e + 256 * byte_at 12 e
entry_port-bytes e = omega arith

drop-same : (m n : ℕ) (s : Bytes) → m ≡ n → drop m s ≡ drop n s
drop-same m n s e = ap (λ k. drop k s) e

drop-nil : (n : ℕ) → drop {A = ℕ} n [] ≡ []
drop-nil zero = refl
drop-nil (suc n) = refl

drop-drop : (m n : ℕ) (s : Bytes) → drop m (drop n s) ≡ drop (n + m) s
drop-drop m zero s = drop-same m (0 + m) s (omega arith)
drop-drop m (suc n) [] = drop-nil m ∙ sym (drop-nil (suc n + m))
drop-drop m (suc n) (c ∷ s) =
    drop-drop m n s ∙ drop-same (suc (n + m)) (suc n + m) (c ∷ s) (omega arith)

length-drop : (n : ℕ) (s : Bytes) → length (drop n s) ≡ length s - n
length-drop zero s = omega arith
length-drop (suc n) [] = omega arith
length-drop (suc n) (c ∷ s) = omega (arith, length-drop n s)

entry-drop : (k : ℕ) (raw : Bytes) → entry k (drop 16 raw) ≡ entry (suc k) raw
entry-drop k raw =
    ap (take 16)
      (drop-drop (16 * k) 16 raw ∙ drop-same (16 + 16 * k) (16 * suc k) raw (omega arith))

IsLearned-drop :
    (raw mac : Bytes) (n : ℕ)
    → 16 ≤ length raw
    → is_entry mac (take 16 raw) ≡ false
    → IsLearned (drop 16 raw) mac n
    → IsLearned raw mac n
IsLearned-drop raw mac n long other k = record {
  at_entry = suc k.at_entry;
  inside = omega (arith, k.inside, length-drop 16 raw, long);
  found = subst (IsFor mac) (entry-drop k.at_entry raw) k.found;
  numbered = k.numbered ∙ ap (λ e. byte_at 6 e + 256 * byte_at 12 e) (entry-drop k.at_entry raw);
  first = earlier;
}
  where
    earlier : (j : ℕ) → j < suc k.at_entry → ¬ IsFor mac (entry j raw)
    earlier zero h = is_entry-not-IsFor mac (take 16 raw) other
    earlier (suc j) h = subst (λ e. ¬ IsFor mac e) (entry-drop j raw) (k.first j (omega (arith, h)))

fdb_from-IsLearned :
    (fuel : ℕ) (raw mac : Bytes) (n : ℕ) → fdb_from fuel raw mac ≡ some n → IsLearned raw mac n
unfolding fdb_from
fdb_from-IsLearned zero raw mac n e = absurd (ground arith)
fdb_from-IsLearned (suc fuel) raw mac n e = elim (Bool-cases (leb 16 (length raw))) [
  | inr short ↦ absurd (ground arith)
  | inl long ↦ elim (Bool-cases (is_entry mac (take 16 raw))) [
    | inl here ↦ record {
      at_entry = 0;
      inside = leb→le 16 (length raw) long;
      found = is_entry-IsFor mac (take 16 raw) here;
      numbered = port_of here ∙ entry_port-bytes (take 16 raw);
      first = λ j h. absurd (omega (arith, h));
    }
    | inr other ↦
        IsLearned-drop raw mac n (leb→le 16 (length raw) long) other
          (fdb_from-IsLearned fuel (drop 16 raw) mac n (ground arith))
  ]
]
  where
    port_of : is_entry mac (take 16 raw) ≡ true → n ≡ entry_port (take 16 raw)
    port_of here = ground arith

abbrev HasNoDot : Bytes → Type 0
HasNoDot s = all (λ c. not (c == b'.')) s ≡ true

-- The device is a VLAN of the bridge: its name is the bridge's, a dot and a number.
abbrev pub IsVlanOf : ℕ → Bytes → Bytes → Type 0
IsVlanOf limit dev bridge =
    (id : Bytes) × (dev ≡ bridge ++ b'.' ∷ id)
    × (bridge ≢ [])
    × HasNoDot id
    × (atoi limit id ≢ none)

last_dot-some :
    (s : Bytes) {p i : Bytes} → last_dot s ≡ some (p, i) → (s ≡ p ++ b'.' ∷ i) × HasNoDot i
unfolding last_dot
last_dot-some [] h = absurd (ground arith)
last_dot-some (c ∷ s) {p} {i} h = elim (Option-cases (last_dot s)) [
  | inr (r, e) ↦ ground (arith, last_dot-some s {p = r.0} {i = r.1} e)
  | inl plain ↦ ground (arith, plain, last_dot-none s plain, nat_eq.beq_iff c b'.')
]
  where
    last_dot-none : (t : Bytes) → last_dot t ≡ none → HasNoDot t
    last_dot-none [] e = refl
    last_dot-none (d ∷ t) e = elim (Option-cases (last_dot t)) [
      | inl more ↦ ground (arith, more, last_dot-none t more)
      | inr (r, more) ↦ absurd (ground (arith, more))
    ]

last_dot-append : (p i : Bytes) → HasNoDot i → last_dot (p ++ b'.' ∷ i) ≡ some (p, i)
unfolding last_dot
last_dot-append [] i h = rw (last_dot, last_dot-plain i h) refl
  where
    last_dot-plain : (t : Bytes) → HasNoDot t → last_dot t ≡ none
    last_dot-plain [] e = refl
    last_dot-plain (d ∷ t) e = ground (arith, last_dot-plain t (ground arith))
last_dot-append (c ∷ p) i h = rw (last_dot, last_dot-append p i h) refl

-- `bridge_of` takes the VLAN off, if the device is one.
bridge_of-IsVlanOf :
    (limit : ℕ) (dev : Bytes)
    → IsVlanOf limit dev (bridge_of limit dev)
      ⊎ ((bridge_of limit dev ≡ dev) × ((parent : Bytes) → ¬ IsVlanOf limit dev parent))
unfolding bridge_of
bridge_of-IsVlanOf limit dev = elim (Option-cases (last_dot dev)) [
  | inl plain ↦ inr (
    rw (bridge_of, plain) refl,
    λ parent (id, is, ne, d, n). absurd (ground (arith, plain, is, last_dot-append parent id d)),
  )
  | inr (([], id), split) ↦ inr (
    rw (bridge_of, split) refl,
    λ parent (i, is, ne, d, n). ne (ground (arith, split, is, last_dot-append parent i d)),
  )
  | inr ((c ∷ parent, id), split) ↦ elim (Option-cases (atoi limit id)) [
    | inl word ↦ inr (
      rw (bridge_of, split, word) refl,
      λ p (i, is, ne, d, n). n (ground (arith, split, word, is, last_dot-append p i d)),
    )
    | inr (vid, number) ↦
        let (is, d) = last_dot-some dev split in
        inl (
          id,
          rw (bridge_of, split, number) is,
          rw (bridge_of, split, number) (λ e. cc),
          d,
          λ e. ground (arith, e, number),
        )
  ]
]

has_number-eq : (n : ℕ) (o : Option ℤ) → has_number n o ≡ true → o ≡ some (pos n)
has_number-eq n none h = absurd (ground arith)
has_number-eq n (some i) h = ap (λ x. some x) ((int_eq.beq_iff i (pos n)).0 h)

module _ (parse_mac : Bytes → Option Bytes) (parse_int : Bytes → Option ℤ) where
  find_port-is_in_set :
      (fs : Fs) (bridge : Bytes) (n : ℕ) (ports : List Bytes) (p : Bytes)
      → find_port parse_mac parse_int fs bridge n ports ≡ some p
      → (is_in_set p ports ≡ true) × (port_no parse_mac parse_int fs bridge p ≡ some (pos n))
  unfolding find_port
  find_port-is_in_set fs bridge n [] p e = absurd (ground arith)
  find_port-is_in_set fs bridge n (q ∷ ports) p e =
      elim (Bool-cases (has_number n (port_no parse_mac parse_int fs bridge q))) [
        | inl here ↦
            let is : q ≡ p = ground arith in
            (
              ground (arith, bytes_eq.beq_iff q p),
              subst (λ x. port_no parse_mac parse_int fs bridge x ≡ some (pos n)) is
                  (has_number-eq n (port_no parse_mac parse_int fs bridge q) here),
            )
        | inr other ↦
            let (found, numbered) = find_port-is_in_set fs bridge n ports p (ground arith) in
            (ground (arith, found), numbered)
      ]

  -- Where the default gateway is: behind a device that is no bridge, or behind a port of the bridge.
  pub record IsTrunk (limit : ℕ) (fs : Fs) (port : Bytes) : Type 0 where
    pub dev : Bytes
    pub gateway : Bytes
    pub routed : default_route fs ≡ some (dev, gateway)
    pub bridge : Bytes
    pub bridged :
        IsVlanOf limit dev bridge
        ⊎ ((bridge ≡ dev) × ((parent : Bytes) → ¬ IsVlanOf limit dev parent))
    pub placed :
        ((fs.list (bridge_file bridge (codes "brif")) ≡ none) × (port ≡ bridge))
        ⊎ ((ports : List Bytes) × (mac : Bytes) × (raw : Bytes) × (n : ℕ) × (fs.list
                (bridge_file bridge (codes "brif"))
              ≡ some ports)
            × (neighbor_mac parse_mac parse_int fs gateway ≡ some mac)
            × (fs.read (bridge_file bridge (codes "brforward")) ≡ some raw)
            × IsLearned raw mac n
            × (is_in_set port ports ≡ true)
            × (port_no parse_mac parse_int fs bridge port ≡ some (pos n)))

  learned_on-IsLearned :
      (fs : Fs) (bridge : Bytes) (ports : List Bytes) (mac port : Bytes) (o : Option Bytes)
      → learned_on parse_mac parse_int fs bridge ports mac o ≡ some port
      → (raw : Bytes) × (n : ℕ) × (o ≡ some raw)
        × IsLearned raw mac n
        × (is_in_set port ports ≡ true)
        × (port_no parse_mac parse_int fs bridge port ≡ some (pos n))
  unfolding learned_on fdb_port
  learned_on-IsLearned fs bridge ports mac port none e = absurd (ground arith)
  learned_on-IsLearned fs bridge ports mac port (some raw) e =
      elim (Option-cases (fdb_from (length raw) raw mac)) [
        | inl lost ↦ absurd (ground arith)
        | inr (n, learned) ↦
            let (listed, numbered) = find_port-is_in_set fs bridge n ports port (ground arith) in
            (raw, n, refl, fdb_from-IsLearned (length raw) raw mac n learned, listed, numbered)
      ]

  port_behind-placed :
      (fs : Fs) (bridge gateway port : Bytes)
      → port_behind parse_mac parse_int fs bridge gateway ≡ some port
      → ((fs.list (bridge_file bridge (codes "brif")) ≡ none) × (port ≡ bridge))
        ⊎ ((ports : List Bytes) × (mac : Bytes) × (raw : Bytes) × (n : ℕ) × (fs.list
                (bridge_file bridge (codes "brif"))
              ≡ some ports)
            × (neighbor_mac parse_mac parse_int fs gateway ≡ some mac)
            × (fs.read (bridge_file bridge (codes "brforward")) ≡ some raw)
            × IsLearned raw mac n
            × (is_in_set port ports ≡ true)
            × (port_no parse_mac parse_int fs bridge port ≡ some (pos n)))
  unfolding port_behind behind_bridge
  port_behind-placed fs bridge gateway port e =
      elim (Option-cases (fs.list (bridge_file bridge (codes "brif")))) [
        | inl plain ↦ inl (plain, ground arith)
        | inr (ports, bridged) ↦ elim (Option-cases (neighbor_mac parse_mac parse_int fs gateway)) [
          | inl lost ↦ absurd (ground arith)
          | inr (mac, near) ↦
              let (raw, n, dumped, learned, listed, numbered) =
                learned_on-IsLearned fs bridge ports mac port
                  (fs.read (bridge_file bridge (codes "brforward"))) (ground arith) in
              inr (ports, mac, raw, n, bridged, near, dumped, learned, listed, numbered)
        ]
      ]

  -- `DetectTrunk` finds the port that the gateway is behind. The bridge is the default route's device, or
  -- what its name has before the last dot, where a number stands behind that dot. If that is no bridge, it
  -- is the port. Otherwise the port is one of the bridge's, and its number is the one in the bytes 6 and 12
  -- of the first entry in the bridge's forwarding table that begins with the gateway's address and whose
  -- byte 7 does not mark it as the bridge's own.
  pub detect_trunk-IsTrunk :
      (limit : ℕ) (fs : Fs) (port : Bytes)
      → detect_trunk parse_mac parse_int limit fs ≡ some port
      → IsTrunk limit fs port
  unfolding detect_trunk
  detect_trunk-IsTrunk limit fs port e = elim (Option-cases (default_route fs)) [
    | inl lost ↦ absurd (ground arith)
    | inr ((dev, gateway), routed) ↦ record {
      dev = dev;
      gateway = gateway;
      routed = routed;
      bridge = bridge_of limit dev;
      bridged = bridge_of-IsVlanOf limit dev;
      placed = port_behind-placed fs (bridge_of limit dev) gateway port (ground arith);
    }
  ]
