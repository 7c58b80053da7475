-- ===== src/Groups/Names.antt =====
-- internal/groups/plan.go: the names that the engine creates, and the tests of names, addresses and
-- keys.
pub mod Owned
use perch_apd.Base.{
  ℕ, zero, suc, ◌+◌, ◌%◌, Bool, true, false, not, ◌&&◌, ◌||◌, Option, none, some, List, [], ◌∷◌,
  ◌++◌, ◌==◌, nat_eq, bytes_eq, ltb, leb, if◌then◌else◌, Bytes, codes, length, all, any,
}
use perch_apd.Base.Text.{within, is_digit, has_prefix, cut_prefix, cut, itoa}

-- `Prefix`.
abbrev pub prefix : Bytes
prefix = codes "perch_"

-- `strings.Trim(s, set) == ""`: every byte is in the set.
unfoldable pub all_digits : Bytes → Bool
all_digits [] = false
all_digits (c ∷ s) = all is_digit (c ∷ s)

-- The bytes of `wordChars`.
abbrev pub is_word : ℕ → Bool
is_word c = within b'a' b'z' c || within b'A' b'Z' c || is_digit c || c == b'_'

-- `perch_<p><digits>`.
numbered : Bytes → Bytes → Bool
numbered rest p = elim (cut_prefix rest p) [ none ↦ false | some n ↦ all_digits n ]

is_vlan_suffix : Option (Bytes × Bytes) → Bool
is_vlan_suffix none = false
is_vlan_suffix (some (vid, iface)) = all_digits vid && not (iface == []) && all is_word iface

-- What follows the prefix in `OwnedName`.
owned_rest : Bytes → Bool
owned_rest rest =
    if rest == codes "bvu"
    then true
    else if any (numbered rest) (codes "ws" ∷ codes "bv" ∷ codes "dv" ∷ codes "bd" ∷ codes "v" ∷ [])
    then true
    else elim (cut_prefix rest (codes "wv")) [ none ↦ false | some n ↦ is_vlan_suffix (cut b'_' n) ]

-- `OwnedName`.
unfoldable pub owned_name : Bytes → Bool
unfolding numbered is_vlan_suffix owned_rest cut_prefix cut all_digits
owned_name name = elim (cut_prefix name prefix) [ none ↦ false | some rest ↦ owned_rest rest ]

-- The names of `Plan`'s sections.
abbrev pub station_name : ℕ → Bytes
station_name idx = prefix ++ (codes "ws" ++ itoa idx)

abbrev pub bridge_vlan_name : ℕ → Bytes
bridge_vlan_name v = prefix ++ (codes "bv" ++ itoa v)

abbrev pub interface_name : ℕ → Bytes
interface_name v = prefix ++ (codes "v" ++ itoa v)

abbrev pub vlan_device_name : ℕ → Bytes
vlan_device_name v = prefix ++ (codes "dv" ++ itoa v)

abbrev pub bridge_device_name : ℕ → Bytes
bridge_device_name v = prefix ++ (codes "bd" ++ itoa v)

abbrev pub untagged_name : Bytes
untagged_name = prefix ++ codes "bvu"

-- The loop of `shortName`, with the bytes written so far.
short_from : Bytes → Bytes → Bytes
short_from out [] = out
short_from out (c ∷ s) =
    let rest = short_from (if is_word c then out ++ c ∷ [] else out) s in
    if ltb (length out) 24 then rest else out

unfoldable pub short_name : Bytes → Bytes
unfolding short_from
short_name = short_from []

abbrev pub wifi_vlan_name : ℕ → Bytes → Bytes
wifi_vlan_name v iface = prefix ++ (codes "wv" ++ (itoa v ++ b'_' ∷ short_name iface))

is_mac_byte : ℕ → ℕ → Bool
is_mac_byte i c = if i % 3 == 2 then c == b':' else is_digit c || within b'a' b'f' c

-- The loop of `validMAC` at byte `i`.
mac_from : ℕ → Bytes → Bool
mac_from i [] = true
mac_from i (c ∷ s) = is_mac_byte i c && mac_from (suc i) s

unfoldable pub valid_mac : Bytes → Bool
unfolding mac_from is_mac_byte
valid_mac s = length s == 17 && mac_from 0 s

-- `validKey`.
unfoldable pub valid_key : Bytes → Bool
valid_key k = not (ltb (length k) 8 || ltb 63 (length k)) && all (within 0x20 0x7e) k

-- `pskEncryption`.
unfoldable pub psk_encryption : Bytes → Bool
unfolding has_prefix
psk_encryption enc = has_prefix enc (codes "psk") || has_prefix enc (codes "sae")

abbrev is_ifname_byte : ℕ → Bool
is_ifname_byte c =
    within b'a' b'z' c
    || within b'A' b'Z' c
    || is_digit c
    || c == b'.'
    || c == b'-'
    || c == b'_'
    || c == b'@'

-- `validIfname`.
unfoldable pub valid_ifname : Bytes → Bool
valid_ifname s = not (ltb (length s) 1 || ltb 15 (length s)) && all is_ifname_byte s
