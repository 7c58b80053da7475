-- ===== src/Groups/Psk.antt =====
-- internal/groups/psk.go: hostapd's PSK files, read back before a revision is kept.
pub mod Line
use perch_apd.Base.{
  ℕ, zero, suc, Bool, true, false, not, ◌&&◌, ◌||◌, Option, none, some, List, [], ◌∷◌, ◌++◌, ◌==◌,
  nat_eq, bytes_eq, if◌then◌else◌, Bytes, codes, any, all, ltb, length,
}
use perch_apd.Base.Text.{has_prefix, has_suffix, cut, split, trim_left, is_space, within, to_lower}
use perch_apd.Groups.Kit.{is_member}

-- The runes of two and of three bytes that are white space.
unfoldable pub is_space2 : ℕ → ℕ → Bool
is_space2 a b = a == 194 && (b == 133 || b == 160)

unfoldable pub is_space3 : ℕ → ℕ → ℕ → Bool
is_space3 a b c =
    a == 225 && (b == 154 && c == 128)
    || (a == 226 && (b == 128 && (within 128 138 c || (c == 168 || (c == 169 || c == 175))))
        || (a == 226 && (b == 129 && c == 159) || a == 227 && (b == 128 && c == 128)))

-- A text of white space only.
unfoldable pub is_all_space : Bytes → Bool
unfolding is_space2 is_space3
is_all_space [] = true
is_all_space (a ∷ []) = is_space a
is_all_space (a ∷ b ∷ []) = is_space a && is_space b || is_space2 a b
is_all_space (a ∷ b ∷ c ∷ s) =
    is_space a && is_all_space (b ∷ c ∷ s)
    || (is_space2 a b && is_all_space (c ∷ s) || is_space3 a b c && is_all_space s)

-- The text behind its leading white space, and before its trailing one.
unfoldable pub skip_space : Bytes → Bytes
unfolding is_space2 is_space3
skip_space [] = []
skip_space (a ∷ []) = if is_space a then [] else a ∷ []
skip_space (a ∷ b ∷ []) =
    let one = skip_space (b ∷ []) in
    if is_space a then one else if is_space2 a b then [] else a ∷ b ∷ []
skip_space (a ∷ b ∷ c ∷ s) =
    let one = skip_space (b ∷ c ∷ s) in
    let two = skip_space (c ∷ s) in
    let three = skip_space s in
    if is_space a
    then one
    else if is_space2 a b
    then two
    else if is_space3 a b c
    then three
    else a ∷ b ∷ c ∷ s

unfoldable pub cut_space : Bytes → Bytes
unfolding is_all_space
cut_space [] = []
cut_space (c ∷ s) = let rest = cut_space s in if is_all_space (c ∷ s) then [] else c ∷ rest

-- `strings.TrimSpace`: white space is Unicode's, in UTF-8.
unfoldable pub trim_text : Bytes → Bytes
unfolding skip_space cut_space
trim_text s = cut_space (skip_space s)

-- `strings.ToLower` of an ASCII text. Of any other it is a text that is no MAC, since no letter of
-- another script becomes a digit or a colon: none here.
unfoldable pub lower_text : Bytes → Option Bytes
unfolding to_lower
lower_text s = if all (λ c. ltb c 128) s then some (to_lower s) else none

abbrev pub wildcard_mac : Bytes
wildcard_mac = codes "00:00:00:00:00:00"

pub record Entry : Type 0 where
  pub mac : Option Bytes
  pub key : Bytes
  pub vlan : Bytes

abbrev pub is_blank : ℕ → Bool
is_blank c = c == b' ' || c == b'\t'

-- The token before the first blank, and the rest behind the blanks; `none` without a blank.
unfoldable pub next_token : Bytes → Option (Bytes × Bytes)
unfolding trim_left
next_token [] = none
next_token (c ∷ s) =
    let more = next_token s in
    if is_blank c
    then some ([], trim_left is_blank s)
    else elim more [ none ↦ none | some (tok, rest) ↦ some (c ∷ tok, rest) ]

-- The passphrase is the rest of the line.
abbrev entry_with : Bytes → Bytes → Bytes → Option Entry
entry_with mac [] vlan = none
entry_with mac (c ∷ key) vlan = some (record { mac = lower_text mac; key = c ∷ key; vlan = vlan })

abbrev vlan_after : Bytes → Bytes → Bytes → Bytes
vlan_after name value vlan = if name == codes "vlanid" then value else vlan

-- The loop of `parsePSKLine`, with `e.VLAN`. A round takes at least one byte off the line, so the
-- line's length is fuel enough (`Psk.Line`).
unfoldable pub entry_from : ℕ → Bytes → Bytes → Option Entry
unfolding next_token cut lower_text
entry_from zero vlan rest = none
entry_from (suc f) vlan rest = elim (next_token rest) [
  | none ↦ none
  | some (tok, rest) ↦ elim (cut b'=' tok) [
    | some (name, value) ↦ entry_from f (vlan_after name value vlan) rest
    | none ↦ entry_with tok rest vlan
  ]
]

line_entry : Bytes → Option Entry
line_entry [] = none
line_entry (c ∷ s) = if c == b'#' then none else entry_from (suc (length s)) [] (c ∷ s)

-- `parsePSKLine`.
unfoldable pub parse_psk_line : Bytes → Option Entry
unfolding line_entry entry_from trim_text
parse_psk_line line = line_entry (trim_text line)

-- The directory of the PSK files: the names, each with its content where it can be read.
abbrev pub Dir : Type 0
Dir = List (Bytes × Option Bytes)

abbrev is_wildcard : Option Bytes → Bool
is_wildcard none = false
is_wildcard (some mac) = mac == wildcard_mac

module _ (digest : Bytes → Bytes) where
  -- The entry gives a guarded passphrase to every station.
  abbrev pub is_leak : List Bytes → Option Entry → Bool
  is_leak guard none = false
  is_leak guard (some e) = is_wildcard e.mac && is_member (digest e.key) guard

  leaks : List Bytes → Bytes × Option Bytes → Bool
  leaks guard (name, none) = false
  leaks guard (name, some b) =
      has_prefix name (codes "hostapd-")
      && has_suffix name (codes ".psk")
      && any (λ line. is_leak guard (parse_psk_line line)) (split b'\n' b)

  -- `checkPSKFiles`: true for an error. A directory that cannot be listed is `none`.
  unfoldable pub check_psk_files : Option Dir → List Bytes → Bool
  unfolding leaks parse_psk_line split has_prefix has_suffix
  check_psk_files dir [] = false
  check_psk_files none (g ∷ gs) = false
  check_psk_files (some dir) (g ∷ gs) = any (leaks (g ∷ gs)) dir
