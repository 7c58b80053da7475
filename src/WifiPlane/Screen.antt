-- ===== src/WifiPlane/Screen.antt =====
-- internal/wifiplane/screen.go: what the plane refuses before and after an apply. JSON decoding, and what
-- the kit reports, are inputs.
pub mod Refused
pub mod Order
pub mod Planned
use perch_apd.Base.{
  ℕ, Bool, true, false, not, ◌&&◌, ◌||◌, Option, none, some, List, [], ◌∷◌, ◌++◌, ◌==◌, nat_eq,
  bytes_eq, if◌then◌else◌, Bytes, codes, map, ltb, length,
}
use perch_apd.Base.Sort.{sort, bytes_leb}
use perch_apd.Base.Maps.{is_in_set}
use perch_apd.Groups.Names.{owned_name}
use perch_apd.Groups.Kit.{Kit, of_type}
use perch_apd.WifiPlane.Guard.{Status, missing}

-- `plane.AccessNone`, `AccessRead` and `AccessWrite`.
pub data Access : Type 0 where
  access_none access_read access_write : Access

pub record Op : Type 0 where
  pub config : Bytes
  pub section : Bytes
  pub rename_to : Bytes
  pub sections : List Bytes

-- `applyScreen`, with the ledger's pairs of a config and a section.
pub record ApplyScreen : Type 0 where
  pub dry_run : Bool
  pub ops : List Op
  pub ledger : List (Bytes × Bytes)
  pub psk_digests : List Bytes

pub data ScreenError : Type 0 where
  bad_params : ScreenError
  not_owned : List Bytes → ScreenError
  guard_missing : ScreenError

-- The configs that the plane shares with the groups.
abbrev pub is_shared : Bytes → Bool
is_shared config = config == codes "wireless" || config == codes "network"

-- `owner`, with the set that `groupsOwned` took: whether it is "groups".
unfoldable pub owner : List Bytes → Bytes → Bytes → Bytes
owner set config section =
    if not (is_shared config)
    then []
    else if is_in_set section set || owned_name section
    then codes "groups"
    else []

-- `groupsName`.
unfoldable pub groups_name : List Bytes → Bytes → Bool
groups_name set name = not (name == []) && (is_in_set name set || owned_name name)

-- `check`, on the hits so far.
unfoldable pub check : List Bytes → Bytes → Bytes → List Bytes → List Bytes
unfolding groups_name
check set config name hits =
    if is_shared config && groups_name set name then hits ++ (config ++ b'.' ∷ name) ∷ [] else hits

check_names : List Bytes → Bytes → List Bytes → List Bytes → List Bytes
check_names set config [] hits = hits
check_names set config (n ∷ ns) hits = check_names set config ns (check set config n hits)

check_op : List Bytes → Op → List Bytes → List Bytes
check_op set op hits =
    check_names set op.config op.sections
      (check set op.config op.rename_to (check set op.config op.section hits))

check_ops : List Bytes → List Op → List Bytes → List Bytes
check_ops set [] hits = hits
check_ops set (op ∷ ops) hits = check_ops set ops (check_op set op hits)

check_ledger : List Bytes → List (Bytes × Bytes) → List Bytes → List Bytes
check_ledger set [] hits = hits
check_ledger set ((config, section) ∷ l) hits = check_ledger set l (check set config section hits)

-- The loops that collect the hits.
unfoldable pub hits_of : List Bytes → ApplyScreen → List Bytes
unfolding check_ledger check_ops check_op check_names check
hits_of set a = check_ledger set a.ledger (check_ops set a.ops [])

is_missing : Status → Bool
is_missing missing = true
is_missing _ = false

-- What the screen does with params that it can read, with the sections that the groups own.
unfoldable pub screen_params : List Bytes → Bool → Status → ApplyScreen → Option ScreenError
unfolding hits_of is_missing sort
screen_params set openwrt guard a =
    let hits = hits_of set a in
    if ltb 0 (length a.psk_digests)
    then some bad_params
    else if ltb 0 (length hits)
    then some (not_owned (sort bytes_leb hits))
    else if not a.dry_run && (openwrt && is_missing guard)
    then some guard_missing
    else none

abbrev may_write : Access → Bool
may_write access_write = true
may_write _ = false

-- The payload of a signed request, otherwise the params themselves.
abbrev pub params_of : Bytes → Option Bytes → Bytes
params_of raw none = raw
params_of raw (some payload) = payload

-- `screenApply`: `signed` gives the payload of an envelope with a signature, `decode` the screen's part
-- of the params, and nil stands for `none`.
unfoldable pub screen_apply :
    (Bytes → Option Bytes)
    → (Bytes → Option ApplyScreen)
    → Access
    → List Bytes
    → Bool
    → Status
    → Bytes
    → Option ScreenError
unfolding screen_params
screen_apply signed decode access set openwrt guard raw =
    if not (may_write access) then none else elim (decode (params_of raw (signed raw))) [
      | none ↦ none
      | some a ↦ screen_params set openwrt guard a
    ]

-- `fmt.Sprint` of a list of strings.
abbrev join_words : List Bytes → Bytes
join_words [] = []
join_words (w ∷ []) = w
join_words (w ∷ v ∷ ws) = w ++ b' ' ∷ join_words (v ∷ ws)

unfoldable pub sprint : List Bytes → Bytes
sprint ws = b'[' ∷ (join_words ws ++ b']' ∷ [])

pub data WirelessError : Type 0 where
  radios_changed interfaces_reordered : WirelessError

abbrev pub keep_names : List Bytes → List Bytes → List Bytes
keep_names set [] = []
keep_names set (n ∷ ns) = let rest = keep_names set ns in if is_in_set n set then n ∷ rest else rest

module _ (k : Kit) where
  open k use {Section, name}

  -- The names of the sections of a type, in the config's order.
  abbrev pub names_of : Bytes → List Section → List Bytes
  names_of t c = map name (of_type k t c)

  unfoldable pub radios : List Section → List Bytes
  unfolding sort
  radios c = sort bytes_leb (names_of (codes "wifi-device") c)

  -- `was` and `now`: the interfaces of both configs, in the order of each.
  unfoldable pub was : List Section → List Section → List Bytes
  was before after =
      keep_names (names_of (codes "wifi-iface") after) (names_of (codes "wifi-iface") before)

  unfoldable pub now : List Section → List Section → List Bytes
  unfolding was
  now before after = keep_names (was before after) (names_of (codes "wifi-iface") after)

  -- `checkWireless`.
  unfoldable pub check_wireless : List Section → List Section → Option WirelessError
  unfolding radios was now sprint
  check_wireless before after =
      if not (sprint (radios before) == sprint (radios after))
      then some radios_changed
      else if not (sprint (was before after) == sprint (now before after))
      then some interfaces_reordered
      else none
