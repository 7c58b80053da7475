-- ===== src/Config.antt =====
-- internal/config/config.go: the daemon's settings in /etc/config/perch-apd. Reading and writing the
-- file, and Go's `net/url`, are parameters.
pub mod Saved
pub mod Sound
mod Examples
use perch_apd.Base.{
  ℕ, ◌+◌, ◌*◌, ◌-◌, Bool, true, false, not, ◌&&◌, ◌||◌, Option, none, some, List, [], ◌∷◌, ◌++◌,
  ◌==◌, nat_eq, bytes_eq, ltb, leb, if◌then◌else◌, Bytes, codes, all, any,
}
use perch_apd.Base.Int.{ℤ, pos, negsuc, below, above}
use perch_apd.Base.Sort.{bytes_leb}
use perch_apd.Base.Text.{trim_space, trim_right, to_lower, fields, has_prefix, contains, is_digit}
use perch_apd.Base.Number.{atoi}
use perch_apd.Uci.File.{File, SetResult, updated, get, get_list, set, has_section, ensure_section}

abbrev pub section_type : Bytes
section_type = codes "agent"

abbrev pub section_name : Bytes
section_name = codes "main"

pub data Access : Type 0 where
  access_none access_read access_write : Access

-- `Config`, without the path.
pub record Config : Type 0 where
  pub enabled : Bool
  pub controller : Bytes
  pub join_token : Bytes
  pub agent_id : Bytes
  pub agent_secret : Bytes
  pub tls_insecure : Bool
  pub ca_file : Bytes
  pub log_level : Bytes
  pub ports : Bool
  pub wifi_groups : Bool
  pub wifi_groups_insecure : Bool
  pub wifi_config : Access
  pub wifi_config_allow : List Bytes
  pub wifi_config_ignored : List Bytes
  pub wifi_config_insecure : Bool
  pub wifi_config_confirm_max : ℕ
  pub self_update : Bool
  pub update_keys : List Bytes

abbrev pub default_confirm_max : ℕ
default_confirm_max = 900

abbrev pub min_confirm_max : ℕ
min_confirm_max = 30

abbrev pub max_confirm_max : ℕ
max_confirm_max = 1800

abbrev pub configurable : List Bytes
configurable = codes "wireless" ∷ codes "network" ∷ []

-- `contains`.
abbrev pub is_listed : List Bytes → Bytes → Bool
is_listed list s = any (λ x. x == s) list

-- `TransportVerified`.
unfoldable pub transport_verified : Config → Bool
unfolding has_prefix
transport_verified c = has_prefix c.controller (codes "https://") && not c.tls_insecure

-- `HasCredentials`.
unfoldable pub has_credentials : Config → Bool
has_credentials c = not (c.agent_id == []) && not (c.agent_secret == [])

-- `parseBool`.
unfoldable pub parse_bool : Bytes → Bool → Bool
unfolding to_lower trim_space
parse_bool v def =
    let w = to_lower (trim_space v) in
    if is_listed (codes "1" ∷ codes "yes" ∷ codes "on" ∷ codes "true" ∷ codes "enabled" ∷ []) w
    then true
    else if is_listed (codes "0" ∷ codes "no" ∷ codes "off" ∷ codes "false" ∷ codes "disabled" ∷ [])
        w
    then false
    else def

-- `parseAccess`.
unfoldable pub parse_access : Bytes → Access
unfolding to_lower trim_space
parse_access v =
    let w = to_lower (trim_space v) in
    if w == codes "read"
    then access_read
    else if w == codes "write"
    then access_write
    else access_none

abbrev to_ℕ : ℤ → ℕ
to_ℕ (pos n) = n
to_ℕ (negsuc n) = 0

abbrev clamped : ℕ → ℕ → ℤ → ℕ
clamped lo hi n = if below n lo then lo else if above n hi then hi else to_ℕ n

-- `parseSeconds`.
unfoldable pub parse_seconds : ℕ → Bytes → ℕ → ℕ → ℕ → ℕ
unfolding atoi trim_space
parse_seconds limit v def lo hi = elim (atoi limit (trim_space v)) [
  | none ↦ def
  | some n ↦ clamped lo hi n
]

-- `net/url`: parsing, the parts of a URL that the code reads, a URL with this path and neither query,
-- fragment nor raw path, and the text of it.
pub record UrlKit : Type 1 where
  pub Url : Type 0
  pub parse : Bytes → Option Url
  pub scheme : Url → Bytes
  pub host : Url → Bytes
  pub hostname : Url → Bytes
  pub has_user : Url → Bool
  pub path : Url → Bytes
  pub with_path : Bytes → Url → Url
  pub text : Url → Bytes

abbrev is_slash : ℕ → Bool
is_slash c = c == b'/'

-- The options of the main section, and its lists.
abbrev pub Options : Type 0
Options = Bytes → Option Bytes

abbrev pub Lists : Type 0
Lists = Bytes → List Bytes

-- `get` of `Load`.
abbrev pub get_or : Options → Bytes → Bytes → Bytes
get_or opts key def = elim (opts key) [ none ↦ def | some v ↦ trim_space v ]

-- The keys that are not blank.
abbrev keys_from : List Bytes → List Bytes
keys_from [] = []
keys_from (k ∷ ks) =
    let rest = keys_from ks in if trim_space k == [] then rest else trim_space k ∷ rest

-- The names that `wifi_config_allow` gives, by a list, an option, or not at all.
abbrev or_default : List Bytes → List Bytes → List Bytes
or_default def [] = def
or_default def (x ∷ xs) = x ∷ xs

allow_names : Options → Lists → List Bytes
unfolding fields
allow_names opts lists = or_default configurable (
    or_default (fields (get_or opts (codes "wifi_config_allow") []))
      (lists (codes "wifi_config_allow")))

-- One round of the loop over the names.
allow_step : Bytes → List Bytes × List Bytes → List Bytes × List Bytes
allow_step n (allow, ignored) =
    if n == []
    then (allow, ignored)
    else if is_listed configurable n
    then (if is_listed allow n then allow else allow ++ n ∷ [], ignored)
    else (allow, ignored ++ n ∷ [])

-- `WifiConfigAllow` and `WifiConfigIgnored`.
allow_loop : List Bytes → List Bytes × List Bytes → List Bytes × List Bytes
unfolding allow_step
allow_loop [] r = r
allow_loop (name ∷ names) r = allow_loop names (allow_step (trim_space name) r)

module _ (kit : UrlKit) where
  open kit use {Url}

  url_of : Option Url → Option Bytes
  url_of none = none
  url_of (some u) =
      if not (kit.scheme u == codes "http" || kit.scheme u == codes "https")
      then none
      else if kit.host u == [] || kit.hostname u == []
      then none
      else if kit.has_user u
      then none
      else some (kit.text (kit.with_path (trim_right is_slash (kit.path u)) u))

  -- `NormalizeControllerURL`.
  unfoldable pub normalize_controller_url : Bytes → Option Bytes
  unfolding url_of contains trim_space trim_right
  normalize_controller_url raw =
      let s = trim_space raw in
      if s == []
      then none
      else url_of (kit.parse (if not (contains s (codes "://")) then codes "https://" ++ s else s))

  -- The controller of a file; an empty option is none.
  controller_of : Options → Option Bytes
  unfolding normalize_controller_url
  controller_of opts =
      if get_or opts (codes "controller") [] == []
      then some []
      else normalize_controller_url (get_or opts (codes "controller") [])

  -- The settings that the options and the lists give; an `int` is below `limit`.
  unfoldable pub read_config : ℕ → Options → Lists → Option Config
  unfolding controller_of allow_loop allow_names parse_bool parse_access parse_seconds
  read_config limit opts lists =
      let allow = allow_loop (allow_names opts lists) ([], []) in
      elim (controller_of opts) [
        | none ↦ none
        | some u ↦ some (record {
          enabled = parse_bool (get_or opts (codes "enabled") (codes "1")) true;
          controller = u;
          join_token = get_or opts (codes "join_token") [];
          agent_id = get_or opts (codes "agent_id") [];
          agent_secret = get_or opts (codes "agent_secret") [];
          tls_insecure = parse_bool (get_or opts (codes "tls_insecure") (codes "0")) false;
          ca_file = get_or opts (codes "ca_file") [];
          log_level = get_or opts (codes "log_level") (codes "info");
          ports = parse_bool (get_or opts (codes "ports") (codes "1")) true;
          wifi_groups = parse_bool (get_or opts (codes "wifi_groups") (codes "0")) false;
          wifi_groups_insecure =
              parse_bool (get_or opts (codes "wifi_groups_insecure") (codes "0")) false;
          wifi_config = parse_access (get_or opts (codes "wifi_config") (codes "none"));
          wifi_config_allow = allow.0;
          wifi_config_ignored = allow.1;
          wifi_config_insecure =
              parse_bool (get_or opts (codes "wifi_config_insecure") (codes "0")) false;
          wifi_config_confirm_max =
              parse_seconds limit (get_or opts (codes "wifi_config_confirm_max") [])
                default_confirm_max min_confirm_max max_confirm_max;
          self_update = parse_bool (get_or opts (codes "self_update") (codes "1")) true;
          update_keys = keys_from (lists (codes "update_key"));
        })
      ]

  -- `Load`, of the file's content.
  unfoldable pub load : ℕ → File → Option Config
  unfolding read_config
  load limit f = read_config limit (get f section_name) (get_list f section_name)

-- The inner loop of `sortedKeys`, from the back: a key moves before the greater ones.
insert_key : Bytes × Option Bytes → List (Bytes × Option Bytes) → List (Bytes × Option Bytes)
insert_key e [] = e ∷ []
insert_key e (x ∷ xs) =
    let rest = insert_key e xs in if bytes_leb e.0 x.0 then e ∷ x ∷ xs else x ∷ rest

-- `sortedKeys`, with the values.
sorted_keys : List (Bytes × Option Bytes) → List (Bytes × Option Bytes)
unfolding insert_key bytes_leb
sorted_keys [] = []
sorted_keys (e ∷ es) = insert_key e (sorted_keys es)

-- The file after a `Set`, or none for an error.
abbrev pub set_option : File → Bytes → Bytes → Option File
set_option f key value = elim (set f section_name key value) [ updated g ↦ some g | _ ↦ none ]

-- One round of the loop of `Update`: nil empties an option that is there.
update_key : File → Bytes → Option Bytes → Option File
unfolding set get
update_key f key (some v) = set_option f key v
update_key f key none = elim (get f section_name key) [
  | none ↦ some f
  | some _ ↦ set_option f key []
]

update_keys_loop : List (Bytes × Option Bytes) → File → Option File
update_keys_loop [] f = some f
update_keys_loop ((key, v) ∷ es) f = elim (update_key f key v) [
  | none ↦ none
  | some g ↦ update_keys_loop es g
]

-- The file that `Update` edits, where `missing` says whether there is none.
start_file : Bool → File → File → File
unfolding has_section ensure_section
start_file missing default f =
    if has_section f section_name
    then f
    else ensure_section (if missing then default else f) section_type section_name

-- `Update`: the file that it writes, or none for an error.
unfoldable pub update : Bool → File → List (Bytes × Option Bytes) → File → Option File
unfolding start_file update_keys_loop update_key sorted_keys
update missing default values f =
    update_keys_loop (sorted_keys values) (start_file missing default f)

-- `SaveCredentials`: the file and the settings, where the write succeeds.
unfoldable pub save_credentials :
    Bool → File → Bytes → Bytes → File × Config → Option (File × Config)
unfolding update
save_credentials missing default agent_id agent_secret (f, c) =
    elim (update missing default
      ((codes "agent_id", some agent_id)
        ∷ (codes "agent_secret", some agent_secret)
        ∷ (codes "join_token", none)
        ∷ [])
      f) [
        | none ↦ none
        | some g ↦
            some (g, record c { agent_id = agent_id; agent_secret = agent_secret; join_token = [] })
      ]

-- `ClearCredentials`.
unfoldable pub clear_credentials : Bool → File → File × Config → Option (File × Config)
unfolding update
clear_credentials missing default (f, c) =
    elim (update missing default ((codes "agent_id", none) ∷ (codes "agent_secret", none) ∷ []) f) [
      | none ↦ none
      | some g ↦ some (g, record c { agent_id = []; agent_secret = [] })
    ]
