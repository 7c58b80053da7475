-- ===== src/WifiPlane/Service/Examples.antt =====
-- Tests of the plane's guard, screen and lock.
use perch_apd.Base.{
  true, false, not, ◌⊎◌, ◌↔◌, Option, none, some, List, [], ◌∷◌, ◌≡◌, ◌≢◌, refl, bytes_beq, Bytes,
  codes, all, ◌==◌, nat_eq,
}
use perch_apd.Base.Maps.{is_in_set}
use perch_apd.Base.Sort.{sort}
use perch_apd.ApplyLock
use perch_apd.Groups.Names.{owned_name}
use perch_apd.Groups.Examples.{uci, Section, digest, access_point, bridge, lan, desired, no_ledger}
use perch_apd.Groups.Examples.Planning.{
  sample, or_empty, uci_names, sample_ok, sample_words, sample_names,
}
use perch_apd.WifiPlane.Guard.{installed, Files, Calls, ensure_guard, write_atomic}
use perch_apd.WifiPlane.Guard.Settled.{IsSettled, ensure_guard-IsSettled, write_atomic-whole}
use perch_apd.WifiPlane.Screen.{
  access_none, access_write, is_shared, Op, ApplyScreen, not_owned, owner, screen_apply,
  check_wireless,
}
use perch_apd.WifiPlane.Screen.Refused.{MayPass, screen_apply-MayPass}
use perch_apd.WifiPlane.Screen.Planned.{apply_names, screen_apply-plan}
use perch_apd.WifiPlane.Screen.Order.{IsName, IsAccepted, HasNames, check_wireless-IsAccepted}
use perch_apd.WifiPlane.Service.{Gate, Methods, serve, serve_write, is_write_method}
use perch_apd.WifiPlane.Service.Writers.{
  groups, plane, Move, ask, give_up, World, Shows, run, run_owner, run-Shows,
}
use perch_apd.WifiPlane.Service.Routes.{serve-MayPass}

abbrev all_fine : Calls
all_fine = record {
  stat_ok = true;
  read_ok = true;
  lstat_ok = true;
  mkdir_ok = true;
  open_ok = true;
  write_ok = true;
  sync_ok = true;
  close_ok = true;
  chmod_ok = true;
  remove_ok = true;
  rename_ok = true;
  link_dir_ok = true;
  symlink_ok = true;
  opens_executable = true;
  reached = 0;
}

abbrev shipped : Bytes
shipped = codes "#!/bin/sh\nstart\n"

abbrev bare : Files
bare = record { script = none; temporary = none; linked = false }

bare_ensured : (ensure_guard all_fine shipped bare).fine ≡ true
unfolding ensure_guard
bare_ensured = refl

ensure_guard-IsSettled_example :
    IsSettled all_fine shipped bare (ensure_guard all_fine shipped bare)
ensure_guard-IsSettled_example =
    ensure_guard-IsSettled all_fine shipped bare refl refl refl bare_ensured

-- The disk is full behind four bytes.
abbrev disk_full : Calls
disk_full = record all_fine { write_ok = false; reached = 4 }

write_atomic-whole_example :
    let r = write_atomic disk_full shipped bare in
    ((r.1 ≡ true)
      × (r.0 ≡ record bare {
        script = some (record { content = shipped; executable = true });
        temporary = none;
      }))
    ⊎ ((r.1 ≡ false)
        × (r.0.script ≡ none)
        × (r.0.linked ≡ false)
        × ((r.0.temporary ≡ none) ⊎ (r.0.temporary ≡ none) ⊎ (true ≡ false) ⊎ (true ≡ false)))
write_atomic-whole_example = write_atomic-whole disk_full shipped bare

-- An apply that sets an option of a section of the groups.
abbrev set_op : Op
set_op = record {
  config = codes "network";
  section = codes "perch_v10";
  rename_to = [];
  sections = [];
}

abbrev apply_params : ApplyScreen
apply_params = record { dry_run = false; ops = set_op ∷ []; ledger = []; psk_digests = [] }

abbrev unsigned : Bytes → Option Bytes
unsigned raw = none

abbrev decode : Bytes → Option ApplyScreen
decode raw = some apply_params

screen_apply-MayPass_example :
    (screen_apply unsigned decode access_write [] true installed (codes "{}") ≡ none)
    ↔ MayPass [] true installed apply_params
screen_apply-MayPass_example =
    screen_apply-MayPass unsigned decode [] true installed (codes "{}") apply_params refl

screened_hits :
    screen_apply unsigned decode access_write [] true installed (codes "{}")
    ≡ some (not_owned (codes "network.perch_v10" ∷ []))
unfolding screen_apply owned_name bytes_beq sort
screened_hits = refl

abbrev sample_list : List Bytes
sample_list =
    codes "perch_bvu"
    ∷ codes "perch_bv10"
    ∷ codes "perch_v10"
    ∷ codes "perch_wv10_w0"
    ∷ codes "perch_ws0"
    ∷ []

in_sample : is_in_set (codes "perch_v10") sample_list ≡ true
unfolding bytes_beq
in_sample = refl

shared : is_shared (codes "network") ≡ true
unfolding bytes_beq
shared = refl

set_op_names : apply_names (codes "network") (codes "perch_v10") apply_params ≡ true
unfolding bytes_beq
set_op_names = refl

screen_apply-plan_example :
    (owner [] (codes "network") (codes "perch_v10") ≡ codes "groups")
    × (screen_apply unsigned decode access_write [] true installed (codes "{}") ≢ none)
screen_apply-plan_example =
    screen_apply-plan uci digest uci_names (access_point ∷ []) (bridge ∷ lan ∷ []) desired []
      no_ledger (or_empty sample) sample_list (codes "perch_v10") (codes "network") unsigned decode
      [] true installed (codes "{}") apply_params sample_ok sample_words sample_names in_sample
      shared refl set_op_names

abbrev radio : Section
radio = record { typ = codes "wifi-device"; name = codes "radio0"; options = [] }

abbrev wireless : List Section
wireless = radio ∷ access_point ∷ []

word-IsName : (w : Bytes) → w ≢ [] → all (λ c. not (c == b' ')) w ≡ true → IsName w
word-IsName w ne plain = record { ne_nil = ne; no_space = plain }

abbrev guest : Section
guest = record { typ = codes "wifi-iface"; name = codes "guest"; options = [] }

wireless_names : HasNames uci wireless (guest ∷ wireless)
unfolding bytes_beq
wireless_names =
    let r : IsName (codes "radio0") = word-IsName (codes "radio0") (λ e. cc) refl in
    let w : IsName (codes "w0") = word-IsName (codes "w0") (λ e. cc) refl in
    let g : IsName (codes "guest") = word-IsName (codes "guest") (λ e. cc) refl in
    record {
      devices_before = (r, tt);
      devices_after = (r, tt);
      interfaces_before = (w, tt);
      interfaces_after = (g, (w, tt));
    }

check_wireless-IsAccepted_example :
    (check_wireless uci wireless (guest ∷ wireless) ≡ none)
    ↔ IsAccepted uci wireless (guest ∷ wireless)
check_wireless-IsAccepted_example =
    check_wireless-IsAccepted uci wireless (guest ∷ wireless) wireless_names

abbrev methods : Methods
methods = record {
  read = codes "wifi.config.read";
  apply = codes "wifi.config.apply";
  confirm = codes "wifi.config.confirm";
  rollback = codes "wifi.config.rollback";
  ack = codes "wifi.config.ack";
}

abbrev empty_apply : ApplyScreen
empty_apply = record { dry_run = false; ops = []; ledger = []; psk_digests = [] }

abbrev decode_empty : Bytes → Option ApplyScreen
decode_empty raw = some empty_apply

abbrev no_configs : Bytes → Option (List Bytes)
no_configs raw = some []

abbrev writable : Gate
writable = record {
  access = access_write;
  configured = access_write;
  set = [];
  openwrt = true;
  guard = installed;
}

served :
    serve methods no_configs unsigned decode_empty writable (codes "wifi.config.apply") (codes "{}")
    ≡ serve_write
unfolding serve screen_apply bytes_beq
served = refl

serve-MayPass_example :
    (access_write ≢ access_none)
    × ((is_write_method methods (codes "wifi.config.apply") ≡ true)
        ⊎ ((codes "wifi.config.apply" ≡ methods.apply)
            × ((access_write ≢ access_write)
                ⊎ (some empty_apply ≡ none)
                ⊎ ((a : ApplyScreen) × (some empty_apply ≡ some a) × MayPass [] true installed a))))
serve-MayPass_example =
    serve-MayPass methods no_configs unsigned decode_empty writable (codes "wifi.config.apply")
      (codes "{}") served

-- The groups' window, an apply of the plane inside it, and another behind it.
abbrev plane_moves : List Move
plane_moves =
    ask groups 1000 (codes "groups-7")
    ∷ ask plane 1001 (codes "a1")
    ∷ give_up plane
    ∷ give_up groups
    ∷ ask plane 1002 (codes "a2")
    ∷ []

abbrev idle : World
idle = record { lock = ApplyLock.new; holds = λ w. none }

run-Shows_example :
    Shows (run_owner plane_moves none).0 (run plane_moves idle).0
    × ((run plane_moves idle).1 ≡ (run_owner plane_moves none).1)
run-Shows_example = run-Shows plane_moves none idle (refl, λ w. refl)

answers : (run_owner plane_moves none).1 ≡ [] ∷ codes "groups_pending" ∷ [] ∷ [] ∷ [] ∷ []
unfolding run_owner ApplyLock.holder_reason
answers = refl
