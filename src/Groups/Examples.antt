-- ===== src/Groups/Examples.antt =====
-- Tests of internal/groups on a small access point: one access point interface, and a bridge with one
-- port. The UCI package is a concrete one here.
pub mod Planning
mod Windows
use perch_apd.Base.{
  ℕ, zero, suc, ◌<◌, ◌≤◌, Bool, true, false, not, ◌&&◌, ◌||◌, Option, none, some, List, [], ◌∷◌,
  ◌++◌, ◌≡◌, ◌≢◌, ◌↔◌, refl, arith, ◌==◌, nat_eq, bytes_eq, bytes_beq, if◌then◌else◌, Bytes, codes,
  keep, length,
}
use perch_apd.Base.Int.{ℤ, pos, int_eq}
use perch_apd.ApplyLock
use perch_apd.ApplyLock.{Hold}
use perch_apd.Groups.Kit.{Kit}
use perch_apd.Groups.Desired.{Desired, Station, validate}
use perch_apd.Groups.Ledger.{Ledger}
use perch_apd.Groups.Engine.{ApplyResult, Saved, Files, Engine, Env, pending_confirm, noop}
use perch_apd.Groups.Engine.Apply.{Reply, applied, failed, apply}

pub data Value : Type 0 where
  string : Bytes → Value
  list : List Bytes → Value

pub record Section : Type 0 where
  pub typ : Bytes
  pub name : Bytes
  pub options : List (Bytes × Value)

abbrev pub str_of : Value → Bytes
str_of (string b) = b
str_of (list bs) = []

abbrev pub is_list : Value → Bool
is_list (string b) = false
is_list (list bs) = true

abbrev pub items : Value → List Bytes
items (string b) = []
items (list bs) = bs

abbrev pub look_up : Bytes → List (Bytes × Value) → Option Value
look_up n [] = none
look_up n ((m, v) ∷ o) = let rest = look_up n o in if n == m then some v else rest

abbrev pub remove : Bytes → List (Bytes × Value) → List (Bytes × Value)
remove n [] = []
remove n ((m, v) ∷ o) = let rest = remove n o in if n == m then rest else (m, v) ∷ rest

abbrev pub uci : Kit
uci = record {
  Section = Section;
  Value = Value;
  string = string;
  list = list;
  str_of = str_of;
  is_list = is_list;
  items = items;
  section = λ n t o. record { typ = t; name = n; options = o };
  name = λ s. s.name;
  anonymous = λ s. s.name == [];
  has_type = λ s t. s.typ == t;
  has_name = λ s n. s.name == n;
  get = λ s n. look_up n s.options;
  set = λ s n v. record s { options = (n, v) ∷ remove n s.options };
  delete = λ s n. record s { options = remove n s.options };
  reindex = λ ss. ss;
}

abbrev pub digest : Bytes → Bytes
digest b = b'h' ∷ b

abbrev pub access_point : Section
access_point = record {
  typ = codes "wifi-iface";
  name = codes "w0";
  options =
      (codes "mode", string (codes "ap"))
      ∷ (codes "ssid", string (codes "home"))
      ∷ (codes "encryption", string (codes "psk2"))
      ∷ (codes "key", string (codes "secret phrase"))
      ∷ [];
}

abbrev pub bridge : Section
bridge = record {
  typ = codes "device";
  name = codes "d0";
  options =
      (codes "type", string (codes "bridge"))
      ∷ (codes "name", string (codes "br-lan"))
      ∷ (codes "ports", list (codes "eth0" ∷ []))
      ∷ [];
}

abbrev pub lan : Section
lan = record {
  typ = codes "interface";
  name = codes "lan";
  options = (codes "device", string (codes "br-lan")) ∷ [];
}

-- The text of a configuration is, here, a name for its sections.
abbrev parse : Bytes → Option (List Section)
parse b =
    if b == codes "w"
    then some (access_point ∷ [])
    else if b == codes "n"
    then some (bridge ∷ lan ∷ [])
    else some []

abbrev render : List Section → Bytes
render [] = []
render (s ∷ ss) = s.name ++ b'\n' ∷ render ss

abbrev pub desired : Desired
desired = record {
  revision = pos 7;
  confirm_seconds = pos 0;
  trunk = codes "eth0";
  ssids = codes "home" ∷ [];
  vlans = pos 10 ∷ [];
  stations = record { key = []; vid = pos 10; macs = codes "02:00:00:00:00:01" ∷ [] } ∷ [];
}

abbrev pub no_ledger : Ledger
no_ledger = record { owned = some []; dynamic_vlan = []; converted = none }

abbrev fresh : Saved
fresh = record {
  applied_revision = pos 0;
  ledger = no_ledger;
  pending = none;
  last_rollback = none;
  trunk = [];
}

abbrev idle_engine : Engine
idle_engine = record {
  st = fresh;
  timer = none;
  hold = none;
  lock = ApplyLock.new;
  files = record {
    wireless = some (codes "w");
    network = some (codes "n");
    saved_wireless = none;
    saved_network = none;
    state = fresh;
  };
  reloads = [];
  written = [];
}

-- Everything succeeds, at this time.
abbrev env_at : ℕ → Env
env_at now = record {
  now = now;
  luci_pending = false;
  uncommitted = false;
  reads_wireless = true;
  reads_network = true;
  detected = none;
  saves_wireless = true;
  saves_network = true;
  writes_wireless = true;
  writes_network = true;
  restores_wireless = true;
  restores_network = true;
  writes_state = true;
  reloads = true;
  psk = some [];
}

abbrev no_result : ApplyResult
no_result = record {
  revision = pos 0;
  state = noop;
  deadline = 0;
  trunk = [];
  bridge = [];
  converted = false;
  managed = [];
  issues = [];
}

abbrev result_in : Reply → ApplyResult
result_in (applied out) = out
result_in (failed r) = no_result

abbrev run : Engine × Reply
run = apply uci digest parse render (env_at 1000) desired idle_engine
