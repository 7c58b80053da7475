-- ===== src/WifiPlane/Report.antt =====
-- internal/wifiplane/health.go: the report of `evaluate`.
pub mod Broken
pub mod Excused
pub mod Named
pub mod Healthy
pub mod Verdict
use perch_apd.Base.{
  ℕ, zero, suc, ◌+◌, Bool, true, false, not, ◌&&◌, ◌||◌, Option, none, some, List, [], ◌∷◌, ◌++◌,
  ◌==◌, nat_eq, bytes_eq, ltb, if◌then◌else◌, Bytes, codes, any, map,
}
use perch_apd.Base.Int.{ℤ, pos, negsuc, above, int_eq}
use perch_apd.Base.Sort.{sort, bytes_leb}
use perch_apd.Base.Maps.{at_key, put_key, keys_of, is_in_set, set_of}
use perch_apd.WifiPlane.Health.{
  Problem, problem, status_unreadable, Dfs, RadioState, HostapdStatus, BssRun, RunState, ExpBss,
  Expectation, Before, RadioHealth, BssHealth, Report, Tally, no_problems, add, Check, radio_steps,
  bss_steps,
}

-- `radioChannel`, in the order of the list, where Go's map has none.
unfoldable pub radio_channel : Bytes → List (Bytes × BssRun) → ℤ
radio_channel name [] = pos 0
radio_channel name ((n, b) ∷ m) =
    let rest = radio_channel name m in
    if b.reachable && above b.st.channel 0 && b.radio == name then b.st.channel else rest

active_dfs : Option Dfs → Option Dfs
active_dfs none = none
active_dfs (some d) = if d.cac_active then some d else none

later : Option Dfs → Option Dfs → Option Dfs
later (some d) found = some d
later none found = found

-- `radioDFS`: the last one found.
unfoldable pub radio_dfs : Bytes → List (Bytes × BssRun) → Option Dfs
unfolding active_dfs later
radio_dfs name [] = none
radio_dfs name ((n, b) ∷ m) =
    later (radio_dfs name m) (if b.reachable && b.radio == name then active_dfs b.st.dfs else none)

radio_health_of : Bytes → Option RadioState → ℤ → Option Dfs → Bool → RadioHealth
radio_health_of name none channel dfs expected = record {
  section = name;
  up = false;
  pending = false;
  disabled = false;
  retry_setup_failed = false;
  channel = channel;
  dfs = dfs;
  expected = expected;
}
radio_health_of name (some st) channel dfs expected = record {
  section = name;
  up = st.up;
  pending = st.pending;
  disabled = st.disabled;
  retry_setup_failed = st.retry_setup_failed;
  channel = channel;
  dfs = dfs;
  expected = expected;
}

unfoldable pub radio_health : RunState → Expectation → Bytes → RadioHealth
unfolding radio_health_of radio_channel radio_dfs
radio_health rs e name =
    radio_health_of name (at_key name rs.radios) (radio_channel name rs.bss) (radio_dfs name rs.bss)
      (is_in_set name e.radios)

first_radio : Option ExpBss → Bytes
first_radio none = []
first_radio (some exp) = elim exp.radios [ [] ↦ [] | r ∷ rs ↦ r ]

is_expected : Option ExpBss → Bool
is_expected none = false
is_expected (some exp) = true

bss_health_of : Bytes → Option ExpBss → Option BssRun → BssHealth
bss_health_of name exp none = record {
  section = name;
  radio = first_radio exp;
  ifname = [];
  ssid = [];
  status = codes "missing";
  expected = is_expected exp;
  bssid = [];
}
bss_health_of name exp (some run) = record {
  section = name;
  radio = run.radio;
  ifname = run.ifname;
  ssid = if run.reachable then run.st.ssid else [];
  status = if run.reachable then run.st.status else codes "unreachable";
  expected = is_expected exp;
  bssid = if run.reachable then run.st.bssid else [];
}

unfoldable pub bss_health : RunState → Expectation → Bytes → BssHealth
unfolding bss_health_of first_radio is_expected
bss_health rs e name = bss_health_of name (at_key name e.bss) (at_key name rs.bss)

-- `radioList` and the sorted sections.
abbrev pub radio_list : RunState → Expectation → List Bytes
radio_list rs e = sort bytes_leb (set_of (keys_of rs.radios ++ e.radios))

abbrev pub bss_list : RunState → Expectation → List Bytes
bss_list rs e = sort bytes_leb (set_of (keys_of e.bss ++ keys_of rs.bss))

abbrev status_problems : RunState → Tally
status_problems rs =
    if rs.unreadable
    then add (problem status_unreadable [] false) false no_problems
    else no_problems

unfoldable pub tally_of : RunState → Expectation → Before → Check
unfolding add radio_steps bss_steps
tally_of rs e broken = bss_steps rs e broken (bss_list rs e) (record {
  tally = radio_steps rs e broken (radio_list rs e) (status_problems rs);
  extend = 0;
  cac = [];
})

-- `evaluate`: the report with its `OK`, and how much longer a radar check needs.
unfoldable pub evaluate : RunState → Expectation → Before → Report × ℕ
unfolding tally_of radio_health bss_health
evaluate rs e broken =
    let c = tally_of rs e broken in
    let ok = c.tally.counting == 0 in
    (
      record {
        ok = ok;
        pending = not ok && c.tally.lasting == 0;
        radios = map (radio_health rs e) (radio_list rs e);
        bss = map (bss_health rs e) (bss_list rs e);
        problems = c.tally.problems;
      },
      c.extend,
    )
