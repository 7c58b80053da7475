-- ===== src/WifiPlane/Report/Broken.antt =====
-- internal/wifiplane/health.go: `healthBefore`, what was broken before a change.
use perch_apd.Base.{
  true, false, not, Bool, ◌&&◌, Option, none, some, List, [], ◌∷◌, ◌++◌, ◌==◌, nat_eq, bytes_eq,
  Bytes, codes, if◌then◌else◌,
}
use perch_apd.Base.Sort.{sort, bytes_leb}
use perch_apd.Base.Maps.{is_in_set}
use perch_apd.WifiPlane.Health.{
  ProblemCode, radio_down, radio_setup_failed, bss_missing, bss_disabled, ssid_mismatch,
  acs_running, hostapd_unreachable, Problem, RadioState, BssRun, RunState, ExpBss, Expectation,
  Before, status_problem,
}
use perch_apd.WifiPlane.Report.{evaluate}

abbrev pub is_radio_code : ProblemCode → Bool
is_radio_code radio_down = true
is_radio_code radio_setup_failed = true
is_radio_code _ = false

abbrev pub is_bss_code : ProblemCode → Bool
is_bss_code bss_missing = true
is_bss_code bss_disabled = true
is_bss_code hostapd_unreachable = true
is_bss_code ssid_mismatch = true
is_bss_code _ = false

abbrev pub is_transient_code : ProblemCode → Bool
is_transient_code acs_running = true
is_transient_code _ = false

-- The sections of the problems with such a code.
abbrev pub sections_of : (ProblemCode → Bool) → List Problem → List Bytes
sections_of f [] = []
sections_of f (p ∷ ps) = let rest = sections_of f ps in if f p.code then p.section ∷ rest else rest

-- The radios that netifd gave up, where they are not expected.
abbrev pub given_up : Expectation → List (Bytes × RadioState) → List Bytes
given_up e [] = []
given_up e ((name, st) ∷ m) =
    let rest = given_up e m in
    if st.retry_setup_failed && not (is_in_set name e.radios) then name ∷ rest else rest

abbrev pub nothing_broken : Before
nothing_broken = record { radios = []; bss = [] }

unfoldable pub broken_of : RunState → Expectation → List Problem → Before
unfolding sort
broken_of rs e ps = record {
  radios = sort bytes_leb (sections_of is_radio_code ps ++ given_up e rs.radios);
  bss = sections_of is_bss_code ps;
}

-- `healthBefore`: none where netifd's status cannot be read.
unfoldable pub health_before : RunState → Expectation → Option Before
unfolding broken_of evaluate
health_before rs e =
    if rs.unreadable then none else some (broken_of rs e (evaluate rs e nothing_broken).0.problems)

-- A BSS that would count for good.
unfoldable pub bss_is_lasting : ExpBss → Option BssRun → Bool
bss_is_lasting exp none = true
bss_is_lasting exp (some run) =
    if not run.reachable
    then true
    else if run.st.status == codes "DFS"
    then false
    else elim (status_problem exp.ssid run.st) [
      | none ↦ false
      | some (code, transient) ↦ not transient
    ]
