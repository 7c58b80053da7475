-- ===== src/WifiPlane/Report/Verdict.antt =====
-- internal/wifiplane/health.go: what the verdict of `evaluate` means.
use perch_apd.Base.{
  Bool, true, false, not, ◌&&◌, ◌||◌, Option, none, some, List, [], ◌∷◌, ◌≡◌, inl, inr, refl, ap,
  arith, ◌==◌, nat_eq, bytes_eq, Bytes, codes, all, Bool-cases, Option-cases, bytes_beq,
}
use perch_apd.Base.Maps.{at_key, is_in_set}
use perch_apd.WifiPlane.Health.{
  ProblemCode, RadioState, HostapdStatus, BssRun, RunState, ExpBss, Expectation, Before, Tally, add,
  add_found, Check, radio_problem, radio_step, radio_steps, was_broken, status_problem, dfs_step,
  bss_problem, bss_step, bss_steps,
}

-- The radio is up, and netifd has not given it up.
abbrev pub runs : Option RadioState → Bool
runs none = false
runs (some st) = st.up && not st.retry_setup_failed

-- The BSS beacons, with its SSID where one is expected.
abbrev pub beacons : Bytes → Option BssRun → Bool
beacons ssid none = false
beacons ssid (some run) =
    run.reachable && run.st.status == codes "ENABLED" && (ssid == [] || run.st.ssid == ssid)

abbrev pub radio_fine : RunState → Expectation → Before → Bytes → Bool
radio_fine rs e broken name =
    not (is_in_set name e.radios) || is_in_set name broken.radios || runs (at_key name rs.radios)

abbrev pub bss_fine : RunState → Before → Bytes → Option ExpBss → Bool
bss_fine rs broken name none = true
bss_fine rs broken name (some exp) =
    was_broken broken name exp || beacons exp.ssid (at_key name rs.bss)

add_found-counting :
    (section : Bytes) (pre : Bool) (o : Option (ProblemCode × Bool)) (t : Tally)
    → ((add_found section pre o t).counting == 0)
      ≡ ((t.counting == 0) && (pre || (elim o [ none ↦ true | some _ ↦ false ])))
unfolding add
add_found-counting section pre none t = ground arith
add_found-counting section true (some (code, transient)) t = ground arith
add_found-counting section false (some (code, transient)) t = ground arith

radio_problem-runs :
    (o : Option RadioState) → (elim (radio_problem o) [ none ↦ true | some _ ↦ false ]) ≡ runs o
unfolding radio_problem
radio_problem-runs none = refl
radio_problem-runs (some st) = ground arith

radio_step-fine :
    (rs : RunState) (e : Expectation) (broken : Before) (name : Bytes) (t : Tally)
    → rs.unreadable ≡ false
    → ((radio_step rs e broken name t).counting == 0)
      ≡ ((t.counting == 0) && radio_fine rs e broken name)
unfolding radio_step
radio_step-fine rs e broken name t readable = ground (
  arith,
  add_found-counting name (is_in_set name broken.radios) (radio_problem (at_key name rs.radios)) t,
  radio_problem-runs (at_key name rs.radios),
)

pub radio_steps-fine :
    (rs : RunState) (e : Expectation) (broken : Before) (names : List Bytes) (t : Tally)
    → rs.unreadable ≡ false
    → ((radio_steps rs e broken names t).counting == 0)
      ≡ ((t.counting == 0) && all (radio_fine rs e broken) names)
unfolding radio_steps
radio_steps-fine rs e broken [] t readable = ground arith
radio_steps-fine rs e broken (name ∷ names) t readable = ground (
  arith,
  radio_steps-fine rs e broken names (radio_step rs e broken name t) readable,
  radio_step-fine rs e broken name t readable,
)

dfs_apart : (s : Bytes) → (s == codes "DFS") ≡ true → (s == codes "ENABLED") ≡ false
unfolding bytes_beq
dfs_apart s h = ap (λ t. t == codes "ENABLED") ((bytes_eq.beq_iff s (codes "DFS")).0 h)

dfs_step-counting :
    (pre : Bool) (run : BssRun) (c : Check)
    → ((dfs_step pre run c).tally.counting == 0) ≡ ((c.tally.counting == 0) && pre)
unfolding dfs_step
dfs_step-counting pre run c = ground arith

status_problem-beacons :
    (ssid : Bytes) (st : HostapdStatus)
    → (elim (status_problem ssid st) [ none ↦ true | some _ ↦ false ])
      ≡ (st.status == codes "ENABLED" && (ssid == [] || st.ssid == ssid))
unfolding status_problem
status_problem-beacons ssid st = ground arith

reached-fine :
    (name : Bytes) (exp : ExpBss) (pre : Bool) (run : BssRun) (c : Check)
    → run.reachable ≡ true
    → ((bss_problem name exp pre (some run) c).tally.counting == 0)
      ≡ ((c.tally.counting == 0) && (pre || beacons exp.ssid (some run)))
unfolding bss_problem
reached-fine name exp pre run c up = elim (Bool-cases (run.st.status == codes "DFS")) [
  | inl dfs ↦ ground (arith, dfs_step-counting pre run c, dfs_apart run.st.status dfs)
  | inr other ↦ ground (
    arith,
    add_found-counting name pre (status_problem exp.ssid run.st) c.tally,
    status_problem-beacons exp.ssid run.st,
  )
]

bss_problem-fine :
    (name : Bytes) (exp : ExpBss) (pre : Bool) (o : Option BssRun) (c : Check)
    → ((bss_problem name exp pre o c).tally.counting == 0)
      ≡ ((c.tally.counting == 0) && (pre || beacons exp.ssid o))
unfolding bss_problem add
bss_problem-fine name exp pre none c = ground arith
bss_problem-fine name exp pre (some run) c = elim (Bool-cases run.reachable) [
  | inl up ↦ reached-fine name exp pre run c up
  | inr down ↦ ground arith
]

bss_step-fine :
    (rs : RunState) (e : Expectation) (broken : Before) (name : Bytes) (c : Check)
    → rs.unreadable ≡ false
    → ((bss_step rs e broken name c).tally.counting == 0)
      ≡ ((c.tally.counting == 0) && bss_fine rs broken name (at_key name e.bss))
unfolding bss_step
bss_step-fine rs e broken name c readable = elim (Option-cases (at_key name e.bss)) [
  | inl other ↦ ground arith
  | inr (exp, found) ↦
      ground (arith, bss_problem-fine name exp (was_broken broken name exp) (at_key name rs.bss) c)
]

pub bss_steps-fine :
    (rs : RunState) (e : Expectation) (broken : Before) (names : List Bytes) (c : Check)
    → rs.unreadable ≡ false
    → ((bss_steps rs e broken names c).tally.counting == 0)
      ≡ ((c.tally.counting == 0) && all (λ name. bss_fine rs broken name (at_key name e.bss)) names)
unfolding bss_steps
bss_steps-fine rs e broken [] c readable = ground arith
bss_steps-fine rs e broken (name ∷ names) c readable = ground (
  arith,
  bss_steps-fine rs e broken names (bss_step rs e broken name c) readable,
  bss_step-fine rs e broken name c readable,
)
