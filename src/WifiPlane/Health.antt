-- ===== src/WifiPlane/Health.antt =====
-- internal/wifiplane/health.go: the loops of the health check `evaluate`. Messages are left out. A radar check's
-- time is in whole seconds. The interfaces that netifd lists are read before, into `bss`.
use perch_apd.Base.{
  ℕ, suc, ◌+◌, Bool, true, false, not, ◌&&◌, ◌||◌, Option, none, some, List, [], ◌∷◌, ◌++◌, ◌==◌,
  nat_eq, bytes_eq, ltb, if◌then◌else◌, Bytes, codes, any,
}
use perch_apd.Base.Int.{ℤ, pos, negsuc, int_eq}
use perch_apd.Base.Maps.{at_key, is_in_set}

-- The problem codes that `evaluate` gives.
pub data ProblemCode : Type 0 where
  radio_down radio_setup_failed bss_missing bss_disabled ssid_mismatch : ProblemCode
  cac_running acs_running hostapd_unreachable status_unreadable : ProblemCode

pub record Problem : Type 0 where
  pub code : ProblemCode
  pub section : Bytes
  pub preexisting : Bool

-- `DFS`, and hostapd's `dfs`.
pub record Dfs : Type 0 where
  pub cac_active : Bool
  pub cac_seconds_left : ℤ

-- One radio of `wirelessStatus`.
pub record RadioState : Type 0 where
  pub up : Bool
  pub pending : Bool
  pub disabled : Bool
  pub retry_setup_failed : Bool

pub record HostapdStatus : Type 0 where
  pub status : Bytes
  pub bssid : Bytes
  pub ssid : Bytes
  pub channel : ℤ
  pub dfs : Option Dfs

pub record BssRun : Type 0 where
  pub radio : Bytes
  pub ifname : Bytes
  pub reachable : Bool
  pub st : HostapdStatus

-- `unreadable` for an error of the status call.
pub record RunState : Type 0 where
  pub radios : List (Bytes × RadioState)
  pub unreadable : Bool
  pub bss : List (Bytes × BssRun)

pub record ExpBss : Type 0 where
  pub radios : List Bytes
  pub ssid : Bytes

-- `expectation`.
pub record Expectation : Type 0 where
  pub radios : List Bytes
  pub bss : List (Bytes × ExpBss)
  pub ap : List (Bytes × ExpBss)

-- `before`.
pub record Before : Type 0 where
  pub radios : List Bytes
  pub bss : List Bytes

pub record RadioHealth : Type 0 where
  pub section : Bytes
  pub up : Bool
  pub pending : Bool
  pub disabled : Bool
  pub retry_setup_failed : Bool
  pub channel : ℤ
  pub dfs : Option Dfs
  pub expected : Bool

pub record BssHealth : Type 0 where
  pub section : Bytes
  pub radio : Bytes
  pub ifname : Bytes
  pub ssid : Bytes
  pub status : Bytes
  pub expected : Bool
  pub bssid : Bytes

pub record Report : Type 0 where
  pub ok : Bool
  pub pending : Bool
  pub radios : List RadioHealth
  pub bss : List BssHealth
  pub problems : List Problem

-- `problemTally`.
pub record Tally : Type 0 where
  pub problems : List Problem
  pub counting : ℕ
  pub lasting : ℕ

abbrev pub no_problems : Tally
no_problems = record { problems = []; counting = 0; lasting = 0 }

-- `add` of a problem, which is transient or not.
unfoldable pub add : Problem → Bool → Tally → Tally
add p transient t =
    let t' = record t { problems = t.problems ++ p ∷ [] } in
    if p.preexisting then t' else record t' {
      counting = suc t.counting;
      lasting = if transient then t.lasting else suc t.lasting;
    }

abbrev pub problem : ProblemCode → Bytes → Bool → Problem
problem code section pre = record { code = code; section = section; preexisting = pre }

-- The `switch` on a radio, and whether the problem is transient.
unfoldable pub radio_problem : Option RadioState → Option (ProblemCode × Bool)
radio_problem none = some (radio_down, false)
radio_problem (some st) =
    if st.retry_setup_failed
    then some (radio_setup_failed, false)
    else if not st.up && st.pending
    then some (radio_down, true)
    else if not st.up
    then some (radio_down, false)
    else none

abbrev pub add_found : Bytes → Bool → Option (ProblemCode × Bool) → Tally → Tally
add_found section pre none t = t
add_found section pre (some (code, transient)) t = add (problem code section pre) transient t

-- The body of the loop over the radios.
unfoldable pub radio_step : RunState → Expectation → Before → Bytes → Tally → Tally
unfolding add radio_problem
radio_step rs e broken name t =
    if not (is_in_set name e.radios) || rs.unreadable
    then t
    else add_found name (is_in_set name broken.radios) (radio_problem (at_key name rs.radios)) t

-- The tally, the longest wait for a radar check, and `cacRadio`.
pub record Check : Type 0 where
  pub tally : Tally
  pub extend : ℕ
  pub cac : List Bytes

abbrev pub cac_margin : ℕ
cac_margin = 15

-- `pre` of a BSS: it or one of its radios was broken before.
unfoldable pub was_broken : Before → Bytes → ExpBss → Bool
was_broken broken name exp =
    is_in_set name broken.bss || any (λ r. is_in_set r broken.radios) exp.radios

-- What a status other than DFS says, and whether the problem is transient.
unfoldable pub status_problem : Bytes → HostapdStatus → Option (ProblemCode × Bool)
status_problem ssid st =
    if st.status == codes "ENABLED"
    then (if not (ssid == []) && not (st.ssid == ssid) then some (ssid_mismatch, false) else none)
    else if st.status == codes "ACS" || st.status == codes "HT_SCAN"
    then some (acs_running, true)
    else if st.status == codes "COUNTRY_UPDATE"
        || st.status == codes "UNINITIALIZED"
        || st.status == []
    then some (bss_disabled, true)
    else some (bss_disabled, false)

-- The seconds left of a radar check that runs, 0 where that is not positive.
unfoldable pub seconds_left : Option Dfs → ℕ
seconds_left none = 0
seconds_left (some d) =
    if d.cac_active then (elim d.cac_seconds_left [ pos n ↦ n | negsuc n ↦ 0 ]) else 0

longer : ℕ → Bool → ℕ → ℕ
longer left pre extend =
    if ltb 0 left && not pre
    then (if ltb extend (left + cac_margin) then left + cac_margin else extend)
    else extend

-- The case of status DFS: one problem for each radio.
unfoldable pub dfs_step : Bool → BssRun → Check → Check
unfolding longer seconds_left add
dfs_step pre run c =
    let extend = longer (seconds_left run.st.dfs) pre c.extend in
    if is_in_set run.radio c.cac
    then record c {
      extend = extend;
      tally = if pre then c.tally else record (c.tally) { counting = suc c.tally.counting };
    }
    else record {
      tally = add (problem cac_running run.radio pre) true c.tally;
      extend = extend;
      cac = run.radio ∷ c.cac;
    }

-- The `switch` on a BSS.
unfoldable pub bss_problem : Bytes → ExpBss → Bool → Option BssRun → Check → Check
unfolding dfs_step status_problem add
bss_problem name exp pre none c = record c {
  tally = add (problem bss_missing name pre) false c.tally;
}
bss_problem name exp pre (some run) c =
    if not run.reachable
    then record c { tally = add (problem hostapd_unreachable name pre) false c.tally }
    else if run.st.status == codes "DFS"
    then dfs_step pre run c
    else record c { tally = add_found name pre (status_problem exp.ssid run.st) c.tally }

-- The body of the loop over the BSSes.
unfoldable pub bss_step : RunState → Expectation → Before → Bytes → Check → Check
unfolding bss_problem was_broken
bss_step rs e broken name c = elim (at_key name e.bss) [
  | none ↦ c
  | some exp ↦
      if rs.unreadable
      then c
      else bss_problem name exp (was_broken broken name exp) (at_key name rs.bss) c
]

unfoldable pub radio_steps : RunState → Expectation → Before → List Bytes → Tally → Tally
unfolding radio_step
radio_steps rs e broken [] t = t
radio_steps rs e broken (name ∷ names) t =
    radio_steps rs e broken names (radio_step rs e broken name t)

unfoldable pub bss_steps : RunState → Expectation → Before → List Bytes → Check → Check
unfolding bss_step
bss_steps rs e broken [] c = c
bss_steps rs e broken (name ∷ names) c = bss_steps rs e broken names (bss_step rs e broken name c)
