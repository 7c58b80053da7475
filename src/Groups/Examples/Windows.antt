-- ===== src/Groups/Examples/Windows.antt =====
-- Tests of internal/groups/engine.go: an apply, and how its window ends.
use perch_apd.Base.{
  ◌≤◌, ◌<◌, true, false, Option, none, some, [], ◌≡◌, ◌≢◌, ◌⊎◌, refl, bytes_beq, codes,
  if◌then◌else◌, ◌==◌,
}
use perch_apd.Base.Int.{pos, int_eq}
use perch_apd.Base.Sort.{sort}
use perch_apd.Base.Text.{itoa}
use perch_apd.ApplyLock
use perch_apd.ApplyLock.{Hold, groups_holder, holder_reason}
use perch_apd.Groups.Names.{valid_mac, valid_key, valid_ifname}
use perch_apd.Groups.Desired.{refuse, unsafe_binding, validate}
use perch_apd.Groups.Kit.{list_of}
use perch_apd.Groups.Assemble.{plan}
use perch_apd.Groups.Psk.{check_psk_files}
use perch_apd.Groups.Engine.{Pending, Engine, pending_confirm, fire, start, restart}
use perch_apd.Groups.Engine.Window.{IsOpen, IsRestored}
use perch_apd.Groups.Engine.Apply.{applied, failed, busy_for, apply, confirm}
use perch_apd.Groups.Engine.Apply.Promise.{IsIdle, HasOutcome, apply-HasOutcome}
use perch_apd.Groups.Engine.Apply.Lifecycle.{
  IsKept, IsSaved, fire-IsRestored, confirm-IsKept, start-restart, restart_hold,
}
use perch_apd.Groups.Engine.Apply.Crash.{fire-apply, start-apply, apply-apply}
use perch_apd.Groups.Examples.{
  uci, digest, parse, render, desired, no_ledger, idle_engine, env_at, result_in, run,
}

idle : IsIdle idle_engine
idle = record { not_pending = refl; not_held = refl; no_timer = refl }

-- The apply opens its window, for the default of two minutes.
run_opens : ((result_in run.1).state ≡ pending_confirm) × ((result_in run.1).deadline ≡ 1120)
unfolding apply validate bytes_beq valid_mac valid_ifname ApplyLock.try_acquire plan list_of sort
    valid_key itoa
run_opens = (refl, refl)

run_answer : run ≡ (run.0, applied (result_in run.1))
unfolding apply validate bytes_beq valid_mac valid_ifname ApplyLock.try_acquire plan list_of sort
    valid_key itoa
run_answer = refl

apply-HasOutcome_example : HasOutcome desired (env_at 1000) idle_engine run
apply-HasOutcome_example =
    apply-HasOutcome uci digest parse render (env_at 1000) refl refl desired idle_engine idle

fire-apply_example :
    IsRestored (pos 7) (pos 0) no_ledger (codes "w") (codes "n") (fire (env_at 1120) (pos 7) run.0)
fire-apply_example =
    fire-apply uci digest parse render (env_at 1000) refl refl desired idle_engine idle run_answer
      run_opens.0 (env_at 1120) refl refl

start-apply_example :
    (((result_in run.1).deadline ≤ 2000)
      × IsRestored
          (pos 7)
          (pos 0)
          no_ledger
          (codes "w")
          (codes "n")
          (start (env_at 2000) (restart run.0)))
    ⊎ ((2000 < (result_in run.1).deadline)
        × ((start (env_at 2000) (restart run.0)).timer ≡ some (pos 7))
        × ((start (env_at 2000) (restart run.0)).lock.cur ≢ none))
start-apply_example =
    start-apply uci digest parse render (env_at 1000) refl refl desired idle_engine idle run_answer
      run_opens.0 (env_at 2000) refl refl refl

apply-apply_example :
    apply uci digest parse render (env_at 1060) (record desired { revision = pos 8 }) run.0 ≡ (
      if pos 8 == desired.revision
      then (run.0, applied (result_in run.1))
      else (run.0, failed (busy_for (holder_reason groups_holder))))
apply-apply_example =
    apply-apply uci digest parse render (env_at 1000) refl refl desired idle_engine idle run_answer
      run_opens.0 (env_at 1060) (record desired { revision = pos 8 })

abbrev no_pending : Pending
no_pending = record {
  revision = pos 0;
  deadline = 0;
  ledger = no_ledger;
  network = false;
  binding_keys = [];
  result = result_in run.1;
}

abbrev pending_in : Option Pending → Pending
pending_in none = no_pending
pending_in (some p) = p

abbrev hold_in : Option Hold → Hold
hold_in none = record { ident = 0; info = record { holder = []; id = []; since = 0 } }
hold_in (some h) = h

abbrev run_hold : Hold
run_hold = hold_in run.0.hold

run_window : IsOpen run_hold (pos 7) (pos 0) no_ledger (codes "w") (codes "n") run.0
unfolding apply validate bytes_beq valid_mac valid_ifname ApplyLock.try_acquire plan list_of sort
    valid_key itoa
run_window = record {
  pending = pending_in run.0.st.pending;
  is_pending = refl;
  of_revision = refl;
  held = refl;
  locked = refl;
  copy_wireless = refl;
  copy_network = refl;
  same_applied = refl;
  same_ledger = refl;
}

-- A timer left from revision 6.
fire-IsRestored_example :
    ((pos 6 ≡ pos 7)
      × IsRestored
          (pos 7)
          (pos 0)
          no_ledger
          (codes "w")
          (codes "n")
          (fire (env_at 1120) (pos 6) run.0))
    ⊎ ((pos 6 ≢ pos 7) × (fire (env_at 1120) (pos 6) run.0 ≡ run.0))
fire-IsRestored_example =
    fire-IsRestored run_hold (pos 7) (pos 0) no_ledger (codes "w") (codes "n") (env_at 1120) run.0
      (pos 6) refl refl run_window

confirm-IsKept_example :
    let (e', answer) = confirm digest (env_at 1060) (pos 7) run.0 in
    let leaked = check_psk_files digest (some []) run_window.pending.binding_keys in
    ((leaked ≡ false)
      × IsKept run_window.pending run.0 e'
      × (answer ≡ none)
      × (confirm digest (env_at 1061) (pos 7) e' ≡ (e', none)))
    ⊎ ((leaked ≡ true)
        × IsRestored (pos 7) (pos 0) no_ledger (codes "w") (codes "n") e'
        × (answer ≡ some (refuse unsafe_binding)))
confirm-IsKept_example =
    confirm-IsKept run_hold (pos 7) (pos 0) no_ledger (codes "w") (codes "n") digest (env_at 1060)
      (env_at 1061) run.0 refl refl run_window

-- The process died while it wrote the wireless configuration.
abbrev torn : Engine
torn = record run.0 { files = record (run.0.files) { wireless = some (codes "half") } }

torn-IsSaved : IsSaved (pos 7) (pending_in run.0.st.pending) (codes "w") (codes "n") torn
unfolding apply validate bytes_beq valid_mac valid_ifname ApplyLock.try_acquire plan list_of sort
    valid_key itoa
torn-IsSaved = record {
  saved_pending = refl;
  of_revision = refl;
  copy_wireless = refl;
  copy_network = refl;
}

start-restart_example :
    (((pending_in run.0.st.pending).deadline ≤ 1001)
      × IsRestored
          (pos 7)
          torn.files.state.applied_revision
          torn.files.state.ledger
          (codes "w")
          (codes "n")
          (start (env_at 1001) (restart torn)))
    ⊎ ((1001 < (pending_in run.0.st.pending).deadline)
        × IsOpen
            (restart_hold 1001 (pending_in run.0.st.pending).revision)
            (pos 7)
            torn.files.state.applied_revision
            torn.files.state.ledger
            (codes "w")
            (codes "n")
            (start (env_at 1001) (restart torn))
        × ((start (env_at 1001) (restart torn)).timer ≡ some (pos 7)))
start-restart_example = start-restart (env_at 1001) torn torn-IsSaved refl refl
