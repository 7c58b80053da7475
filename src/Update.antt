-- ===== src/Update.antt =====
-- internal/update/update.go: the updater's side of the write lock, and the wait before the first dial. The
-- agent kit's updater is a parameter: which phases are terminal, how versions compare, what an install and
-- a read of the plan give.
pub mod Held
pub mod Waits
mod Examples
use perch_apd.Base.{
  ℕ, zero, suc, ◌+◌, Bool, true, false, not, ◌&&◌, Option, none, some, List, [], ◌∷◌, ◌++◌, ◌==◌,
  nat_eq, bytes_eq, ltb, if◌then◌else◌, Bytes, codes,
}
use perch_apd.Base.Text.{contains}
use perch_apd.WifiPlane.Guard.{self_installed_script}
use perch_apd.ApplyLock
use perch_apd.ApplyLock.{
  Lock, Hold, AcquireError, busy_error, empty_holder, Acquired, update_holder, holder_reason,
}

-- `kit.Plan`, as far as it is read.
pub record Plan : Type 0 where
  pub update_id : Bytes
  pub phase : Bytes
  pub to : Bytes

-- `guardContent`, of the package's script and of what can be read of the device's.
unfoldable pub guard_content : Bytes → Option Bytes → Bytes
unfolding self_installed_script
guard_content script found = elim found [
  | none ↦ self_installed_script script
  | some b ↦ if b == script then script else self_installed_script script
]

-- `Updater`: the lock that it shares, and its hold.
pub record Updater : Type 0 where
  pub lock : Lock
  pub hold : Option Hold

-- What `Install` answers: a refusal with its code and reason, the kit's error, or its result.
pub data Answer : Type 0 where
  refused : Bytes → Bytes → Answer
  failed : Answer
  installing : Answer

-- `kit.CodeBusy` and `kit.CodeBusyPendingApply`.
abbrev pub code_busy : Bytes
code_busy = codes "busy"

abbrev pub code_busy_pending_apply : Bytes
code_busy_pending_apply = codes "busy_pending_apply"

-- The `busy` hook.
unfoldable pub busy : Lock → Bytes
unfolding ApplyLock.current holder_reason
busy l = elim (ApplyLock.current l) [
  | none ↦ []
  | some i ↦ if i.holder == update_holder then [] else holder_reason i.holder
]

busy_code : AcquireError → Bytes
busy_code (busy_error i) = if i.holder == update_holder then code_busy else code_busy_pending_apply
busy_code empty_holder = code_busy_pending_apply

-- `busyError`.
unfoldable pub refusal : AcquireError → Answer
unfolding busy_code ApplyLock.reason
refusal e = refused (busy_code e) (ApplyLock.reason e)

-- `keep`; the watcher that it starts is `watch`.
abbrev keep : Hold → Updater → Updater
keep h u = record u { hold = some h }

install_held : Bool → Updater → Acquired → Updater × Answer
unfolding refusal ApplyLock.release
install_held fine u (ApplyLock.refused e) = (u, refusal e)
install_held fine u (ApplyLock.acquired h) =
    if fine
    then (keep h u, installing)
    else (record u { lock = ApplyLock.release (some h) u.lock }, failed)

-- `Install`, where `fine` says whether the kit's install succeeds. Other writers are refused meanwhile.
unfoldable pub install : ℕ → Bytes → Bool → Updater → Updater × Answer
unfolding install_held ApplyLock.try_acquire
install now id fine u =
    let (l, r) = ApplyLock.try_acquire now update_holder id u.lock in
    install_held fine (record u { lock = l }) r

-- `Holding`.
unfoldable pub holding : Updater → Bool
unfolding ApplyLock.active
holding u = ApplyLock.active u.hold u.lock

is_hold : Hold → Option Hold → Bool
is_hold h none = false
is_hold h (some k) = k.ident == h.ident

module _ (is_terminal : Bytes → Bool) where
  -- No plan can be read, or it is over.
  abbrev pub is_over : Option Plan → Bool
  is_over none = true
  is_over (some p) = is_terminal p.phase

  startup_held : Updater → Acquired → Updater
  startup_held u (ApplyLock.refused e) = u
  startup_held u (ApplyLock.acquired h) = keep h u

  -- `Startup`, behind the kit's own, with the plan that it then reads.
  unfoldable pub startup : ℕ → Option Plan → Updater → Updater
  unfolding startup_held ApplyLock.try_acquire
  startup now none u = u
  startup now (some p) u =
      let (l, r) = ApplyLock.try_acquire now update_holder p.update_id u.lock in
      if is_terminal p.phase then u else startup_held (record u { lock = l }) r

  -- One round of `releaseWhenDone` for a hold: whether it was the last.
  unfoldable pub watch : Hold → Option Plan → Updater → Updater × Bool
  unfolding ApplyLock.active ApplyLock.release is_hold
  watch h plan u =
      if not (ApplyLock.active (some h) u.lock)
      then (u, true)
      else if is_over plan
      then (
        record {
          lock = ApplyLock.release (some h) u.lock;
          hold = if is_hold h u.hold then none else u.hold;
        },
        true,
      )
      else (u, false)

-- What the loop of `WaitProbation` sees in its rounds: the plan, the clock in milliseconds, and whether the context is
-- done.
pub record Rounds : Type 0 where
  pub plan : ℕ → Option Plan
  pub now : ℕ → ℕ
  pub done : ℕ → Bool

abbrev pub phase_installing : Bytes
phase_installing = codes "installing"

module _ (same_version : Bytes → Bytes → Bool) (is_known : Bytes → Bool) where
  -- The plan is still being installed, and it is this version's.
  unfoldable pub must_wait : Bytes → Option Plan → Bool
  must_wait version none = false
  must_wait version (some p) =
      p.phase == phase_installing && (same_version p.to version && is_known version)

  -- The loop of `WaitProbation` from a round on, with the round in which it returns, or none when the fuel is used up.
  unfoldable pub wait_from : ℕ → Bytes → ℕ → Rounds → ℕ → Option ℕ
  unfolding must_wait
  wait_from zero version deadline s k = none
  wait_from (suc n) version deadline s k =
      let more = wait_from n version deadline s (k + 1) in
      if not (must_wait version (s.plan k))
      then some k
      else if ltb deadline (s.now k)
      then some k
      else if s.done k
      then some k
      else more

  -- `WaitProbation`.
  unfoldable pub wait_probation : ℕ → Bytes → ℕ → ℕ → Rounds → Option ℕ
  unfolding wait_from
  wait_probation n version started max s = wait_from n version (started + max) s 0
