-- ===== src/Groups/Engine/Window.antt =====
-- internal/groups/engine.go: the confirm window. What an engine with an open window holds, and what a
-- rollback of it leaves.
use perch_apd.Base.{true, none, some, ◌≡◌, refl, arith, nat_eq, Bytes}
use perch_apd.Base.Int.{ℤ, int_eq}
use perch_apd.ApplyLock
use perch_apd.ApplyLock.{Hold, Lock}
use perch_apd.Groups.Ledger.{Ledger}
use perch_apd.Groups.Engine.{Pending, Cause, Rollback, Engine, Env, roll_back}

-- The window of a revision is open under this hold, and these are the contents to go back to. The
-- last confirmed revision and its ledger are the ones given.
pub record IsOpen (h : Hold) (revision applied : ℤ) (ledger : Ledger) (w n : Bytes) (e : Engine)
    : Type 0 where
  pub pending : Pending
  pub is_pending : e.st.pending ≡ some pending
  pub of_revision : pending.revision ≡ revision
  pub held : e.hold ≡ some h
  pub locked : e.lock.cur ≡ some h
  pub copy_wireless : e.files.saved_wireless ≡ some w
  pub copy_network : e.files.saved_network ≡ some n
  pub same_applied : e.st.applied_revision ≡ applied
  pub same_ledger : e.st.ledger ≡ ledger

-- No window is open, the lock is free, and the configurations have these contents.
pub record IsRestored (revision applied : ℤ) (ledger : Ledger) (w n : Bytes) (e : Engine)
    : Type 0 where
  pub not_pending : e.st.pending ≡ none
  pub not_held : e.hold ≡ none
  pub not_locked : e.lock.cur ≡ none
  pub no_timer : e.timer ≡ none
  pub wireless : e.files.wireless ≡ some w
  pub network : e.files.network ≡ some n
  pub same_applied : e.st.applied_revision ≡ applied
  pub same_ledger : e.st.ledger ≡ ledger
  pub reported : (r : Rollback) × (e.st.last_rollback ≡ some r) × (r.revision ≡ revision)

module _ {h : Hold} {revision applied : ℤ} {ledger : Ledger} {w n : Bytes} {e : Engine} where
  -- A rollback of an open window puts both contents back and frees the lock, if the copies can be
  -- written.
  pub roll_back-IsRestored :
      (v : Env) (cause : Cause)
      → v.restores_wireless ≡ true
      → v.restores_network ≡ true
      → IsOpen h revision applied ledger w n e
      → IsRestored revision applied ledger w n (roll_back v cause e)
  unfolding roll_back ApplyLock.release
  roll_back-IsRestored v cause rw rn o = record {
    not_pending = ground arith;
    not_held = ground arith;
    not_locked = ground arith;
    no_timer = ground arith;
    wireless = ground arith;
    network = ground arith;
    same_applied = ground arith;
    same_ledger = ground arith;
    reported = (record { revision = revision; at = v.now; cause = cause }, ground arith, refl);
  }

  -- An open window stays open while the state, the hold, the lock and the copies stay.
  pub IsOpen-same :
      (e' : Engine)
      → IsOpen h revision applied ledger w n e
      → e'.st ≡ e.st
      → e'.hold ≡ e.hold
      → e'.lock ≡ e.lock
      → e'.files.saved_wireless ≡ e.files.saved_wireless
      → e'.files.saved_network ≡ e.files.saved_network
      → IsOpen h revision applied ledger w n e'
  IsOpen-same e' o st hold lock sw sn = record {
    pending = o.pending;
    is_pending = ground arith;
    of_revision = o.of_revision;
    held = ground arith;
    locked = ground arith;
    copy_wireless = ground arith;
    copy_network = ground arith;
    same_applied = ground arith;
    same_ledger = ground arith;
  }
