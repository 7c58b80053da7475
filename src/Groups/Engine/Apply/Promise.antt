-- ===== src/Groups/Engine/Apply/Promise.antt =====
-- internal/groups/engine.go: what `Apply` promises its caller.
use perch_apd.Base.{
  true, false, Option, none, some, List, ◌≡◌, ◌⊎◌, inl, inr, refl, sym, ◌∙◌, ap, arith, nat_eq,
  Bytes, option-both,
}
use perch_apd.Base.Int.{ℤ, int_eq}
use perch_apd.ApplyLock
use perch_apd.ApplyLock.{Info, Hold, Lock, groups_holder, Acquired, try_acquire}
use perch_apd.ApplyLock.Exclusive.{try_acquire-acquired}
use perch_apd.Groups.Desired.{Desired, Refusal, validate}
use perch_apd.Groups.Kit.{Kit}
use perch_apd.Groups.Engine.{pending_confirm, noop, ApplyResult, Engine, Env, apply_id}
use perch_apd.Groups.Engine.Apply.{
  Reply, applied, failed, Attempt, early, window, content, apply, attempt, closed, under_lock,
  busy_for,
}
use perch_apd.Groups.Engine.Apply.Ends.{IsQuiet, Ends, attempt-Ends, shown}
use perch_apd.Groups.Engine.Window.{IsOpen}

-- No window is open.
pub record IsIdle (e : Engine) : Type 0 where
  pub not_pending : e.st.pending ≡ none
  pub not_held : e.hold ≡ none
  pub no_timer : e.timer ≡ none

-- The engine is idle, the lock is as it was, and so are the configurations' contents (a missing file
-- and an empty one are the same) and the ledger.
pub record IsUnchanged (e e' : Engine) : Type 0 where
  pub idle : IsIdle e'
  pub same_lock : e'.lock.cur ≡ e.lock.cur
  pub same_wireless : content e'.files.wireless ≡ content e.files.wireless
  pub same_network : content e'.files.network ≡ content e.files.network

-- The window is open for this revision, and its timer is armed. The lock is under this apply's hold,
-- and the contents to go back to are those before.
pub record IsOpened (d : Desired) (v : Env) (out : ApplyResult) (e e' : Engine) : Type 0 where
  pub hold : Hold
  pub opened :
      IsOpen hold d.revision e.st.applied_revision e.st.ledger
        (content e.files.wireless)
        (content e.files.network)
        e'
  pub armed : e'.timer ≡ some d.revision
  pub stored : (v.writes_state ≡ false) ⊎ (e'.files.state ≡ e'.st)
  pub shows : shown e'.st.pending ≡ some (out, out.deadline)
  pub of_apply :
      hold.info ≡ record { holder = groups_holder; id = apply_id d.revision; since = v.now }
  pub was_free : e.lock.cur ≡ none

abbrev pub HasOutcome : Desired → Env → Engine → Engine × Reply → Type 0
HasOutcome d v e (e', failed r) =
    IsUnchanged e e'
    × (e'.st.applied_revision ≡ e.st.applied_revision)
    × (e'.st.ledger ≡ e.st.ledger)
HasOutcome d v e (e', applied out) =
    (IsUnchanged e e' × (e'.st.applied_revision ≡ d.revision) × (out.state ≡ noop))
    ⊎ (IsOpened d v out e e' × (out.state ≡ pending_confirm))

module _ (d : Desired) (v : Env) (e : Engine) (idle : IsIdle e) where
  refused-HasOutcome : (r : Refusal) → HasOutcome d v e (e, failed r)
  refused-HasOutcome r = (
    record { idle = idle; same_lock = refl; same_wireless = refl; same_network = refl },
    refl,
    refl,
  )

  closed-IsUnchanged :
      (h : Hold) (e' : Engine) {a : ℤ}
      → e.lock.cur ≡ none
      → IsQuiet h a e.files.wireless e.files.network e'
      → IsUnchanged e (record e' { lock = ApplyLock.release (some h) e'.lock })
  unfolding ApplyLock.release
  closed-IsUnchanged h e' free q = record {
    idle = record { not_pending = q.not_pending; not_held = q.not_held; no_timer = q.no_timer };
    same_lock = ground arith;
    same_wireless = ap content q.wireless;
    same_network = ap content q.network;
  }

  closed-HasOutcome :
      (h : Hold) (a : Attempt)
      → e.lock.cur ≡ none
      → h.info ≡ record { holder = groups_holder; id = apply_id d.revision; since = v.now }
      → Ends h d.revision e.st.applied_revision e.st.ledger e.files.wireless e.files.network v a
      → HasOutcome d v e (closed h a)
  unfolding closed ApplyLock.release
  closed-HasOutcome h (early e' (failed r)) free i (q, l) =
      (closed-IsUnchanged h e' free q, q.same_applied, l)
  closed-HasOutcome h (early e' (applied out)) free i (q, n) =
      inl (closed-IsUnchanged h e' free q, q.same_applied, n)
  closed-HasOutcome h (window e' (failed r)) free i q = (
    record {
      idle = record { not_pending = q.not_pending; not_held = q.not_held; no_timer = q.no_timer };
      same_lock = q.not_locked ∙ sym free;
      same_wireless = ap content q.wireless;
      same_network = ap content q.network;
    },
    q.same_applied,
    q.same_ledger,
  )
  closed-HasOutcome h (window e' (applied out)) free i (o, armed, s, t, u) = inr (
    record {
      hold = h;
      opened = o;
      armed = armed;
      shows = t;
      stored = u;
      of_apply = i;
      was_free = free;
    },
    s,
  )

module _ (k : Kit) (digest : Bytes → Bytes) (parse : Bytes → Option (List (k.Section)))
    (render : List (k.Section) → Bytes) (v : Env) (restores_wireless : v.restores_wireless ≡ true)
    (restores_network : v.restores_network ≡ true) where
  under_lock-HasOutcome :
      (d : Desired) (e : Engine) (r : Lock × Acquired)
      → IsIdle e
      → ApplyLock.try_acquire v.now groups_holder (apply_id d.revision) e.lock ≡ r
      → HasOutcome d v e (under_lock k digest parse render v d e r)
  unfolding under_lock
  under_lock-HasOutcome d e (l, ApplyLock.refused err) idle got =
      refused-HasOutcome d v e idle (busy_for (ApplyLock.reason err))
  under_lock-HasOutcome d e (l, ApplyLock.acquired h) idle got =
      let (cur, info, _, _, free) =
        try_acquire-acquired v.now groups_holder (apply_id d.revision) e.lock {h = h}
          (ap (λ x. x.1) got) in
      let q : IsQuiet h e.st.applied_revision e.files.wireless e.files.network
          (record e { lock = l }) =
        record {
          not_pending = idle.not_pending;
          not_held = idle.not_held;
          no_timer = idle.no_timer;
          locked = sym (ap (λ x. x.0.cur) got) ∙ cur;
          wireless = refl;
          network = refl;
          same_applied = refl;
        } in
      closed-HasOutcome d v e idle h (attempt k digest parse render v d h (record e { lock = l }))
        free info
        (attempt-Ends h d.revision e.st.applied_revision e.st.ledger e.files.wireless
          e.files.network v restores_wireless restores_network k digest parse render d refl
          (record e { lock = l }) q refl)

  -- An apply on an idle engine either leaves things as they were, or opens the window, if the rollback
  -- copies can be written back. When it fails, on whatever path, the contents of both configurations,
  -- the ledger, the confirmed revision and the lock are those before, and no window is open. When it
  -- succeeds with nothing to write, the same holds and the revision counts as confirmed. When it
  -- succeeds otherwise, the lock was free and is now under this apply's hold, the timer is armed for
  -- the revision, and the copies hold the contents from before.
  pub apply-HasOutcome :
      (d : Desired) (e : Engine) → IsIdle e → HasOutcome d v e (apply k digest parse render v d e)
  unfolding apply
  apply-HasOutcome d e idle =
      simp (apply, idle.not_pending)
        (option-both (HasOutcome d v e) _ _ (validate d) (under_lock-HasOutcome d e _ idle refl)
          (λ r. refused-HasOutcome d v e idle r))
