-- ===== src/Groups/Engine/Apply/Lifecycle.antt =====
-- internal/groups/engine.go: the life of a confirm window, from the apply that opens it to the
-- confirmation, the timeout or the restart that closes it.
use perch_apd.Base.{
  ℕ, true, false, none, some, ◌≡◌, ◌≢◌, ◌≤◌, ◌<◌, ◌⊎◌, inl, inr, refl, sym, arith, ◌==◌, nat_eq,
  bytes_eq, ltb, if◌then◌else◌, Bytes, bytes_beq, beq_self, beq_apart, Bool-cases,
}
use mathlib.Core.Path.{subst}
use perch_apd.Base.Int.{ℤ, int_eq}
use perch_apd.ApplyLock
use perch_apd.ApplyLock.{Info, Hold, Lock, groups_holder}
use perch_apd.Groups.Desired.{refuse, unsafe_binding}
use perch_apd.Groups.Ledger.{Ledger}
use perch_apd.Groups.Psk.{check_psk_files}
use perch_apd.Groups.Engine.{
  Pending, Engine, Env, apply_id, no_confirm, unsafe_key, window_passed, persist, release_hold,
  roll_back, arm, fire, start, start_hold, start_pending, restart,
}
use perch_apd.Groups.Engine.Apply.{confirm, confirm_pending}
use perch_apd.Groups.Engine.Window.{IsOpen, IsRestored, roll_back-IsRestored, IsOpen-same}

-- The state after a confirmation.
pub record IsKept (p : Pending) (e e' : Engine) : Type 0 where
  pub not_pending : e'.st.pending ≡ none
  pub not_held : e'.hold ≡ none
  pub not_locked : e'.lock.cur ≡ none
  pub no_timer : e'.timer ≡ none
  pub kept_wireless : e'.files.wireless ≡ e.files.wireless
  pub kept_network : e'.files.network ≡ e.files.network
  pub no_copies : (e'.files.saved_wireless ≡ none) × (e'.files.saved_network ≡ none)
  pub new_applied : e'.st.applied_revision ≡ p.revision
  pub new_ledger : e'.st.ledger ≡ p.ledger

module _ (h : Hold) (revision before : ℤ) (ledger : Ledger) (w n : Bytes) where
  pub arm_open :
      (e : Engine) → IsOpen h revision before ledger w n e → (arm e).timer ≡ some revision
  unfolding arm
  arm_open e o = ground arith

  pub fire_due :
      (v : Env) (e : Engine)
      → v.restores_wireless ≡ true
      → v.restores_network ≡ true
      → IsOpen h revision before ledger w n e
      → IsRestored revision before ledger w n (fire v revision e)
  unfolding fire
  fire_due v e okw okn o =
      simp (fire, o.is_pending, o.of_revision, beq_self revision)
        (roll_back-IsRestored v no_confirm okw okn o)

  -- A timer that fires while a window is open closes it if it was armed for this revision: both
  -- contents are back, the lock is free and the rollback is reported, if the copies can be written. A
  -- timer left from another revision changes nothing.
  pub fire-IsRestored :
      (v : Env) (e : Engine) (r : ℤ)
      → v.restores_wireless ≡ true
      → v.restores_network ≡ true
      → IsOpen h revision before ledger w n e
      → ((r ≡ revision) × IsRestored revision before ledger w n (fire v r e))
        ⊎ ((r ≢ revision) × (fire v r e ≡ e))
  unfolding fire
  fire-IsRestored v e r okw okn o = elim (Bool-cases (r == revision)) [
    | inl due ↦
        let same : r ≡ revision = (int_eq.beq_iff r revision).0 due in
        inl (
          same,
          subst (λ t. IsRestored revision before ledger w n (fire v t e)) (sym same)
              (fire_due v e okw okn o),
        )
    | inr stale ↦
        let other : r ≢ revision = λ same. ground (arith, int_eq.beq_iff r revision) in
        inr (
          other,
          simp (fire, o.is_pending, o.of_revision, beq_apart revision r (λ same. other (sym same)))
              refl,
        )
  ]

  confirm_pending-IsKept :
      (v : Env) (e : Engine) (o : IsOpen h revision before ledger w n e)
      → IsKept o.pending e (confirm_pending o.pending v e)
  unfolding confirm_pending persist release_hold ApplyLock.release
  confirm_pending-IsKept v e o = record {
    not_pending = ground arith;
    not_held = ground arith;
    not_locked = ground arith;
    no_timer = ground arith;
    kept_wireless = ground arith;
    kept_network = ground arith;
    no_copies = ground arith;
    new_applied = ground arith;
    new_ledger = ground arith;
  }

  confirm_safe :
      (digest : Bytes → Bytes) (v v' : Env) (e : Engine) (o : IsOpen h revision before ledger w n e)
      → check_psk_files digest v.psk o.pending.binding_keys ≡ false
      → let e' = confirm_pending o.pending v e in
        (confirm digest v revision e ≡ (e', none)) × (confirm digest v' revision e' ≡ (e', none))
  unfolding confirm confirm_pending persist release_hold
  confirm_safe digest v v' e o safe = (
    simp (confirm, o.is_pending, o.of_revision, beq_self revision, safe) refl,
    simp (o.of_revision, beq_self revision) refl,
  )

  -- How a confirmation ends while the window is open. If no managed key leaked into the PSK files, it
  -- is accepted: the contents stay, the revision and its ledger are recorded, the copies are gone and
  -- the lock is free, and to confirm again is accepted and changes nothing. If one leaked, and the
  -- copies can be written, it is refused and the apply is rolled back.
  pub confirm-IsKept :
      (digest : Bytes → Bytes) (v v' : Env) (e : Engine)
      → v.restores_wireless ≡ true
      → v.restores_network ≡ true
      → (o : IsOpen h revision before ledger w n e)
      → let (e', answer) = confirm digest v revision e in
        let leaked = check_psk_files digest v.psk o.pending.binding_keys in
        ((leaked ≡ false)
          × IsKept o.pending e e'
          × (answer ≡ none)
          × (confirm digest v' revision e' ≡ (e', none)))
        ⊎ ((leaked ≡ true)
            × IsRestored revision before ledger w n e'
            × (answer ≡ some (refuse unsafe_binding)))
  unfolding confirm
  confirm-IsKept digest v v' e okw okn o =
      elim (Bool-cases (check_psk_files digest v.psk o.pending.binding_keys)) [
        | inr safe ↦
            let steps = confirm_safe digest v v' e o safe in
            simp (steps.0) (inl (safe, confirm_pending-IsKept v e o, refl, steps.1))
        | inl leak ↦
            simp (confirm, o.is_pending, o.of_revision, beq_self revision, leak)
              (inr (refl, roll_back-IsRestored v unsafe_key okw okn o, refl))
      ]

-- What a crash finds on disk from the moment the window is opened, however far the writes got: the
-- pending apply of the revision, and both rollback copies.
pub record IsSaved (revision : ℤ) (p : Pending) (w n : Bytes) (e : Engine) : Type 0 where
  pub saved_pending : e.files.state.pending ≡ some p
  pub of_revision : p.revision ≡ revision
  pub copy_wireless : e.files.saved_wireless ≡ some w
  pub copy_network : e.files.saved_network ≡ some n

-- The hold of a restart.
abbrev pub restart_hold : ℕ → ℤ → Hold
restart_hold now revision = record {
  ident = 0;
  info = record { holder = groups_holder; id = apply_id revision; since = now };
}

module _ {revision : ℤ} {p : Pending} {w n : Bytes} (v : Env) (e : Engine)
    (s : IsSaved revision p w n e) where
  restart-IsOpen :
      IsOpen
        (restart_hold v.now p.revision)
        revision
        e.files.state.applied_revision
        e.files.state.ledger
        w
        n
        (start_hold v (restart e) p)
  unfolding start_hold restart ApplyLock.try_acquire bytes_beq
  restart-IsOpen = record {
    pending = p;
    is_pending = s.saved_pending;
    of_revision = s.of_revision;
    held = refl;
    locked = refl;
    copy_wireless = s.copy_wireless;
    copy_network = s.copy_network;
    same_applied = refl;
    same_ledger = refl;
  }

  start-restart_eq : start v (restart e) ≡ (
      let held = start_hold v (restart e) p in
      if ltb v.now p.deadline then arm held else roll_back v window_passed held)
  unfolding start start_pending restart
  start-restart_eq = simp s.saved_pending refl

  -- A daemon that restarts over a pending apply, wherever its predecessor died, ends the window or
  -- takes it up again. Past the deadline it rolls back: both contents are those of the copies, the
  -- lock is free and the rollback is reported, if the copies can be written. Before the deadline the
  -- window is open again: the lock is held for the pending revision and its timer is armed.
  pub start-restart :
      v.restores_wireless ≡ true
      → v.restores_network ≡ true
      → ((p.deadline ≤ v.now)
          × IsRestored revision e.files.state.applied_revision e.files.state.ledger w n
              (start v (restart e)))
        ⊎ ((v.now < p.deadline)
            × IsOpen
                (restart_hold v.now p.revision)
                revision
                e.files.state.applied_revision
                e.files.state.ledger
                w
                n
                (start v (restart e))
            × ((start v (restart e)).timer ≡ some revision))
  unfolding arm
  start-restart okw okn = elim (Bool-cases (ltb v.now p.deadline)) [
    | inr late ↦ inl (
      ground arith,
      simp (start-restart_eq, late) (roll_back-IsRestored v window_passed okw okn restart-IsOpen),
    )
    | inl early ↦ inr (
      ground arith,
      simp (start-restart_eq, early) (IsOpen-same _ restart-IsOpen refl refl refl refl refl),
      simp (start-restart_eq, early) (arm_open _ _ _ _ _ _ _ restart-IsOpen),
    )
  ]
