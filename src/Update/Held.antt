-- ===== src/Update/Held.antt =====
-- internal/update/update.go: how long an update keeps the write lock.
use perch_apd.Base.{
  ℕ, suc, Bool, true, false, Option, none, some, List, [], ◌∷◌, ◌≡◌, ◌≢◌, refl, sym, ap, ◌∙◌, arith,
  nat_eq, bytes_eq, Bytes, codes, All, inl, inr, if-both, Option-cases, subst, bytes_beq,
}
use perch_apd.ApplyLock
use perch_apd.ApplyLock.{Lock, Hold, update_holder, busy_error}
use perch_apd.ApplyLock.Exclusive.{Call, call, Spares, call_keeps}
use perch_apd.Update.{
  Plan, Updater, refused, installing, code_busy, busy, refusal, install, install_held, startup_held,
  holding, is_over, startup, watch,
}

-- A call of another writer on the lock, an operation of the updater, or a round of a watcher.
pub data Move : Type 0 where
  others : Call → Move
  installs : ℕ → Bytes → Bool → Move
  starts : ℕ → Option Plan → Move
  watches : Hold → Option Plan → Move

module _ (is_terminal : Bytes → Bool) where
  abbrev step : Move → Updater → Updater
  step (others c) u = record u { lock = call c u.lock }
  step (installs now id fine) u = (install now id fine u).0
  step (starts now plan) u = startup is_terminal now plan u
  step (watches h plan) u = (watch is_terminal h plan u).0

  abbrev pub run : List Move → Updater → Updater
  run [] u = u
  run (m ∷ ms) u = run ms (step m u)

  -- No other writer frees this hold, and its watcher finds its plan in progress.
  abbrev pub IsQuiet : Hold → Move → Type 0
  IsQuiet h (others c) = Spares h.ident c
  IsQuiet h (watches k plan) = k.ident ≡ h.ident → is_over is_terminal plan ≡ false
  IsQuiet h _ = Unit

  -- The lock is under this hold of the updater.
  record IsHeld (h : Hold) (u : Updater) : Type 0 where
    on_lock : u.lock.cur ≡ some h
    kept : u.hold ≡ some h
    named : h.info.holder ≡ update_holder

  try_acquire_held :
      (now : ℕ) (id : Bytes) (l : Lock) (h : Hold)
      → l.cur ≡ some h
      → ApplyLock.try_acquire now update_holder id l ≡ (l, ApplyLock.refused (busy_error h.info))
  unfolding ApplyLock.try_acquire bytes_beq
  try_acquire_held now id l h e = ground arith

  install_taken :
      (now : ℕ) (id : Bytes) (fine : Bool) (u : Updater) (h : Hold)
      → u.lock.cur ≡ some h
      → install now id fine u ≡ (u, refusal (busy_error h.info))
  unfolding install install_held
  install_taken now id fine u h e =
      ap (λ p. install_held fine (record u { lock = p.0 }) p.1) (try_acquire_held now id u.lock h e)

  startup_taken :
      (now : ℕ) (plan : Option Plan) (u : Updater) (h : Hold)
      → u.lock.cur ≡ some h
      → startup is_terminal now plan u ≡ u
  unfolding startup startup_held
  startup_taken now none u h e = refl
  startup_taken now (some p) u h e =
      let taken = try_acquire_held now p.update_id u.lock h e in
      if-both (λ v. v ≡ u) u
        (startup_held is_terminal
          (record u { lock = (ApplyLock.try_acquire now update_holder p.update_id u.lock).0 })
          (ApplyLock.try_acquire now update_holder p.update_id u.lock).1)
        (is_terminal p.phase) refl
        (ap (λ r. startup_held is_terminal (record u { lock = r.0 }) r.1) taken)

  watch_other :
      (g h : Hold) (plan : Option Plan) (u : Updater)
      → u.lock.cur ≡ some h
      → (g.ident ≡ h.ident → is_over is_terminal plan ≡ false)
      → (watch is_terminal g plan u).0 ≡ u
  unfolding watch ApplyLock.active
  watch_other g h plan u e q = ground (arith, q)

  step-IsHeld : (h : Hold) (m : Move) (u : Updater) → IsQuiet h m → IsHeld h u → IsHeld h (step m u)
  step-IsHeld h (others c) u q k = record {
    on_lock = call_keeps c u.lock h k.on_lock q;
    kept = k.kept;
    named = k.named;
  }
  step-IsHeld h (installs now id fine) u q k =
      subst (λ r. IsHeld h r.0) (sym (install_taken now id fine u h k.on_lock)) k
  step-IsHeld h (starts now plan) u q k =
      subst (IsHeld h) (sym (startup_taken now plan u h k.on_lock)) k
  step-IsHeld h (watches g plan) u q k =
      subst (IsHeld h) (sym (watch_other g h plan u k.on_lock q)) k

  run-IsHeld :
      (h : Hold) (ms : List Move) (u : Updater)
      → All (IsQuiet h) ms
      → IsHeld h u
      → IsHeld h (run ms u)
  run-IsHeld h [] u q k = k
  run-IsHeld h (m ∷ ms) u q k = run-IsHeld h ms (step m u) q.1 (step-IsHeld h m u q.0 k)

  -- What the last round of a hold's watcher leaves.
  watch_over :
      (h : Hold) (plan : Option Plan) (u : Updater)
      → IsHeld h u
      → is_over is_terminal plan ≡ true
      → watch is_terminal h plan u
        ≡ (record { lock = record u.lock { cur = none }; hold = none }, true)
  unfolding watch ApplyLock.active ApplyLock.release
  watch_over h plan u k over = ground (arith, k.on_lock, k.kept, over)

  abbrev new_hold : ℕ → Bytes → Lock → Hold
  new_hold now id l = record {
    ident = l.made;
    info = record { holder = update_holder; id = id; since = now };
  }

  try_acquire_free :
      (now : ℕ) (id : Bytes) (l : Lock)
      → l.cur ≡ none
      → ApplyLock.try_acquire now update_holder id l ≡ (
        record { cur = some (new_hold now id l); made = suc l.made },
        ApplyLock.acquired (new_hold now id l),
      )
  unfolding ApplyLock.try_acquire bytes_beq
  try_acquire_free now id l e = ground arith

  install_free :
      (now : ℕ) (id : Bytes) (fine : Bool) (u : Updater)
      → u.lock.cur ≡ none
      → install now id fine u
        ≡ install_held fine
            (record u {
              lock = record { cur = some (new_hold now id u.lock); made = suc u.lock.made };
            })
            (ApplyLock.acquired (new_hold now id u.lock))
  unfolding install
  install_free now id fine u e =
      ap (λ p. install_held fine (record u { lock = p.0 }) p.1) (try_acquire_free now id u.lock e)

  install_held-IsHeld :
      (fine : Bool) (u : Updater) (h : Hold)
      → u.lock.cur ≡ some h
      → h.info.holder ≡ update_holder
      → (install_held fine u (ApplyLock.acquired h)).1 ≡ installing
      → IsHeld h (install_held fine u (ApplyLock.acquired h)).0
  unfolding install_held
  install_held-IsHeld true u h on named e = record { on_lock = on; kept = refl; named = named }
  install_held-IsHeld false u h on named e = absurd (ground arith)

  refusal-ne : (e : ApplyLock.AcquireError) → refusal e ≢ installing
  unfolding refusal
  refusal-ne e same = absurd (ground arith)

  refusal-update :
      (h : Hold)
      → h.info.holder ≡ update_holder
      → refusal (busy_error h.info) ≡ refused code_busy (codes "update_pending")
  unfolding refusal ApplyLock.reason ApplyLock.holder_reason bytes_beq
  refusal-update h named = rw named refl

  IsHeld-keeps :
      (h : Hold) (u : Updater)
      → IsHeld h u
      → (u.lock.cur ≡ some h)
        × (holding u ≡ true)
        × (busy u.lock ≡ [])
        × ((now : ℕ) (id : Bytes) (fine : Bool)
            → install now id fine u ≡ (u, refused code_busy (codes "update_pending")))
        × ((plan : Option Plan)
            → is_over is_terminal plan ≡ true
            → watch is_terminal h plan u
              ≡ (record { lock = record u.lock { cur = none }; hold = none }, true))
  unfolding holding ApplyLock.active busy ApplyLock.current bytes_beq refusal ApplyLock.reason
      ApplyLock.holder_reason
  IsHeld-keeps h u k = (
    k.on_lock,
    ground (arith, k.on_lock, k.kept),
    ground (arith, k.on_lock, k.named),
    λ now id fine.
        install_taken now id fine u h k.on_lock ∙ ap (λ a. (u, a)) (refusal-update h k.named),
    λ plan over. watch_over h plan u k over,
  )

  install-IsHeld :
      (now : ℕ) (id : Bytes) (fine : Bool) (u : Updater)
      → (install now id fine u).1 ≡ installing
      → (h : Hold) × (h.info.id ≡ id) × IsHeld h (install now id fine u).0
  install-IsHeld now id fine u e = elim (Option-cases u.lock.cur) [
    | inl open_lock ↦
        let h = new_hold now id u.lock in
        let start = record u { lock = record { cur = some h; made = suc u.lock.made } } in
        let is = install_free now id fine u open_lock in
        (
          h,
          refl,
          subst (λ r. IsHeld h r.0) (sym is)
              (install_held-IsHeld fine start h refl refl (sym (ap (λ r. r.1) is) ∙ e)),
        )
    | inr (h, held) ↦ absurd (
        refusal-ne (busy_error h.info)
          (sym (ap (λ r. r.1) (install_taken now id fine u h held)) ∙ e))
  ]

  -- An update that is being installed keeps the write lock: whatever other writers ask for or free, other
  -- updates are tried, and watchers find while its own plan is in progress, the updater holds the
  -- lock under this update's id, is not busy for itself, and refuses another update as busy. The
  -- round of its watcher that finds the plan over frees the lock, and is the last.
  pub install-watch :
      (now : ℕ) (id : Bytes) (fine : Bool) (u : Updater)
      → (install now id fine u).1 ≡ installing
      → (h : Hold) × (h.info.id ≡ id)
        × ((ms : List Move)
            → All (IsQuiet h) ms
            → let later = run ms (install now id fine u).0 in
              (later.lock.cur ≡ some h)
              × (holding later ≡ true)
              × (busy later.lock ≡ [])
              × ((now' : ℕ) (other : Bytes) (fine' : Bool)
                  → install now' other fine' later
                    ≡ (later, refused code_busy (codes "update_pending")))
              × ((plan : Option Plan)
                  → is_over is_terminal plan ≡ true
                  → watch is_terminal h plan later
                    ≡ (record { lock = record later.lock { cur = none }; hold = none }, true)))
  install-watch now id fine u e =
      let (h, same_id, k) = install-IsHeld now id fine u e in
      (
        h,
        same_id,
        λ ms quiet.
            IsHeld-keeps h (run ms (install now id fine u).0)
              (run-IsHeld h ms (install now id fine u).0 quiet k),
      )
