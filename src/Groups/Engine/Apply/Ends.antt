-- ===== src/Groups/Engine/Apply/Ends.antt =====
-- internal/groups/engine.go: how `Apply` ends, on every path.
use perch_apd.Base.{
  ℕ, Bool, true, false, not, ◌&&◌, Option, none, some, List, ◌≡◌, ◌⊎◌, inl, inr, refl, ap, arith,
  nat_eq, if◌then◌else◌, Bytes, codes, Bool-cases, if-both, option-both,
}
use perch_apd.Base.Int.{ℤ, int_eq}
use perch_apd.ApplyLock.{Hold}
use perch_apd.Groups.Desired.{
  Desired, Refusal, refuse, apply_failed, uncommitted, config_unreadable,
}
use perch_apd.Groups.Kit.{Kit}
use perch_apd.Groups.Ledger.{Ledger}
use perch_apd.Groups.Draft.{Outcome, ok, refused}
use perch_apd.Groups.Plan.{Plan}
use perch_apd.Groups.Assemble.{plan}
use perch_apd.Groups.Engine.{
  pending_confirm, noop, ApplyResult, Pending, Saved, Engine, Env, persist, wrote, reload, arm,
}
use perch_apd.Groups.Engine.Apply.{
  applied, failed, Attempt, early, window, Changes, content, is_changed, finish_window,
  write_network, write_wireless, open_window, save_copies, keep_state, planned, attempt, opened,
  pending_of, result_of, read_config, detected_port, opened, pending_of, result_of, read_config,
  detected_port, busy_for,
}
use perch_apd.Groups.Engine.Window.{IsOpen, IsRestored, roll_back-IsRestored, IsOpen-same}

-- The result that the pending apply shows, and its deadline.
abbrev pub shown : Option Pending → Option (ApplyResult × ℕ)
shown none = none
shown (some p) = some (p.result, p.deadline)

-- No window is open, and the attempt holds the lock under `h`.
pub record IsQuiet (h : Hold) (applied : ℤ) (w n : Option Bytes) (e : Engine) : Type 0 where
  pub not_pending : e.st.pending ≡ none
  pub not_held : e.hold ≡ none
  pub no_timer : e.timer ≡ none
  pub locked : e.lock.cur ≡ some h
  pub wireless : e.files.wireless ≡ w
  pub network : e.files.network ≡ n
  pub same_applied : e.st.applied_revision ≡ applied

IsQuiet-same :
    {h : Hold} {a : ℤ} {w n : Option Bytes} {e : Engine} (e' : Engine)
    → IsQuiet h a w n e
    → e'.st.pending ≡ e.st.pending
    → e'.st.applied_revision ≡ e.st.applied_revision
    → e'.hold ≡ e.hold
    → e'.timer ≡ e.timer
    → e'.lock ≡ e.lock
    → e'.files.wireless ≡ e.files.wireless
    → e'.files.network ≡ e.files.network
    → IsQuiet h a w n e'
IsQuiet-same e' q st ap hold timer lock w n = record {
  not_pending = ground arith;
  not_held = ground arith;
  no_timer = ground arith;
  locked = ground arith;
  wireless = ground arith;
  network = ground arith;
  same_applied = ground arith;
}

module _ (h : Hold) (revision before : ℤ) (ledger : Ledger) (w n : Option Bytes) where
  -- What an attempt has done, by how it ended.
  abbrev pub Ends : Env → Attempt → Type 0
  Ends v (early e (failed r)) = IsQuiet h before w n e × (e.st.ledger ≡ ledger)
  Ends v (early e (applied out)) = IsQuiet h revision w n e × (out.state ≡ noop)
  Ends v (window e (failed r)) = IsRestored revision before ledger (content w) (content n) e
  Ends v (window e (applied out)) =
      IsOpen h revision before ledger (content w) (content n) e
      × (e.timer ≡ some revision)
      × (out.state ≡ pending_confirm)
      × (shown e.st.pending ≡ some (out, out.deadline))
      × ((v.writes_state ≡ false) ⊎ (e.files.state ≡ e.st))

  module _ (v : Env) (restores_wireless : v.restores_wireless ≡ true)
      (restores_network : v.restores_network ≡ true) where
    finish_window-Ends :
        (out : ApplyResult) (c : Changes) (e : Engine)
        → out.state ≡ pending_confirm
        → shown e.st.pending ≡ some (out, out.deadline)
        → ((v.writes_state ≡ false) ⊎ (e.files.state ≡ e.st))
        → IsOpen h revision before ledger (content w) (content n) e
        → Ends v (finish_window v out c e)
    unfolding finish_window arm wrote reload
    finish_window-Ends out c e s t u o = elim (Bool-cases v.reloads) [
      | inl good ↦ simp good (IsOpen-same _ o refl refl refl refl refl, ground arith, s, t, u)
      | inr bad ↦ simp bad (roll_back-IsRestored v _ restores_wireless restores_network o')
    ]
      where
        o' :
            IsOpen h revision before ledger
              (content w)
              (content n)
              (reload (is_changed c.network) (wrote out.revision c.wireless c.network e))
        o' = IsOpen-same _ o refl refl refl refl refl

    write_network-Ends :
        (out : ApplyResult) (c : Changes) (e : Engine)
        → out.state ≡ pending_confirm
        → shown e.st.pending ≡ some (out, out.deadline)
        → ((v.writes_state ≡ false) ⊎ (e.files.state ≡ e.st))
        → IsOpen h revision before ledger (content w) (content n) e
        → Ends v (write_network v out c e)
    unfolding write_network
    write_network-Ends out c e s t u o =
        elim (Bool-cases (is_changed c.network && not v.writes_network)) [
          | inl bad ↦ rw bad (roll_back-IsRestored v _ restores_wireless restores_network o)
          | inr good ↦
              rw good (finish_window-Ends out c _ s t u (IsOpen-same _ o refl refl refl refl refl))
        ]

    write_wireless-Ends :
        (out : ApplyResult) (c : Changes) (e : Engine)
        → out.state ≡ pending_confirm
        → shown e.st.pending ≡ some (out, out.deadline)
        → ((v.writes_state ≡ false) ⊎ (e.files.state ≡ e.st))
        → IsOpen h revision before ledger (content w) (content n) e
        → Ends v (write_wireless v out c e)
    unfolding write_wireless
    write_wireless-Ends out c e s t u o =
        elim (Bool-cases (is_changed c.wireless && not v.writes_wireless)) [
          | inl bad ↦ rw bad (roll_back-IsRestored v _ restores_wireless restores_network o)
          | inr good ↦
              rw good (write_network-Ends out c _ s t u (IsOpen-same _ o refl refl refl refl refl))
        ]

    stored :
        (old new : Saved) (wrote : Bool) → (wrote ≡ false) ⊎ ((if wrote then new else old) ≡ new)
    stored old new true = inr refl
    stored old new false = inl refl

    opened-IsOpen :
        (p : Pending) (e : Engine)
        → p.revision ≡ revision
        → IsQuiet h before w n e
        → e.st.ledger ≡ ledger
        → e.files.saved_wireless ≡ some (content w)
        → e.files.saved_network ≡ some (content n)
        → IsOpen h revision before ledger (content w) (content n) (opened v h p e)
    unfolding opened persist
    opened-IsOpen p e r q l sw sn = record {
      pending = p;
      is_pending = refl;
      of_revision = r;
      held = refl;
      locked = q.locked;
      copy_wireless = sw;
      copy_network = sn;
      same_applied = q.same_applied;
      same_ledger = l;
    }

    module _ (k : Kit) (digest : Bytes → Bytes) (parse : Bytes → Option (List (k.Section)))
        (render : List (k.Section) → Bytes) (d : Desired)
        (of_revision : d.revision ≡ revision) where
      save_copies-Ends :
          (p : Plan k digest) (c : Changes) (e : Engine)
          → IsQuiet h before w n e
          → e.st.ledger ≡ ledger
          → Ends v (save_copies k digest parse render v d h p c e)
      unfolding save_copies open_window pending_of result_of opened persist
      save_copies-Ends p c e q l = elim (Bool-cases v.saves_wireless) [
        | inr bad ↦ simp bad (q, l)
        | inl good ↦ elim (Bool-cases v.saves_network) [
          | inr bad ↦ simp (good, bad) (IsQuiet-same _ q refl refl refl refl refl refl refl, l)
          | inl fine ↦
              simp (good, fine)
                (write_wireless-Ends _ c _ refl refl (stored _ _ v.writes_state) (
                  opened-IsOpen _ _ of_revision
                    (IsQuiet-same _ q refl refl refl refl refl refl refl) l
                    (ap (λ x. some (content x)) q.wireless) (ap (λ x. some (content x)) q.network)))
        ]
      ]

      keep_state-Ends :
          (p : Plan k digest) (e : Engine)
          → IsQuiet h before w n e
          → Ends v (keep_state k digest parse render v d p e)
      unfolding keep_state persist result_of
      keep_state-Ends p e q = (
        record {
          not_pending = q.not_pending;
          not_held = q.not_held;
          no_timer = q.no_timer;
          locked = q.locked;
          wireless = q.wireless;
          network = q.network;
          same_applied = of_revision;
        },
        refl,
      )

      planned-Ends :
          (wc nc : List (k.Section)) (p : Plan k digest) (e : Engine)
          → IsQuiet h before w n e
          → e.st.ledger ≡ ledger
          → Ends v (planned k digest parse render v d h wc nc p e)
      unfolding planned
      planned-Ends wc nc p e q l =
          let q' = IsQuiet-same _ q refl refl refl refl refl refl refl in
          if-both (Ends v) _ _ _ (keep_state-Ends p _ q') (save_copies-Ends p _ _ q' l)

      outcome-Ends :
          (e : Engine) (f : Plan k digest → Attempt) (o : Outcome (Plan k digest))
          → Ends v (early e (failed (refuse apply_failed)))
          → ((p : Plan k digest) → Ends v (f p))
          → Ends v (elim o [ refused r ↦ early e (failed r) | ok p ↦ f p ])
      outcome-Ends e f (ok p) stay go = go p
      outcome-Ends e f (refused r) stay go = stay

      pub attempt-Ends :
          (e : Engine)
          → IsQuiet h before w n e
          → e.st.ledger ≡ ledger
          → Ends v (attempt k digest parse render v d h e)
      unfolding attempt
      attempt-Ends e q l =
          let stay : (r : Refusal) → Ends v (early e (failed r)) = λ r. (q, l) in
          if-both (Ends v) _ _ v.luci_pending (stay (busy_for (codes "luci_pending"))) (
            if-both (Ends v) _ _ v.uncommitted (stay (refuse uncommitted)) (
              option-both (Ends v) _ _
                (read_config k digest parse render v.reads_wireless e.files.wireless)
                (stay (refuse config_unreadable))
                (λ wc.
                  option-both (Ends v) _ _
                    (read_config k digest parse render v.reads_network e.files.network)
                    (stay (refuse config_unreadable))
                    (λ nc.
                      outcome-Ends _ _ (plan k digest wc nc d (detected_port v d.trunk) e.st.ledger)
                        (stay (refuse apply_failed)) (λ p. planned-Ends wc nc p e q l)))))
