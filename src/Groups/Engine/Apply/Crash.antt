-- ===== src/Groups/Engine/Apply/Crash.antt =====
-- internal/groups/engine.go: an apply whose window is not confirmed, in one process or across a crash.
use perch_apd.Base.{
  true, Option, none, some, List, ◌≡◌, ◌≢◌, ◌≤◌, ◌<◌, ◌⊎◌, inl, inr, refl, sym, ◌∙◌, ap, arith,
  nat_eq, bytes_eq, Bytes, ◌==◌, if◌then◌else◌,
}
use mathlib.Core.Path.{subst}
use perch_apd.Base.Int.{ℤ, int_eq}
use perch_apd.ApplyLock.{groups_holder, holder_reason}
use perch_apd.Groups.Desired.{Desired}
use perch_apd.Groups.Kit.{Kit}
use perch_apd.Groups.Ledger.{Ledger}
use perch_apd.Groups.Engine.{
  pending_confirm, noop, Pending, ApplyState, ApplyResult, Engine, Env, fire, start, restart,
}
use perch_apd.Groups.Engine.Apply.{applied, failed, Reply, busy_for, content, apply}
use perch_apd.Groups.Engine.Apply.Promise.{IsIdle, IsOpened, HasOutcome, apply-HasOutcome}
use perch_apd.Groups.Engine.Apply.Lifecycle.{IsSaved, fire_due, start-restart}
use perch_apd.Groups.Engine.Window.{IsRestored}
use perch_apd.Groups.Engine.Apply.Ends.{shown}

noop_apart : {s : ApplyState} → s ≡ noop → s ≢ pending_confirm
noop_apart n p = ground arith

IsRestored-same :
    {r a a' : ℤ} {l l' : Ledger} {w n : Bytes} {e : Engine}
    → a ≡ a'
    → l ≡ l'
    → IsRestored r a l w n e
    → IsRestored r a' l' w n e
IsRestored-same {r} {a' = a'} {l} {w = w} {n} {e} p q x =
    subst (λ m. IsRestored r a' m w n e) q (subst (λ m. IsRestored r m l w n e) p x)

-- With a window open `Apply` looks at the revision only.
apply_pending :
    (k : Kit) (digest : Bytes → Bytes) (parse : Bytes → Option (List (k.Section)))
    (render : List (k.Section) → Bytes) (v : Env) (d : Desired) (e : Engine) (p : Pending)
    → e.st.pending ≡ some p
    → apply k digest parse render v d e ≡ (
        if p.revision == d.revision
        then (e, applied p.result)
        else (e, failed (busy_for (holder_reason groups_holder))))
unfolding apply
apply_pending k digest parse render v d e p open_now = simp (apply, open_now) refl

abbrev busy_reply : Engine → Engine × Reply
busy_reply e = (e, failed (busy_for (holder_reason groups_holder)))

abbrev result_reply : Engine → ApplyResult → Engine × Reply
result_reply e out = (e, applied out)

same_revision :
    (e : Engine) (asked held : ℤ) (p : Pending) (out : ApplyResult)
    → p.revision ≡ held
    → p.result ≡ out
    → (if p.revision == asked then result_reply e p.result else busy_reply e)
      ≡ (if asked == held then result_reply e out else busy_reply e)
same_revision e asked held p out of_revision same =
    ground (arith, int_eq.beq_iff p.revision asked, int_eq.beq_iff asked held)

module _ (k : Kit) (digest : Bytes → Bytes) (parse : Bytes → Option (List (k.Section)))
    (render : List (k.Section) → Bytes) (v : Env) (restores_wireless : v.restores_wireless ≡ true)
    (restores_network : v.restores_network ≡ true) (d : Desired) (e : Engine) (idle : IsIdle e)
    {e' : Engine} {out : ApplyResult}
    (answer : apply k digest parse render v d e ≡ (e', applied out))
    (waits : out.state ≡ pending_confirm) where
  pub apply-IsOpened : IsOpened d v out e e'
  apply-IsOpened =
      let ends : HasOutcome d v e (e', applied out) =
        subst (HasOutcome d v e) answer
          (apply-HasOutcome k digest parse render v restores_wireless restores_network d e idle) in
      elim ends [ inl quiet ↦ elim (noop_apart quiet.2 waits) [ ] | inr seen ↦ seen.0 ]

  stored-true : (o : IsOpened d v out e e') → v.writes_state ≡ true → e'.files.state ≡ e'.st
  stored-true o wrote = elim o.stored [ inl lost ↦ absurd (ground arith) | inr same ↦ same ]

  saved :
      (o : IsOpened d v out e e')
      → v.writes_state ≡ true
      → IsSaved d.revision o.opened.pending (content e.files.wireless) (content e.files.network) e'
  saved o wrote = record {
    saved_pending = ap (λ s. s.pending) (stored-true o wrote) ∙ o.opened.is_pending;
    of_revision = o.opened.of_revision;
    copy_wireless = o.opened.copy_wireless;
    copy_network = o.opened.copy_network;
  }

  pending-out :
      (o : IsOpened d v out e e')
      → (o.opened.pending.result ≡ out) × (o.opened.pending.deadline ≡ out.deadline)
  pending-out o =
      let same : shown (some o.opened.pending) ≡ some (out, out.deadline) =
        sym (ap shown o.opened.is_pending) ∙ o.shows in
      (ground arith, ground arith)

  -- An apply that nobody confirms is undone by its timer, if the copies can be written back: the
  -- contents of both configurations, the ledger and the confirmed revision are those from before the
  -- apply, the lock is free, no window is open, and the rollback is reported under the revision.
  pub fire-apply :
      (v' : Env)
      → v'.restores_wireless ≡ true
      → v'.restores_network ≡ true
      → IsRestored d.revision e.st.applied_revision e.st.ledger
          (content e.files.wireless)
          (content e.files.network)
          (fire v' d.revision e')
  fire-apply v' okw okn = let o = apply-IsOpened in fire_due o.hold _ _ _ _ _ v' e' okw okn o.opened

  -- A daemon that dies inside the window and comes up behind the deadline undoes the apply in the same
  -- way, if state.json could be written when the window opened. One that comes up earlier waits on,
  -- under the lock and with the timer armed.
  pub start-apply :
      (v' : Env)
      → v.writes_state ≡ true
      → v'.restores_wireless ≡ true
      → v'.restores_network ≡ true
      → ((out.deadline ≤ v'.now)
          × IsRestored d.revision e.st.applied_revision e.st.ledger
              (content e.files.wireless)
              (content e.files.network)
              (start v' (restart e')))
        ⊎ ((v'.now < out.deadline)
            × ((start v' (restart e')).timer ≡ some d.revision)
            × ((start v' (restart e')).lock.cur ≢ none))
  start-apply v' wrote okw okn =
      let o = apply-IsOpened in
      elim (start-restart v' e' (saved o wrote) okw okn) [
        | inl (late, restored) ↦ inl (
          omega (arith, (pending-out o).1),
          IsRestored-same
              (ap (λ s. s.applied_revision) (stored-true o wrote) ∙ o.opened.same_applied)
              (ap (λ s. s.ledger) (stored-true o wrote) ∙ o.opened.same_ledger) restored,
        )
        | inr (early, open_again, armed) ↦ inr (
          omega (arith, (pending-out o).1),
          armed,
          λ free. ground (arith, free, open_again.locked),
        )
      ]

  -- Behind an apply that opened its window, where the copies can be written back: while that state
  -- stands, an apply of the same revision, whatever else it asks for, answers what the first one answered
  -- and changes nothing, and an apply of another revision is refused as busy and changes nothing.
  pub apply-apply :
      (v' : Env) (d' : Desired)
      → apply k digest parse render v' d' e' ≡ (
          if d'.revision == d.revision
          then (e', applied out)
          else (e', failed (busy_for (holder_reason groups_holder))))
  apply-apply v' d' =
      let o = apply-IsOpened in
      apply_pending k digest parse render v' d' e' o.opened.pending o.opened.is_pending
      ∙ same_revision e' d'.revision d.revision o.opened.pending out o.opened.of_revision
          (pending-out o).0
