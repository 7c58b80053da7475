-- ===== src/Agent/Redial.antt =====
-- internal/agent/redial.go: the wait before the next dial.
use perch_apd.Base.{
  ℕ, ◌+◌, ◌≤◌, Bool, true, false, Option, none, some, List, [], ◌∷◌, ◌≡◌, refl, arith, if-both,
  option-both, nat_eq, all, not, ◌&&◌, ◌||◌, if◌then◌else◌, ◌==◌, ltb, leb, ◌<◌,
}
use perch_apd.Agent.{
  Codes, Ending, sleeps, joins, Next, is_code, is_unauthorized, Agent, Call, StatusError, began,
  ended, opened, closed, reconnected, waited, same_session, no_session, decides, reconnect,
  redial_delay, retry_delay, next_wait, slow_retry, fast_redial, step, run,
}

-- Calls that neither begin a session nor wait for one.
abbrev pub keeps_redial : Call → Bool
keeps_redial (began c) = false
keeps_redial (waited err fast wait) = false
keeps_redial _ = true

step-redial_now :
    (c : Call) (a : Agent)
    → keeps_redial c ≡ true
    → a.redial_now ≡ true
    → (step c a).redial_now ≡ true
unfolding step
step-redial_now (began c) a k h = absurd (ground arith)
step-redial_now (ended on_end) a k h =
    if-both (λ (b : Agent). b.redial_now ≡ true) (record a { cur = no_session; told = a.told + 1 })
      (record a { cur = no_session }) on_end h h
step-redial_now (opened s) a k h = h
step-redial_now (closed s) a k h =
    if-both (λ (b : Agent). b.redial_now ≡ true) (record a { sess = none }) a
      (same_session a.sess s) h h
step-redial_now reconnected a k h =
    option-both (λ (r : Agent × Option ℕ). r.0.redial_now ≡ true) (a, none)
      (λ s. (record a { redial_now = true }, some s)) a.sess h (λ s. refl)
step-redial_now (waited err fast wait) a k h = absurd (ground arith)

run-redial_now :
    (cs : List Call) (a : Agent)
    → all keeps_redial cs ≡ true
    → a.redial_now ≡ true
    → (run cs a).redial_now ≡ true
unfolding run
run-redial_now [] a k h = h
run-redial_now (c ∷ cs) a k h =
    run-redial_now cs (step c a) (ground arith) (step-redial_now c a (ground arith) h)

-- A close code that `Run` has a wait of its own for.
abbrev pub is_known : Codes → Option ℕ → Bool
is_known k code = is_code k.revoked code || (is_code k.replaced code || is_code k.going_away code)

retry_delay-plain :
    (next : ℕ) (err : Option StatusError) → decides err ≡ false → retry_delay next err ≡ next
unfolding retry_delay
retry_delay-plain next none h = refl
retry_delay-plain next (some se) h = ground arith

-- An end that leaves the delay to the backoff.
abbrev pub is_ordinary : Codes → Ending → Bool
is_ordinary k e = not (is_known k e.code || decides e.err)

next_wait-plain :
    (k : Codes) (e : Ending) (a : Agent)
    → is_ordinary k e ≡ true
    → next_wait k e a
      ≡ ((redial_delay e.err e.fast e.next a).0, sleeps (redial_delay e.err e.fast e.next a).1)
unfolding next_wait
next_wait-plain k e a h =
    rw (retry_delay-plain e.next e.err (ground arith), authorized e.err (ground arith))
      (ground arith)
  where
    authorized : (err : Option StatusError) → decides err ≡ false → is_unauthorized err ≡ false
    authorized none h = refl
    authorized (some se) h = ground arith

-- After `Reconnect` on an open session, the agent dials at once when that session ends, where it ends
-- with no close code that `Run` knows (revoked, replaced, going away) and with no refusal that decides
-- the delay (a status under 500, or one that says how long to wait). When the session that it dials then
-- also ends so, it waits again: as long as it would without `Reconnect`, and at most `FastRedial` while
-- the plane wants a session.
pub redial_delay-reconnect :
    (k : Codes) (cs : List Call) (a : Agent) (s : ℕ) (e later : Ending)
    → a.sess ≡ some s
    → all keeps_redial cs ≡ true
    → is_ordinary k e ≡ true
    → is_ordinary k later ≡ true
    → let r = next_wait k e (run cs (reconnect a).0) in
      let again = next_wait k later r.0 in
      ((reconnect a).1 ≡ some s)
      × (r.1 ≡ sleeps 0)
      × (again.1
          ≡ sleeps (if later.fast && ltb fast_redial later.next then fast_redial else later.next))
unfolding redial_delay reconnect
redial_delay-reconnect k cs a s e later held keep plain plain_later =
    let b = run cs (reconnect a).0 in
    rw
      (
        next_wait-plain k e b plain,
        next_wait-plain k later (redial_delay e.err e.fast e.next b).0 plain_later,
      )
      (
        ground (arith, run-redial_now cs (reconnect a).0 keep),
        ground (arith, run-redial_now cs (reconnect a).0 keep),
        ground (arith, run-redial_now cs (reconnect a).0 keep),
      )

abbrev pub is_asked : Option StatusError → Bool
is_asked none = false
is_asked (some se) = se.status == 429 && ltb 0 se.retry_after

abbrev pub asked_wait : Option StatusError → ℕ
asked_wait none = 0
asked_wait (some se) = se.retry_after

abbrev pub is_within : ℕ → Next → Bool
is_within limit joins = true
is_within limit (sleeps w) = leb w limit

retry_delay-slow_retry :
    (next : ℕ) (err : Option StatusError)
    → next ≤ slow_retry
    → if is_asked err
      then retry_delay next err ≡ asked_wait err
      else retry_delay next err ≤ slow_retry
unfolding retry_delay
retry_delay-slow_retry next none h = h
retry_delay-slow_retry next (some se) h = ground arith

redial_delay-slow_retry :
    (e : Ending) (a : Agent)
    → e.next ≤ slow_retry
    → let wait = (redial_delay e.err e.fast (retry_delay e.next e.err) a).1 in
      if is_asked e.err then wait ≡ asked_wait e.err else wait ≤ slow_retry
unfolding redial_delay
redial_delay-slow_retry e a h = by_err e.err (retry_delay-slow_retry e.next e.err h)
  where
    by_err :
        (err : Option StatusError)
        → (if is_asked err
            then retry_delay e.next err ≡ asked_wait err
            else retry_delay e.next err ≤ slow_retry)
        → let wait = (redial_delay err e.fast (retry_delay e.next err) a).1 in
          if is_asked err then wait ≡ asked_wait err else wait ≤ slow_retry
    by_err none h = ground arith
    by_err (some se) h = ground arith

-- With a backoff of at most five minutes, the agent joins or dials again within five minutes, whatever
-- way the session ended, but for a 429 that says how long to wait: unless the close code is one that
-- `Run` knows (revoked, replaced, going away), the agent waits for exactly that long.
pub next_wait-slow_retry :
    (k : Codes) (e : Ending) (a : Agent)
    → e.next ≤ slow_retry
    → e.pick < 3000
    → if not (is_known k e.code) && is_asked e.err
      then (next_wait k e a).1 ≡ sleeps (asked_wait e.err)
      else is_within slow_retry (next_wait k e a).1 ≡ true
unfolding next_wait
next_wait-slow_retry k e a h few =
    let wait = redial_delay-slow_retry e a h in ground (arith, wait, asked_apart e.err)
  where
    asked_apart : (err : Option StatusError) → is_asked err ≡ true → is_unauthorized err ≡ false
    asked_apart none h = refl
    asked_apart (some se) h = ground arith
