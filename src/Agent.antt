-- ===== src/Agent.antt =====
-- internal/agent/redial.go, and the session pointer of internal/agent/agent.go: what the agent keeps of
-- its session under its mutex. A session's identity stands for its pointer, durations are nanoseconds,
-- and what the plane and the backoff answer are inputs.
pub mod Push
pub mod Sessions
pub mod Redial
mod Examples
use perch_apd.Base.{
  ℕ, ◌+◌, ◌*◌, ◌^◌, ◌%◌, Bool, true, false, not, ◌&&◌, ◌||◌, Option, none, some, List, [], ◌∷◌,
  ◌==◌, nat_eq, ltb, leb, if◌then◌else◌, Bytes,
}

-- `sessionInfo`.
pub record SessionInfo : Type 0 where
  pub gen : ℕ
  pub challenge : Bytes

-- The fields of `Agent` behind the mutex, and how often the plane was told of an end.
pub record Agent : Type 0 where
  pub sess : Option ℕ
  pub gen : ℕ
  pub cur : SessionInfo
  pub redial_now : Bool
  pub told : ℕ

-- `link.StatusError`: the status, and how long to wait.
pub record StatusError : Type 0 where
  pub status : ℕ
  pub retry_after : ℕ

abbrev pub no_session : SessionInfo
no_session = record { gen = 0; challenge = [] }

abbrev pub word : ℕ
word = 18446744073709551616

-- `beginSession`, with the challenge that `newChallenge` gives.
unfoldable pub begin_session : Bytes → Agent → Agent
begin_session challenge a =
    let gen = (a.gen + 1) % word in
    record a { gen = gen; cur = record { gen = gen; challenge = challenge }; redial_now = false }

-- `endSession`, where `on_end` says whether the plane wants to know.
unfoldable pub end_session : Bool → Agent → Agent
end_session on_end a =
    let forgot = record a { cur = no_session } in
    if on_end then record forgot { told = a.told + 1 } else forgot

-- `SessionRef`, of a context that has ended or not.
unfoldable pub session_ref : Bool → Agent → SessionInfo
session_ref ended a = if ended then no_session else a.cur

unfoldable pub set_session : Option ℕ → Agent → Agent
set_session s a = record a { sess = s }

abbrev same_session : Option ℕ → ℕ → Bool
same_session none s = false
same_session (some t) s = t == s

unfoldable pub clear_session : ℕ → Agent → Agent
clear_session s a = if same_session a.sess s then record a { sess = none } else a

-- `Reconnect`, and the session that it closes.
unfoldable pub reconnect : Agent → Agent × Option ℕ
reconnect a = elim a.sess [ none ↦ (a, none) | some s ↦ (record a { redial_now = true }, some s) ]

abbrev pub fast_redial : ℕ
fast_redial = 2000000000

-- A refusal that the backoff does not decide.
abbrev pub decides : Option StatusError → Bool
decides none = false
decides (some se) = ltb se.status 500 || ltb 0 se.retry_after

-- `redialDelay`, where `fast` is the plane's answer.
unfoldable pub redial_delay : Option StatusError → Bool → ℕ → Agent → Agent × ℕ
redial_delay err fast wait a = (
  record a { redial_now = false },
  if decides err
      then wait
      else if a.redial_now
      then 0
      else if fast && ltb fast_redial wait
      then fast_redial
      else wait,
)

abbrev pub second : ℕ
second = 1000000000

-- Statuses after which the agent tries again slowly.
abbrev is_slow : ℕ → Bool
is_slow s = s == 401 || (s == 422 || (s == 404 || (s == 403 || s == 400)))

abbrev pub reconnect_max : ℕ
reconnect_max = 30 * second

abbrev pub slow_retry : ℕ
slow_retry = 300 * second

-- `retryDelay`, where `next` is what the backoff gives.
unfoldable pub retry_delay : ℕ → Option StatusError → ℕ
retry_delay next none = next
retry_delay next (some se) =
    if se.status == 429 && ltb 0 se.retry_after
    then se.retry_after
    else if leb 500 se.status && (ltb 0 se.retry_after && ltb se.retry_after reconnect_max)
    then se.retry_after
    else if is_slow se.status
    then slow_retry
    else next

abbrev replaced_retry : ℕ
replaced_retry = 60 * second

-- The close codes that `Run` knows: `link.CloseRevoked`, `link.CloseReplaced` and
-- `websocket.StatusGoingAway`.
pub record Codes : Type 0 where
  pub revoked : ℕ
  pub replaced : ℕ
  pub going_away : ℕ

abbrev is_code : ℕ → Option ℕ → Bool
is_code c none = false
is_code c (some code) = c == code

abbrev is_unauthorized : Option StatusError → Bool
is_unauthorized none = false
is_unauthorized (some se) = se.status == 401

-- What `Run` does behind a session that ended: it drops its credentials and joins at once, or sleeps.
pub data Next : Type 0 where
  joins : Next
  sleeps : ℕ → Next

-- How a session ended, and what `Run` asks then: the close code, the refusal, whether a join token is
-- set, the plane's answer, the backoff's, and the number of `rand.Intn(3000)`.
pub record Ending : Type 0 where
  pub code : Option ℕ
  pub err : Option StatusError
  pub has_token : Bool
  pub fast : Bool
  pub next : ℕ
  pub pick : ℕ

-- The `switch` of `Run` behind a session.
unfoldable pub next_wait : Codes → Ending → Agent → Agent × Next
unfolding retry_delay redial_delay
next_wait k e a =
    if is_code k.revoked e.code || is_unauthorized e.err
    then (a, if e.has_token then joins else sleeps slow_retry)
    else if is_code k.replaced e.code
    then (a, sleeps replaced_retry)
    else if is_code k.going_away e.code
    then (a, sleeps (2 * second + e.pick * 1000000))
    else let (a', wait) = redial_delay e.err e.fast (retry_delay e.next e.err) a in
      (a', sleeps wait)

-- What the goroutines around the session do.
pub data Call : Type 0 where
  began : Bytes → Call
  ended : Bool → Call
  opened : ℕ → Call
  closed : ℕ → Call
  reconnected : Call
  waited : Option StatusError → Bool → ℕ → Call

unfoldable pub step : Call → Agent → Agent
unfolding begin_session end_session set_session clear_session reconnect redial_delay
step (began c) a = begin_session c a
step (ended on_end) a = end_session on_end a
step (opened s) a = set_session (some s) a
step (closed s) a = clear_session s a
step reconnected a = (reconnect a).0
step (waited err fast wait) a = (redial_delay err fast wait a).0

unfoldable pub run : List Call → Agent → Agent
unfolding step
run [] a = a
run (c ∷ cs) a = run cs (step c a)
