-- ===== src/Agent/Sessions.antt =====
-- internal/agent/redial.go: session numbers.
use perch_apd.Base.{
  ℕ, ◌+◌, ◌≤◌, ◌<◌, true, false, Option, none, some, List, [], ◌∷◌, ◌≡◌, refl, arith, Bytes, nat_eq,
  if-both, option-both, length,
}
use perch_apd.Agent.{
  Agent, Call, began, ended, opened, closed, reconnected, waited, word, no_session, same_session,
  begin_session, end_session, session_ref, step, run,
}

step-gen :
    (c : Call) (a : Agent)
    → a.gen + 1 < word
    → (a.gen ≤ (step c a).gen) × ((step c a).gen ≤ a.gen + 1)
unfolding step
step-gen (began c) a room = omega arith
step-gen (ended on_end) a room =
    if-both (λ (b : Agent). (a.gen ≤ b.gen) × (b.gen ≤ a.gen + 1))
      (record a { cur = no_session; told = a.told + 1 }) (record a { cur = no_session }) on_end
      (omega arith) (omega arith)
step-gen (opened s) a room = omega arith
step-gen (closed s) a room =
    if-both (λ (b : Agent). (a.gen ≤ b.gen) × (b.gen ≤ a.gen + 1)) (record a { sess = none }) a
      (same_session a.sess s) (omega arith) (omega arith)
step-gen reconnected a room =
    option-both (λ (r : Agent × Option ℕ). (a.gen ≤ r.0.gen) × (r.0.gen ≤ a.gen + 1)) (a, none)
      (λ s. (record a { redial_now = true }, some s)) a.sess (omega arith) (λ s. omega arith)
step-gen (waited err fast wait) a room = omega arith

run-gen :
    (cs : List Call) (a : Agent)
    → a.gen + length cs < word
    → (a.gen ≤ (run cs a).gen) × ((run cs a).gen ≤ a.gen + length cs)
unfolding run
run-gen [] a room = omega arith
run-gen (c ∷ cs) a room =
    let one = step-gen c a (omega arith) in
    let rest = run-gen cs (step c a) (omega (arith, one)) in omega (arith, one, rest)

-- Whatever happens between the begins of two sessions, the later one has the greater number, and
-- neither is 0, the number of no session, while the number of calls stays below 2^64.
pub session_ref-begin_session :
    (first second : Bytes) (cs : List Call) (a : Agent)
    → a.gen + length cs + 2 < word
    → let earlier = begin_session first a in
      let later = begin_session second (run cs earlier) in
      (0 < (session_ref false earlier).gen)
      × ((session_ref false earlier).gen < (session_ref false later).gen)
      × ((session_ref false later).challenge ≡ second)
      × (session_ref false (end_session true later) ≡ no_session)
      × (session_ref true later ≡ no_session)
unfolding session_ref begin_session end_session
session_ref-begin_session first second cs a room =
    let grown = run-gen cs (begin_session first a) (omega arith) in
    (omega arith, omega (arith, grown), refl, refl, refl)
