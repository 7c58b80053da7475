-- ===== src/Agent/Examples.antt =====
-- Tests of the session state of internal/agent.
use perch_apd.Base.{
  ◌*◌, ◌<◌, Bytes, ◌++◌, List, true, false, none, some, [], ◌∷◌, ◌≡◌, refl, arith, codes,
  if◌then◌else◌, ◌&&◌, ltb,
}
use perch_apd.Agent.Push.{append_json_string, piece, escaped, decode_rune}
use perch_apd.Agent.Push.Reader.{read_string}
use perch_apd.Agent.Push.RoundTrip.{valid_utf8, read_string-append_json_string}
use perch_apd.Agent.{
  Codes, Ending, sleeps, Agent, Call, StatusError, ended, closed, no_session, second, fast_redial,
  begin_session, end_session, session_ref, reconnect, next_wait, run,
}
use perch_apd.Agent.Sessions.{session_ref-begin_session}
use perch_apd.Agent.Redial.{redial_delay-reconnect, next_wait-slow_retry}

-- In its third session.
abbrev in_session : Agent
in_session = record {
  sess = some 3;
  gen = 3;
  cur = record { gen = 3; challenge = codes "c3" };
  redial_now = false;
  told = 2;
}

abbrev life : List Call
life = closed 3 ∷ ended true ∷ []

session_ref-begin_session_example :
    let earlier = begin_session (codes "c4") in_session in
    let later = begin_session (codes "c5") (run life earlier) in
    (0 < (session_ref false earlier).gen)
    × ((session_ref false earlier).gen < (session_ref false later).gen)
    × ((session_ref false later).challenge ≡ codes "c5")
    × (session_ref false (end_session true later) ≡ no_session)
    × (session_ref true later ≡ no_session)
session_ref-begin_session_example =
    session_ref-begin_session (codes "c4") (codes "c5") life in_session (omega arith)

abbrev close_codes : Codes
close_codes = record { revoked = 4001; replaced = 4002; going_away = 1001 }

-- The connection was lost.
abbrev lost : Ending
lost = record {
  code = none;
  err = none;
  has_token = false;
  fast = true;
  next = 8 * second;
  pick = 0;
}

redial_delay-reconnect_example :
    let r = next_wait close_codes lost (run life (reconnect in_session).0) in
    let again = next_wait close_codes (record lost { next = 16 * second }) r.0 in
    ((reconnect in_session).1 ≡ some 3)
    × (r.1 ≡ sleeps 0)
    × (again.1
        ≡ sleeps (if true && ltb fast_redial (16 * second) then fast_redial else 16 * second))
redial_delay-reconnect_example =
    redial_delay-reconnect close_codes life in_session 3 lost (record lost { next = 16 * second })
      refl refl refl refl

abbrev too_many : StatusError
too_many = record { status = 429; retry_after = 600 * second }

next_wait-slow_retry_example :
    (next_wait close_codes (record lost { err = some too_many }) in_session).1
    ≡ sleeps (600 * second)
next_wait-slow_retry_example =
    next_wait-slow_retry close_codes (record lost { err = some too_many }) in_session (omega arith)
      (omega arith)

next_wait_replaced :
    (next_wait close_codes (record lost { code = some 4002 }) in_session).1 ≡ sleeps (60 * second)
unfolding next_wait
next_wait_replaced = refl

-- A quote, a lone byte, the line separator, a line break, and a letter of two bytes.
abbrev noisy : Bytes
noisy = b'"' ∷ 200 ∷ 226 ∷ 128 ∷ 168 ∷ b'\n' ∷ 195 ∷ 169 ∷ []

read_string-append_json_string_example :
    (out : Bytes) × (append_json_string (codes "x") noisy ≡ codes "x" ++ out)
    × (read_string (out ++ codes "}") ≡ some (valid_utf8 noisy, codes "}"))
read_string-append_json_string_example =
    read_string-append_json_string (codes "x") noisy (codes "}")

noisy_cleaned : valid_utf8 noisy ≡ b'"' ∷ 239 ∷ 191 ∷ 189 ∷ 226 ∷ 128 ∷ 168 ∷ b'\n' ∷ 195 ∷ 169 ∷ []
unfolding valid_utf8 decode_rune
noisy_cleaned = refl

noisy_written :
    append_json_string [] noisy
    ≡ codes "\"\\\"" ++ (239 ∷ 191 ∷ 189 ∷ [] ++ (codes "\\u2028\\n" ++ 195 ∷ 169 ∷ b'"' ∷ []))
unfolding append_json_string piece escaped decode_rune
noisy_written = refl
