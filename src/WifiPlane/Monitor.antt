-- ===== src/WifiPlane/Monitor.antt =====
-- internal/wifiplane/monitor.go: the health monitor between applies. Times are in nanoseconds. What
-- one tick reads of the service and of the session, and whether the notification goes out, are inputs.
pub mod Steady
use perch_apd.Base.{
  ℕ, ◌+◌, ◌-◌, Bool, true, false, not, ◌&&◌, ◌||◌, Option, none, some, List, [], ◌∷◌, ◌++◌, ◌==◌,
  nat_eq, bytes_eq, ltb, if◌then◌else◌, Bytes, codes, keep, map,
}
use perch_apd.Base.Sort.{sort, bytes_leb}
use perch_apd.WifiPlane.Health.{
  ProblemCode, Problem, Report, cac_running, acs_running, radio_down, radio_setup_failed,
  bss_missing, bss_disabled, ssid_mismatch, hostapd_unreachable, status_unreadable,
}

-- `monitorState`.
pub record MonitorState : Type 0 where
  pub gen : ℕ
  pub have : Bool
  pub candidate : Bytes
  pub since : ℕ
  pub sent : Bool
  pub reported : Bytes

abbrev pub start : MonitorState
start = record { gen = 0; have = false; candidate = []; since = 0; sent = false; reported = [] }

abbrev pub debounce : ℕ
debounce = 30000000000

abbrev pub second : ℕ
second = 1000000000

abbrev code_text : ProblemCode → Bytes
code_text radio_down = codes "radio_down"
code_text radio_setup_failed = codes "radio_setup_failed"
code_text bss_missing = codes "bss_missing"
code_text bss_disabled = codes "bss_disabled"
code_text ssid_mismatch = codes "ssid_mismatch"
code_text cac_running = codes "cac_running"
code_text acs_running = codes "acs_running"
code_text hostapd_unreachable = codes "hostapd_unreachable"
code_text status_unreadable = codes "status_unreadable"

abbrev is_passing : ProblemCode → Bool
is_passing cac_running = true
is_passing acs_running = true
is_passing _ = false

-- `strings.Join(keys, ",")`.
abbrev join_keys : List Bytes → Bytes
join_keys [] = []
join_keys (k ∷ []) = k
join_keys (k ∷ j ∷ ks) = k ++ b',' ∷ join_keys (j ∷ ks)

abbrev key_of : Problem → Bytes
key_of p = code_text p.code ++ b'@' ∷ p.section

-- `lasting`: the problems, and their signature.
unfoldable pub lasting : Report → List Problem × Bytes
lasting rep =
    let out = keep (λ (p : Problem). not (p.preexisting || is_passing p.code)) rep.problems in
    (out, join_keys (sort bytes_leb (map key_of out)))

-- What one tick sees: the time, whether there is something to watch, the session's number, the report
-- and whether `notify` succeeds.
pub record Tick : Type 0 where
  pub now : ℕ
  pub idle : Bool
  pub gen : ℕ
  pub report : Report
  pub notifies : Bool

unfoldable pub signature : Tick → Bytes
unfolding lasting
signature t = (lasting t.report).1

-- The state of a new session.
abbrev for_session : ℕ → MonitorState → MonitorState
for_session gen m = if not (m.gen == gen) then record start { gen = gen } else m

-- The candidate found again.
judge_same : Tick → Bytes → MonitorState → MonitorState × Bool
judge_same t sig m =
    if (m.sent && sig == m.reported) || ltb (t.now - m.since) (debounce - second)
    then (m, false)
    else if not t.notifies
    then (m, false)
    else (record m { sent = true; reported = sig }, true)

judge : Tick → Bytes → MonitorState → MonitorState × Bool
unfolding judge_same
judge t sig m =
    if not m.have || not (sig == m.candidate)
    then (record m { have = true; candidate = sig; since = t.now }, false)
    else judge_same t sig m

-- `monitorTick`, which tells whether it sent the notification.
unfoldable pub monitor_tick : Tick → MonitorState → MonitorState × Bool
unfolding judge judge_same signature
monitor_tick t m =
    if not t.idle
    then (record m { have = false }, false)
    else judge t (signature t) (for_session t.gen m)

-- The state after these ticks, the newest first.
unfoldable pub after : List Tick → MonitorState
unfolding monitor_tick
after [] = start
after (t ∷ ts) = (monitor_tick t (after ts)).0
