-- ===== src/WifiPlane/Examples.antt =====
-- Tests of internal/wifiplane: one radio with one BSS.
use perch_apd.Base.{
  ℕ, ◌+◌, ◌≤◌, true, false, not, inr, Option, none, some, List, [], ◌∷◌, ◌≡◌, ◌≢◌, ◌↔◌, ◌==◌,
  nat_eq, bytes_eq, bytes_beq, refl, Bytes, codes, if◌then◌else◌,
}
use perch_apd.Base.Int.{pos}
use perch_apd.Base.Sort.{sort}
use perch_apd.Base.Text.{trim_space, to_lower}
use perch_apd.Groups.Kit.{Kit}
use perch_apd.WifiPlane.Health.{radio_down, ExpBss, RunState, Expectation, Before, Report}
use perch_apd.WifiPlane.Report.{evaluate}
use perch_apd.WifiPlane.Report.Healthy.{IsHealthy, evaluate-IsHealthy}
use perch_apd.WifiPlane.Expect.{Expect, expect_from}
use perch_apd.WifiPlane.Report.Broken.{health_before, broken_of, bss_is_lasting}
use perch_apd.WifiPlane.Report.Excused.{health_before-evaluate}
use perch_apd.WifiPlane.Monitor.{Tick, monitor_tick, after, signature}
use perch_apd.WifiPlane.Monitor.Steady.{HeldSince, last_told, monitor_tick-HeldSince}

abbrev expected : Expectation
expected = record {
  radios = codes "radio0" ∷ [];
  bss = (codes "w0", record { radios = codes "radio0" ∷ []; ssid = codes "home" }) ∷ [];
  ap = [];
}

abbrev nothing_before : Before
nothing_before = record { radios = []; bss = [] }

-- Hostapd reports this status.
abbrev running : Bytes → RunState
running status = record {
  radios =
      (
        codes "radio0",
        record { up = true; pending = false; disabled = false; retry_setup_failed = false },
      )
      ∷ [];
  unreadable = false;
  bss =
      (
        codes "w0",
        record {
          radio = codes "radio0";
          ifname = codes "phy0-ap0";
          reachable = true;
          st = record {
            status = status;
            bssid = [];
            ssid = codes "home";
            channel = pos 36;
            dfs = some (record { cac_active = true; cac_seconds_left = pos 60 });
          };
        },
      )
      ∷ [];
}

evaluate-IsHealthy_example :
    ((evaluate (running (codes "ENABLED")) expected nothing_before).0.ok ≡ true)
    ↔ IsHealthy (running (codes "ENABLED")) expected nothing_before
evaluate-IsHealthy_example = evaluate-IsHealthy (running (codes "ENABLED")) expected nothing_before

enabled_is_ok : (evaluate (running (codes "ENABLED")) expected nothing_before).0.ok ≡ true
unfolding evaluate bytes_beq sort
enabled_is_ok = refl

-- A radar check is pending, and the wait is its time and the margin.
dfs_waits :
    let (report, extend) = evaluate (running (codes "DFS")) expected nothing_before in
    (report.ok ≡ false) × (report.pending ≡ true) × (extend ≡ 75)
unfolding evaluate bytes_beq sort
dfs_waits = (refl, refl, refl)

data Value : Type 0 where
  text : Bytes → Value

abbrev value_text : Value → Bytes
value_text (text b) = b

record Section : Type 0 where
  typ : Bytes
  name : Bytes
  options : List (Bytes × Value)

abbrev look_up : Bytes → List (Bytes × Value) → Option Value
look_up n [] = none
look_up n ((m, v) ∷ o) = let rest = look_up n o in if n == m then some v else rest

abbrev uci : Kit
uci = record {
  Section = Section;
  Value = Value;
  string = text;
  list = λ bs. text [];
  str_of = value_text;
  is_list = λ v. false;
  items = λ v. value_text v ∷ [];
  section = λ n t o. record { typ = t; name = n; options = o };
  name = λ s. s.name;
  anonymous = λ s. s.name == [];
  has_type = λ s t. s.typ == t;
  has_name = λ s n. s.name == n;
  get = λ s n. look_up n s.options;
  set = λ s n v. record s { options = (n, v) ∷ s.options };
  delete = λ s n. s;
  reindex = λ ss. ss;
}

abbrev wireless : List Section
wireless =
    record { typ = codes "wifi-device"; name = codes "radio0"; options = [] }
    ∷ record {
      typ = codes "wifi-iface";
      name = codes "w0";
      options = (codes "device", text (codes "radio0")) ∷ (codes "ssid", text (codes "home")) ∷ [];
    }
    ∷ []

abbrev listed : Expect
listed = record { bss = codes "w9" ∷ []; radios = [] }

expects_radio : (expect_from uci (some wireless) listed).radios ≡ codes "radio0" ∷ []
unfolding expect_from bytes_beq trim_space to_lower
expects_radio = refl

abbrev down : Report
down = record {
  ok = false;
  pending = false;
  radios = [];
  bss = [];
  problems = record { code = radio_down; section = codes "radio0"; preexisting = false } ∷ [];
}

abbrev seen_at : ℕ → Tick
seen_at now = record { now = now; idle = true; gen = 1; report = down; notifies = true }

abbrev history : List Tick
history = seen_at 20000000000 ∷ seen_at 10000000000 ∷ []

last_notifies : (monitor_tick (seen_at 40000000000) (after history)).1 ≡ true
unfolding monitor_tick after bytes_beq sort
last_notifies = refl

monitor_tick-HeldSince_example :
    (true ≡ true)
    × ((since : ℕ) × HeldSince (signature (seen_at 40000000000)) 1 since history
        × (since + 29000000000 ≤ 40000000000))
    × (last_told 1 history ≢ some (signature (seen_at 40000000000)))
monitor_tick-HeldSince_example = monitor_tick-HeldSince (seen_at 40000000000) history last_notifies

-- Nothing ran before the change; behind it the radio does.
abbrev dark : RunState
dark = record { radios = []; unreadable = false; bss = [] }

abbrev brighter : RunState
brighter = record {
  radios =
      (
        codes "radio0",
        record { up = true; pending = false; disabled = false; retry_setup_failed = false },
      )
      ∷ [];
  unreadable = false;
  bss = [];
}

abbrev was_dark : Before
was_dark = record { radios = codes "radio0" ∷ []; bss = codes "w0" ∷ [] }

dark_noted : health_before dark expected ≡ some was_dark
unfolding health_before evaluate broken_of bytes_beq sort
dark_noted = refl

dark_lasting : (exp : ExpBss) → bss_is_lasting exp none ≡ true
unfolding bss_is_lasting
dark_lasting exp = refl

health_before-evaluate_example :
    (evaluate brighter expected was_dark).0.pending ≡ not (evaluate brighter expected was_dark).0.ok
health_before-evaluate_example =
    health_before-evaluate dark brighter expected expected was_dark dark_noted refl
      (λ name wanted. inr (wanted, refl)) (λ name exp wanted. inr (exp, wanted, dark_lasting exp))
