-- ===== src/Update/Examples.antt =====
-- internal/update/update.go: an update on a free lock, and a plan that stays in its install.
use perch_apd.Base.{
  ℕ, ◌+◌, ◌*◌, ◌/◌, ◌≤◌, Bool, true, false, Option, none, some, List, [], ◌≡◌, refl, arith, ◌==◌,
  bytes_eq, bytes_beq, Bytes, codes, All,
}
use perch_apd.ApplyLock
use perch_apd.ApplyLock.{Hold}
use perch_apd.Update.{
  Plan, Updater, Rounds, installing, refused, code_busy, busy, install, holding, is_over, watch,
  wait_probation, must_wait,
}
use perch_apd.Update.Held.{Move, IsQuiet, run, install-watch}
use perch_apd.Update.Waits.{Ends, wait_probation-Ends}

abbrev is_terminal : Bytes → Bool
is_terminal phase = phase == codes "confirmed"

abbrev free_updater : Updater
free_updater = record { lock = ApplyLock.new; hold = none }

installs_now : (install 7 (codes "u1") true free_updater).1 ≡ installing
unfolding install bytes_beq
installs_now = refl

install-watch_example :
    (h : Hold) × (h.info.id ≡ codes "u1")
    × ((ms : List Move)
        → All (IsQuiet is_terminal h) ms
        → let later = run is_terminal ms (install 7 (codes "u1") true free_updater).0 in
          (later.lock.cur ≡ some h)
          × (holding later ≡ true)
          × (busy later.lock ≡ [])
          × ((now' : ℕ) (other : Bytes) (fine' : Bool)
              → install now' other fine' later
                ≡ (later, refused code_busy (codes "update_pending")))
          × ((plan : Option Plan)
              → is_over is_terminal plan ≡ true
              → watch is_terminal h plan later
                ≡ (record { lock = record later.lock { cur = none }; hold = none }, true)))
install-watch_example = install-watch is_terminal 7 (codes "u1") true free_updater installs_now

-- The watchdog never gets to its probation.
abbrev stuck : Rounds
stuck = record {
  plan =
      λ _. some (record { update_id = codes "u1"; phase = codes "installing"; to = codes "1.2" });
  now = λ k. 40 + k * 250;
  done = λ _. false;
}

abbrev is_same : Bytes → Bytes → Bool
is_same a b = a == b

abbrev is_known : Bytes → Bool
is_known _ = true

wait_probation-Ends_example :
    (k : ℕ) × (wait_probation is_same is_known 8 (codes "1.2") 40 1000 stuck ≡ some k)
    × (k ≤ 1000 / 250 + 1)
    × Ends is_same is_known (codes "1.2") (40 + 1000) stuck 0 k
wait_probation-Ends_example =
    wait_probation-Ends is_same is_known 8 (codes "1.2") 40 1000 stuck (λ k. omega arith)
      (ground arith)

stuck_waits : wait_probation is_same is_known 8 (codes "1.2") 40 1000 stuck ≡ some 5
unfolding wait_probation must_wait bytes_beq
stuck_waits = refl
