-- ===== src/WifiPlane/Monitor/Steady.antt =====
-- internal/wifiplane/monitor.go: when a notification goes out.
use perch_apd.Base.{
  ℕ, ◌+◌, ◌-◌, ◌≤◌, ◌≢◌, Option, none, some, if◌then◌else◌, beq_self, Bool, true, false, not, ◌&&◌,
  ◌||◌, List, [], ◌∷◌, ◌≡◌, ◌⊎◌, inl, inr, refl, sym, ap, ◌∙◌, arith, ◌==◌, nat_eq, bytes_eq, ltb,
  Bytes, Bool-cases, if-both, if-cases,
}
use mathlib.Core.Path.{subst}
use perch_apd.WifiPlane.Monitor.{
  MonitorState, start, debounce, second, Tick, signature, for_session, judge_same, judge,
  monitor_tick, after,
}

-- The newest ticks, back to one at time `since`, all saw this signature in this session, with nothing
-- else going on.
abbrev pub HeldSince : Bytes → ℕ → ℕ → List Tick → Type 0
HeldSince sig gen since [] = ⊥
HeldSince sig gen since (t ∷ ts) =
    (t.idle ≡ true)
    × (signature t ≡ sig)
    × (t.gen ≡ gen)
    × ((t.now ≡ since) ⊎ HeldSince sig gen since ts)

abbrev Follows : MonitorState → List Tick → Type 0
Follows m ts = m.have ≡ true → HeldSince m.candidate m.gen m.since ts

judge_same-HeldSince :
    (t : Tick) (sig : Bytes) (m : MonitorState) (ts : List Tick)
    → Follows m ts
    → Follows (judge_same t sig m).0 ts
unfolding judge_same
judge_same-HeldSince t sig m ts held =
    let P : MonitorState × Bool → Type 0 = λ r. Follows r.0 ts in
    if-both P (m, false) _
      ((m.sent && sig == m.reported) || ltb (t.now - m.since) (debounce - second)) held
      (if-both P (m, false) (record m { sent = true; reported = sig }, true) (not t.notifies) held
        held)

-- A tick that finds the candidate again, or starts a new one.
judge-HeldSince :
    (t : Tick) (ts : List Tick) (m : MonitorState)
    → t.idle ≡ true
    → t.gen ≡ m.gen
    → Follows m ts
    → Follows (judge t (signature t) m).0 (t ∷ ts)
unfolding judge
judge-HeldSince t ts m idle gen held =
    if-cases (λ (r : MonitorState × Bool). Follows r.0 (t ∷ ts))
      (record m { have = true; candidate = signature t; since = t.now }, false)
      (judge_same t (signature t) m) (not m.have || not (signature t == m.candidate))
      (λ new h. (idle, refl, gen, inl refl))
      (λ same. judge_same-HeldSince t (signature t) m (t ∷ ts) (λ h.
        (idle, (bytes_eq.beq_iff (signature t) m.candidate).0 (ground arith), gen, inr (held h))))

for_session-gen : (gen : ℕ) (m : MonitorState) → gen ≡ (for_session gen m).gen
for_session-gen gen m = ground (arith, nat_eq.beq_iff m.gen gen)

for_session-Follows :
    (gen : ℕ) (m : MonitorState) (ts : List Tick) → Follows m ts → Follows (for_session gen m) ts
for_session-Follows gen m ts held =
    if-both (λ (n : MonitorState). Follows n ts) (record start { gen = gen }) m (not (m.gen == gen))
      (λ h. absurd (ground arith)) held

watched_tick :
    (t : Tick) (m : MonitorState)
    → t.idle ≡ true
    → monitor_tick t m ≡ judge t (signature t) (for_session t.gen m)
unfolding monitor_tick
watched_tick t m idle = simp idle refl

after-HeldSince : (ts : List Tick) → Follows (after ts) ts
unfolding after monitor_tick
after-HeldSince [] h = absurd (ground arith)
after-HeldSince (t ∷ ts) h = elim (Bool-cases t.idle) [
  | inr watched ↦ absurd (ground arith)
  | inl idle ↦
      subst (λ (r : MonitorState × Bool). Follows r.0 (t ∷ ts))
        (sym (watched_tick t (after ts) idle))
        (judge-HeldSince t ts (for_session t.gen (after ts)) idle (for_session-gen t.gen (after ts))
          (for_session-Follows t.gen (after ts) ts (after-HeldSince ts)))
        h
]

judge-sent :
    (t : Tick) (sig : Bytes) (m : MonitorState)
    → (judge t sig m).1 ≡ true
    → (m.have ≡ true)
      × (sig ≡ m.candidate)
      × (m.since + (debounce - second) ≤ t.now)
      × ((m.sent && sig == m.reported) ≡ false)
unfolding judge judge_same
judge-sent t sig m h =
    (ground arith, (bytes_eq.beq_iff sig m.candidate).0 (ground arith), ground arith, ground arith)

-- What the last notification of the session told of: the newest tick that sent one, back to a tick of
-- another session. The newest tick stands first.
unfoldable pub last_told : ℕ → List Tick → Option Bytes
last_told gen [] = none
last_told gen (t ∷ ts) =
    let earlier = last_told gen ts in
    if not t.idle
    then earlier
    else if not (t.gen == gen)
    then none
    else if (monitor_tick t (after ts)).1
    then some (signature t)
    else earlier

-- What the state says of it.
abbrev reported_in : ℕ → MonitorState → Option Bytes
reported_in gen m = if m.gen == gen && m.sent then some m.reported else none

judge-reported_in :
    (t : Tick) (sig : Bytes) (m : MonitorState)
    → let r = judge t sig m in
      (r.0.gen ≡ m.gen) × (reported_in m.gen r.0 ≡ (if r.1 then some sig else reported_in m.gen m))
unfolding judge judge_same
judge-reported_in t sig m = (ground arith, ground (arith, beq_self m.gen))

for_session-reported_in :
    (gen : ℕ) (m : MonitorState) → reported_in gen (for_session gen m) ≡ reported_in gen m
for_session-reported_in gen m = ground arith

not_watched :
    (t : Tick) (m : MonitorState)
    → t.idle ≡ false
    → monitor_tick t m ≡ (record m { have = false }, false)
unfolding monitor_tick
not_watched t m busy = simp busy refl

last_told-reported_in : (gen : ℕ) (ts : List Tick) → last_told gen ts ≡ reported_in gen (after ts)
unfolding last_told after
last_told-reported_in gen [] = ground arith
last_told-reported_in gen (t ∷ ts) = elim (Bool-cases t.idle) [
  | inr watched ↦ ground (
    arith,
    ap (λ r. reported_in gen r.0) (not_watched t (after ts) watched),
    last_told-reported_in gen ts,
  )
  | inl idle ↦
      let tick = watched_tick t (after ts) idle in
      let m = for_session t.gen (after ts) in
      let (same, told) = judge-reported_in t (signature t) m in
      let same_gen : (monitor_tick t (after ts)).0.gen ≡ t.gen =
        ap (λ r. r.0.gen) tick ∙ (same ∙ sym (for_session-gen t.gen (after ts))) in
      elim (Bool-cases (t.gen == gen)) [
        | inr other ↦ ground (arith, same_gen)
        | inl here ↦ ground (
          arith,
          here_told t ts idle,
          (nat_eq.beq_iff t.gen gen).0 here,
          last_told-reported_in gen ts,
        )
      ]
]
  where
    here_told :
        (t : Tick) (ts : List Tick)
        → t.idle ≡ true
        → reported_in t.gen (monitor_tick t (after ts)).0 ≡ (
            if (monitor_tick t (after ts)).1
            then some (signature t)
            else reported_in t.gen (after ts))
    here_told t ts idle =
        let m = for_session t.gen (after ts) in
        subst
          (λ (r : MonitorState × Bool).
            reported_in t.gen r.0
            ≡ (if r.1 then some (signature t) else reported_in t.gen (after ts)))
          (sym (watched_tick t (after ts) idle))
          (subst
            (λ (o : Option Bytes).
              reported_in t.gen (judge t (signature t) m).0
              ≡ (if (judge t (signature t) m).1 then some (signature t) else o))
            (for_session-reported_in t.gen (after ts))
            (subst
              (λ g.
                reported_in g (judge t (signature t) m).0
                ≡ (if (judge t (signature t) m).1 then some (signature t) else reported_in g m))
              (sym (for_session-gen t.gen (after ts))) (judge-reported_in t (signature t) m).1))

-- A notification goes out only for a state that held for the debounce time less a second: the ticks
-- before, back to one that long ago, all belong to this session, saw nothing else going on and found
-- the same problems. And it is news: the last notification that went out in this session, if one did,
-- told of other problems.
pub monitor_tick-HeldSince :
    (t : Tick) (ts : List Tick)
    → (monitor_tick t (after ts)).1 ≡ true
    → (t.idle ≡ true)
      × ((since : ℕ) × HeldSince (signature t) t.gen since ts × (since + 29000000000 ≤ t.now))
      × (last_told t.gen ts ≢ some (signature t))
unfolding monitor_tick
monitor_tick-HeldSince t ts h = elim (Bool-cases t.idle) [
  | inr watched ↦ absurd (ground arith)
  | inl idle ↦
      let m = for_session t.gen (after ts) in
      let (have, same, long, news) =
        judge-sent t (signature t) m (sym (ap (λ r. r.1) (watched_tick t (after ts) idle)) ∙ h) in
      let held : HeldSince m.candidate m.gen m.since ts =
        for_session-Follows t.gen (after ts) ts (after-HeldSince ts) have in
      (
        idle,
        (
          m.since,
          subst (λ g. HeldSince (signature t) g m.since ts) (sym (for_session-gen t.gen (after ts)))
              (subst (λ c. HeldSince c m.gen m.since ts) (sym same) held),
          long,
        ),
        λ told. ground (
          arith,
          news,
          told,
          last_told-reported_in t.gen ts,
          for_session-reported_in t.gen (after ts),
          for_session-gen t.gen (after ts),
          bytes_eq.beq_iff (signature t) m.reported,
        ),
      )
]
