-- ===== src/WifiPlane/Report/Excused.antt =====
-- internal/wifiplane/health.go: what was broken before a change is not held against it.
use perch_apd.Base.{
  true, false, not, Bool, ◌||◌, Option, none, some, List, [], ◌∷◌, ◌++◌, ◌≡◌, ◌⊎◌, ◌↔◌, inl, inr,
  refl, sym, ◌∙◌, subst, arith, ◌==◌, nat_eq, bytes_eq, Bytes, codes, Bool-cases, Option-cases,
  if-both, if-cases,
}
use perch_apd.Base.Sort.{bytes_leb}
use perch_apd.Base.Maps.{at_key, is_in_set, sort-is_in_set}
use perch_apd.WifiPlane.Health.{
  ProblemCode, RadioState, BssRun, RunState, ExpBss, Expectation, Before, Tally, add, add_found,
  Check, radio_problem, radio_step, radio_steps, was_broken, status_problem, dfs_step, bss_problem,
  bss_step, bss_steps,
}
use perch_apd.WifiPlane.Report.{radio_list, bss_list, status_problems, tally_of, evaluate}
use perch_apd.WifiPlane.Report.Broken.{
  is_radio_code, sections_of, given_up, nothing_broken, broken_of, health_before, bss_is_lasting,
}
use perch_apd.WifiPlane.Report.Named.{Names, radio_steps_named, bss_steps_named, bss_steps-Names}
use perch_apd.WifiPlane.Report.Healthy.{keys_of-append, radio_list-is_in_set, bss_list-is_in_set}
use perch_apd.WifiPlane.Report.Verdict.{runs}

add_found-lasting :
    (section : Bytes) (pre : Bool) (o : Option (ProblemCode × Bool)) (t : Tally)
    → (o ≡ none) ⊎ (pre ≡ true)
    → (add_found section pre o t).lasting ≡ t.lasting
unfolding add
add_found-lasting section pre none t h = refl
add_found-lasting section pre (some (code, transient)) t h = ground arith

-- A radio without a problem, or that was broken before, counts for nothing.
radio_steps-lasting :
    (rs : RunState) (e : Expectation) (broken : Before) (names : List Bytes) (t : Tally)
    → ((name : Bytes)
        → is_in_set name e.radios ≡ true
        → (radio_problem (at_key name rs.radios) ≡ none) ⊎ (is_in_set name broken.radios ≡ true))
    → (radio_steps rs e broken names t).lasting ≡ t.lasting
unfolding radio_steps radio_step
radio_steps-lasting rs e broken [] t excused = refl
radio_steps-lasting rs e broken (name ∷ names) t excused =
    radio_steps-lasting rs e broken names (radio_step rs e broken name t) excused
    ∙ if-cases (λ (x : Tally). x.lasting ≡ t.lasting) t
        (add_found name (is_in_set name broken.radios) (radio_problem (at_key name rs.radios)) t)
        (not (is_in_set name e.radios) || rs.unreadable) (λ _. refl)
        (λ h.
          add_found-lasting name (is_in_set name broken.radios)
            (radio_problem (at_key name rs.radios)) t (excused name (ground arith)))

dfs_step-lasting :
    (pre : Bool) (run : BssRun) (c : Check) → (dfs_step pre run c).tally.lasting ≡ c.tally.lasting
unfolding dfs_step
dfs_step-lasting pre run c = ground arith

bss_problem-lasting :
    (name : Bytes) (exp : ExpBss) (pre : Bool) (o : Option BssRun) (c : Check)
    → (bss_is_lasting exp o ≡ false) ⊎ (pre ≡ true)
    → (bss_problem name exp pre o c).tally.lasting ≡ c.tally.lasting
unfolding bss_problem bss_is_lasting add
bss_problem-lasting name exp pre none c h = ground arith
bss_problem-lasting name exp pre (some run) c h = elim (Bool-cases run.reachable) [
  | inr down ↦ ground arith
  | inl up ↦ elim (Bool-cases (run.st.status == codes "DFS")) [
    | inl dfs ↦ rw (bss_problem, up, dfs) (dfs_step-lasting pre run c)
    | inr other ↦ elim (Option-cases (status_problem exp.ssid run.st)) [
      | inl fine ↦ rw (bss_problem, up, other, fine) refl
      | inr ((code, true), found) ↦ rw (bss_problem, up, other, found) (ground arith)
      | inr ((code, false), found) ↦ rw (bss_problem, up, other, found) (ground arith)
    ]
  ]
]

bss_steps-lasting :
    (rs : RunState) (e : Expectation) (broken : Before) (names : List Bytes) (c : Check)
    → ((name : Bytes) (exp : ExpBss)
        → at_key name e.bss ≡ some exp
        → (bss_is_lasting exp (at_key name rs.bss) ≡ false) ⊎ (was_broken broken name exp ≡ true))
    → (bss_steps rs e broken names c).tally.lasting ≡ c.tally.lasting
unfolding bss_steps bss_step
bss_steps-lasting rs e broken [] c excused = refl
bss_steps-lasting rs e broken (name ∷ names) c excused =
    bss_steps-lasting rs e broken names (bss_step rs e broken name c) excused
    ∙ (elim (Option-cases (at_key name e.bss)) [
      | inl other ↦ rw (bss_step, other) refl
      | inr (exp, found) ↦
          rw (bss_step, found)
            (if-both (λ (x : Check). x.tally.lasting ≡ c.tally.lasting) c
              (bss_problem name exp (was_broken broken name exp) (at_key name rs.bss) c)
              rs.unreadable refl
              (bss_problem-lasting name exp (was_broken broken name exp) (at_key name rs.bss) c
                (excused name exp found)))
    ])

sections_of-before :
    (rs : RunState) (e : Expectation) (broken : Before)
    → health_before rs e ≡ some broken
    → (rs.unreadable ≡ false)
      × (broken ≡ broken_of rs e (tally_of rs e nothing_broken).tally.problems)
unfolding health_before evaluate
sections_of-before rs e broken h = elim (Bool-cases rs.unreadable) [
  | inl bad ↦ absurd (ground arith)
  | inr good ↦ (good, ground arith)
]

radio_problem-none : (o : Option RadioState) → (radio_problem o ≡ none) ↔ (runs o ≡ true)
unfolding radio_problem
radio_problem-none none = ground arith
radio_problem-none (some st) = ground arith

-- A radio that was expected at the snapshot and did not run is among the broken ones.
radio_excused :
    (rs : RunState) (e : Expectation) (name : Bytes)
    → rs.unreadable ≡ false
    → is_in_set name e.radios ≡ true
    → runs (at_key name rs.radios) ≡ false
    → is_in_set name (broken_of rs e (tally_of rs e nothing_broken).tally.problems).radios ≡ true
unfolding broken_of tally_of
radio_excused rs e name readable expected stopped =
    let t = radio_steps rs e nothing_broken (radio_list rs e) (status_problems rs) in
    let start : Check = record { tally = t; extend = 0; cac = [] } in
    let ps = (bss_steps rs e nothing_broken (bss_list rs e) start).tally.problems in
    let named : Names is_radio_code name t =
      elim (radio_steps_named rs e nothing_broken (radio_list rs e) (status_problems rs) name
        readable expected (radio_list-is_in_set rs e name expected)) [
          | inl fine ↦ absurd (ground (arith, (radio_problem-none (at_key name rs.radios)).0 fine))
          | inr h ↦ h
        ] in
    sort-is_in_set bytes_leb name (sections_of is_radio_code ps ++ given_up e rs.radios)
    ∙ ground (
      arith,
      keys_of-append name (sections_of is_radio_code ps) (given_up e rs.radios),
      bss_steps-Names is_radio_code name rs e nothing_broken (bss_list rs e) start named,
    )

bss_excused :
    (rs : RunState) (e : Expectation) (name : Bytes) (exp : ExpBss)
    → rs.unreadable ≡ false
    → at_key name e.bss ≡ some exp
    → bss_is_lasting exp (at_key name rs.bss) ≡ true
    → is_in_set name (broken_of rs e (tally_of rs e nothing_broken).tally.problems).bss ≡ true
unfolding broken_of tally_of
bss_excused rs e name exp readable expected lasting =
    let t = radio_steps rs e nothing_broken (radio_list rs e) (status_problems rs) in
    elim (bss_steps_named rs e nothing_broken (bss_list rs e)
      (record { tally = t; extend = 0; cac = [] }) name exp readable expected
      (bss_list-is_in_set rs e name {exp = exp} expected)) [
        | inl fine ↦ absurd (ground arith)
        | inr h ↦ h
      ]

-- A change that breaks nothing is never judged as failed for good, whatever was broken before it. Say
-- that each radio that is expected now runs, or was expected at the snapshot and did not run then; and
-- that each BSS that is expected now is reachable and not disabled, with its SSID, or was expected at the
-- snapshot and was not so then. Then `evaluate` against what `healthBefore` noted finds the Wi-Fi
-- healthy, or pending.
pub health_before-evaluate :
    (rs now : RunState) (e expected : Expectation) (broken : Before)
    → health_before rs e ≡ some broken
    → now.unreadable ≡ false
    → ((name : Bytes)
        → is_in_set name expected.radios ≡ true
        → (runs (at_key name now.radios) ≡ true)
          ⊎ ((is_in_set name e.radios ≡ true) × (runs (at_key name rs.radios) ≡ false)))
    → ((name : Bytes) (exp : ExpBss)
        → at_key name expected.bss ≡ some exp
        → (bss_is_lasting exp (at_key name now.bss) ≡ false)
          ⊎ ((old : ExpBss) × (at_key name e.bss ≡ some old)
              × (bss_is_lasting old (at_key name rs.bss) ≡ true)))
    → let report = (evaluate now expected broken).0 in report.pending ≡ not report.ok
unfolding evaluate tally_of
health_before-evaluate rs now e expected broken noted readable radios bss =
    let (was_readable, is) = sections_of-before rs e broken noted in
    let t = radio_steps now expected broken (radio_list now expected) (status_problems now) in
    let start : Check = record { tally = t; extend = 0; cac = [] } in
    let radios_count : t.lasting ≡ (status_problems now).lasting =
      radio_steps-lasting now expected broken (radio_list now expected) (status_problems now)
        (λ name wanted. elim (radios name wanted) [
          | inl runs_now ↦ inl ((radio_problem-none (at_key name now.radios)).1 runs_now)
          | inr (wanted_before, stopped) ↦ inr (
              subst (λ (b : Before). is_in_set name b.radios ≡ true) (sym is)
                (radio_excused rs e name was_readable wanted_before stopped))
        ]) in
    let bss_count : (bss_steps now expected broken (bss_list now expected) start).tally.lasting
        ≡ t.lasting =
      bss_steps-lasting now expected broken (bss_list now expected) start (λ name exp wanted.
        elim (bss name exp wanted) [
          | inl fine ↦ inl fine
          | inr (old, wanted_before, lasting) ↦
              let found =
                subst (λ (b : Before). is_in_set name b.bss ≡ true) (sym is)
                  (bss_excused rs e name old was_readable wanted_before lasting) in
              inr (ground (arith, found))
        ]) in
    let nothing : (tally_of now expected broken).tally.lasting ≡ 0 =
      bss_count ∙ (radios_count ∙ rw readable refl) in
    ground (arith, nothing)
