-- ===== src/WifiPlane/Report/Named.antt =====
-- internal/wifiplane/health.go: what counts for good is among the problems.
use perch_apd.Base.{
  true, false, not, Bool, ◌||◌, Option, none, some, List, [], ◌∷◌, ◌++◌, ◌≡◌, ◌⊎◌, inl, inr, refl,
  sym, ap, ◌∙◌, subst, arith, ◌==◌, nat_eq, bytes_eq, Bytes, codes, Bool-cases, Option-cases,
  beq_self, if-both,
}
use perch_apd.Base.Maps.{at_key, is_in_set}
use perch_apd.WifiPlane.Health.{
  ProblemCode, bss_missing, cac_running, hostapd_unreachable, Problem, problem, RadioState,
  HostapdStatus, BssRun, RunState, ExpBss, Expectation, Before, Tally, add, add_found, Check,
  radio_problem, radio_step, radio_steps, was_broken, status_problem, dfs_step, bss_problem,
  bss_step, bss_steps,
}
use perch_apd.WifiPlane.Report.Broken.{is_radio_code, is_bss_code, sections_of, bss_is_lasting}

sections_of-append :
    (f : ProblemCode → Bool) (k : Bytes) (xs ys : List Problem)
    → is_in_set k (sections_of f (xs ++ ys))
      ≡ (is_in_set k (sections_of f xs) || is_in_set k (sections_of f ys))
sections_of-append f k [] ys = refl
sections_of-append f k (x ∷ xs) ys = ground (arith, sections_of-append f k xs ys)

-- The problems with such a code name this section.
abbrev pub Names : (ProblemCode → Bool) → Bytes → Tally → Type 0
Names f k t = is_in_set k (sections_of f t.problems) ≡ true

add-Names :
    (f : ProblemCode → Bool) (k : Bytes) (p : Problem) (transient : Bool) (t : Tally)
    → Names f k t
    → Names f k (add p transient t)
unfolding add
add-Names f k p transient t h = ground (arith, sections_of-append f k t.problems (p ∷ []))

add_named :
    (f : ProblemCode → Bool) (code : ProblemCode) (k : Bytes) (pre transient : Bool) (t : Tally)
    → f code ≡ true
    → Names f k (add (problem code k pre) transient t)
unfolding add
add_named f code k pre transient t h =
    ground (arith, beq_self k, sections_of-append f k t.problems (problem code k pre ∷ []))

add_found-Names :
    (f : ProblemCode → Bool) (k section : Bytes) (pre : Bool) (o : Option (ProblemCode × Bool))
    (t : Tally)
    → Names f k t
    → Names f k (add_found section pre o t)
add_found-Names f k section pre none t h = h
add_found-Names f k section pre (some (code, transient)) t h =
    add-Names f k (problem code section pre) transient t h

radio_step-Names :
    (f : ProblemCode → Bool) (k : Bytes) (rs : RunState) (e : Expectation) (broken : Before)
    (name : Bytes) (t : Tally)
    → Names f k t
    → Names f k (radio_step rs e broken name t)
unfolding radio_step
radio_step-Names f k rs e broken name t h =
    if-both (Names f k) t
      (add_found name (is_in_set name broken.radios) (radio_problem (at_key name rs.radios)) t)
      (not (is_in_set name e.radios) || rs.unreadable) h
      (add_found-Names f k name (is_in_set name broken.radios)
        (radio_problem (at_key name rs.radios)) t h)

radio_steps-Names :
    (f : ProblemCode → Bool) (k : Bytes) (rs : RunState) (e : Expectation) (broken : Before)
    (names : List Bytes) (t : Tally)
    → Names f k t
    → Names f k (radio_steps rs e broken names t)
unfolding radio_steps
radio_steps-Names f k rs e broken [] t h = h
radio_steps-Names f k rs e broken (name ∷ names) t h =
    radio_steps-Names f k rs e broken names (radio_step rs e broken name t)
      (radio_step-Names f k rs e broken name t h)

abbrev has_code : (ProblemCode → Bool) → Option (ProblemCode × Bool) → Bool
has_code f none = true
has_code f (some (code, transient)) = f code

radio_problem-code : (o : Option RadioState) → has_code is_radio_code (radio_problem o) ≡ true
unfolding radio_problem
radio_problem-code none = refl
radio_problem-code (some st) = ground arith

-- A radio with a problem is named.
radio_step_named :
    (rs : RunState) (e : Expectation) (broken : Before) (name : Bytes) (t : Tally)
    → rs.unreadable ≡ false
    → is_in_set name e.radios ≡ true
    → (radio_problem (at_key name rs.radios) ≡ none)
      ⊎ Names is_radio_code name (radio_step rs e broken name t)
unfolding radio_step
radio_step_named rs e broken name t readable expected =
    elim (Option-cases (radio_problem (at_key name rs.radios))) [
      | inl fine ↦ inl fine
      | inr ((code, transient), bad) ↦ inr (
          rw (radio_step, expected, readable, bad)
            (add_named is_radio_code code name (is_in_set name broken.radios) transient t
              (sym (ap (has_code is_radio_code) bad) ∙ radio_problem-code (at_key name rs.radios))))
    ]

pub radio_steps_named :
    (rs : RunState) (e : Expectation) (broken : Before) (names : List Bytes) (t : Tally)
    (name : Bytes)
    → rs.unreadable ≡ false
    → is_in_set name e.radios ≡ true
    → is_in_set name names ≡ true
    → (radio_problem (at_key name rs.radios) ≡ none)
      ⊎ Names is_radio_code name (radio_steps rs e broken names t)
unfolding radio_steps
radio_steps_named rs e broken [] t name readable expected here = absurd (ground arith)
radio_steps_named rs e broken (n ∷ names) t name readable expected here =
    elim (Bool-cases (n == name)) [
      | inl same ↦
          let is : n ≡ name = (bytes_eq.beq_iff n name).0 same in
          elim (radio_step_named rs e broken name t readable expected) [
            | inl fine ↦ inl fine
            | inr named ↦ inr (
                radio_steps-Names is_radio_code name rs e broken names (radio_step rs e broken n t)
                  (subst (λ m. Names is_radio_code name (radio_step rs e broken m t)) (sym is)
                    named))
          ]
      | inr apart ↦
          radio_steps_named rs e broken names (radio_step rs e broken n t) name readable expected
            (ground arith)
    ]

abbrev is_named : Option (ProblemCode × Bool) → Bool
is_named none = true
is_named (some (code, transient)) = transient || is_bss_code code

status_problem-is_named :
    (ssid : Bytes) (st : HostapdStatus) → is_named (status_problem ssid st) ≡ true
unfolding status_problem
status_problem-is_named ssid st = ground arith

dfs_step-Names :
    (f : ProblemCode → Bool) (k : Bytes) (pre : Bool) (run : BssRun) (c : Check)
    → Names f k c.tally
    → Names f k (dfs_step pre run c).tally
unfolding dfs_step
dfs_step-Names f k pre run c h =
    ground (arith, sections_of-append f k c.tally.problems (problem cac_running run.radio pre ∷ []))

bss_problem-Names :
    (f : ProblemCode → Bool) (k name : Bytes) (exp : ExpBss) (pre : Bool) (o : Option BssRun)
    (c : Check)
    → Names f k c.tally
    → Names f k (bss_problem name exp pre o c).tally
unfolding bss_problem
bss_problem-Names f k name exp pre none c h =
    add-Names f k (problem bss_missing name pre) false c.tally h
bss_problem-Names f k name exp pre (some run) c h = elim (Bool-cases run.reachable) [
  | inr down ↦
      rw (bss_problem, down) (add-Names f k (problem hostapd_unreachable name pre) false c.tally h)
  | inl up ↦ elim (Bool-cases (run.st.status == codes "DFS")) [
    | inl dfs ↦ rw (bss_problem, up, dfs) (dfs_step-Names f k pre run c h)
    | inr other ↦
        rw (bss_problem, up, other)
          (add_found-Names f k name pre (status_problem exp.ssid run.st) c.tally h)
  ]
]

bss_step-Names :
    (f : ProblemCode → Bool) (k : Bytes) (rs : RunState) (e : Expectation) (broken : Before)
    (name : Bytes) (c : Check)
    → Names f k c.tally
    → Names f k (bss_step rs e broken name c).tally
unfolding bss_step
bss_step-Names f k rs e broken name c h = elim (Option-cases (at_key name e.bss)) [
  | inl other ↦ rw (bss_step, other) h
  | inr (exp, found) ↦
      rw (bss_step, found)
        (if-both (λ (x : Check). Names f k x.tally) c
          (bss_problem name exp (was_broken broken name exp) (at_key name rs.bss) c) rs.unreadable h
          (bss_problem-Names f k name exp (was_broken broken name exp) (at_key name rs.bss) c h))
]

pub bss_steps-Names :
    (f : ProblemCode → Bool) (k : Bytes) (rs : RunState) (e : Expectation) (broken : Before)
    (names : List Bytes) (c : Check)
    → Names f k c.tally
    → Names f k (bss_steps rs e broken names c).tally
unfolding bss_steps
bss_steps-Names f k rs e broken [] c h = h
bss_steps-Names f k rs e broken (name ∷ names) c h =
    bss_steps-Names f k rs e broken names (bss_step rs e broken name c)
      (bss_step-Names f k rs e broken name c h)

-- A BSS that counts for good is named.
bss_problem_named :
    (name : Bytes) (exp : ExpBss) (pre : Bool) (o : Option BssRun) (c : Check)
    → (bss_is_lasting exp o ≡ false) ⊎ Names is_bss_code name (bss_problem name exp pre o c).tally
unfolding bss_problem bss_is_lasting
bss_problem_named name exp pre none c =
    inr (add_named is_bss_code bss_missing name pre false c.tally refl)
bss_problem_named name exp pre (some run) c = elim (Bool-cases run.reachable) [
  | inr down ↦ inr (
      rw (bss_problem, down)
        (add_named is_bss_code hostapd_unreachable name pre false c.tally refl))
  | inl up ↦ elim (Bool-cases (run.st.status == codes "DFS")) [
    | inl dfs ↦ inl (rw (bss_is_lasting, up, dfs) refl)
    | inr other ↦ elim (Option-cases (status_problem exp.ssid run.st)) [
      | inl fine ↦ inl (rw (bss_is_lasting, up, other, fine) refl)
      | inr ((code, true), found) ↦ inl (rw (bss_is_lasting, up, other, found) refl)
      | inr ((code, false), found) ↦ inr (
          rw (bss_problem, up, other, found)
            (add_named is_bss_code code name pre false c.tally
              (sym (ap is_named found) ∙ status_problem-is_named exp.ssid run.st)))
    ]
  ]
]

bss_step_expected :
    (rs : RunState) (e : Expectation) (broken : Before) (name : Bytes) (exp : ExpBss) (c : Check)
    → rs.unreadable ≡ false
    → at_key name e.bss ≡ some exp
    → Names is_bss_code name
        (bss_problem name exp (was_broken broken name exp) (at_key name rs.bss) c).tally
    → Names is_bss_code name (bss_step rs e broken name c).tally
unfolding bss_step
bss_step_expected rs e broken name exp c readable expected h = rw (bss_step, expected, readable) h

pub bss_steps_named :
    (rs : RunState) (e : Expectation) (broken : Before) (names : List Bytes) (c : Check)
    (name : Bytes) (exp : ExpBss)
    → rs.unreadable ≡ false
    → at_key name e.bss ≡ some exp
    → is_in_set name names ≡ true
    → (bss_is_lasting exp (at_key name rs.bss) ≡ false)
      ⊎ Names is_bss_code name (bss_steps rs e broken names c).tally
unfolding bss_steps
bss_steps_named rs e broken [] c name exp readable expected here = absurd (ground arith)
bss_steps_named rs e broken (n ∷ names) c name exp readable expected here =
    elim (Bool-cases (n == name)) [
      | inl same ↦
          let is : n ≡ name = (bytes_eq.beq_iff n name).0 same in
          elim (bss_problem_named name exp (was_broken broken name exp) (at_key name rs.bss) c) [
            | inl fine ↦ inl fine
            | inr named ↦ inr (
                bss_steps-Names is_bss_code name rs e broken names (bss_step rs e broken n c) (
                  subst (λ m. Names is_bss_code name (bss_step rs e broken m c).tally) (sym is)
                    (bss_step_expected rs e broken name exp c readable expected named)))
          ]
      | inr apart ↦
          bss_steps_named rs e broken names (bss_step rs e broken n c) name exp readable expected
            (ground arith)
    ]
