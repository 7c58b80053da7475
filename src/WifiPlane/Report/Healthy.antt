-- ===== src/WifiPlane/Report/Healthy.antt =====
-- internal/wifiplane/health.go: when a change is kept, written without the loops of `evaluate`.
use perch_apd.Base.{
  true, false, not, ◌&&◌, ◌||◌, Option, none, some, List, [], ◌∷◌, ◌++◌, ◌≡◌, ◌↔◌, ◌⊎◌, inl, inr,
  refl, sym, ap, ◌∙◌, arith, ◌==◌, nat_eq, bytes_eq, Bytes, codes, all, Bool-cases, Option-cases,
}
use perch_apd.Base.Sort.{bytes_leb}
use perch_apd.Base.Maps.{
  at_key, keys_of, is_in_set, set_of, sort-is_in_set, set_of-is_in_set, all-is_in_set,
  is_in_set-all,
}
use perch_apd.WifiPlane.Health.{
  RadioState, BssRun, RunState, ExpBss, Expectation, Before, Tally, add, Check, radio_step,
  radio_steps, was_broken, bss_step, bss_steps,
}
use perch_apd.WifiPlane.Report.{radio_list, bss_list, status_problems, tally_of, evaluate}
use perch_apd.WifiPlane.Report.Verdict.{radio_fine, bss_fine, radio_steps-fine, bss_steps-fine}

-- Netifd runs the radio.
abbrev pub RadioRuns : RunState → Bytes → Type 0
RadioRuns rs name =
    (st : RadioState) × (at_key name rs.radios ≡ some st)
    × (st.up ≡ true)
    × (st.retry_setup_failed ≡ false)

-- Hostapd beacons the BSS, with the SSID of the configuration where that has one.
abbrev pub BssBeacons : RunState → Bytes → ExpBss → Type 0
BssBeacons rs name exp =
    (run : BssRun) × (at_key name rs.bss ≡ some run)
    × (run.reachable ≡ true)
    × (run.st.status ≡ codes "ENABLED")
    × ((exp.ssid ≡ []) ⊎ (run.st.ssid ≡ exp.ssid))

pub record IsHealthy (rs : RunState) (e : Expectation) (broken : Before) : Type 0 where
  pub readable : rs.unreadable ≡ false
  pub radios :
      (name : Bytes)
      → is_in_set name e.radios ≡ true
      → (is_in_set name broken.radios ≡ true) ⊎ RadioRuns rs name
  pub bss :
      (name : Bytes) (exp : ExpBss)
      → at_key name e.bss ≡ some exp
      → (was_broken broken name exp ≡ true) ⊎ BssBeacons rs name exp

pub keys_of-append :
    (k : Bytes) (xs ys : List Bytes) → is_in_set k (xs ++ ys) ≡ (is_in_set k xs || is_in_set k ys)
keys_of-append k [] ys = refl
keys_of-append k (x ∷ xs) ys = ground (arith, keys_of-append k xs ys)

keys_of-at_key {ℓ} :
    {A : Type ℓ} (k : Bytes) (m : List (Bytes × A)) {a : A}
    → at_key k m ≡ some a
    → is_in_set k (keys_of m) ≡ true
keys_of-at_key k [] h = ground arith
keys_of-at_key k ((n, b) ∷ m) {a} h = elim (Bool-cases (n == k)) [
  | inl here ↦ ground arith
  | inr apart ↦ ground (arith, keys_of-at_key k m {a = a})
]

pub radio_list-is_in_set :
    (rs : RunState) (e : Expectation) (k : Bytes)
    → is_in_set k e.radios ≡ true
    → is_in_set k (radio_list rs e) ≡ true
radio_list-is_in_set rs e k h =
    sort-is_in_set bytes_leb k (set_of (keys_of rs.radios ++ e.radios))
    ∙ set_of-is_in_set k (keys_of rs.radios ++ e.radios)
    ∙ ground (arith, keys_of-append k (keys_of rs.radios) e.radios)

pub bss_list-is_in_set :
    (rs : RunState) (e : Expectation) (k : Bytes) {exp : ExpBss}
    → at_key k e.bss ≡ some exp
    → is_in_set k (bss_list rs e) ≡ true
bss_list-is_in_set rs e k {exp} h =
    sort-is_in_set bytes_leb k (set_of (keys_of e.bss ++ keys_of rs.bss))
    ∙ set_of-is_in_set k (keys_of e.bss ++ keys_of rs.bss)
    ∙ ground (
      arith,
      keys_of-append k (keys_of e.bss) (keys_of rs.bss),
      keys_of-at_key k e.bss {a = exp} h,
    )

-- Of an unreadable status only its own problem counts.
radio_steps_unreadable :
    (rs : RunState) (e : Expectation) (broken : Before) (names : List Bytes) (t : Tally)
    → rs.unreadable ≡ true
    → radio_steps rs e broken names t ≡ t
unfolding radio_steps radio_step
radio_steps_unreadable rs e broken [] t h = refl
radio_steps_unreadable rs e broken (name ∷ names) t h =
    radio_steps_unreadable rs e broken names (radio_step rs e broken name t) h ∙ ground arith

bss_steps_unreadable :
    (rs : RunState) (e : Expectation) (broken : Before) (names : List Bytes) (c : Check)
    → rs.unreadable ≡ true
    → bss_steps rs e broken names c ≡ c
unfolding bss_steps bss_step
bss_steps_unreadable rs e broken [] c h = refl
bss_steps_unreadable rs e broken (name ∷ names) c h =
    bss_steps_unreadable rs e broken names (bss_step rs e broken name c) h
    ∙ (elim (Option-cases (at_key name e.bss)) [
      | inl other ↦ ground arith
      | inr found ↦ ground arith
    ])

tally_of-fine :
    (rs : RunState) (e : Expectation) (broken : Before)
    → ((tally_of rs e broken).tally.counting == 0) ≡ (
        not rs.unreadable
        && all (radio_fine rs e broken) (radio_list rs e)
        && all (λ name. bss_fine rs broken name (at_key name e.bss)) (bss_list rs e))
unfolding tally_of add
tally_of-fine rs e broken =
    let t = radio_steps rs e broken (radio_list rs e) (status_problems rs) in
    let start : Check = record { tally = t; extend = 0; cac = [] } in
    elim (Bool-cases rs.unreadable) [
      | inl bad ↦ ground (
        arith,
        radio_steps_unreadable rs e broken (radio_list rs e) (status_problems rs) bad,
        bss_steps_unreadable rs e broken (bss_list rs e) start bad,
      )
      | inr good ↦ ground (
        arith,
        bss_steps-fine rs e broken (bss_list rs e) start good,
        radio_steps-fine rs e broken (radio_list rs e) (status_problems rs) good,
      )
    ]

radio_fine-RadioRuns :
    (rs : RunState) (e : Expectation) (broken : Before) (name : Bytes)
    → is_in_set name e.radios ≡ true
    → (radio_fine rs e broken name ≡ true)
      ↔ ((is_in_set name broken.radios ≡ true) ⊎ RadioRuns rs name)
radio_fine-RadioRuns rs e broken name expected = (
  λ h. elim (Bool-cases (is_in_set name broken.radios)) [
    | inl was ↦ inl was
    | inr fresh ↦ elim (Option-cases (at_key name rs.radios)) [
      | inl unknown ↦ absurd (ground arith)
      | inr (st, known) ↦ inr (st, known, ground arith, ground arith)
    ]
  ],
  λ h. elim h [
    | inl was ↦ ground arith
    | inr (st, known, up, kept) ↦ ground (arith, known, up, kept)
  ],
)

bss_fine-BssBeacons :
    (rs : RunState) (broken : Before) (name : Bytes) (exp : ExpBss)
    → (bss_fine rs broken name (some exp) ≡ true)
      ↔ ((was_broken broken name exp ≡ true) ⊎ BssBeacons rs name exp)
bss_fine-BssBeacons rs broken name exp = (
  λ h. elim (Bool-cases (was_broken broken name exp)) [
    | inl was ↦ inl was
    | inr fresh ↦ elim (Option-cases (at_key name rs.bss)) [
      | inl missing ↦ absurd (ground arith)
      | inr (run, found) ↦ elim (Bool-cases (exp.ssid == [])) [
        | inl open_ssid ↦ inr (
          run,
          found,
          ground arith,
          (bytes_eq.beq_iff run.st.status (codes "ENABLED")).0 (ground arith),
          inl ((bytes_eq.beq_iff exp.ssid []).0 open_ssid),
        )
        | inr named ↦ inr (
          run,
          found,
          ground arith,
          (bytes_eq.beq_iff run.st.status (codes "ENABLED")).0 (ground arith),
          inr ((bytes_eq.beq_iff run.st.ssid exp.ssid).0 (ground arith)),
        )
      ]
    ]
  ],
  λ h. elim h [
    | inl was ↦ ground arith
    | inr (run, found, up, enabled, ssid) ↦
        let on = (bytes_eq.beq_iff run.st.status (codes "ENABLED")).1 enabled in
        elim ssid [
          | inl open_ssid ↦
              ground (arith, found, up, on, (bytes_eq.beq_iff exp.ssid []).1 open_ssid)
          | inr same ↦ ground (arith, found, up, on, (bytes_eq.beq_iff run.st.ssid exp.ssid).1 same)
        ]
  ],
)

sound :
    (rs : RunState) (e : Expectation) (broken : Before)
    → (evaluate rs e broken).0.ok ≡ true
    → IsHealthy rs e broken
unfolding evaluate
sound rs e broken h =
    let fine = tally_of-fine rs e broken in
    record {
      readable = ground arith;
      radios = λ name expected. (radio_fine-RadioRuns rs e broken name expected).0 (
          all-is_in_set (radio_fine rs e broken) (radio_list rs e) (ground arith) name
            (radio_list-is_in_set rs e name expected));
      bss = λ name exp found. (bss_fine-BssBeacons rs broken name exp).0 (
          ap (bss_fine rs broken name) (sym found)
          ∙ all-is_in_set (λ n. bss_fine rs broken n (at_key n e.bss)) (bss_list rs e)
              (ground arith) name (bss_list-is_in_set rs e name {exp = exp} found));
    }

complete :
    (rs : RunState) (e : Expectation) (broken : Before)
    → IsHealthy rs e broken
    → (evaluate rs e broken).0.ok ≡ true
unfolding evaluate
complete rs e broken h =
    let radios =
      is_in_set-all (radio_fine rs e broken) (radio_list rs e) (λ name listed. every_radio name) in
    let bss =
      is_in_set-all (λ n. bss_fine rs broken n (at_key n e.bss)) (bss_list rs e)
        (λ name listed. every_bss name (at_key name e.bss) refl) in
    ground (arith, tally_of-fine rs e broken, h.readable, radios, bss)
  where
    every_radio : (name : Bytes) → radio_fine rs e broken name ≡ true
    every_radio name = elim (Bool-cases (is_in_set name e.radios)) [
      | inl expected ↦ (radio_fine-RadioRuns rs e broken name expected).1 (h.radios name expected)
      | inr other ↦ ground arith
    ]

    every_bss :
        (name : Bytes) (o : Option ExpBss)
        → at_key name e.bss ≡ o
        → bss_fine rs broken name o ≡ true
    every_bss name none found = refl
    every_bss name (some exp) found =
        (bss_fine-BssBeacons rs broken name exp).1 (h.bss name exp found)

-- The health check passes exactly if the status can be read, every expected radio is up and not given
-- up, unless it was broken before the apply, and every expected BSS beacons with its SSID, unless it or
-- one of its radios was broken before.
pub evaluate-IsHealthy :
    (rs : RunState) (e : Expectation) (broken : Before)
    → ((evaluate rs e broken).0.ok ≡ true) ↔ IsHealthy rs e broken
evaluate-IsHealthy rs e broken = (sound rs e broken, complete rs e broken)
