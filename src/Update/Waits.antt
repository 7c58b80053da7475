-- ===== src/Update/Waits.antt =====
-- internal/update/update.go: the wait before the first dial ends.
use perch_apd.Base.{
  ℕ, zero, suc, ◌+◌, ◌*◌, ◌/◌, ◌≤◌, ◌<◌, Bool, true, false, ◌⊎◌, some, ◌≡◌, refl, arith, ltb, ◌==◌,
  nat_eq, subst, Bytes, inl, inr, Bool-cases, ltb→lt,
}
use perch_apd.Update.{Rounds, must_wait, wait_from, wait_probation}

module _ (same_version : Bytes → Bytes → Bool) (is_known : Bytes → Bool) where
  -- Why the loop returns in a round, and that it had to wait in every round before it.
  pub record Ends (version : Bytes) (deadline : ℕ) (s : Rounds) (from k : ℕ) : Type 0 where
    pub over :
        (must_wait same_version is_known version (s.plan k) ≡ false)
        ⊎ ((deadline < s.now k) ⊎ (s.done k ≡ true))
    pub waited :
        (j : ℕ)
        → from ≤ j
        → j < k
        → (must_wait same_version is_known version (s.plan j) ≡ true)
          × (s.now j ≤ deadline)
          × (s.done j ≡ false)

  -- The loop ends in the round that is late, or before.
  wait_from-Ends :
      (n : ℕ) (version : Bytes) (deadline : ℕ) (s : Rounds) (from late : ℕ)
      → from ≤ late
      → late < from + n
      → deadline < s.now late
      → (k : ℕ) × (wait_from same_version is_known n version deadline s from ≡ some k)
        × (k ≤ late)
        × Ends version deadline s from k
  unfolding wait_from
  wait_from-Ends zero version deadline s from late lo hi past = absurd (omega (arith, lo, hi))
  wait_from-Ends (suc n) version deadline s from late lo hi past =
      elim (Bool-cases (must_wait same_version is_known version (s.plan from))) [
        | inr free ↦ (
          from,
          rw (wait_from, free) refl,
          lo,
          record { over = inl free; waited = λ j a b. absurd (omega (arith, a, b)) },
        )
        | inl must ↦ elim (Bool-cases (ltb deadline (s.now from))) [
          | inl overdue ↦ (
            from,
            rw (wait_from, must, overdue) refl,
            lo,
            record {
              over = inr (inl (ltb→lt deadline (s.now from) overdue));
              waited = λ j a b. absurd (omega (arith, a, b));
            },
          )
          | inr early ↦ elim (Bool-cases (s.done from)) [
            | inl done ↦ (
              from,
              rw (wait_from, must, early, done) refl,
              lo,
              record { over = inr (inr done); waited = λ j a b. absurd (omega (arith, a, b)) },
            )
            | inr going ↦
                let now_le : s.now from ≤ deadline = ground arith in
                let next : from + 1 ≤ late = elim (Bool-cases (from == late)) [
                  | inl same ↦ absurd (ground (arith, past, now_le))
                  | inr other ↦ ground (arith, lo)
                ] in
                let (k, e, le, ends) =
                  wait_from-Ends n version deadline s (from + 1) late next (omega (arith, hi))
                    past in
                (
                  k,
                  rw (wait_from, must, early, going) e,
                  le,
                  record {
                    over = ends.over;
                    waited = λ j a b. elim (Bool-cases (from == j)) [
                      | inl same ↦
                          let is : from ≡ j = ground arith in
                          subst
                            (λ i.
                              (must_wait same_version is_known version (s.plan i) ≡ true)
                              × (s.now i ≤ deadline)
                              × (s.done i ≡ false))
                            is (must, now_le, going)
                      | inr other ↦ ends.waited j (ground (arith, a)) b
                    ];
                  },
                )
          ]
        ]
      ]

  -- The wait for the watchdog ends. A round takes a quarter of a second, so as many rounds as fit in the
  -- longest wait, and two more, are enough: the loop returns, in a round in which the plan of this
  -- version is no longer being installed, the time is up, or the context is done, and in the first such
  -- round.
  pub wait_probation-Ends :
      (n : ℕ) (version : Bytes) (started max : ℕ) (s : Rounds)
      → ((k : ℕ) → started + k * 250 ≤ s.now k)
      → max / 250 + 2 ≤ n
      → (k : ℕ) × (wait_probation same_version is_known n version started max s ≡ some k)
        × (k ≤ max / 250 + 1)
        × Ends version (started + max) s 0 k
  unfolding wait_probation
  wait_probation-Ends n version started max s clock enough =
      let late = clock (max / 250 + 1) in
      wait_from-Ends n version (started + max) s 0 (max / 250 + 1) (omega arith)
        (omega (arith, enough)) (omega (arith, late))
