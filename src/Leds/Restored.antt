-- ===== src/Leds/Restored.antt =====
-- internal/leds/leds.go: the end of a blink puts back what its first start read.
use perch_apd.Base.{
  ℕ, ◌≤◌, ◌<◌, Bool, true, false, not, ◌||◌, Option, none, some, List, [], ◌∷◌, ◌≡◌, refl, ap, ◌∙◌,
  arith, ◌==◌, nat_eq, All, inl, inr, if-cases, if-both, beq_self, subst, sym, Bytes,
}
use perch_apd.Leds.{
  LedState, Sysfs, Calls, Answer, Locator, snapshot, restore_all, begin, arm, arm_begun, start,
  finish, finish_now, blink_all, persist, clear_persisted, try_blink, settle, StartError,
  save_failed, save_and_blink,
}
use perch_apd.Leds.Effects.{Laws, HasNames, IsProper, IsBack, restore_all-IsBack}
use perch_apd.Leds.Recovered.{Move, starts, finishes, step, run, Persisted-cases}

module _ (kit : Sysfs) where
  open kit use {Leds}

  -- Timers of earlier blinks, and any `Start`.
  abbrev pub IsEarlier : ℕ → Move → Type 0
  IsEarlier n (starts v d) = Unit
  IsEarlier n (finishes v g) = g ≤ n

  record IsBlinking (n : ℕ) (states : List LedState) (l : Locator kit) : Type 0 where
    on : l.active ≡ true
    kept : l.saved ≡ states
    armed : l.timer ≡ some l.gen
    later : n < l.gen

  step-IsBlinking :
      (n : ℕ) (states : List LedState) (m : Move) (l : Locator kit)
      → IsEarlier n m
      → IsBlinking n states l
      → IsBlinking n states (step kit m l)
  unfolding start arm finish
  step-IsBlinking n states (starts v d) l e k =
      if-cases (λ (r : Locator kit × Answer). IsBlinking n states r.0) (arm kit v d l)
        (arm_begun kit v d (begin kit true v l)) l.active
        (λ _. record { on = k.on; kept = k.kept; armed = refl; later = omega (arith, k.later) })
        (λ idle. absurd (ground (arith, k.on)))
  step-IsBlinking n states (finishes v g) l e k =
      let stale : (g == l.gen) ≡ false = ground (arith, k.later) in
      if-cases (λ (r : Locator kit × Bool). IsBlinking n states r.0) (l, false)
        (finish_now kit true v l) (not l.active || not (g == l.gen)) (λ _. k)
        (λ both. absurd (ground (arith, stale)))

  run-IsBlinking :
      (n : ℕ) (states : List LedState) (ms : List Move) (l : Locator kit)
      → All (IsEarlier n) ms
      → IsBlinking n states l
      → IsBlinking n states (run kit ms l)
  run-IsBlinking n states [] l e k = k
  run-IsBlinking n states (m ∷ ms) l e k =
      run-IsBlinking n states ms (step kit m l) (e.1) (step-IsBlinking n states m l (e.0) k)

  -- What `Start` does to a locator where nothing blinks.
  abbrev Begins : List LedState → Locator kit → Locator kit × Option StartError → Type 0
  Begins states l (l', none) = (l'.active ≡ true) × (l'.saved ≡ states) × (l'.gen ≡ l.gen)
  Begins states l (l', some e) = l'.active ≡ false

  persist-same :
      (v : Calls) (states : List LedState) (l : Locator kit)
      → let l' = (persist kit true v states l).0 in (l'.active ≡ l.active) × (l'.gen ≡ l.gen)
  unfolding persist
  persist-same v states l = elim (Persisted-cases v.persisted) [
    | inl e ↦ rw (persist, e) (refl, refl)
    | inr (inl (b, e)) ↦ rw (persist, e) (refl, refl)
    | inr (inr e) ↦ rw (persist, e) (refl, refl)
  ]

  settle-Begins :
      (v : Calls) (states : List LedState) (l0 l : Locator kit) (lit : List LedState)
      → l.active ≡ false
      → l.gen ≡ l0.gen
      → Begins states l0 (settle kit true v states l lit)
  unfolding settle clear_persisted
  settle-Begins v states l0 l [] idle same = ground arith
  settle-Begins v states l0 l (_ ∷ _) idle same = (refl, refl, same)

  save_and_blink-Begins :
      (v : Calls) (states : List LedState) (l : Locator kit)
      → l.active ≡ false
      → Begins states l (save_and_blink kit true v states l)
  unfolding save_and_blink try_blink
  save_and_blink-Begins v [] l idle = idle
  save_and_blink-Begins v (s ∷ ss) l idle =
      let l' = (persist kit true v (s ∷ ss) l).0 in
      let (same, gen) = persist-same v (s ∷ ss) l in
      if-both (Begins (s ∷ ss) l) (try_blink kit true v (s ∷ ss) l') (l', some save_failed)
        (persist kit true v (s ∷ ss) l).1
        (settle-Begins v (s ∷ ss) l (record l' { leds = (blink_all kit (s ∷ ss) l'.leds).0 })
          (blink_all kit (s ∷ ss) l'.leds).1 (same ∙ idle) gen)
        (same ∙ idle)

  arm_begun-IsBlinking :
      (v : Calls) (d : ℕ) (states : List LedState) (l : Locator kit)
      (r : Locator kit × Option StartError)
      → Begins states l r
      → (arm_begun kit v d r).0.active ≡ true
      → IsBlinking l.gen states (arm_begun kit v d r).0
  unfolding arm_begun arm
  arm_begun-IsBlinking v d states l (l', none) (on, kept, gen) _ = record {
    on = on;
    kept = kept;
    armed = refl;
    later = omega (arith, gen);
  }
  arm_begun-IsBlinking v d states l (l', some e) off on = absurd (ground arith)

  start-IsBlinking :
      (v : Calls) (d : ℕ) (l : Locator kit) (states : List LedState)
      → l.active ≡ false
      → snapshot kit l.leds ≡ some states
      → (start kit true v d l).0.active ≡ true
      → IsBlinking l.gen states (start kit true v d l).0
  unfolding start begin
  start-IsBlinking v d l states idle shot =
      let begins : Begins states l (begin kit true v l) =
        rw (begin, shot) (save_and_blink-Begins v states l idle) in
      if-cases (λ (r : Locator kit × Answer). r.0.active ≡ true → IsBlinking l.gen states r.0)
        (arm kit v d l) (arm_begun kit v d (begin kit true v l)) l.active
        (λ on. absurd (ground arith))
        (λ _. arm_begun-IsBlinking v d states l (begin kit true v l) begins)

  finish_now_ends :
      (v : Calls) (l : Locator kit)
      → ((finish_now kit true v l).0.leds ≡ restore_all kit l.saved l.leds)
        × ((finish_now kit true v l).1 ≡ true)
        × ((finish_now kit true v l).0.active ≡ false)
  unfolding finish_now clear_persisted
  finish_now_ends v l = (ground arith, refl, ground arith)

  IsBlinking-finish :
      (n : ℕ) (states : List LedState) (w : Calls) (l : Locator kit)
      → IsBlinking n states l
      → (l.active ≡ true)
        × (l.timer ≡ some l.gen)
        × ((g : ℕ) → g ≤ n → finish kit true w g l ≡ (l, false))
        × ((finish kit true w l.gen l).0.leds ≡ restore_all kit states l.leds)
        × ((finish kit true w l.gen l).1 ≡ true)
        × ((finish kit true w l.gen l).0.active ≡ false)
  unfolding finish
  IsBlinking-finish n states w l k =
      let done : finish kit true w l.gen l ≡ finish_now kit true w l =
        rw (finish, k.on, beq_self l.gen) refl in
      let (leds, told, off) = finish_now_ends w l in
      (
        k.on,
        k.armed,
        λ g early. ground (arith, k.later),
        ap (λ r. r.0.leds) done ∙ (leds ∙ ap (λ ss. restore_all kit ss l.leds) k.kept),
        ap (λ r. r.1) done ∙ told,
        ap (λ r. r.0.active) done ∙ off,
      )

  pub start-restore_all :
      (value : Bytes → Bytes → Leds → Bytes) (laws : Laws kit value) (v w : Calls) (d : ℕ)
      (l : Locator kit) (states : List LedState) (ms : List Move)
      → l.active ≡ false
      → snapshot kit l.leds ≡ some states
      → HasNames states
      → All (IsProper kit) states
      → (start kit true v d l).0.active ≡ true
      → All (IsEarlier l.gen) ms
      → let l' = run kit ms (start kit true v d l).0 in
        (l'.active ≡ true)
        × (l'.timer ≡ some l'.gen)
        × ((g : ℕ) → g ≤ l.gen → finish kit true w g l' ≡ (l', false))
        × All (λ s. IsBack kit value laws s (finish kit true w l'.gen l').0.leds) states
        × ((finish kit true w l'.gen l').1 ≡ true)
        × ((finish kit true w l'.gen l').0.active ≡ false)
  start-restore_all value laws v w d l states ms idle shot apart proper on earlier =
      let l' = run kit ms (start kit true v d l).0 in
      let (lit, armed, stale, back, told, off) = IsBlinking-finish l.gen states w l' (
        run-IsBlinking l.gen states ms (start kit true v d l).0 earlier
          (start-IsBlinking v d l states idle shot on)) in
      (
        lit,
        armed,
        stale,
        subst (λ leds. All (λ s. IsBack kit value laws s leds) states) (sym back)
            (restore_all-IsBack kit value laws states l'.leds apart proper),
        told,
        off,
      )
