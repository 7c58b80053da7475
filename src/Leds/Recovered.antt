-- ===== src/Leds/Recovered.antt =====
-- internal/leds/leds.go: the next run of a daemon that died puts every LED back.
use perch_apd.Base.{
  ℕ, Bool, true, false, not, ◌||◌, Option, none, some, List, [], ◌∷◌, ◌≡◌, ◌⊎◌, refl, sym, ap,
  arith, ◌==◌, nat_eq, Bytes, All, inl, inr, Bool-cases, Option-cases, if-cases, if-both,
  option-both, beq_self, subst, if◌then◌else◌,
}
use perch_apd.Leds.Effects.{Laws, HasNames, IsProper, IsBack, restore_all-IsBack}
use perch_apd.Leds.{
  LedState, Sysfs, Persisted, unopened, torn, written, Calls, Answer, Locator, new, snapshot,
  restore_all, begin, arm, arm_begun, start, finish, finish_now, stop, recover_stale, blink_all,
  persist, clear_persisted, try_blink, settle, StartError, save_failed, snapshot_failed,
  save_and_blink,
}

-- A call under the mutex: of `Start`, or of `finish` by a timer or by `Stop`, with the generation that
-- it has read.
pub data Move : Type 0 where
  starts : Calls → ℕ → Move
  finishes : Calls → ℕ → Move

pub Persisted-cases :
    (p : Persisted) → (p ≡ unopened) ⊎ (((b : Bytes) × (p ≡ torn b)) ⊎ (p ≡ written))
Persisted-cases unopened = inl refl
Persisted-cases (torn b) = inr (inl (b, refl))
Persisted-cases written = inr (inr refl)

module _ (kit : Sysfs) where
  open kit use {Leds}

  abbrev pub step : Move → Locator kit → Locator kit
  step (starts v d) l = (start kit true v d l).0
  step (finishes v g) l = (finish kit true v g l).0

  abbrev pub run : List Move → Locator kit → Locator kit
  run [] l = l
  run (m ∷ ms) l = run ms (step m l)

  -- The state file cannot be read as states.
  abbrev IsBlank : Option Bytes → Type 0
  IsBlank file = (b : Bytes) → file ≡ some b → kit.decode b ≡ none

  -- Removing the state file succeeds, and a part of it is no state.
  abbrev IsClean : Calls → Type 0
  IsClean v = (v.removed ≡ true) × ((b : Bytes) → v.persisted ≡ torn b → kit.decode b ≡ none)

  abbrev pub IsCleanMove : Move → Type 0
  IsCleanMove (starts v d) = IsClean v
  IsCleanMove (finishes v g) = v.removed ≡ true

  -- While LEDs blink the file holds what they were; otherwise it holds nothing.
  record IsCovered (l : Locator kit) : Type 0 where
    on : l.active ≡ true → l.file ≡ some (kit.encode l.saved)
    off : l.active ≡ false → IsBlank l.file

  persist-IsCovered :
      (v : Calls) (states : List LedState) (l : Locator kit)
      → IsClean v
      → l.active ≡ false
      → IsBlank l.file
      → let (l', fine) = persist kit true v states l in
        (l'.active ≡ false)
        × ((fine ≡ true) → l'.file ≡ some (kit.encode states))
        × ((fine ≡ false) → IsBlank l'.file)
  unfolding persist
  persist-IsCovered v states l clean idle blank = elim (Persisted-cases v.persisted) [
    | inl e ↦ rw (persist, e) (idle, λ h. absurd (ground arith), λ h. blank)
    | inr (inl (b, e)) ↦
        rw (persist, e) (idle, λ h. absurd (ground arith), λ h c same. ground (arith, clean.1 b e))
    | inr (inr e) ↦ rw (persist, e) (idle, λ h. refl, λ h. absurd (ground arith))
  ]

  clear_persisted-file :
      (v : Calls) (l : Locator kit)
      → v.removed ≡ true
      → clear_persisted kit true v l ≡ record l { file = none }
  unfolding clear_persisted
  clear_persisted-file v l h = rw (clear_persisted, h) refl

  settle-IsCovered :
      (v : Calls) (states : List LedState) (l : Locator kit) (lit : List LedState)
      → v.removed ≡ true
      → l.active ≡ false
      → l.file ≡ some (kit.encode states)
      → IsCovered (settle kit true v states l lit).0
  unfolding settle
  settle-IsCovered v states l [] h idle kept =
      rw (clear_persisted-file v l h)
        (record { on = λ a. absurd (ground arith); off = λ _ b same. absurd (ground arith) })
  settle-IsCovered v states l (s ∷ lit) h idle kept = record {
    on = λ _. kept;
    off = λ a. absurd (ground arith);
  }

  try_blink-IsCovered :
      (v : Calls) (states : List LedState) (l : Locator kit)
      → v.removed ≡ true
      → l.active ≡ false
      → l.file ≡ some (kit.encode states)
      → IsCovered (try_blink kit true v states l).0
  unfolding try_blink
  try_blink-IsCovered v states l h idle kept =
      settle-IsCovered v states (record l { leds = (blink_all kit states l.leds).0 })
        (blink_all kit states l.leds).1 h idle kept

  save_and_blink-IsCovered :
      (v : Calls) (states : List LedState) (l : Locator kit)
      → IsClean v
      → l.active ≡ false
      → IsBlank l.file
      → IsCovered (save_and_blink kit true v states l).0
  unfolding save_and_blink
  save_and_blink-IsCovered v [] l clean idle blank = record {
    on = λ a. absurd (ground arith);
    off = λ _. blank;
  }
  save_and_blink-IsCovered v (s ∷ ss) l clean idle blank =
      let (off, good, bad) = persist-IsCovered v (s ∷ ss) l clean idle blank in
      let l' = (persist kit true v (s ∷ ss) l).0 in
      if-cases (λ (r : Locator kit × Option StartError). IsCovered r.0)
        (try_blink kit true v (s ∷ ss) l') (l', some save_failed) (persist kit true v (s ∷ ss) l).1
        (λ fine. try_blink-IsCovered v (s ∷ ss) l' (clean.0) off (good fine))
        (λ lost. record { on = λ a. absurd (ground arith); off = λ _. bad lost })

  begin-IsCovered :
      (v : Calls) (l : Locator kit)
      → IsClean v
      → l.active ≡ false
      → IsCovered l
      → IsCovered (begin kit true v l).0
  unfolding begin
  begin-IsCovered v l clean idle c =
      option-both (λ (r : Locator kit × Option StartError). IsCovered r.0) (l, some snapshot_failed)
        (λ states. save_and_blink kit true v states l) (snapshot kit l.leds) c
        (λ states. save_and_blink-IsCovered v states l clean idle (c.off idle))

  arm-IsCovered : (v : Calls) (d : ℕ) (l : Locator kit) → IsCovered l → IsCovered (arm kit v d l).0
  unfolding arm
  arm-IsCovered v d l c = record { on = c.on; off = c.off }

  arm_begun-IsCovered :
      (v : Calls) (d : ℕ) (r : Locator kit × Option StartError)
      → IsCovered r.0
      → IsCovered (arm_begun kit v d r).0
  unfolding arm_begun
  arm_begun-IsCovered v d (l, none) c = arm-IsCovered v d l c
  arm_begun-IsCovered v d (l, some e) c = c

  start-IsCovered :
      (v : Calls) (d : ℕ) (l : Locator kit)
      → IsClean v
      → IsCovered l
      → IsCovered (start kit true v d l).0
  unfolding start
  start-IsCovered v d l clean c =
      if-cases (λ (r : Locator kit × Answer). IsCovered r.0) (arm kit v d l)
        (arm_begun kit v d (begin kit true v l)) l.active (λ _. arm-IsCovered v d l c)
        (λ idle. arm_begun-IsCovered v d (begin kit true v l) (begin-IsCovered v l clean idle c))

  finish-IsCovered :
      (v : Calls) (g : ℕ) (l : Locator kit)
      → v.removed ≡ true
      → IsCovered l
      → IsCovered (finish kit true v g l).0
  unfolding finish finish_now
  finish-IsCovered v g l h c =
      if-both (λ (r : Locator kit × Bool). IsCovered r.0) (l, false) (finish_now kit true v l)
        (not l.active || not (g == l.gen)) c
        (rw
          (clear_persisted-file v
            (record l {
              saved = [];
              timer = none;
              active = false;
              ends_at = none;
              leds = restore_all kit l.saved l.leds;
            })
            h)
          (record { on = λ a. absurd (ground arith); off = λ _ b same. absurd (ground arith) }))

  step-IsCovered : (m : Move) (l : Locator kit) → IsCleanMove m → IsCovered l → IsCovered (step m l)
  step-IsCovered (starts v d) l clean c = start-IsCovered v d l clean c
  step-IsCovered (finishes v g) l clean c = finish-IsCovered v g l clean c

  run-IsCovered :
      (ms : List Move) (l : Locator kit) → All IsCleanMove ms → IsCovered l → IsCovered (run ms l)
  run-IsCovered [] l clean c = c
  run-IsCovered (m ∷ ms) l clean c =
      run-IsCovered ms (step m l) (clean.1) (step-IsCovered m l (clean.0) c)

  recover_stale-some :
      (v : Calls) (l : Locator kit) (b : Bytes) (states : List LedState)
      → v.removed ≡ true
      → v.read_ok ≡ true
      → l.file ≡ some b
      → kit.decode b ≡ some states
      → recover_stale kit true v l
        ≡ (record l { file = none; leds = restore_all kit states l.leds }, some true)
  unfolding recover_stale
  recover_stale-some v l b states h readable kept back =
      rw (recover_stale, kept, readable, back)
        (ap (λ (x : Locator kit). (x, some true))
          (clear_persisted-file v (record l { leds = restore_all kit states l.leds }) h))

  -- Where the file holds no state, only the file changes.
  recover_stale-blank :
      (v : Calls) (l : Locator kit)
      → v.removed ≡ true
      → v.read_ok ≡ true
      → IsBlank l.file
      → (recover_stale kit true v l).0 ≡ record l { file = none }
  unfolding recover_stale
  recover_stale-blank v l h readable blank = elim (Option-cases l.file) [
    | inl gone ↦ rw (recover_stale, gone) (ap (λ (o : Option Bytes). record l { file = o }) gone)
    | inr (b, kept) ↦ rw (recover_stale, kept, readable, blank b kept) (clear_persisted-file v l h)
  ]

  stop_on :
      (v : Calls) (l : Locator kit)
      → l.active ≡ true
      → stop kit true v l
        ≡ clear_persisted kit true v (record l {
          saved = [];
          timer = none;
          active = false;
          ends_at = none;
          leds = restore_all kit l.saved l.leds;
        })
  unfolding stop finish finish_now
  stop_on v l on = rw (stop, finish, on, beq_self l.gen) refl

  stop_off : (v : Calls) (l : Locator kit) → l.active ≡ false → stop kit true v l ≡ l
  unfolding stop finish finish_now
  stop_off v l off = ground arith

  pub clear_persisted-same :
      (v : Calls) (l : Locator kit)
      → ((clear_persisted kit true v l).leds ≡ l.leds)
        × ((clear_persisted kit true v l).active ≡ l.active)
  unfolding clear_persisted
  clear_persisted-same v l = (ground arith, ground arith)

  recover_same :
      (ms : List Move) (leds : Leds) (v w : Calls)
      → All IsCleanMove ms
      → v.removed ≡ true
      → v.read_ok ≡ true
      → let l = run ms (new kit none leds) in
        let r = (recover_stale kit true v (new kit l.file l.leds)).0 in
        kit.decode (kit.encode l.saved) ≡ some l.saved
        → (r.leds ≡ (stop kit true w l).leds)
          × (r.active ≡ false)
          × ((stop kit true w l).active ≡ false)
          × (r.file ≡ none)
  recover_same ms leds v w clean h readable back =
      let l = run ms (new kit none leds) in
      let c =
        run-IsCovered ms (new kit none leds) clean
          (record { on = λ a. absurd (ground arith); off = λ _ b same. absurd (ground arith) }) in
      elim (Bool-cases l.active) [
        | inl on ↦
            let same = clear_persisted-same w (record l {
              saved = [];
              timer = none;
              active = false;
              ends_at = none;
              leds = restore_all kit l.saved l.leds;
            }) in
            rw
              (
                recover_stale-some v (new kit l.file l.leds) (kit.encode l.saved) l.saved h readable
                    (c.on on) back,
                stop_on w l on,
              )
              (sym same.0, refl, same.1, refl)
        | inr off ↦
            rw
              (
                recover_stale-blank v (new kit l.file l.leds) h readable (c.off off),
                stop_off w l off,
              )
              (refl, refl, off, refl)
      ]

  recover_leds :
      (ms : List Move) (leds : Leds) (v : Calls)
      → All IsCleanMove ms
      → v.removed ≡ true
      → v.read_ok ≡ true
      → let l = run ms (new kit none leds) in
        let r = (recover_stale kit true v (new kit l.file l.leds)).0 in
        kit.decode (kit.encode l.saved) ≡ some l.saved
        → ((l.active ≡ true) → r.leds ≡ restore_all kit l.saved l.leds)
          × ((l.active ≡ false) → r.leds ≡ l.leds)
  recover_leds ms leds v clean h readable back =
      let l = run ms (new kit none leds) in
      let c =
        run-IsCovered ms (new kit none leds) clean
          (record { on = λ a. absurd (ground arith); off = λ _ b same. absurd (ground arith) }) in
      (
        λ on.
            ap (λ r. r.0.leds)
              (recover_stale-some v (new kit l.file l.leds) (kit.encode l.saved) l.saved h readable
                (c.on on) back),
        λ off.
            ap (λ (x : Locator kit). x.leds)
              (recover_stale-blank v (new kit l.file l.leds) h readable (c.off off)),
      )

  pub recover_stale-stop :
      (value : Bytes → Bytes → Leds → Bytes) (laws : Laws kit value) (ms : List Move) (leds : Leds)
      (v w : Calls)
      → All IsCleanMove ms
      → v.removed ≡ true
      → v.read_ok ≡ true
      → let l = run ms (new kit none leds) in
        let r = (recover_stale kit true v (new kit l.file l.leds)).0 in
        kit.decode (kit.encode l.saved) ≡ some l.saved
        → HasNames l.saved
        → All (IsProper kit) l.saved
        → (r.leds ≡ (stop kit true w l).leds)
          × (if l.active
              then All (λ s. IsBack kit value laws s r.leds) l.saved
              else r.leds ≡ l.leds)
          × (r.active ≡ false)
          × ((stop kit true w l).active ≡ false)
          × (r.file ≡ none)
  recover_stale-stop value laws ms leds v w clean h readable back apart proper =
      let l = run ms (new kit none leds) in
      let (same, quiet, stopped, gone) = recover_same ms leds v w clean h readable back in
      let (on_leds, off_leds) = recover_leds ms leds v clean h readable back in
      let r = (recover_stale kit true v (new kit l.file l.leds)).0 in
      (
        same,
        either l.active (All (λ s. IsBack kit value laws s r.leds) l.saved) (r.leds ≡ l.leds)
            (λ on.
              subst (λ d. All (λ s. IsBack kit value laws s d) l.saved) (sym (on_leds on))
                (restore_all-IsBack kit value laws l.saved l.leds apart proper))
            off_leds,
        quiet,
        stopped,
        gone,
      )
    where
      either : (b : Bool) (P Q : Type 0) → (b ≡ true → P) → (b ≡ false → Q) → if b then P else Q
      either true P Q p q = p refl
      either false P Q p q = q refl
