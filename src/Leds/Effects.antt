-- ===== src/Leds/Effects.antt =====
-- internal/leds/leds.go: what `restoreOne` leaves in the files of an LED.
use perch_apd.Base.{
  Bool, true, false, not, ◌&&◌, List, [], ◌∷◌, ◌≡◌, refl, sym, ap, ◌∙◌, arith, ◌==◌, bytes_eq,
  if◌then◌else◌, Bytes, codes, All, any, if-both, if-cases, inl, inr, Bool-cases, beq_self, subst,
  bytes_beq,
}
use perch_apd.Base.Sort.{sort, insert}
use perch_apd.Leds.{LedState, Sysfs, by_name, write_attrs, restore_one, restore_all}

abbrev Pairs : Type 0
Pairs = List (Bytes × Bytes)

-- What is in a file that held `v`, behind these writes.
abbrev last : Bytes → Pairs → Bytes → Bytes
last n [] v = v
last n ((m, w) ∷ ps) v = last n ps (if m == n then w else v)

abbrev has : Bytes → Pairs → Bool
has n ps = any (λ (p : Bytes × Bytes). p.0 == n) ps

-- No file twice.
abbrev pub AllApart : Pairs → Type 0
AllApart [] = Unit
AllApart ((n, v) ∷ ps) = (has n ps ≡ false) × AllApart ps

has-insert :
    (n : Bytes) (p : Bytes × Bytes) (ps : Pairs) → has n (insert by_name p ps) ≡ has n (p ∷ ps)
unfolding insert
has-insert n p [] = refl
has-insert n p (q ∷ ps) = ground (arith, has-insert n p ps)

last-insert :
    (n : Bytes) (p : Bytes × Bytes) (ps : Pairs) (v : Bytes)
    → has p.0 ps ≡ false
    → last n (insert by_name p ps) v ≡ last n (p ∷ ps) v
unfolding insert
last-insert n p [] v h = refl
last-insert n p (q ∷ ps) v h =
    if-both (λ l. last n l v ≡ last n (p ∷ q ∷ ps) v) (p ∷ q ∷ ps) (q ∷ insert by_name p ps)
      (by_name p q) refl
      (last-insert n p ps (if q.0 == n then q.1 else v) (ground arith) ∙ ap (last n ps) swapped)
  where
    swapped :
        (if p.0 == n then p.1 else if q.0 == n then q.1 else v)
        ≡ (if q.0 == n then q.1 else if p.0 == n then p.1 else v)
    swapped =
        ground (arith, bytes_eq.beq_iff q.0 p.0, bytes_eq.beq_iff p.0 n, bytes_eq.beq_iff q.0 n, h)

has-sort : (n : Bytes) (ps : Pairs) → has n (sort by_name ps) ≡ has n ps
unfolding sort
has-sort n [] = refl
has-sort n (p ∷ ps) = has-insert n p (sort by_name ps) ∙ ground (arith, has-sort n ps)

-- The order of the writes does not matter.
last-sort :
    (n : Bytes) (ps : Pairs) (v : Bytes) → AllApart ps → last n (sort by_name ps) v ≡ last n ps v
unfolding sort
last-sort n [] v h = refl
last-sort n (p ∷ ps) v h =
    last-insert n p (sort by_name ps) v (has-sort p.0 ps ∙ h.0)
    ∙ last-sort n ps (if p.0 == n then p.1 else v) h.1

last_kept : (n : Bytes) (ps : Pairs) (v : Bytes) → has n ps ≡ false → last n ps v ≡ v
last_kept n [] v h = refl
last_kept n (p ∷ ps) v h =
    ap (last n ps) (if-same p v (ground arith)) ∙ last_kept n ps v (ground arith)
  where
    if-same :
        (p : Bytes × Bytes) (v : Bytes) → (p.0 == n) ≡ false → (if p.0 == n then p.1 else v) ≡ v
    if-same p v e = ground arith

brightness_apart : (codes "brightness" == codes "trigger") ≡ false
unfolding bytes_beq
brightness_apart = refl

-- No LED twice.
abbrev pub HasNames : List LedState → Type 0
HasNames [] = Unit
HasNames (s ∷ ss) = (any (λ (t : LedState). t.name == s.name) ss ≡ false) × HasNames ss

-- Each file holds the last write to it.
last-All :
    (ps : Pairs) (start : Bytes → Bytes)
    → AllApart ps
    → All (λ (p : Bytes × Bytes). last p.0 ps (start p.0) ≡ p.1) ps
last-All [] start h = tt
last-All (p ∷ ps) start h = (
  ap (last p.0 ps) (if-self p.0 p.1 (start p.0)) ∙ last_kept p.0 ps p.1 h.0,
  behind ps (last-All ps start h.1) h.0,
)
  where
    if-self : (n w v : Bytes) → (if n == n then w else v) ≡ w
    if-self n w v = ground (arith, beq_self n)

    one :
        (q : Bytes × Bytes) (qs : Pairs)
        → (q.0 == p.0) ≡ false
        → last q.0 qs (start q.0) ≡ q.1
        → last q.0 qs (if p.0 == q.0 then p.1 else start q.0) ≡ q.1
    one q qs other e = ap (last q.0 qs) (apart q other) ∙ e
      where
        apart :
            (q : Bytes × Bytes)
            → (q.0 == p.0) ≡ false
            → (if p.0 == q.0 then p.1 else start q.0) ≡ start q.0
        apart q other = ground (arith, bytes_eq.beq_iff p.0 q.0, bytes_eq.beq_iff q.0 p.0)

    behind :
        (qs : Pairs)
        → All (λ (q : Bytes × Bytes). last q.0 ps (start q.0) ≡ q.1) qs
        → has p.0 qs ≡ false
        → All (λ (q : Bytes × Bytes). last q.0 ps (if p.0 == q.0 then p.1 else start q.0) ≡ q.1) qs
    behind [] h away = tt
    behind (q ∷ qs) h away = (one q ps (ground arith) h.0, behind qs h.1 (ground arith))

module _ (kit : Sysfs) where
  open kit use {Leds, write}

  -- What the kernel documents of an LED's files: a write sets its file and leaves other LEDs alone; other
  -- files of the LED may change behind a write to the trigger, and the trigger behind one to the
  -- brightness, but a trigger that is `none` stays.
  pub record Laws (value : Bytes → Bytes → Leds → Bytes) : Type 0 where
    pub written : (led f v : Bytes) (d : Leds) → value led f (write led f v d).0 ≡ v
    pub other_led :
        (led other f g v : Bytes) (d : Leds)
        → (led == other) ≡ false
        → value other f (write led g v d).0 ≡ value other f d
    pub other_file :
        (led f g v : Bytes) (d : Leds)
        → (g == f) ≡ false
        → (g == codes "trigger") ≡ false
        → (g == codes "brightness" && f == codes "trigger") ≡ false
        → value led f (write led g v d).0 ≡ value led f d
    pub stays_none :
        (led v : Bytes) (d : Leds)
        → value led (codes "trigger") d ≡ codes "none"
        → value led (codes "trigger") (write led (codes "brightness") v d).0 ≡ codes "none"

  -- The settings of a trigger are in files of their own.
  pub record IsProper (s : LedState) : Type 0 where
    pub apart : AllApart s.attrs
    pub no_trigger : has (codes "trigger") s.attrs ≡ false
    pub no_brightness : has (codes "brightness") s.attrs ≡ false

  module _ (value : Bytes → Bytes → Leds → Bytes) (laws : Laws value) where
    -- The LED is as the state says: its trigger, the trigger's settings, and the brightness of an LED
    -- that has no trigger.
    pub record IsBack (s : LedState) (d : Leds) : Type 0 where
      pub trigger : value s.name (codes "trigger") d ≡ s.trigger
      pub attrs : All (λ (p : Bytes × Bytes). value s.name p.0 d ≡ p.1) s.attrs
      pub brightness :
          if s.trigger == codes "none" && not (s.brightness == [])
          then value s.name (codes "brightness") d ≡ s.brightness
          else Unit

    write_attrs-last :
        (led f : Bytes) (ps : Pairs) (d : Leds)
        → has (codes "trigger") ps ≡ false
        → has (codes "brightness") ps ≡ false
        → value led f (write_attrs kit led ps d) ≡ last f ps (value led f d)
    unfolding write_attrs
    write_attrs-last led f [] d t b = refl
    write_attrs-last led f ((g, v) ∷ ps) d t b =
        write_attrs-last led f ps (write led g v d).0 (ground arith) (ground arith)
        ∙ ap (last f ps) (elim (Bool-cases (g == f)) [
          | inl same ↦ at_file ((bytes_eq.beq_iff g f).0 same) same
          | inr other ↦
              laws.other_file led f g v d other (ground arith) (ground arith) ∙ sym (rw other refl)
        ])
      where
        at_file :
            g ≡ f
            → (g == f) ≡ true
            → value led f (write led g v d).0 ≡ (if g == f then v else value led f d)
        at_file e same =
            rw same (subst (λ x. value led x (write led g v d).0 ≡ v) e (laws.written led g v d))

    -- A value that every write of the restoration leaves, but for the last one to the brightness.
    settled : LedState → Leds → Leds
    settled s d =
        write_attrs kit s.name (sort by_name s.attrs) (write s.name (codes "trigger") s.trigger d).0

    settled-last :
        (s : LedState) (f : Bytes) (d : Leds)
        → IsProper s
        → value s.name f (settled s d)
          ≡ last f s.attrs (value s.name f (write s.name (codes "trigger") s.trigger d).0)
    unfolding settled
    settled-last s f d h =
        write_attrs-last s.name f (sort by_name s.attrs) _
          (has-sort (codes "trigger") s.attrs ∙ h.no_trigger)
          (has-sort (codes "brightness") s.attrs ∙ h.no_brightness)
        ∙ last-sort f s.attrs _ h.apart

    settled-trigger :
        (s : LedState) (d : Leds)
        → IsProper s
        → value s.name (codes "trigger") (settled s d) ≡ s.trigger
    settled-trigger s d h =
        settled-last s (codes "trigger") d h
        ∙ last_kept (codes "trigger") s.attrs _ h.no_trigger
        ∙ laws.written s.name (codes "trigger") s.trigger d

    settled-attrs :
        (s : LedState) (d : Leds)
        → IsProper s
        → All (λ (p : Bytes × Bytes). value s.name p.0 (settled s d) ≡ p.1) s.attrs
    settled-attrs s d h =
        All-map s.attrs (λ p e. settled-last s p.0 d h ∙ e)
          (last-All s.attrs (λ f. value s.name f (write s.name (codes "trigger") s.trigger d).0)
            h.apart)
      where
        All-map :
            {P Q : Bytes × Bytes → Type 0} (ps : Pairs)
            → ((p : Bytes × Bytes) → P p → Q p)
            → All P ps
            → All Q ps
        All-map [] g h = tt
        All-map (p ∷ ps) g h = (g p h.0, All-map ps g h.1)

    restore_one-IsBack : (s : LedState) (d : Leds) → IsProper s → IsBack s (restore_one kit s d)
    unfolding restore_one settled
    restore_one-IsBack s d h =
        if-cases (IsBack s) (write s.name (codes "brightness") s.brightness (settled s d)).0
          (settled s d) (s.trigger == codes "none" && not (s.brightness == []))
          (λ lit.
            let off : s.trigger ≡ codes "none" =
              (bytes_eq.beq_iff s.trigger (codes "none")).0 (ground arith) in
            record {
              trigger =
                  laws.stays_none s.name s.brightness (settled s d) (settled-trigger s d h ∙ off)
                  ∙ sym off;
              attrs = All-other s d h.no_brightness h.no_trigger (settled-attrs s d h);
              brightness =
                  rw lit (laws.written s.name (codes "brightness") s.brightness (settled s d));
            })
          (λ dark. record {
            trigger = settled-trigger s d h;
            attrs = settled-attrs s d h;
            brightness = rw dark tt;
          })
      where
        at_attr :
            (f v : Bytes) (s : LedState) (d : Leds)
            → (f == codes "brightness") ≡ false
            → (f == codes "trigger") ≡ false
            → value s.name f (settled s d) ≡ v
            → value s.name f (write s.name (codes "brightness") s.brightness (settled s d)).0 ≡ v
        at_attr f v s d b t e =
            laws.other_file s.name f (codes "brightness") s.brightness (settled s d)
              (ground (
                arith,
                bytes_eq.beq_iff (codes "brightness") f,
                bytes_eq.beq_iff f (codes "brightness"),
              ))
              brightness_apart (ground arith)
            ∙ e

        All_other :
            (ps : Pairs) (s : LedState) (d : Leds)
            → has (codes "brightness") ps ≡ false
            → has (codes "trigger") ps ≡ false
            → All (λ (p : Bytes × Bytes). value s.name p.0 (settled s d) ≡ p.1) ps
            → All
                (λ (p : Bytes × Bytes).
                  value s.name p.0 (write s.name (codes "brightness") s.brightness (settled s d)).0
                  ≡ p.1)
                ps
        All_other [] s d b t h = tt
        All_other (p ∷ ps) s d b t h = (
          at_attr p.0 p.1 s d (ground arith) (ground arith) h.0,
          All_other ps s d (ground arith) (ground arith) h.1,
        )

        All-other :
            (s : LedState) (d : Leds)
            → has (codes "brightness") s.attrs ≡ false
            → has (codes "trigger") s.attrs ≡ false
            → All (λ (p : Bytes × Bytes). value s.name p.0 (settled s d) ≡ p.1) s.attrs
            → All
                (λ (p : Bytes × Bytes).
                  value s.name p.0 (write s.name (codes "brightness") s.brightness (settled s d)).0
                  ≡ p.1)
                s.attrs
        All-other s d = All_other s.attrs s d

    write_attrs-other :
        (led other f : Bytes) (ps : Pairs) (d : Leds)
        → (led == other) ≡ false
        → value other f (write_attrs kit led ps d) ≡ value other f d
    unfolding write_attrs
    write_attrs-other led other f [] d apart = refl
    write_attrs-other led other f ((g, v) ∷ ps) d apart =
        write_attrs-other led other f ps (write led g v d).0 apart
        ∙ laws.other_led led other f g v d apart

    -- Another LED's files are left alone.
    restore_one-other :
        (s : LedState) (other f : Bytes) (d : Leds)
        → (s.name == other) ≡ false
        → value other f (restore_one kit s d) ≡ value other f d
    unfolding restore_one settled
    restore_one-other s other f d apart =
        let before : value other f (settled s d) ≡ value other f d =
          write_attrs-other s.name other f (sort by_name s.attrs) _ apart
          ∙ laws.other_led s.name other f (codes "trigger") s.trigger d apart in
        if-both (λ e. value other f e ≡ value other f d)
          (write s.name (codes "brightness") s.brightness (settled s d)).0 (settled s d)
          (s.trigger == codes "none" && not (s.brightness == []))
          (laws.other_led s.name other f (codes "brightness") s.brightness (settled s d) apart
            ∙ before)
          before

    restore_all-other :
        (ss : List LedState) (other f : Bytes) (d : Leds)
        → any (λ (t : LedState). t.name == other) ss ≡ false
        → value other f (restore_all kit ss d) ≡ value other f d
    unfolding restore_all
    restore_all-other [] other f d apart = refl
    restore_all-other (s ∷ ss) other f d apart =
        restore_all-other ss other f (restore_one kit s d) (ground arith)
        ∙ restore_one-other s other f d (ground arith)

    IsBack-same :
        (s : LedState) (d e : Leds)
        → ((f : Bytes) → value s.name f e ≡ value s.name f d)
        → IsBack s d
        → IsBack s e
    IsBack-same s d e same b = record {
      trigger = same (codes "trigger") ∙ b.trigger;
      attrs = all_attrs s.attrs b.attrs;
      brightness = lit (s.trigger == codes "none" && not (s.brightness == [])) b.brightness;
    }
      where
        all_attrs :
            (ps : Pairs)
            → All (λ (p : Bytes × Bytes). value s.name p.0 d ≡ p.1) ps
            → All (λ (p : Bytes × Bytes). value s.name p.0 e ≡ p.1) ps
        all_attrs [] h = tt
        all_attrs (p ∷ ps) h = (same p.0 ∙ h.0, all_attrs ps h.1)

        lit :
            (b : Bool)
            → (if b then value s.name (codes "brightness") d ≡ s.brightness else Unit)
            → (if b then value s.name (codes "brightness") e ≡ s.brightness else Unit)
        lit true h = same (codes "brightness") ∙ h
        lit false h = tt

    -- Every LED of the list is as its state says.
    pub restore_all-IsBack :
        (ss : List LedState) (d : Leds)
        → HasNames ss
        → All IsProper ss
        → All (λ s. IsBack s (restore_all kit ss d)) ss
    unfolding restore_all
    restore_all-IsBack [] d apart proper = tt
    restore_all-IsBack (s ∷ ss) d apart proper = (
      IsBack-same s (restore_one kit s d) _
          (λ f. restore_all-other ss s.name f (restore_one kit s d) apart.0)
          (restore_one-IsBack s d proper.0),
      restore_all-IsBack ss (restore_one kit s d) apart.1 proper.1,
    )
