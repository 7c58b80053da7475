-- ===== src/Nl80211/Bands/Cut.antt =====
-- internal/nl80211/wiphy.go: the bands of a radio that come in several messages.
use mathlib.Core.Path.{fun_ext}
use perch_apd.Base.{
  ℕ, Bool, true, false, Option, none, some, List, [], ◌∷◌, ◌++◌, ◌≡◌, ◌⊎◌, refl, sym, ap, ◌∙◌,
  append_assoc, append-nil, arith, ◌==◌, nat_eq, ltb, Bytes, inl, inr, Bool-cases, Option-cases,
}
use perch_apd.Nl80211.{Attr, Decoder, run_attrs, fold_attrs}
use perch_apd.Nl80211.Radio.{WiphyFreq, WiphyBand}
use perch_apd.Nl80211.Bands.{
  freq_attr, no_freq, freqs_attr, parse_freqs, iftype_attr, parse_iftype_data, band_attr, no_band,
  change_band, bands_attr, parse_bands,
}

abbrev pub bind {ℓ κ} : {A : Type ℓ} {B : Type κ} → Option A → (A → Option B) → Option B
bind o f = elim o [ none ↦ none | some a ↦ f a ]

-- A handler reads a list as it reads the two parts after each other.
abbrev pub Splits {ℓ} :
    {S : Type ℓ} → (List Attr → S → Option S) → List Attr → List Attr → List Attr → Type ℓ
Splits {S = S} run w f s = (st : S) → run w st ≡ bind (run f st) (run s)

pub run_attrs-append {ℓ} :
    {S : Type ℓ} (f : Attr → S → Option S) (xs ys : List Attr) (s : S)
    → run_attrs f (xs ++ ys) s ≡ bind (run_attrs f xs s) (run_attrs f ys)
run_attrs-append f [] ys s = refl
run_attrs-append f (x ∷ xs) ys s = elim (Option-cases (f x s)) [
  | inl bad ↦ rw (bad, run_attrs) refl
  | inr (s', good) ↦ rw (good, run_attrs) (run_attrs-append f xs ys s')
]

-- An attribute that is cut in the middle of a list.
pub run_attrs-cut {ℓ} :
    {S : Type ℓ} (f : Attr → S → Option S) (xs ys : List Attr) (a b c : Attr)
    → ((s : S) → f a s ≡ bind (f b s) (f c))
    → Splits (run_attrs f) (xs ++ a ∷ ys) (xs ++ b ∷ []) (c ∷ ys)
run_attrs-cut f [] ys a b c h s = elim (Option-cases (f b s)) [
  | inl bad ↦ rw (h s, bad, run_attrs) refl
  | inr (s', good) ↦ rw (h s, good, run_attrs) refl
]
run_attrs-cut f (x ∷ xs) ys a b c h s = elim (Option-cases (f x s)) [
  | inl bad ↦ rw (bad, run_attrs) refl
  | inr (s', good) ↦ rw (good, run_attrs) (run_attrs-cut f xs ys a b c h s')
]

abbrev KeepsBand : (WiphyBand → Option WiphyBand) → Type 0
KeepsBand f = (b b' : WiphyBand) → f b ≡ some b' → b'.band ≡ b.band

module _ (decode : Decoder) where
  -- Attributes cut in two: between two of them, or inside one whose type passes, whose own attributes are
  -- cut in the same way as deep as there are tests.
  abbrev pub IsCut : List (ℕ → Bool) → List Attr → List Attr → List Attr → Type 0
  IsCut [] w f s = w ≡ f ++ s
  IsCut (inside ∷ deeper) w f s =
      (w ≡ f ++ s)
      ⊎ ((xs : List Attr) × (ys : List Attr) × (t : ℕ) × (v : Bytes) × (v1 : Bytes) × (v2 : Bytes)
          × (c : List Attr) × (c1 : List Attr) × (c2 : List Attr) × (inside t ≡ true)
          × (w ≡ xs ++ (t, v) ∷ ys)
          × (f ≡ xs ++ (t, v1) ∷ [])
          × (s ≡ (t, v2) ∷ ys)
          × (decode v ≡ some (c, true))
          × (decode v1 ≡ some (c1, true))
          × (decode v2 ≡ some (c2, true))
          × IsCut deeper c c1 c2)

  -- A handler that reads a cut attribute as it reads the two parts.
  abbrev pub ReadsCut {ℓ} :
      {S : Type ℓ} → (ℕ → Bool) → List (ℕ → Bool) → (Attr → S → Option S) → Type ℓ
  ReadsCut {S = S} inside deeper h =
      (t : ℕ) (v v1 v2 : Bytes) (c c1 c2 : List Attr)
      → inside t ≡ true
      → decode v ≡ some (c, true)
      → decode v1 ≡ some (c1, true)
      → decode v2 ≡ some (c2, true)
      → IsCut deeper c c1 c2
      → (s : S) → h (t, v) s ≡ bind (h (t, v1) s) (h (t, v2))

  pub IsCut-Splits {ℓ} :
      {S : Type ℓ} (h : Attr → S → Option S) (inside : ℕ → Bool) (deeper : List (ℕ → Bool))
      → ReadsCut inside deeper h
      → (w f s : List Attr) → IsCut (inside ∷ deeper) w f s
      → Splits (run_attrs h) w f s
  IsCut-Splits h inside deeper reads w f s (inl between) st =
      ap (λ l. run_attrs h l st) between ∙ run_attrs-append h f s st
  IsCut-Splits h inside deeper reads w f s
        (inr (xs, ys, t, v, v1, v2, c, c1, c2, passes, is_w, is_f, is_s, d, d1, d2, cut)) st =
      rw (is_w, is_f, is_s)
        (run_attrs-cut h xs ys (t, v) (t, v1) (t, v2) (reads t v v1 v2 c c1 c2 passes d d1 d2 cut)
          st)

  fold_attrs-Splits {ℓ} :
      {S : Type ℓ} (h : Attr → S → Option S) (v v1 v2 : Bytes) (c c1 c2 : List Attr)
      → decode v ≡ some (c, true)
      → decode v1 ≡ some (c1, true)
      → decode v2 ≡ some (c2, true)
      → Splits (run_attrs h) c c1 c2
      → (s : S) → fold_attrs decode h v s ≡ bind (fold_attrs decode h v1 s) (fold_attrs decode h v2)
  unfolding fold_attrs
  fold_attrs-Splits h v v1 v2 c c1 c2 d d1 d2 splits s = rw (fold_attrs, d, d1, d2) (splits s)

-- The bands of a radio: the entries of the channels are cut inside a band's list of channels, which is
-- the attribute 1.
abbrev pub any_type : ℕ → Bool
any_type t = true

abbrev pub is_freqs : ℕ → Bool
is_freqs t = t == 1

change_band_twice :
    (decode : Decoder) (is_big : Bool) (i : ℕ) (f g : WiphyBand → Option WiphyBand)
    (bs : List WiphyBand)
    → KeepsBand f
    → change_band decode is_big i (λ b. bind (f b) g) bs
      ≡ bind (change_band decode is_big i f bs) (change_band decode is_big i g)
unfolding change_band
change_band_twice decode is_big i f g [] keeps = elim (Option-cases (f (no_band decode is_big i))) [
  | inl bad ↦ rw (change_band, bad) refl
  | inr (b, good) ↦
      let same : (b.band == i) ≡ true =
        ground (arith, keeps (no_band decode is_big i) b good, nat_eq.beq_iff b.band i) in
      rw (good, change_band) (rw (same, change_band) refl)
]
change_band_twice decode is_big i f g (b ∷ bs) keeps = elim (Bool-cases (b.band == i)) [
  | inl here ↦ elim (Option-cases (f b)) [
    | inl bad ↦ rw (here, bad, change_band) refl
    | inr (b', good) ↦
        let same : (b'.band == i) ≡ true = ground (arith, keeps b b' good) in
        rw (here, good, change_band) (rw (same, change_band) refl)
  ]
  | inr other ↦ elim (Option-cases (change_band decode is_big i f bs)) [
    | inl bad ↦ ground (arith, change_band_twice decode is_big i f g bs keeps)
    | inr (bs', good) ↦ ground (arith, change_band_twice decode is_big i f g bs keeps)
  ]
]

module _ (decode : Decoder) (is_big : Bool) where
  abbrev prepend : List WiphyFreq → Option (List WiphyFreq) → Option (List WiphyFreq)
  prepend out o = elim o [ none ↦ none | some fs ↦ some (out ++ fs) ]

  -- The channels are appended to those before.
  freqs_attr-prepend :
      (a : Attr) (out fs : List WiphyFreq)
      → freqs_attr decode is_big a (out ++ fs) ≡ prepend out (freqs_attr decode is_big a fs)
  unfolding freqs_attr
  freqs_attr-prepend (t, v) out fs =
      elim (Option-cases (fold_attrs decode (freq_attr decode is_big) v (no_freq decode is_big))) [
        | inl bad ↦ rw (freqs_attr, bad) refl
        | inr (f, good) ↦ elim (Bool-cases (ltb 0 f.mhz)) [
          | inl kept ↦ rw (freqs_attr, good, kept) (ap (λ l. some l) (append_assoc out fs (f ∷ [])))
          | inr left ↦ rw (freqs_attr, good, left) refl
        ]
      ]

  run_freqs-prepend :
      (as' : List Attr) (out fs : List WiphyFreq)
      → run_attrs (freqs_attr decode is_big) as' (out ++ fs)
        ≡ prepend out (run_attrs (freqs_attr decode is_big) as' fs)
  run_freqs-prepend [] out fs = refl
  run_freqs-prepend (a ∷ as') out fs = elim (Option-cases (freqs_attr decode is_big a fs)) [
    | inl bad ↦ rw (run_attrs, freqs_attr-prepend a out fs, bad) refl
    | inr (gs, good) ↦
        rw (run_attrs, freqs_attr-prepend a out fs, good) (run_freqs-prepend as' out gs)
  ]

  parse_freqs-cut :
      (v v1 v2 : Bytes) (c c1 c2 : List Attr)
      → decode v ≡ some (c, true)
      → decode v1 ≡ some (c1, true)
      → decode v2 ≡ some (c2, true)
      → c ≡ c1 ++ c2
      → parse_freqs decode is_big v
        ≡ bind (parse_freqs decode is_big v1) (λ fs. prepend fs (parse_freqs decode is_big v2))
  unfolding parse_freqs
  parse_freqs-cut v v1 v2 c c1 c2 d d1 d2 between =
      let whole =
        fold_attrs-Splits decode (freqs_attr decode is_big) v v1 v2 c c1 c2 d d1 d2
          (λ st.
            ap (λ l. run_attrs (freqs_attr decode is_big) l st) between
            ∙ run_attrs-append (freqs_attr decode is_big) c1 c2 st)
          [] in
      elim (Option-cases (fold_attrs decode (freqs_attr decode is_big) v1 [])) [
        | inl bad ↦ whole ∙ rw bad refl
        | inr (fs, good) ↦ whole ∙ rw good (from_here fs)
      ]
    where
      from_here :
          (fs : List WiphyFreq)
          → fold_attrs decode (freqs_attr decode is_big) v2 fs
            ≡ prepend fs (fold_attrs decode (freqs_attr decode is_big) v2 [])
      from_here fs =
          rw (fold_attrs, d2)
            (ap (run_attrs (freqs_attr decode is_big) c2) (sym (append-nil fs))
              ∙ run_freqs-prepend c2 fs [])

  -- A band reads its list of channels in two parts as it reads it whole.
  band_attr-ReadsCut : ReadsCut decode is_freqs [] (band_attr decode is_big)
  unfolding band_attr
  band_attr-ReadsCut t v v1 v2 c c1 c2 passes d d1 d2 between b =
      let is : t ≡ 1 = (nat_eq.beq_iff t 1).0 passes in
      let both = parse_freqs-cut v v1 v2 c c1 c2 d d1 d2 between in
      rw is (elim (Option-cases (parse_freqs decode is_big v1)) [
        | inl bad ↦ rw (both, bad) refl
        | inr (fs, good) ↦ elim (Option-cases (parse_freqs decode is_big v2)) [
          | inl lost ↦ rw (both, good, lost) refl
          | inr (gs, fine) ↦
              rw (both, good, fine)
                (ap (λ (l : List WiphyFreq). some (record b { freqs = l }))
                  (sym (append_assoc b.freqs fs gs)))
        ]
      ])

  fold_KeepsBand :
      (h : Attr → WiphyBand → Option WiphyBand)
      → ((a : Attr) → KeepsBand (h a))
      → (as' : List Attr) → KeepsBand (run_attrs h as')
  fold_KeepsBand h keeps [] b b' e = ground arith
  fold_KeepsBand h keeps (a ∷ as') b b' e = elim (Option-cases (h a b)) [
    | inl bad ↦ absurd (ground arith)
    | inr (b1, good) ↦ fold_KeepsBand h keeps as' b1 b' (ground arith) ∙ keeps a b b1 good
  ]

  fold_attrs-KeepsBand :
      (h : Attr → WiphyBand → Option WiphyBand)
      → ((a : Attr) → KeepsBand (h a))
      → (v : Bytes) → KeepsBand (fold_attrs decode h v)
  unfolding fold_attrs
  fold_attrs-KeepsBand h keeps v b b' e = elim (Option-cases (decode v)) [
    | inl bad ↦ absurd (ground arith)
    | inr ((c, true), good) ↦ fold_KeepsBand h keeps c b b' (ground arith)
    | inr ((c, false), good) ↦ absurd (ground arith)
  ]

  iftype_attr-KeepsBand : (a : Attr) → KeepsBand (iftype_attr decode is_big a)
  unfolding iftype_attr
  iftype_attr-KeepsBand (t, []) b b' e = ground arith
  iftype_attr-KeepsBand (t, c ∷ v) b b' e = ground arith

  band_attr-KeepsBand : (a : Attr) → KeepsBand (band_attr decode is_big a)
  unfolding band_attr parse_iftype_data
  band_attr-KeepsBand (t, v) b b' e = ground (
    arith,
    fold_attrs-KeepsBand (λ a. fold_attrs decode (iftype_attr decode is_big) a.1)
        (λ a. fold_attrs-KeepsBand (iftype_attr decode is_big) iftype_attr-KeepsBand a.1) v b b',
  )

  -- The entry of a band in two parts.
  bands_attr-ReadsCut : ReadsCut decode any_type (is_freqs ∷ []) (bands_attr decode is_big)
  unfolding bands_attr
  bands_attr-ReadsCut t v v1 v2 c c1 c2 passes d d1 d2 cut acc =
      let splits = fold_attrs-Splits decode (band_attr decode is_big) v v1 v2 c c1 c2 d d1 d2 (
        IsCut-Splits decode (band_attr decode is_big) is_freqs [] band_attr-ReadsCut c c1 c2 cut) in
      ap (λ f. change_band decode is_big t f acc) (fun_ext splits)
      ∙ change_band_twice decode is_big t (fold_attrs decode (band_attr decode is_big) v1)
          (fold_attrs decode (band_attr decode is_big) v2) acc
          (fold_attrs-KeepsBand (band_attr decode is_big) band_attr-KeepsBand v1)

  -- The bands of a radio in two parts: between bands, between the attributes of a band, or between its
  -- channels.
  pub parse_bands-cut :
      (v v1 v2 : Bytes) (c c1 c2 : List Attr)
      → decode v ≡ some (c, true)
      → decode v1 ≡ some (c1, true)
      → decode v2 ≡ some (c2, true)
      → IsCut decode (any_type ∷ is_freqs ∷ []) c c1 c2
      → (bs : List WiphyBand)
      → parse_bands decode is_big v bs
        ≡ bind (parse_bands decode is_big v1 bs) (parse_bands decode is_big v2)
  unfolding parse_bands
  parse_bands-cut v v1 v2 c c1 c2 d d1 d2 cut =
      fold_attrs-Splits decode (bands_attr decode is_big) v v1 v2 c c1 c2 d d1 d2 (
        IsCut-Splits decode (bands_attr decode is_big) any_type (is_freqs ∷ []) bands_attr-ReadsCut
          c c1 c2 cut)
