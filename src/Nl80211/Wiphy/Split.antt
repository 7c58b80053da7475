-- ===== src/Nl80211/Wiphy/Split.antt =====
-- internal/nl80211/wiphy.go: a dump may be split anywhere.
use mathlib.Core.Path.{fun_ext}
use perch_apd.Base.{
  ℕ, Bool, true, false, not, Option, none, some, List, [], ◌∷◌, ◌++◌, ◌≡◌, refl, sym, ap, ◌∙◌,
  append-nil, append_assoc, arith, ◌==◌, nat_eq, bytes_eq, Bytes, all, inl, inr, Bool-cases,
  Option-cases, if-cases,
}
use perch_apd.Nl80211.{Attr, Decoder, run_attrs, u32}
use perch_apd.Nl80211.Bands.{parse_bands}
use perch_apd.Nl80211.Bands.Cut.{
  bind, Splits, IsCut, ReadsCut, IsCut-Splits, any_type, is_freqs, parse_bands-cut,
}
use perch_apd.Nl80211.Radio.{Wiphy, no_wiphy}
use perch_apd.Nl80211.Wiphy.{
  Scan, wiphy_attr, has_wiphy, add_wiphy, scan_attr, scan, change_wiphy, apply_rest, read_message,
  read_messages, parse_wiphys,
}

abbrev KeepsIndex : (Wiphy → Option Wiphy) → Type 0
KeepsIndex f = (w w' : Wiphy) → f w ≡ some w' → w'.index ≡ w.index

change_wiphy_twice :
    (i : ℕ) (f g : Wiphy → Option Wiphy) (ws : List Wiphy)
    → KeepsIndex f
    → change_wiphy i (λ w. bind (f w) g) ws ≡ bind (change_wiphy i f ws) (change_wiphy i g)
unfolding change_wiphy
change_wiphy_twice i f g [] keeps = refl
change_wiphy_twice i f g (w ∷ ws) keeps = elim (Bool-cases (w.index == i)) [
  | inl here ↦ elim (Option-cases (f w)) [
    | inl bad ↦ rw (here, bad, change_wiphy) refl
    | inr (w', good) ↦
        let same : (w'.index == i) ≡ true = ground (arith, keeps w w' good) in
        rw (here, good, change_wiphy) (rw (same, change_wiphy) refl)
  ]
  | inr other ↦ elim (Option-cases (change_wiphy i f ws)) [
    | inl bad ↦ ground (arith, change_wiphy_twice i f g ws keeps)
    | inr (ws', good) ↦ ground (arith, change_wiphy_twice i f g ws keeps)
  ]
]

change_wiphy-has_wiphy :
    (i j : ℕ) (f : Wiphy → Option Wiphy) (ws ws' : List Wiphy)
    → KeepsIndex f
    → change_wiphy i f ws ≡ some ws'
    → has_wiphy j ws' ≡ has_wiphy j ws
unfolding change_wiphy
change_wiphy-has_wiphy i j f [] ws' keeps e = ground arith
change_wiphy-has_wiphy i j f (w ∷ ws) ws' keeps e = elim (Bool-cases (w.index == i)) [
  | inl here ↦ elim (Option-cases (f w)) [
    | inl bad ↦ absurd (ground arith)
    | inr (w', good) ↦
        let is : ws' ≡ w' ∷ ws = ground arith in rw is (ground (arith, keeps w w' good))
  ]
  | inr other ↦ elim (Option-cases (change_wiphy i f ws)) [
    | inl bad ↦ absurd (ground arith)
    | inr (vs, good) ↦
        let is : ws' ≡ w ∷ vs = ground arith in
        rw is (ground (arith, change_wiphy-has_wiphy i j f ws vs keeps good))
  ]
]

module _ (decode : Decoder) (is_big : Bool) where
  wiphy_attr-KeepsIndex : (a : Attr) → KeepsIndex (wiphy_attr decode is_big a)
  unfolding wiphy_attr
  wiphy_attr-KeepsIndex (t, v) w w' e = ground arith

  run_attrs-KeepsIndex : (as' : List Attr) → KeepsIndex (run_attrs (wiphy_attr decode is_big) as')
  run_attrs-KeepsIndex [] w w' e = ground arith
  run_attrs-KeepsIndex (a ∷ as') w w' e = elim (Option-cases (wiphy_attr decode is_big a w)) [
    | inl bad ↦ absurd (ground arith)
    | inr (v, good) ↦
        run_attrs-KeepsIndex as' v w' (ground arith) ∙ wiphy_attr-KeepsIndex a w v good
  ]

  -- No attribute is a wiphy's number.
  abbrev pub NoNumber : List Attr → Type 0
  NoNumber as' = all (λ (a : Attr). not (a.0 == 1)) as' ≡ true

  scan_attr-plain :
      (a : Attr) (s : Scan)
      → (a.0 == 1) ≡ false
      → scan_attr decode is_big a s ≡ record s { rest = s.rest ++ a ∷ [] }
  unfolding scan_attr
  scan_attr-plain (t, v) s h = rw (scan_attr, h) refl

  scan-NoNumber :
      (as' : List Attr) (s : Scan)
      → NoNumber as'
      → scan decode is_big as' s ≡ record s { rest = s.rest ++ as' }
  unfolding scan
  scan-NoNumber [] s h = ap (λ (r : List Attr). record s { rest = r }) (sym (append-nil s.rest))
  scan-NoNumber (a ∷ as') s h =
      ap (scan decode is_big as') (scan_attr-plain a s (ground arith))
      ∙ (scan-NoNumber as' (record s { rest = s.rest ++ a ∷ [] }) (ground arith)
          ∙ ap (λ (r : List Attr). record s { rest = r }) (append_assoc s.rest (a ∷ []) as'))

  abbrev message : Bytes → List Attr → List Attr × Bool
  message v as' = ((1, v) ∷ as', true)

  -- What a message does that begins with its wiphy's number.
  read_message-eq :
      (v : Bytes) (as' : List Attr) (ws : List Wiphy)
      → NoNumber as'
      → read_message decode is_big (message v as') ws
        ≡ change_wiphy
            (u32 is_big v)
            (run_attrs (wiphy_attr decode is_big) as')
            (add_wiphy (u32 is_big v) ws)
  unfolding read_message apply_rest scan scan_attr
  read_message-eq v as' ws h = ap (apply_rest decode is_big) (
      scan-NoNumber as'
        (record { current = some (u32 is_big v); rest = []; wiphys = add_wiphy (u32 is_big v) ws })
        h)

  has_wiphy-append : (i : ℕ) (ws : List Wiphy) → has_wiphy i (ws ++ no_wiphy i ∷ []) ≡ true
  has_wiphy-append i [] = ground arith
  has_wiphy-append i (w ∷ ws) = ground (arith, has_wiphy-append i ws)

  add_wiphy-has_wiphy : (i : ℕ) (ws : List Wiphy) → has_wiphy i (add_wiphy i ws) ≡ true
  unfolding add_wiphy
  add_wiphy-has_wiphy i ws =
      if-cases (λ l. has_wiphy i l ≡ true) ws (ws ++ no_wiphy i ∷ []) (has_wiphy i ws) (λ h. h)
        (λ _. has_wiphy-append i ws)

  add_wiphy-twice : (i : ℕ) (ws : List Wiphy) → has_wiphy i ws ≡ true → add_wiphy i ws ≡ ws
  unfolding add_wiphy
  add_wiphy-twice i ws h = rw (add_wiphy, h) refl

  abbrev pub is_bands : ℕ → Bool
  is_bands t = t == 22

  -- The bands in two parts.
  wiphy_attr-ReadsCut :
      ReadsCut decode is_bands (any_type ∷ is_freqs ∷ []) (wiphy_attr decode is_big)
  unfolding wiphy_attr
  wiphy_attr-ReadsCut t b b1 b2 c c1 c2 passes d d1 d2 cut w =
      let is : t ≡ 22 = (nat_eq.beq_iff t 22).0 passes in
      let both = parse_bands-cut decode is_big b b1 b2 c c1 c2 d d1 d2 cut w.bands in
      rw is (elim (Option-cases (parse_bands decode is_big b1 w.bands)) [
        | inl bad ↦ rw (both, bad) refl
        | inr (bs, good) ↦ rw (both, good) refl
      ])

  -- A radio's attributes cut in two: between two of them, between two bands, between the attributes of a
  -- band, or between its channels.
  abbrev pub IsCutWiphy : List Attr → List Attr → List Attr → Type 0
  IsCutWiphy = IsCut decode (is_bands ∷ any_type ∷ is_freqs ∷ [])

  wiphy_attrs-Splits :
      (zs xs ys : List Attr)
      → IsCutWiphy zs xs ys
      → Splits (run_attrs (wiphy_attr decode is_big)) zs xs ys
  wiphy_attrs-Splits =
      IsCut-Splits decode (wiphy_attr decode is_big) is_bands (any_type ∷ is_freqs ∷ [])
        wiphy_attr-ReadsCut

  read_message-split :
      (v : Bytes) (zs xs ys : List Attr) (ws : List Wiphy)
      → IsCutWiphy zs xs ys
      → NoNumber zs
      → NoNumber xs
      → NoNumber ys
      → read_message decode is_big (message v zs) ws
        ≡ bind
            (read_message decode is_big (message v xs) ws)
            (read_message decode is_big (message v ys))
  read_message-split v zs xs ys ws cut hz hx hy =
      let i = u32 is_big v in
      let f = run_attrs (wiphy_attr decode is_big) xs in
      let g = run_attrs (wiphy_attr decode is_big) ys in
      let start = add_wiphy i ws in
      let whole : read_message decode is_big (message v zs) ws
          ≡ bind (change_wiphy i f start) (change_wiphy i g) =
        read_message-eq v zs ws hz
        ∙ (ap (λ h. change_wiphy i h start) (fun_ext (wiphy_attrs-Splits zs xs ys cut))
            ∙ change_wiphy_twice i f g start (run_attrs-KeepsIndex xs)) in
      elim (Option-cases (change_wiphy i f start)) [
        | inl bad ↦ whole ∙ rw (read_message-eq v xs ws hx, bad) refl
        | inr (ws', good) ↦
            let known : has_wiphy i ws' ≡ true =
              change_wiphy-has_wiphy i i f start ws' (run_attrs-KeepsIndex xs) good
              ∙ add_wiphy-has_wiphy i ws in
            whole
            ∙ rw (read_message-eq v xs ws hx, good)
                (sym (
                  read_message-eq v ys ws' hy
                  ∙ ap (change_wiphy i g) (add_wiphy-twice i ws' known)))
      ]

  read_messages-cons :
      (b : Bytes) (bs : List Bytes) (ws : List Wiphy) (m : List Attr × Bool)
      → decode b ≡ some m
      → read_messages decode is_big (b ∷ bs) ws
        ≡ bind (read_message decode is_big m ws) (read_messages decode is_big bs)
  unfolding read_messages
  read_messages-cons b bs ws m e = rw (read_messages, e) refl

  read_messages-append :
      (front back : List Bytes) (ws : List Wiphy)
      → read_messages decode is_big (front ++ back) ws
        ≡ bind (read_messages decode is_big front ws) (read_messages decode is_big back)
  unfolding read_messages
  read_messages-append [] back ws = refl
  read_messages-append (b ∷ front) back ws = elim (Option-cases (decode b)) [
    | inl bad ↦ rw (read_messages, bad) refl
    | inr (m, good) ↦ elim (Option-cases (read_message decode is_big m ws)) [
      | inl lost ↦ rw (read_messages, good, lost) refl
      | inr (ws', fine) ↦ rw (read_messages, good, fine) (read_messages-append front back ws')
    ]
  ]

  module _ (b b1 b2 v : Bytes) (zs xs ys : List Attr) (cut : IsCutWiphy zs xs ys) (hz : NoNumber zs)
      (hx : NoNumber xs) (hy : NoNumber ys) (whole : decode b ≡ some (message v zs))
      (first : decode b1 ≡ some (message v xs)) (second : decode b2 ≡ some (message v ys)) where
    read_messages-split :
        (back : List Bytes) (ws : List Wiphy)
        → read_messages decode is_big (b ∷ back) ws
          ≡ read_messages decode is_big (b1 ∷ b2 ∷ back) ws
    read_messages-split back ws =
        read_messages-cons b back ws (message v zs) whole
        ∙ (ap (λ o. bind o (read_messages decode is_big back))
              (read_message-split v zs xs ys ws cut hz hx hy)
            ∙ (bind_assoc (read_message decode is_big (message v xs) ws)
                ∙ sym (
                    read_messages-cons b1 (b2 ∷ back) ws (message v xs) first
                    ∙ ap (bind (read_message decode is_big (message v xs) ws))
                        (fun_ext (λ ws'. read_messages-cons b2 back ws' (message v ys) second)))))
      where
        bind_assoc :
            (o : Option (List Wiphy))
            → bind
                (bind o (read_message decode is_big (message v ys)))
                (read_messages decode is_big back)
              ≡ bind o (λ ws'.
                bind
                  (read_message decode is_big (message v ys) ws')
                  (read_messages decode is_big back))
        bind_assoc none = refl
        bind_assoc (some x) = refl

    -- The radios that the parser gives do not depend on how the kernel splits its dump: a message that
    -- begins with its radio's number may be cut into two that begin with it, and the dump is read, or
    -- refused, in the same way. The cut is between two attributes of the radio, between two of its bands,
    -- between two attributes of a band, or between two of a band's channels, whose band is then one band
    -- all the same. No attribute but the first one is a radio's number.
    pub parse_wiphys-split :
        (front back : List Bytes)
        → parse_wiphys decode is_big (front ++ b ∷ back)
          ≡ parse_wiphys decode is_big (front ++ b1 ∷ b2 ∷ back)
    unfolding parse_wiphys
    parse_wiphys-split front back =
        let same : read_messages decode is_big (front ++ b ∷ back) []
            ≡ read_messages decode is_big (front ++ b1 ∷ b2 ∷ back) [] =
          read_messages-append front (b ∷ back) []
          ∙ (ap (bind (read_messages decode is_big front [])) (fun_ext (read_messages-split back))
              ∙ sym (read_messages-append front (b1 ∷ b2 ∷ back) [])) in
        rw (parse_wiphys, same) refl
