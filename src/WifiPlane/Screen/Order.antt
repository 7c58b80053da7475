-- ===== src/WifiPlane/Screen/Order.antt =====
-- internal/wifiplane/screen.go: what `checkWireless` accepts.
use perch_apd.Base.{
  true, not, ◌&&◌, none, some, List, [], ◌∷◌, ◌≡◌, ◌≢◌, ◌↔◌, refl, sym, ap, ◌∙◌, arith, ◌==◌,
  nat_eq, bytes_eq, Bytes, codes, all, All, if-both, Bool-cases, inl, inr, beq_self,
}
use mathlib.Core.List.{append_cancel_right}
use perch_apd.Base.Text.{cut, cut-append}
use perch_apd.Base.Maps.{is_in_set}
use perch_apd.Base.Sort.{insert, sort, bytes_leb}
use perch_apd.Base.Sort.Canonical.{SameItems, sort-SameItems}
use perch_apd.Groups.Kit.{Kit}
use perch_apd.WifiPlane.Screen.{
  sprint, join_words, names_of, radios, was, now, check_wireless, keep_names,
}

-- A name with bytes and without spaces.
pub record IsName (w : Bytes) : Type 0 where
  pub ne_nil : w ≢ []
  pub no_space : all (λ c. not (c == b' ')) w ≡ true

cut-none : (s : Bytes) → all (λ c. not (c == b' ')) s ≡ true → cut b' ' s ≡ none
unfolding cut
cut-none [] h = refl
cut-none (c ∷ s) h = ground (arith, cut-none s)

-- How the printed list begins.
cut-join_words :
    (w v : Bytes) (ws : List Bytes)
    → IsName w
    → cut b' ' (join_words (w ∷ v ∷ ws)) ≡ some (w, join_words (v ∷ ws))
cut-join_words w v ws n = cut-append b' ' w (join_words (v ∷ ws)) n.no_space

join_words_injective :
    (xs ys : List Bytes) → All IsName xs → All IsName ys → join_words xs ≡ join_words ys → xs ≡ ys
join_words_injective [] [] p q e = refl
join_words_injective [] (v ∷ []) p q e = absurd (q.0.ne_nil (sym e))
join_words_injective (w ∷ []) [] p q e = absurd (p.0.ne_nil e)
join_words_injective (w ∷ []) (v ∷ []) p q e = ap (λ x. x ∷ []) e
join_words_injective [] (v ∷ y ∷ ys) p q e =
    absurd (cc (cut-none [] refl, cut-join_words v y ys q.0))
join_words_injective (w ∷ x ∷ xs) [] p q e =
    absurd (cc (ap (cut b' ') e, cut-none [] refl, cut-join_words w x xs p.0))
join_words_injective (w ∷ []) (v ∷ y ∷ ys) p q e =
    absurd (cc (cut-none w p.0.no_space, cut-join_words v y ys q.0))
join_words_injective (w ∷ x ∷ xs) (v ∷ []) p q e =
    absurd (cc (cut-none v q.0.no_space, cut-join_words w x xs p.0))
join_words_injective (w ∷ x ∷ xs) (v ∷ y ∷ ys) p q e =
    let both = sym (cut-join_words w x xs p.0) ∙ (ap (cut b' ') e ∙ cut-join_words v y ys q.0) in
    let rest = join_words_injective (x ∷ xs) (y ∷ ys) p.1 q.1 (cc both) in cc (both, rest)

sprint_injective :
    (xs ys : List Bytes) → All IsName xs → All IsName ys → (sprint xs == sprint ys) ≡ true → xs ≡ ys
unfolding sprint
sprint_injective xs ys p q h = join_words_injective xs ys p q (
    append_cancel_right (join_words xs) (join_words ys) (b']' ∷ [])
      (cc ((bytes_eq.beq_iff (sprint xs) (sprint ys)).0 h)))

All-insert :
    (x : Bytes) (xs : List Bytes) → IsName x → All IsName xs → All IsName (insert bytes_leb x xs)
unfolding insert
All-insert x [] n h = (n, tt)
All-insert x (y ∷ xs) n h =
    if-both (All IsName) (x ∷ y ∷ xs) (y ∷ insert bytes_leb x xs) (bytes_leb x y) (n, h)
      (h.0, All-insert x xs n h.1)

All-sort : (xs : List Bytes) → All IsName xs → All IsName (sort bytes_leb xs)
unfolding sort
All-sort [] h = tt
All-sort (x ∷ xs) h = All-insert x (sort bytes_leb xs) h.0 (All-sort xs h.1)

All-keep_names : (set ns : List Bytes) → All IsName ns → All IsName (keep_names set ns)
All-keep_names set [] h = tt
All-keep_names set (n ∷ ns) h =
    if-both (All IsName) (n ∷ keep_names set ns) (keep_names set ns) (is_in_set n set)
      (h.0, All-keep_names set ns h.1) (All-keep_names set ns h.1)

keep_names-is_in_set :
    (n : Bytes) (set ns : List Bytes)
    → is_in_set n (keep_names set ns) ≡ (is_in_set n set && is_in_set n ns)
keep_names-is_in_set n set [] = ground arith
keep_names-is_in_set n set (m ∷ ns) = elim (Bool-cases (m == n)) [
  | inl same ↦ ground (
    arith,
    keep_names-is_in_set n set ns,
    ap (λ x. is_in_set x set) ((bytes_eq.beq_iff m n).0 same),
  )
  | inr apart ↦ ground (arith, keep_names-is_in_set n set ns)
]

-- To filter by the names that both lists have is to filter by the other list.
keep_names_twice :
    (all_names set ns : List Bytes)
    → ((n : Bytes) → is_in_set n ns ≡ true → is_in_set n all_names ≡ true)
    → keep_names (keep_names all_names set) ns ≡ keep_names set ns
keep_names_twice all_names set [] h = refl
keep_names_twice all_names set (n ∷ ns) h =
    let rest = keep_names_twice all_names set ns (λ m i. h m (ground arith)) in
    ground (arith, rest, keep_names-is_in_set n all_names set, h n, beq_self n)

module _ (k : Kit) (before after : List k.Section) where
  abbrev devices : List k.Section → List Bytes
  devices = names_of k (codes "wifi-device")

  abbrev interfaces : List k.Section → List Bytes
  interfaces = names_of k (codes "wifi-iface")

  now_eq : now k before after ≡ keep_names (interfaces before) (interfaces after)
  unfolding now was
  now_eq = keep_names_twice (interfaces after) (interfaces before) (interfaces after) (λ n i. i)

  -- Both configs have the same radios, and the interfaces that both have stand in one order.
  abbrev pub IsAccepted : Type 0
  IsAccepted =
      SameItems (devices before) (devices after)
      × (keep_names (interfaces after) (interfaces before)
          ≡ keep_names (interfaces before) (interfaces after))

  -- The names of these sections are neither empty nor have a space.
  pub record HasNames : Type 0 where
    pub devices_before : All IsName (devices before)
    pub devices_after : All IsName (devices after)
    pub interfaces_before : All IsName (interfaces before)
    pub interfaces_after : All IsName (interfaces after)

  -- An apply's result is accepted exactly if no radio was created, renamed or removed and the Wi-Fi
  -- interfaces that exist before and after keep their order, where the sections' names are no empty
  -- strings and have no spaces.
  pub check_wireless-IsAccepted : HasNames → (check_wireless k before after ≡ none) ↔ IsAccepted
  unfolding check_wireless radios was
  check_wireless-IsAccepted h =
      let same = sort-SameItems (devices before) (devices after) in
      let b = radios k before in
      let a = radios k after in
      let print =
        sprint_injective b a (All-sort (devices before) h.devices_before)
          (All-sort (devices after) h.devices_after) in
      let w = was k before after in
      let n = now k before after in
      let order =
        sprint_injective w n
          (All-keep_names (interfaces after) (interfaces before) h.interfaces_before)
          (All-keep_names w (interfaces after) h.interfaces_after) in
      (
        λ e. (same.0 (print (ground arith)), order (ground arith) ∙ now_eq),
        λ accepted.
            let radios_kept : (sprint b == sprint a) ≡ true =
              (bytes_eq.beq_iff (sprint b) (sprint a)).1 (ap sprint (same.1 accepted.0)) in
            let order_kept : (sprint w == sprint n) ≡ true =
              (bytes_eq.beq_iff (sprint w) (sprint n)).1 (ap sprint (accepted.1 ∙ sym now_eq)) in
            ground arith,
      )
