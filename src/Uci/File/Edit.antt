-- ===== src/Uci/File/Edit.antt =====
-- internal/uci/uci.go: what `Set` does to the lines.
use perch_apd.Base.{
  ℕ, suc, ◌+◌, true, false, not, List, [], ◌∷◌, ◌++◌, ◌≡◌, refl, sym, ◌∙◌, ap, ◌⊎◌, inl, inr,
  Option, none, some, arith, nat_eq, bytes_eq, if◌then◌else◌, Bytes, length, take, drop, all,
  all-append, append_assoc, Bool-cases, Option-cases,
}
use perch_apd.Uci.Tokens.{valid_name}
use perch_apd.Uci.File.{
  LineKind, Line, File, same_index, holds_option, Place, found, insert_at, next_insert, find_place,
  updated, option_line_of, set_at, set_in, set, section_index,
}

pub take-append {ℓ} : {A : Type ℓ} (xs ys : List A) → take (length xs) (xs ++ ys) ≡ xs
take-append [] ys = refl
take-append (x ∷ xs) ys = ap (◌∷◌ x) (take-append xs ys)

pub drop-append {ℓ} : {A : Type ℓ} (xs ys : List A) → drop (length xs) (xs ++ ys) ≡ ys
drop-append [] ys = refl
drop-append (x ∷ xs) ys = drop-append xs ys

pub drop-suc-append {ℓ} :
    {A : Type ℓ} (xs : List A) (y : A) (ys : List A) → drop (suc (length xs)) (xs ++ y ∷ ys) ≡ ys
drop-suc-append [] y ys = refl
drop-suc-append (x ∷ xs) y ys = drop-suc-append xs y ys

abbrev pub Lacks : ℕ → Bytes → List Line → Type 0
Lacks idx key ls = all (λ l. not (holds_option idx key l)) ls ≡ true

abbrev pub with_old : Option Line → List Line → List Line
with_old none after = after
with_old (some l) after = l ∷ after

-- The lines before and after one edit of the option: one line is written, in place of the first
-- line that holds the option or, where there is none, as a new one.
pub record Edit (idx : ℕ) (key value : Bytes) (f g : List Line) : Type 0 where
  pub before : List Line
  pub old : Option Line
  pub after : List Line
  pub was : f ≡ before ++ with_old old after
  pub is : g ≡ before ++ option_line_of idx key value ∷ after
  pub before_lacks : Lacks idx key before
  pub old_holds : (l : Line) → old ≡ some l → holds_option idx key l ≡ true
  pub after_lacks : old ≡ none → Lacks idx key after
  -- A new line stands directly behind a line of the section.
  pub follows :
      old ≡ none
      → (first : List Line) × (l : Line) × (before ≡ first ++ l ∷ [])
        × (same_index l.section (some idx) ≡ true)

-- Where `find_place` finds the option, at line `j` of a list that starts at line `i`.
find_place-found :
    (idx : ℕ) (key : Bytes) (i : ℕ) (at : Option ℕ) (ls : List Line) {j : ℕ}
    → find_place idx key i at ls ≡ found j
    → (before : List Line) × (l : Line) × (after : List Line) × (ls ≡ before ++ l ∷ after)
      × (j ≡ i + length before)
      × Lacks idx key before
      × (holds_option idx key l ≡ true)
unfolding find_place
find_place-found idx key i at [] h = cc
find_place-found idx key i at (l ∷ ls) {j} h = elim (Bool-cases (holds_option idx key l)) [
  | inl y ↦ ([], l, ls, refl, ground arith, refl, y)
  | inr n ↦
      let (before, m, after, e, place, lacks, holds) =
        find_place-found idx key (suc i)
          (if same_index l.section (some idx) then next_insert l.kind i at else at) ls {j = j}
          (ground arith) in
      (l ∷ before, m, after, ap (◌∷◌ l) e, omega arith, ground arith, holds)
]

next_insert_at :
    (kind : LineKind) (i : ℕ) (at : Option ℕ)
    → (next_insert kind i at ≡ at) ⊎ (next_insert kind i at ≡ some (suc i))
unfolding next_insert
next_insert_at kind i at = ground arith

-- Where it does not, the new line goes where `at` says or behind a line of the list.
find_place-insert_at :
    (idx : ℕ) (key : Bytes) (i : ℕ) (at : Option ℕ) (ls : List Line) {to : Option ℕ}
    → find_place idx key i at ls ≡ insert_at to
    → Lacks idx key ls
      × ((to ≡ at)
          ⊎ ((before : List Line) × (l : Line) × (after : List Line) × (ls ≡ before ++ l ∷ after)
              × (to ≡ some (suc (i + length before)))
              × (same_index l.section (some idx) ≡ true)))
unfolding find_place
find_place-insert_at idx key i at [] h = (refl, inl (ground arith))
find_place-insert_at idx key i at (l ∷ ls) {to} h =
    let at' = if same_index l.section (some idx) then next_insert l.kind i at else at in
    let n : holds_option idx key l ≡ false = ground arith in
    let (lacks, place) = find_place-insert_at idx key (suc i) at' ls {to = to} (ground arith) in
    (
      ground arith,
      elim place [
        | inr (before, m, after, e, t, s) ↦
            inr (l ∷ before, m, after, ap (◌∷◌ l) e, ground arith, s)
        | inl same ↦ elim (next_insert_at l.kind i at) [
          | inl stays ↦ inl (ground arith)
          | inr moves ↦ elim (Bool-cases (same_index l.section (some idx))) [
            | inl y ↦ inr ([], l, ls, refl, ground arith, y)
            | inr other ↦ inl (ground arith)
          ]
        ]
      ],
    )

take-suc-append {ℓ} :
    {A : Type ℓ} (x y : A) (xs ys : List A)
    → take (suc (length xs)) (xs ++ y ∷ ys) ++ x ∷ ys ≡ xs ++ y ∷ x ∷ ys
take-suc-append x y [] ys = refl
take-suc-append x y (z ∷ xs) ys = ap (◌∷◌ z) (take-suc-append x y xs ys)

splice-found {ℓ} :
    {A : Type ℓ} (x y : A) {ls : List A} (before after : List A) {j : ℕ}
    → ls ≡ before ++ y ∷ after
    → j ≡ 0 + length before
    → take j ls ++ x ∷ drop (suc j) ls ≡ before ++ x ∷ after
splice-found x y {ls} before after {j} e p =
    let p' : j ≡ length before = omega arith in rw (p', e) (rw (take-append, drop-suc-append))

splice-insert {ℓ} :
    {A : Type ℓ} (x y : A) {ls : List A} (before after : List A) {j : ℕ}
    → ls ≡ before ++ y ∷ after
    → j ≡ suc (0 + length before)
    → take j ls ++ x ∷ drop j ls ≡ (before ++ y ∷ []) ++ x ∷ after
splice-insert x y {ls} before after {j} e p =
    let p' : j ≡ suc (length before) = omega arith in
    rw (p', e, drop-suc-append, append_assoc) (take-suc-append x y before after)

updated-eq : {f g : File} → updated f ≡ updated g → f ≡ g
updated-eq h = cc

module _ (idx : ℕ) (key : Bytes) (before after : List Line) {ls : List Line}
    (e : ls ≡ before ++ after) where
  Lacks-before : Lacks idx key ls → Lacks idx key before
  Lacks-before h = ground (
    arith,
    ap (all (λ l. not (holds_option idx key l))) e,
    all-append (λ l. not (holds_option idx key l)) before after,
  )

  Lacks-after : Lacks idx key ls → Lacks idx key after
  Lacks-after h = ground (
    arith,
    ap (all (λ l. not (holds_option idx key l))) e,
    all-append (λ l. not (holds_option idx key l)) before after,
  )

module _ (idx : ℕ) (key value : Bytes) (f : File) {g : File} where
  set_at-Edit :
      (p : Place)
      → find_place idx key 0 none f.lines ≡ p
      → set_at f (option_line_of idx key value) p ≡ updated g
      → (g.sections ≡ f.sections) × Edit idx key value f.lines g.lines
  unfolding set_at
  set_at-Edit (found j) e h =
      let (before, l, after, was, at, lacks, holds) =
        find_place-found idx key 0 none f.lines {j = j} e in
      let is : g ≡ record f {
        lines = take j f.lines ++ option_line_of idx key value ∷ drop (suc j) f.lines;
      } =
        sym (updated-eq h) in
      (
        ap (λ (x : File). x.sections) is,
        record {
          before = before;
          old = some l;
          after = after;
          was = was;
          is = ap (λ (x : File). x.lines) is ∙ splice-found _ l before after was at;
          before_lacks = lacks;
          old_holds = λ m eq. ground arith;
          after_lacks = λ eq. cc;
          follows = λ eq. absurd (ground arith);
        },
      )
  set_at-Edit (insert_at (some j)) e h =
      let (lacks, place) = find_place-insert_at idx key 0 none f.lines {to = some j} e in
      let is : g
          ≡ record f { lines = take j f.lines ++ option_line_of idx key value ∷ drop j f.lines } =
        sym (updated-eq h) in
      elim place [
        | inl impossible ↦ absurd (ground arith)
        | inr (first, l, after, was, at, inside) ↦
            let was' : f.lines ≡ (first ++ l ∷ []) ++ after =
              was ∙ sym (append_assoc first (l ∷ []) after) in
            (
              ap (λ (x : File). x.sections) is,
              record {
                before = first ++ l ∷ [];
                old = none;
                after = after;
                was = was';
                is =
                    ap (λ (x : File). x.lines) is
                    ∙ splice-insert _ l first after was (ground arith);
                before_lacks = Lacks-before idx key (first ++ l ∷ []) after was' lacks;
                old_holds = λ m eq. cc;
                after_lacks = λ eq. Lacks-after idx key (first ++ l ∷ []) after was' lacks;
                follows = λ eq. (first, l, refl, inside);
              },
            )
      ]
  set_at-Edit (insert_at none) e h = cc

-- What a successful `Set` has done.
pub set-Edit :
    (f : File) (name key value : Bytes) {g : File}
    → set f name key value ≡ updated g
    → (idx : ℕ) × (section_index f name ≡ some idx)
      × (g.sections ≡ f.sections)
      × Edit idx key value f.lines g.lines
      × (valid_name key ≡ true)
unfolding set set_in
set-Edit f name key value {g} h = elim (Bool-cases (valid_name key)) [
  | inr bad ↦ absurd (ground arith)
  | inl good ↦ elim (Option-cases (section_index f name)) [
    | inl missing ↦ absurd (ground arith)
    | inr (idx, e) ↦
        let (same, edit) = set_at-Edit idx key value f _ refl (ground arith) in
        (idx, e, same, edit, good)
  ]
]
