-- ===== src/Uci/File/Access.antt =====
-- internal/uci/uci.go: `Get` after `Set` and after `Delete`.
use perch_apd.Base.{
  ℕ, suc, ◌≤◌, true, false, ◌&&◌, List, [], ◌∷◌, ◌++◌, ◌≡◌, refl, sym, ◌∙◌, inl, inr, Option, none,
  some, arith, ◌==◌, nat_eq, bytes_eq, beq_self, if◌then◌else◌, Bytes, Bool-cases, Option-cases,
}
use perch_apd.Uci.File.{
  Line, Section, File, holds_option, get_from, get, updated, option_line_of, set, section_index,
  index_from,
}
use perch_apd.Uci.File.Edit.{Lacks, with_old, Edit, set-Edit}

abbrev or_else {ℓ} : {A : Type ℓ} → Option A → Option A → Option A
or_else none o = o
or_else (some a) o = some a

get_from-append :
    (idx : ℕ) (key : Bytes) (xs ys : List Line)
    → get_from idx key (xs ++ ys) ≡ or_else (get_from idx key xs) (get_from idx key ys)
unfolding get_from
get_from-append idx key [] ys = refl
get_from-append idx key (x ∷ xs) ys = ground (arith, get_from-append idx key xs ys)

get_from-Lacks :
    (idx : ℕ) (key : Bytes) (ls : List Line) → Lacks idx key ls → get_from idx key ls ≡ none
unfolding get_from
get_from-Lacks idx key [] h = refl
get_from-Lacks idx key (l ∷ ls) h = ground (arith, get_from-Lacks idx key ls)

-- The line of one option holds no other option.
holds_option_other :
    (idx idx' : ℕ) (key key' : Bytes) (l : Line)
    → holds_option idx key l ≡ true
    → holds_option idx' key' l ≡ true
    → (idx ≡ idx') × (key ≡ key')
holds_option_other idx idx' key key' l h h' =
    ground (arith, bytes_eq.beq_iff l.key key, bytes_eq.beq_iff l.key key')

index_from-le :
    (i : ℕ) (ss : List Section) (name : Bytes) {k : ℕ} → index_from i ss name ≡ some k → i ≤ k
unfolding index_from
index_from-le i [] name h = absurd (ground arith)
index_from-le i (s ∷ ss) name {k} h = ground (arith, index_from-le (suc i) ss name {k = k})

index_from-injective :
    (i : ℕ) (ss : List Section) (m n : Bytes) {k : ℕ}
    → index_from i ss m ≡ some k
    → index_from i ss n ≡ some k
    → m ≡ n
unfolding index_from
index_from-injective i [] m n h h' = absurd (ground arith)
index_from-injective i (s ∷ ss) m n {k} h h' = ground (
  arith,
  bytes_eq.beq_iff s.name m,
  bytes_eq.beq_iff s.name n,
  index_from-injective (suc i) ss m n {k = k},
  index_from-le (suc i) ss m {k = k},
  index_from-le (suc i) ss n {k = k},
)

holds_option-option_line_of :
    (idx : ℕ) (key value : Bytes) (idx' : ℕ) (key' : Bytes)
    → holds_option idx' key' (option_line_of idx key value) ≡ (idx' == idx && key' == key)
holds_option-option_line_of idx key value idx' key' =
    ground (arith, bytes_eq.beq_iff key key', bytes_eq.beq_iff key' key)

get_from-Lacks-append :
    (idx : ℕ) (key : Bytes) (xs ys : List Line)
    → Lacks idx key xs
    → get_from idx key (xs ++ ys) ≡ get_from idx key ys
get_from-Lacks-append idx key xs ys h =
    get_from-append idx key xs ys ∙ rw (get_from-Lacks idx key xs h)

get_from-cons_other :
    (idx : ℕ) (key : Bytes) (xs : List Line) (l : Line) (ys : List Line)
    → holds_option idx key l ≡ false
    → get_from idx key (xs ++ l ∷ ys) ≡ get_from idx key (xs ++ ys)
unfolding get_from
get_from-cons_other idx key [] l ys h = rw h
get_from-cons_other idx key (x ∷ xs) l ys h = ground (arith, get_from-cons_other idx key xs l ys h)

get_from-with_old :
    (idx : ℕ) (key : Bytes) (before : List Line) (old : Option Line) (after : List Line)
    → ((l : Line) → old ≡ some l → holds_option idx key l ≡ false)
    → get_from idx key (before ++ after) ≡ get_from idx key (before ++ with_old old after)
get_from-with_old idx key before none after h = refl
get_from-with_old idx key before (some l) after h =
    sym (get_from-cons_other idx key before l after (h l refl))

module _ {idx : ℕ} {key value : Bytes} {f g : List Line} (e : Edit idx key value f g) where
  get_from-Edit_self : get_from idx key g ≡ some value
  get_from-Edit_self = rw (e.is) (
      get_from-Lacks-append idx key e.before _ e.before_lacks
      ∙ unfold get_from in
        rw (
          holds_option-option_line_of idx key value idx key,
          nat_eq.beq_iff idx idx,
          beq_self key,
          beq_self idx,
        ))

  get_from-Edit_other :
      (idx' : ℕ) (key' : Bytes)
      → (idx' == idx && key' == key) ≡ false
      → get_from idx' key' g ≡ get_from idx' key' f
  get_from-Edit_other idx' key' n =
      rw (e.is, e.was)
        (get_from-cons_other idx' key' e.before _ e.after
            (holds_option-option_line_of idx key value idx' key' ∙ n)
          ∙ get_from-with_old idx' key' e.before e.old e.after
              (λ l was. old_other l (e.old_holds l was)))
    where
      old_other : (l : Line) → holds_option idx key l ≡ true → holds_option idx' key' l ≡ false
      old_other l h =
          ground (arith, holds_option_other idx idx' key key' l h, bytes_eq.beq_iff key' key)

  get_from-Edit :
      (idx' : ℕ) (key' : Bytes)
      → get_from idx' key' g
        ≡ (if idx' == idx && key' == key then some value else get_from idx' key' f)
  get_from-Edit idx' key' = elim (Bool-cases (idx' == idx && key' == key)) [
    | inl y ↦ rw y (same (ground arith) (ground (arith, bytes_eq.beq_iff key' key)))
    | inr n ↦ rw n (get_from-Edit_other idx' key' n)
  ]
    where
      same : idx' ≡ idx → key' ≡ key → get_from idx' key' g ≡ some value
      same p q = rw (p, q) get_from-Edit_self

-- Two names are found at one index only if they are one name.
section_index-beq :
    (f : File) (m n : Bytes) {i j : ℕ}
    → section_index f m ≡ some i
    → section_index f n ≡ some j
    → (i == j) ≡ (m == n)
unfolding section_index
section_index-beq f m n {i} {j} h h' =
    ground (arith, bytes_eq.beq_iff m n, index_from-injective 0 f.sections m n {k = i})

-- A read after a successful `Set` finds the value that was set, and any other option of any
-- section reads as before.
pub get-set :
    (f : File) (name key value : Bytes) {g : File} (name' key' : Bytes)
    → set f name key value ≡ updated g
    → get g name' key' ≡ (if name' == name && key' == key then some value else get f name' key')
unfolding get
get-set f name key value {g} name' key' h =
    let (idx, e, same, edit, _) = set-Edit f name key value {g = g} h in
    let kept : section_index g name' ≡ section_index f name' = unfold section_index in rw same in
    elim (Option-cases (section_index f name')) [
      | inl missing ↦ ground (arith, bytes_eq.beq_iff name' name)
      | inr (idx', e') ↦
          ground (arith, section_index-beq f name' name e' e, get_from-Edit edit idx' key')
    ]
