-- ===== src/Uci/File/Calls.antt =====
-- internal/uci/uci.go: `Set` finds a place in every file that the package makes.
use perch_apd.Base.{
  ℕ, suc, ◌+◌, ◌<◌, Bool, true, List, [], ◌∷◌, ◌≡◌, ◌≢◌, ◌⊎◌, inl, inr, refl, Option, none, some,
  arith, nat_eq, bytes_eq, if◌then◌else◌, Bytes, length, any, Bool-cases, Option-cases,
}
use perch_apd.Uci.File.{
  LineKind, Line, Section, File, same_index, Place, found, insert_at, next_insert, find_place,
  SetResult, updated, crashed, option_line_of, set_at, set_in, set, delete, ensure_section,
  section_index, index_from, parse,
}
use perch_apd.Uci.File.Headers.{
  is_section, is_header, HasHeaders, parse-HasHeaders, set-HasHeaders, delete-HasHeaders,
  ensure_section-HasHeaders,
}

next-ne-none :
    (l : Line) (i : ℕ) (at : Option ℕ) (inside : Bool)
    → at ≢ none
    → (if inside then next_insert l.kind i at else at) ≢ none
unfolding next_insert
next-ne-none l i none inside h = absurd (h refl)
next-ne-none l i (some j) inside h = λ e. ground arith

next_insert-header :
    (kind : LineKind) (i : ℕ) (at : Option ℕ)
    → is_section kind ≡ true
    → next_insert kind i at ≢ none
unfolding next_insert
next_insert-header kind i at h e = ground arith

-- With a header of the section among the lines there is a place.
find_place-is_header :
    (idx : ℕ) (key : Bytes) (i : ℕ) (at : Option ℕ) (ls : List Line)
    → (any (is_header idx) ls ≡ true) ⊎ (at ≢ none)
    → find_place idx key i at ls ≢ insert_at none
unfolding find_place
find_place-is_header idx key i at [] (inl h) e = ground arith
find_place-is_header idx key i at [] (inr some_at) e = some_at (ground arith)
find_place-is_header idx key i at (l ∷ ls) h e =
    find_place-is_header idx key (suc i)
      (if same_index l.section (some idx) then next_insert l.kind i at else at) ls (more h)
      (ground arith)
  where
    more :
        (any (is_header idx) (l ∷ ls) ≡ true) ⊎ (at ≢ none)
        → (any (is_header idx) ls ≡ true)
          ⊎ ((if same_index l.section (some idx) then next_insert l.kind i at else at) ≢ none)
    more (inr some_at) = inr (next-ne-none l i at (same_index l.section (some idx)) some_at)
    more (inl h) = elim (Bool-cases (is_header idx l)) [
      | inr other ↦ inl (ground arith)
      | inl header ↦ inr (λ e. ground (arith, next_insert-header l.kind i at))
    ]

index_from-lt :
    (i : ℕ) (ss : List Section) (name : Bytes) {k : ℕ}
    → index_from i ss name ≡ some k
    → k < i + length ss
unfolding index_from
index_from-lt i [] name h = absurd (ground arith)
index_from-lt i (s ∷ ss) name {k} h = ground (arith, index_from-lt (suc i) ss name {k = k})

-- The edits of a file. An error of `Set` leaves the file as it was.
pub data EditCall : Type 0 where
  set_call : Bytes → Bytes → Bytes → EditCall
  delete_call ensure_call : Bytes → Bytes → EditCall

abbrev file_after : File → SetResult → File
file_after f (updated g) = g
file_after f _ = f

unfoldable pub edit_call : EditCall → File → File
edit_call (set_call name key value) f = file_after f (set f name key value)
edit_call (delete_call name key) f = delete f name key
edit_call (ensure_call typ name) f = ensure_section f typ name

unfoldable pub edit_calls : List EditCall → File → File
unfolding edit_call
edit_calls [] f = f
edit_calls (c ∷ cs) f = edit_calls cs (edit_call c f)

file_after-HasHeaders :
    (f : File) (name key value : Bytes) (r : SetResult)
    → set f name key value ≡ r
    → HasHeaders f.lines (length f.sections)
    → HasHeaders (file_after f r).lines (length (file_after f r).sections)
file_after-HasHeaders f name key value (updated g) e has =
    set-HasHeaders f name key value {g = g} e has
file_after-HasHeaders f name key value _ e has = has

edit_call-HasHeaders :
    (c : EditCall) (f : File)
    → HasHeaders f.lines (length f.sections)
    → HasHeaders (edit_call c f).lines (length (edit_call c f).sections)
unfolding edit_call
edit_call-HasHeaders (set_call name key value) f has =
    file_after-HasHeaders f name key value (set f name key value) refl has
edit_call-HasHeaders (delete_call name key) f has = delete-HasHeaders f name key has
edit_call-HasHeaders (ensure_call typ name) f has = ensure_section-HasHeaders f typ name has

edit_calls-HasHeaders :
    (cs : List EditCall) (f : File)
    → HasHeaders f.lines (length f.sections)
    → HasHeaders (edit_calls cs f).lines (length (edit_calls cs f).sections)
unfolding edit_calls
edit_calls-HasHeaders [] f has = has
edit_calls-HasHeaders (c ∷ cs) f has =
    edit_calls-HasHeaders cs (edit_call c f) (edit_call-HasHeaders c f has)

set_at-crashed : (f : File) (l : Line) (p : Place) → set_at f l p ≡ crashed → p ≡ insert_at none
unfolding set_at
set_at-crashed f l (found i) h = absurd (ground arith)
set_at-crashed f l (insert_at (some i)) h = absurd (ground arith)
set_at-crashed f l (insert_at none) h = refl

pub set-crashed :
    (f : File) (name key value : Bytes)
    → HasHeaders f.lines (length f.sections)
    → set f name key value ≢ crashed
unfolding set set_in section_index
set-crashed f name key value has h = elim (Option-cases (index_from 0 f.sections name)) [
  | inl missing ↦ ground arith
  | inr (idx, e) ↦
      let inside : idx < length f.sections =
        omega (arith, index_from-lt 0 f.sections name {k = idx} e) in
      find_place-is_header idx key 0 none f.lines (inl (has idx inside)) (
        set_at-crashed f (option_line_of idx key value) (find_place idx key 0 none f.lines)
          (ground arith))
]

-- However a file came about, by parsing any text and any edits of it in any order, `Set` never slices
-- out of range: it fails only with an error.
pub set-edit_calls :
    (s : Bytes) (cs : List EditCall) (name key value : Bytes)
    → set (edit_calls cs (parse s)) name key value ≢ crashed
set-edit_calls s cs name key value =
    set-crashed (edit_calls cs (parse s)) name key value
      (edit_calls-HasHeaders cs (parse s) (parse-HasHeaders s))
