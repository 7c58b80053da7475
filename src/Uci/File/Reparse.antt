-- ===== src/Uci/File/Reparse.antt =====
-- internal/uci/uci.go: what `Bytes` writes, `Parse` reads back.
use perch_apd.Base.{
  ℕ, zero, suc, ◌+◌, true, List, [], ◌∷◌, ◌++◌, map, ◌≡◌, refl, sym, ◌∙◌, ap, Option, none, some,
  arith, nat_eq, Bytes, bytes_beq, append_assoc, length,
}
use mathlib.Core.Path.{ap₂}
use perch_apd.Uci.Tokens.{valid_name, tokenize, words, Tokens}
use perch_apd.Uci.Tokens.RoundTrip.{tokenize-option_line}
use perch_apd.Uci.File.{kind_option, Line, same_index, option_line_of}
use perch_apd.Uci.File.Edit.{with_old, Edit}
use perch_apd.Uci.File.Reader.{
  current_of, header_of, line_of, lines_from, sections_from, raw-line_of,
}

abbrev pub raws_of : List Line → List Bytes
raws_of = map (λ (l : Line). l.raw)

-- The number of sections behind one more line.
abbrev pub next : ℕ → Bytes → ℕ
next n raw = n + length (header_of raw)

-- Every line is what the reader makes of its raw text, behind `n` sections.
abbrev pub IsRead : ℕ → List Line → Type 0
IsRead n [] = Unit
IsRead n (l ∷ ls) = (line_of n l.raw ≡ l) × IsRead (next n l.raw) ls

-- The number of sections behind the lines.
abbrev count_after : ℕ → List Line → ℕ
count_after n [] = n
count_after n (l ∷ ls) = count_after (next n l.raw) ls

IsRead-append :
    (n : ℕ) (xs ys : List Line) → IsRead n xs → IsRead (count_after n xs) ys → IsRead n (xs ++ ys)
IsRead-append n [] ys h k = k
IsRead-append n (x ∷ xs) ys h k = (h.0, IsRead-append (next n x.raw) xs ys h.1 k)

IsRead-parts :
    (n : ℕ) (xs ys : List Line) → IsRead n (xs ++ ys) → IsRead n xs × IsRead (count_after n xs) ys
IsRead-parts n [] ys h = (tt, h)
IsRead-parts n (x ∷ xs) ys h = let (a, b) = IsRead-parts (next n x.raw) xs ys h.1 in ((h.0, a), b)

pub lines_from-IsRead : (n : ℕ) (raws : List Bytes) → IsRead n (lines_from n raws)
lines_from-IsRead n [] = tt
lines_from-IsRead n (raw ∷ raws) = (
  ap (line_of n) (raw-line_of n raw),
  rw (raw-line_of n raw) (lines_from-IsRead (next n raw) raws),
)

pub IsRead-lines_from : (n : ℕ) (ls : List Line) → IsRead n ls → lines_from n (raws_of ls) ≡ ls
IsRead-lines_from n [] h = refl
IsRead-lines_from n (l ∷ ls) h = rw (h.0, IsRead-lines_from (next n l.raw) ls h.1)

pub raws_of-lines_from : (n : ℕ) (raws : List Bytes) → raws_of (lines_from n raws) ≡ raws
raws_of-lines_from n [] = refl
raws_of-lines_from n (raw ∷ raws) =
    ap₂ ◌∷◌ (raw-line_of n raw) (raws_of-lines_from (next n raw) raws)

section-line_of :
    (n : ℕ) (raw : Bytes) → (line_of n raw).section ≡ current_of (n + length (header_of raw))
unfolding line_of header_of
section-line_of n raw = go n (tokenize raw) refl
  where
    go :
        (n : ℕ) (t : Tokens)
        → tokenize raw ≡ t
        → (line_of n raw).section ≡ current_of (n + length (header_of raw))
    go zero (words (w ∷ [])) e = ground arith
    go zero (words (w ∷ k ∷ ws)) e = ground arith
    go zero _ e = ground arith
    go (suc n) (words (w ∷ [])) e = ground arith
    go (suc n) (words (w ∷ k ∷ ws)) e = ground arith
    go (suc n) _ e = ground arith

kind_option-header_of :
    (n : ℕ) (raw : Bytes) → (line_of n raw).kind ≡ kind_option → header_of raw ≡ []
unfolding line_of header_of
kind_option-header_of n raw = go n (tokenize raw) refl
  where
    go :
        (n : ℕ) (t : Tokens)
        → tokenize raw ≡ t
        → (line_of n raw).kind ≡ kind_option
        → header_of raw ≡ []
    go zero (words (w ∷ [])) e h = ground arith
    go zero (words (w ∷ k ∷ ws)) e h = ground arith
    go zero _ e h = ground arith
    go (suc n) (words (w ∷ [])) e h = ground arith
    go (suc n) (words (w ∷ k ∷ ws)) e h = ground arith
    go (suc n) _ e h = ground arith

-- The line that `Set` writes is read as itself, inside its section.
line_of-option_line_of :
    (n idx : ℕ) (key value : Bytes)
    → valid_name key ≡ true
    → current_of n ≡ some idx
    → line_of n (option_line_of idx key value).raw ≡ option_line_of idx key value
unfolding line_of bytes_beq
line_of-option_line_of zero idx key value h e = cc
line_of-option_line_of (suc n) idx key value h e =
    rw (tokenize-option_line key value h, line_of) (ground arith)

header_of-option_line_of :
    (idx : ℕ) (key value : Bytes)
    → valid_name key ≡ true
    → header_of (option_line_of idx key value).raw ≡ []
unfolding header_of bytes_beq
header_of-option_line_of idx key value h = rw (tokenize-option_line key value h, header_of) refl

same_index-eq : (o : Option ℕ) (idx : ℕ) → same_index o (some idx) ≡ true → o ≡ some idx
same_index-eq o idx h = ground arith

current-IsRead :
    (n : ℕ) (xs : List Line) (l : Line) {idx : ℕ}
    → IsRead n (xs ++ l ∷ [])
    → same_index l.section (some idx) ≡ true
    → current_of (count_after n (xs ++ l ∷ [])) ≡ some idx
current-IsRead n [] l {idx} h e =
    sym (section-line_of n l.raw) ∙ rw (h.0) (same_index-eq l.section idx e)
current-IsRead n (x ∷ xs) l h e = current-IsRead (next n x.raw) xs l h.1 e

count_after-append :
    (n : ℕ) (xs ys : List Line) → count_after n (xs ++ ys) ≡ count_after (count_after n xs) ys
count_after-append n [] ys = refl
count_after-append n (x ∷ xs) ys = count_after-append (next n x.raw) xs ys

sections_from-append :
    (xs ys : List Line)
    → sections_from (raws_of (xs ++ ys)) ≡ sections_from (raws_of xs) ++ sections_from (raws_of ys)
sections_from-append [] ys = refl
sections_from-append (x ∷ xs) ys =
    rw (sections_from-append xs ys) (sym (append_assoc (header_of x.raw) _ _))

module _ {idx : ℕ} {key value : Bytes} {f g : List Line} (e : Edit idx key value f g)
    (good : valid_name key ≡ true) where
  -- The written line stands inside the section, and what follows it is read as before.
  Edit_place :
      (old : Option Line)
      → e.old ≡ old
      → IsRead 0 (e.before ++ with_old old e.after)
      → (current_of (count_after 0 e.before) ≡ some idx)
        × IsRead (count_after 0 e.before) e.after
        × (sections_from (raws_of (with_old old e.after)) ≡ sections_from (raws_of e.after))
  Edit_place none o h =
      let (first, l, b, inside) = e.follows o in
      let (read, rest) = IsRead-parts 0 e.before e.after h in
      (rw b (current-IsRead 0 first l (rw b at read) inside), rest, refl)
  Edit_place (some l) o h =
      let m = count_after 0 e.before in
      let (_, at) = IsRead-parts 0 e.before (l ∷ e.after) h in
      let (read, rest) = at in
      let holds = e.old_holds l o in
      let opens : header_of l.raw ≡ [] =
        kind_option-header_of m l.raw (ap (λ (x : Line). x.kind) read ∙ ground arith) in
      let same : next m l.raw ≡ m = rw opens (omega arith) in
      let inside : current_of (next m l.raw) ≡ some idx =
        sym (section-line_of m l.raw)
        ∙ ap (λ (x : Line). x.section) read
        ∙ same_index-eq l.section idx (ground arith) in
      (rw same at inside, rw same at rest, rw opens)

  -- After the edit every line is still what the reader makes of it, and the sections are the same.
  pub Edit-IsRead :
      IsRead 0 f → IsRead 0 g × (sections_from (raws_of g) ≡ sections_from (raws_of f))
  Edit-IsRead h =
      let h' : IsRead 0 (e.before ++ with_old e.old e.after) = rw (e.was) at h in
      let (inside, rest, none_opened) = Edit_place e.old refl h' in
      let m = count_after 0 e.before in
      let opens = header_of-option_line_of idx key value good in
      let same : next m (option_line_of idx key value).raw ≡ m = rw opens (omega arith) in
      let new = line_of-option_line_of m idx key value good inside in
      (
        rw (e.is) (IsRead-append 0 e.before _ (IsRead-parts 0 e.before _ h').0 (new, rw same rest)),
        sections_from_Edit opens none_opened,
      )
    where
      sections_from_Edit :
          header_of (option_line_of idx key value).raw ≡ []
          → sections_from (raws_of (with_old e.old e.after)) ≡ sections_from (raws_of e.after)
          → sections_from (raws_of g) ≡ sections_from (raws_of f)
      sections_from_Edit o w =
          ap (λ ls. sections_from (raws_of ls)) e.is
          ∙ sections_from-append e.before _
          ∙ rw (o, ← w) (sym (sections_from-append e.before _))
          ∙ ap (λ ls. sections_from (raws_of ls)) (sym e.was)
