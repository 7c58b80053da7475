-- ===== src/Uci/File/Rewrite.antt =====
-- internal/uci/uci.go: a file that was parsed, edited by `Set` and written is parsed as the edited
-- file.
use mathlib.Core.List.{map-append}
use perch_apd.Base.{
  ℕ, true, not, List, [], ◌∷◌, ◌++◌, ◌≡◌, ◌≢◌, ◌⊎◌, inl, inr, refl, sym, ◌∙◌, ap, Option, none,
  some, arith, ◌==◌, nat_eq, Bytes, codes, all, All, All-append, all-append, All-parts, All-map,
  map-All, append-ne-nil,
}
use perch_apd.Uci.Tokens.{valid_name, is_word_byte, quote, escape_quotes, quote_byte}
use perch_apd.Uci.File.{Line, File, option_line_of, trim_newline, parse, bytes, updated, set}
use perch_apd.Uci.File.Edit.{with_old, Edit, set-Edit}
use perch_apd.Uci.File.Reader.{lines_from, sections_from}
use perch_apd.Uci.File.Newlines.{
  NoNewline, NoReturn, join, intersperse, render_lines-join, unify_newlines-NoReturn, split-Cut,
}
use perch_apd.Uci.File.Reparse.{
  raws_of, IsRead, lines_from-IsRead, IsRead-lines_from, raws_of-lines_from, Edit-IsRead,
}
use perch_apd.Uci.File.RoundTrip.{raw_lines, parse-eq, normal_text, parse-join}

abbrev IsBreak : ℕ → Type 0
IsBreak b = (b ≡ b'\n') ⊎ (b ≡ b'\r')

abbrev Without : ℕ → Bytes → Type 0
Without b s = all (λ c. not (c == b)) s ≡ true

module _ (b : ℕ) (h : IsBreak b) where
  escape_quotes-Without : (v : Bytes) → Without b v → Without b (escape_quotes v)
  unfolding escape_quotes
  escape_quotes-Without [] l = refl
  escape_quotes-Without (c ∷ v) l = ground (
    arith,
    escape_quotes-Without v,
    all-append (λ c. not (c == b)) (codes "'\\''") (escape_quotes v),
  )

  quote-Without : (v : Bytes) → Without b v → Without b (quote v)
  unfolding quote
  quote-Without v l = ground (
    arith,
    escape_quotes-Without v l,
    all-append (λ c. not (c == b)) (escape_quotes v) (quote_byte ∷ []),
  )

  letters-Without : (n : Bytes) → all is_word_byte n ≡ true → Without b n
  letters-Without [] w = refl
  letters-Without (c ∷ n) w = ground (arith, letters-Without n)

  name-Without : (n : Bytes) → valid_name n ≡ true → Without b n
  unfolding valid_name
  name-Without [] w = refl
  name-Without (c ∷ n) w = letters-Without (c ∷ n) w

  option_line-Without :
      (idx : ℕ) (key value : Bytes)
      → valid_name key ≡ true
      → Without b value
      → Without b (option_line_of idx key value).raw
  option_line-Without idx key value k l = ground (
    arith,
    quote-Without value l,
    name-Without key k,
    all-append (λ c. not (c == b)) key (b' ' ∷ quote value),
  )

  Edit-Without :
      {idx : ℕ} {key value : Bytes} {f g : List Line}
      → Edit idx key value f g
      → valid_name key ≡ true
      → Without b value
      → All (Without b) (raws_of f)
      → All (Without b) (raws_of g)
  Edit-Without {idx} {key} {value} e k l h =
      let P = λ (l : Line). Without b l.raw in
      let h' : All P (e.before ++ with_old e.old e.after) =
        rw (e.was) at (map-All (Without b) (λ (l : Line). l.raw) _ h) in
      let (first, rest) = All-parts P e.before _ h' in
      rw (e.is) (
        All-map (Without b) (λ (l : Line). l.raw) _
          (All-append P e.before _
            (first, (option_line-Without idx key value k l, last e.old rest))))
    where
      last :
          (old : Option Line)
          → All (λ (l : Line). Without b l.raw) (with_old old e.after)
          → All (λ (l : Line). Without b l.raw) e.after
      last none r = r
      last (some _) r = r.1

  -- The lines of a text without this byte are without it, and so is the text that joins them.
  lines-Without : (ls : List Bytes) → Without b (intersperse ls) → All (Without b) ls
  lines-Without [] w = tt
  lines-Without (l ∷ []) w = (w, tt)
  lines-Without (l ∷ m ∷ ls) w =
      let parts = all-append (λ c. not (c == b)) l (b'\n' ∷ intersperse (m ∷ ls)) in
      (ground arith, lines-Without (m ∷ ls) (ground arith))

  trim_newline-Without : (s : Bytes) → Without b s → Without b (trim_newline s)
  unfolding trim_newline
  trim_newline-Without [] w = refl
  trim_newline-Without (c ∷ []) w = ground arith
  trim_newline-Without (c ∷ d ∷ s) w = ground (arith, trim_newline-Without (d ∷ s))

join-NoReturn : (ls : List Bytes) → All NoReturn ls → NoReturn (join ls)
join-NoReturn [] h = refl
join-NoReturn (l ∷ ls) h =
    let rest = join-NoReturn ls h.1 in
    ground (arith, all-append (λ c. not (c == b'\r')) l (b'\n' ∷ join ls), h.0)

raw_lines-NoNewline : (s : Bytes) → All NoNewline (raw_lines s)
raw_lines-NoNewline [] = tt
raw_lines-NoNewline (c ∷ s) = (split-Cut (c ∷ s)).no_newline

raw_lines-NoReturn : (s : Bytes) → NoReturn s → All NoReturn (raw_lines s)
raw_lines-NoReturn [] h = tt
raw_lines-NoReturn (c ∷ s) h = lines-Without b'\r' (inr refl) _ (rw ((split-Cut (c ∷ s)).whole) h)

intersperse-ne-nil :
    (xs : List Bytes) (y : Bytes) (ys : List Bytes) → y ≢ [] → intersperse (xs ++ y ∷ ys) ≢ []
intersperse-ne-nil [] y [] n = n
intersperse-ne-nil [] y (q ∷ ys) n = append-ne-nil y _ _
intersperse-ne-nil (x ∷ []) y ys n = append-ne-nil x _ _
intersperse-ne-nil (x ∷ z ∷ xs) y ys n = append-ne-nil x _ _

-- What holds of every file that `Parse` returns from a text without carriage returns, and is kept
-- by `Set`.
pub record IsCanonical (f : File) : Type 0 where
  read : IsRead 0 f.lines
  sections_read : f.sections ≡ sections_from (raws_of f.lines)
  no_newline : All NoNewline (raws_of f.lines)
  no_return : All NoReturn (raws_of f.lines)

pub parse-IsCanonical : (s : Bytes) → NoReturn s → IsCanonical (parse s)
parse-IsCanonical s h =
    let raws = raw_lines (normal_text s) in
    let same = raws_of-lines_from 0 raws in
    rw (parse-eq s) (record {
      read = lines_from-IsRead 0 raws;
      sections_read = rw same;
      no_newline = rw same (raw_lines-NoNewline (normal_text s));
      no_return = rw same (
          raw_lines-NoReturn (normal_text s)
            (trim_newline-Without b'\r' (inr refl) _ (rw (unify_newlines-NoReturn s h) h)));
    })

parse-join_lines :
    (raws : List Bytes)
    → All NoNewline raws
    → All NoReturn raws
    → intersperse raws ≢ []
    → parse (join raws) ≡ record { lines = lines_from 0 raws; sections = sections_from raws }
parse-join_lines [] n r e = absurd (e refl)
parse-join_lines (x ∷ xs) n r e = parse-join x xs n (join-NoReturn (x ∷ xs) r) e

pub IsCanonical-parse :
    (g : File) (xs : List Line) (l : Line) (ys : List Line)
    → IsCanonical g
    → g.lines ≡ xs ++ l ∷ ys
    → l.raw ≢ []
    → parse (bytes g) ≡ g
unfolding bytes
IsCanonical-parse g xs l ys c e n =
    let raws = raws_of g.lines in
    let cut : raws ≡ raws_of xs ++ l.raw ∷ raws_of ys =
      ap raws_of e ∙ map-append (λ (l : Line). l.raw) xs (l ∷ ys) in
    ap parse (render_lines-join g.lines)
    ∙ parse-join_lines raws c.no_newline c.no_return
        (rw cut (intersperse-ne-nil (raws_of xs) l.raw (raws_of ys) n))
    ∙ rw (IsRead-lines_from 0 g.lines c.read, ← c.sections_read)

pub set-IsCanonical :
    (f : File) (name key value : Bytes) {g : File}
    → NoNewline value
    → NoReturn value
    → set f name key value ≡ updated g
    → IsCanonical f
    → IsCanonical g
set-IsCanonical f name key value {g} n r h c =
    let (_, _, same, edit, good) = set-Edit f name key value {g = g} h in
    let (read, sections) = Edit-IsRead edit good c.read in
    record {
      read = read;
      sections_read = same ∙ c.sections_read ∙ sym sections;
      no_newline = Edit-Without b'\n' (inl refl) edit good n c.no_newline;
      no_return = Edit-Without b'\r' (inr refl) edit good r c.no_return;
    }

-- Take any text without carriage returns, and any option and value, the value without a line break.
-- If `Set` on the parsed text succeeds, then writing the file out and parsing it again gives exactly
-- the edited file: no line is read differently, none is lost, and the sections are the same.
pub parse-bytes-set :
    (s name key value : Bytes) {g : File}
    → NoReturn s
    → NoNewline value
    → NoReturn value
    → set (parse s) name key value ≡ updated g
    → parse (bytes g) ≡ g
parse-bytes-set s name key value {g} c n r h =
    let (idx, _, _, edit, _) = set-Edit (parse s) name key value {g = g} h in
    IsCanonical-parse g edit.before (option_line_of idx key value) edit.after
      (set-IsCanonical (parse s) name key value n r h (parse-IsCanonical s c)) edit.is (λ e. cc)
