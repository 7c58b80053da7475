-- ===== src/Uci/File/Ready.antt =====
-- internal/uci/uci.go: what a `Set` on a file with its section does to every read.
use perch_apd.Base.{
  ℕ, true, List, [], ◌∷◌, ◌++◌, ◌≡◌, ◌≢◌, refl, sym, ◌∙◌, ap, Option, none, some, arith, ◌==◌,
  nat_eq, bytes_eq, beq_self, if◌then◌else◌, Bytes, length,
}
use perch_apd.Uci.Tokens.{valid_name}
use perch_apd.Uci.File.{
  File, Line, SetResult, updated, crashed, invalid_option, no_section, set, set_in, set_at,
  has_section, section_index, get, get_list, get_list_from, holds_option, option_line_of, parse,
  bytes,
}
use perch_apd.Uci.File.Edit.{with_old, Edit, set-Edit}
use perch_apd.Uci.File.Newlines.{NoNewline, NoReturn}
use perch_apd.Uci.File.Headers.{HasHeaders, parse-HasHeaders, set-HasHeaders}
use perch_apd.Uci.File.Calls.{set-crashed}
use perch_apd.Uci.File.Access.{get-set}
use perch_apd.Uci.File.Rewrite.{IsCanonical, parse-IsCanonical, IsCanonical-parse, set-IsCanonical}

-- A file that was read, or edited since, and has the section.
pub record IsReady (name : Bytes) (f : File) : Type 0 where
  pub headers : HasHeaders f.lines (length f.sections)
  pub canonical : IsCanonical f
  pub section : has_section f name ≡ true

pub parse-IsReady :
    (name s : Bytes) → NoReturn s → has_section (parse s) name ≡ true → IsReady name (parse s)
parse-IsReady name s r h = record {
  headers = parse-HasHeaders s;
  canonical = parse-IsCanonical s r;
  section = h;
}

get_list_from-append :
    (idx : Option ℕ) (key : Bytes) (xs ys : List Line)
    → get_list_from idx key (xs ++ ys) ≡ get_list_from idx key xs ++ get_list_from idx key ys
unfolding get_list_from
get_list_from-append idx key [] ys = refl
get_list_from-append idx key (x ∷ xs) ys = ground (arith, get_list_from-append idx key xs ys)

get_list_from-Edit :
    (idx : ℕ) (name' value : Bytes) (f g : List Line) (e : Edit idx name' value f g) (at : Option ℕ)
    (key : Bytes)
    → get_list_from at key g ≡ get_list_from at key f
unfolding get_list_from
get_list_from-Edit idx name' value f g e at key =
    rw (e.is, e.was)
      (get_list_from-append at key e.before (option_line_of idx name' value ∷ e.after)
        ∙ (ap (λ r. get_list_from at key e.before ++ r) (without e.old e.old_holds)
            ∙ sym (get_list_from-append at key e.before (with_old e.old e.after))))
  where
    without :
        (old : Option Line)
        → ((l : Line) → old ≡ some l → holds_option idx name' l ≡ true)
        → get_list_from at key e.after ≡ get_list_from at key (with_old old e.after)
    without none h = refl
    without (some l) h = ground (arith, h l refl)

-- What is known behind a `Set` of one option.
pub record IsPut (name key value : Bytes) (f g : File) : Type 0 where
  pub ready : IsReady name g
  pub reread : parse (bytes g) ≡ g
  pub gets : (k : Bytes) → get g name k ≡ (if k == key then some value else get f name k)
  pub lists : (k : Bytes) → get_list g name k ≡ get_list f name k

set-refused :
    (f : File) (name key value : Bytes)
    → valid_name key ≡ true
    → has_section f name ≡ true
    → (set f name key value ≢ invalid_option) × (set f name key value ≢ no_section)
unfolding set set_in set_at has_section
set-refused f name key value good has = (λ e. ground arith, λ e. ground arith)

set-updated :
    (f : File) (name key value : Bytes)
    → valid_name key ≡ true
    → IsReady name f
    → (g : File) × (set f name key value ≡ updated g)
set-updated f name key value good r = go (set f name key value) refl
  where
    go :
        (x : SetResult) → set f name key value ≡ x → (g : File) × (set f name key value ≡ updated g)
    go (updated g) e = (g, e)
    go crashed e = absurd (set-crashed f name key value r.headers e)
    go invalid_option e = absurd ((set-refused f name key value good r.section).0 e)
    go no_section e = absurd ((set-refused f name key value good r.section).1 e)

set_kept :
    (f g : File) (name : Bytes)
    → g.sections ≡ f.sections
    → has_section f name ≡ true
    → has_section g name ≡ true
unfolding has_section section_index
set_kept f g name e h = rw e h

get_list-sections :
    (f g : File) (name key : Bytes)
    → g.sections ≡ f.sections
    → get_list_from (section_index f name) key g.lines
      ≡ get_list_from (section_index f name) key f.lines
    → get_list g name key ≡ get_list f name key
unfolding get_list section_index
get_list-sections f g name key e h = rw e h

-- On such a file a `Set` with a valid option and a value of one line succeeds.
pub set-IsPut :
    (f : File) (name key value : Bytes)
    → valid_name key ≡ true
    → NoNewline value
    → NoReturn value
    → IsReady name f
    → (g : File) × (set f name key value ≡ updated g) × IsPut name key value f g
set-IsPut f name key value good n r ready =
    let (g, e) = set-updated f name key value good ready in
    let (idx, _, same, edit, _) = set-Edit f name key value {g = g} e in
    let canonical = set-IsCanonical f name key value n r e ready.canonical in
    (
      g,
      e,
      record {
        ready = record {
          headers = set-HasHeaders f name key value {g = g} e ready.headers;
          canonical = canonical;
          section = set_kept f g name same ready.section;
        };
        reread =
            IsCanonical-parse g edit.before (option_line_of idx key value) edit.after canonical
              edit.is (λ e. cc);
        gets = λ k. get-set f name key value {g = g} name k e ∙ ground (arith, beq_self name);
        lists = λ k.
            get_list-sections f g name k same
              (get_list_from-Edit idx key value f.lines g.lines edit (section_index f name) k);
      },
    )
