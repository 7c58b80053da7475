-- ===== src/Uci/File/RoundTrip.antt =====
-- internal/uci/uci.go: `Parse` and `Bytes`, before and after `Set`.
use perch_apd.Base.{List, [], ◌∷◌, ◌++◌, ◌≡◌, ◌≢◌, refl, ◌∙◌, ap, nat_eq, Bytes, All}
use perch_apd.Base.Text.{split}
use perch_apd.Uci.File.{File, unify_newlines, trim_newline, parse, parse_text, bytes}
use perch_apd.Uci.File.Reader.{lines_from, sections_from, read_lines-eq}
use perch_apd.Uci.File.Newlines.{
  NoNewline, NoReturn, join, intersperse, render_lines-join, join-intersperse, trim_newline-append,
  unify_newlines-NoReturn, split-intersperse, split-Cut,
}
use perch_apd.Uci.File.Reparse.{raws_of, raws_of-lines_from}

-- The lines of a text that `Parse` has trimmed.
abbrev pub raw_lines : Bytes → List Bytes
raw_lines [] = []
raw_lines (c ∷ s) = split b'\n' (c ∷ s)

parse_text-eq :
    (s : Bytes)
    → parse_text s
      ≡ record { lines = lines_from 0 (raw_lines s); sections = sections_from (raw_lines s) }
parse_text-eq [] = refl
parse_text-eq (c ∷ s) = read_lines-eq (split b'\n' (c ∷ s))

-- What `Parse` keeps of a text: the text itself, without its last newline and with each CR LF as
-- one newline.
abbrev pub normal_text : Bytes → Bytes
normal_text s = trim_newline (unify_newlines s)

pub parse-eq :
    (s : Bytes)
    → parse s ≡ record {
      lines = lines_from 0 (raw_lines (normal_text s));
      sections = sections_from (raw_lines (normal_text s));
    }
unfolding parse
parse-eq s = parse_text-eq (normal_text s)

abbrev pub with_newline : Bytes → Bytes
with_newline [] = []
with_newline (c ∷ s) = (c ∷ s) ++ b'\n' ∷ []

join-raw_lines : (s : Bytes) → join (raw_lines s) ≡ with_newline s
join-raw_lines [] = refl
join-raw_lines (c ∷ s) =
    go (split b'\n' (c ∷ s)) (split-Cut (c ∷ s)).ne_nil (split-Cut (c ∷ s)).whole
  where
    go : (ls : List Bytes) → ls ≢ [] → intersperse ls ≡ c ∷ s → join ls ≡ with_newline (c ∷ s)
    go [] n w = absurd (n refl)
    go (l ∷ ls) n w = join-intersperse l ls ∙ rw w

-- Rendering a parsed file gives back its text byte for byte, whatever lines it holds, but for CR LF
-- newlines, which become LF, and the last newline, which is there whenever the text is not empty.
pub bytes-parse : (s : Bytes) → bytes (parse s) ≡ with_newline (normal_text s)
unfolding bytes
bytes-parse s =
    render_lines-join (parse s).lines
    ∙ ap (λ (f : File). join (raws_of f.lines)) (parse-eq s)
    ∙ ap join (raws_of-lines_from 0 (raw_lines (normal_text s)))
    ∙ join-raw_lines (normal_text s)

pub parse-join :
    (r : Bytes) (rs : List Bytes)
    → All NoNewline (r ∷ rs)
    → NoReturn (join (r ∷ rs))
    → intersperse (r ∷ rs) ≢ []
    → parse (join (r ∷ rs))
      ≡ record { lines = lines_from 0 (r ∷ rs); sections = sections_from (r ∷ rs) }
parse-join r rs n c h =
    let normal : normal_text (join (r ∷ rs)) ≡ intersperse (r ∷ rs) =
      ap trim_newline (unify_newlines-NoReturn _ c ∙ join-intersperse r rs)
      ∙ trim_newline-append _ in
    parse-eq (join (r ∷ rs)) ∙ rw normal (go (intersperse (r ∷ rs)) h (split-intersperse r rs n))
  where
    go :
        (t : Bytes)
        → t ≢ []
        → split b'\n' t ≡ r ∷ rs
        → ◌≡◌ {A = File}
            (record { lines = lines_from 0 (raw_lines t); sections = sections_from (raw_lines t) })
            (record { lines = lines_from 0 (r ∷ rs); sections = sections_from (r ∷ rs) })
    go [] h e = absurd (h refl)
    go (d ∷ t) h e = rw e
