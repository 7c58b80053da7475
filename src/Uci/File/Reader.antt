-- ===== src/Uci/File/Reader.antt =====
-- internal/uci/uci.go: `Parse` line by line. What a line becomes depends on the line and on the
-- number of sections before it only.
use perch_apd.Base.{
  ℕ, zero, suc, ◌+◌, List, [], ◌∷◌, ◌++◌, ◌≡◌, refl, ◌∙◌, ap, Option, none, some, arith, ◌==◌,
  bytes_eq, if◌then◌else◌, Bytes, codes, length, length-append, append-nil, append_assoc,
}
use perch_apd.Uci.Tokens.{Tokens, words, tokenize}
use perch_apd.Uci.File.{
  LineKind, kind_section, kind_option, kind_list, Line, Section, File, empty, other_line,
  first_word, read_config, read_entry, read_words, read_lines,
}

abbrev pub current_of : ℕ → Option ℕ
current_of zero = none
current_of (suc k) = some k

header_of_words : List Bytes → List Section
header_of_words (w ∷ typ ∷ ws) =
    if w == codes "config" then record { typ = typ; name = first_word ws } ∷ [] else []
header_of_words _ = []

-- The section that a line opens, if any.
unfoldable pub header_of : Bytes → List Section
unfolding header_of_words
header_of raw = elim (tokenize raw) [ words ws ↦ header_of_words ws | _ ↦ [] ]

entry_of : ℕ → Bytes → LineKind → List Bytes → Line
entry_of (suc k) raw kind (key ∷ ws) = record {
  raw = raw;
  kind = kind;
  section = some k;
  key = key;
  value = first_word ws;
}
entry_of n raw kind _ = other_line raw (current_of n)

line_of_words : ℕ → Bytes → List Bytes → Line
line_of_words n raw [] = other_line raw (current_of n)
line_of_words n raw (w ∷ ws) =
    if w == codes "config"
    then elim ws [
      | [] ↦ other_line raw (current_of n)
      | typ ∷ _ ↦ record { raw = raw; kind = kind_section; section = some n; key = []; value = [] }
    ]
    else if w == codes "option"
    then entry_of n raw kind_option ws
    else if w == codes "list"
    then entry_of n raw kind_list ws
    else other_line raw (current_of n)

unfoldable pub line_of : ℕ → Bytes → Line
unfolding line_of_words entry_of
line_of n raw = elim (tokenize raw) [
  | words ws ↦ line_of_words n raw ws
  | _ ↦ other_line raw (current_of n)
]

abbrev add_line : File → Line → List Section → File
add_line f l ss = record { lines = f.lines ++ l ∷ []; sections = f.sections ++ ss }

read_words_lem :
    (f : File) (n : ℕ) (raw : Bytes) (t : Tokens)
    → length f.sections ≡ n
    → tokenize raw ≡ t
    → read_words f (current_of n) raw t ≡ (
      add_line f (line_of n raw) (header_of raw),
      current_of (length (f.sections ++ header_of raw)),
    )
unfolding read_words read_config read_entry line_of header_of
read_words_lem f zero raw (words (w ∷ typ ∷ ws)) e t =
    ground (arith, append-nil f.sections, length-append f.sections (header_of raw))
read_words_lem f (suc n) raw (words (w ∷ typ ∷ ws)) e t =
    ground (arith, append-nil f.sections, length-append f.sections (header_of raw))
read_words_lem f zero raw _ e t = ground (arith, append-nil f.sections)
read_words_lem f (suc n) raw _ e t = ground (arith, append-nil f.sections)

-- The lines and the sections that a list of raw lines becomes, behind `n` sections.
abbrev pub lines_from : ℕ → List Bytes → List Line
lines_from n [] = []
lines_from n (raw ∷ raws) = line_of n raw ∷ lines_from (n + length (header_of raw)) raws

abbrev pub sections_from : List Bytes → List Section
sections_from [] = []
sections_from (raw ∷ raws) = header_of raw ++ sections_from raws

-- One round of the loop.
read_lines_step :
    (f : File) (n : ℕ) (raw : Bytes) (raws : List Bytes) (r : File × Option ℕ)
    → read_words f (current_of n) raw (tokenize raw) ≡ r
    → (read_lines f (current_of n) (raw ∷ raws)) ≡ read_lines r.0 r.1 raws
unfolding read_lines
read_lines_step f n raw raws r e = ap (λ (r : File × Option ℕ). read_lines r.0 r.1 raws) e

read_lines_lem :
    (raws : List Bytes) (f : File) (n : ℕ)
    → length f.sections ≡ n
    → (read_lines f (current_of n) raws).0
      ≡ record { lines = f.lines ++ lines_from n raws; sections = f.sections ++ sections_from raws }
read_lines_lem [] f n e = unfold read_lines in rw (append-nil f.lines, append-nil f.sections)
read_lines_lem (raw ∷ raws) f n e =
    let l = line_of n raw in
    let ss = header_of raw in
    let count : length (f.sections ++ ss) ≡ n + length ss =
      omega (arith, length-append f.sections ss) in
    rw (read_lines_step f n raw raws _ (read_words_lem f n raw (tokenize raw) e refl), count)
      (read_lines_lem raws (add_line f l ss) (n + length ss) count
        ∙ rw (append_assoc f.lines (l ∷ []), append_assoc f.sections ss))

-- What `Parse` makes of the raw lines of a file.
pub read_lines-eq :
    (raws : List Bytes)
    → (read_lines empty none raws).0
      ≡ record { lines = lines_from 0 raws; sections = sections_from raws }
read_lines-eq raws = read_lines_lem raws empty 0 refl

pub raw-line_of : (n : ℕ) (raw : Bytes) → (line_of n raw).raw ≡ raw
unfolding line_of
raw-line_of n raw = ground arith
