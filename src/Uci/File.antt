-- ===== src/Uci/File.antt =====
-- internal/uci/uci.go: `File`, its parser, its reads and edits, and its rendering.
pub mod Edit
pub mod Rewrite
pub mod RoundTrip
pub mod Reparse
pub mod Calls
pub mod Headers
pub mod Newlines
pub mod Reader
pub mod Access
pub mod Ready
use perch_apd.Base.{
  ℕ, suc, Bool, true, false, not, ◌&&◌, List, [], ◌∷◌, ◌++◌, Option, none, some, ◌==◌, nat_eq,
  bytes_eq, if◌then◌else◌, Bytes, codes, length, take, drop, keep,
}
use perch_apd.Base.Text.{split, trim_space}
use perch_apd.Uci.Tokens.{quote, valid_name, Tokens, words, tokenize}

pub data LineKind : Type 0 where
  kind_other kind_section kind_option kind_list : LineKind

-- `section` is an index into `sections`; `none` is the source's -1.
pub record Line : Type 0 where
  pub raw : Bytes
  pub kind : LineKind
  pub section : Option ℕ
  pub key : Bytes
  pub value : Bytes

pub record Section : Type 0 where
  pub typ : Bytes
  pub name : Bytes

pub record File : Type 0 where
  pub lines : List Line
  pub sections : List Section

abbrev pub empty : File
empty = record { lines = []; sections = [] }

abbrev pub other_line : Bytes → Option ℕ → Line
other_line raw current = record {
  raw = raw;
  kind = kind_other;
  section = current;
  key = [];
  value = [];
}

abbrev pub push_line : File → Line → File
push_line f l = record f { lines = f.lines ++ l ∷ [] }

-- The third word of a line, or the empty string.
abbrev pub first_word : List Bytes → Bytes
first_word [] = []
first_word (w ∷ ws) = w

-- A `config` line: the words behind the keyword.
read_config : File → Option ℕ → Bytes → List Bytes → File × Option ℕ
read_config f current raw [] = (push_line f (other_line raw current), current)
read_config f current raw (typ ∷ ws) =
    let here = some (length f.sections) in
    (
      record {
        lines =
            f.lines
            ++ record { raw = raw; kind = kind_section; section = here; key = []; value = [] } ∷ [];
        sections = f.sections ++ record { typ = typ; name = first_word ws } ∷ [];
      },
      here,
    )

-- An `option` or `list` line: the words behind the keyword.
read_entry : LineKind → File → Option ℕ → Bytes → List Bytes → File × Option ℕ
read_entry kind f (some idx) raw (key ∷ ws) = (
  push_line f
      (record { raw = raw; kind = kind; section = some idx; key = key; value = first_word ws }),
  some idx,
)
read_entry kind f current raw _ = (push_line f (other_line raw current), current)

-- The `switch` on the first word.
read_words : File → Option ℕ → Bytes → Tokens → File × Option ℕ
read_words f current raw (words (w ∷ ws)) =
    if w == codes "config"
    then read_config f current raw ws
    else if w == codes "option"
    then read_entry kind_option f current raw ws
    else if w == codes "list"
    then read_entry kind_list f current raw ws
    else (push_line f (other_line raw current), current)
read_words f current raw _ = (push_line f (other_line raw current), current)

-- The loop of `Parse` over the lines, with `f` and `current`.
unfoldable pub read_lines : File → Option ℕ → List Bytes → File × Option ℕ
unfolding read_config read_entry read_words tokenize
read_lines f current [] = (f, current)
read_lines f current (raw ∷ raws) =
    let (g, next) = read_words f current raw (tokenize raw) in read_lines g next raws

abbrev pub is_newline : ℕ → Bool
is_newline c = c == b'\n'

abbrev starts_with_newline : Bytes → Bool
starts_with_newline [] = false
starts_with_newline (c ∷ s) = is_newline c

-- `strings.ReplaceAll(text, "\r\n", "\n")`.
unfoldable pub unify_newlines : Bytes → Bytes
unify_newlines [] = []
unify_newlines (c ∷ s) =
    let rest = unify_newlines s in if c == b'\r' && starts_with_newline s then rest else c ∷ rest

-- `strings.TrimSuffix(text, "\n")`.
unfoldable pub trim_newline : Bytes → Bytes
trim_newline [] = []
trim_newline (c ∷ []) = if is_newline c then [] else c ∷ []
trim_newline (c ∷ d ∷ s) = c ∷ trim_newline (d ∷ s)

abbrev parse_text : Bytes → File
parse_text [] = empty
parse_text (c ∷ s) = (read_lines empty none (split b'\n' (c ∷ s))).0

unfoldable pub parse : Bytes → File
unfolding read_lines unify_newlines trim_newline split
parse s = parse_text (trim_newline (unify_newlines s))

-- `sectionIndex`; `none` is -1.
index_from : ℕ → List Section → Bytes → Option ℕ
index_from i [] name = none
index_from i (s ∷ ss) name =
    let rest = index_from (suc i) ss name in if s.name == name then some i else rest

unfoldable pub section_index : File → Bytes → Option ℕ
unfolding index_from
section_index f name = index_from 0 f.sections name

unfoldable pub has_section : File → Bytes → Bool
unfolding section_index
has_section f name = elim (section_index f name) [ none ↦ false | some _ ↦ true ]

abbrev pub same_index : Option ℕ → Option ℕ → Bool
same_index none none = true
same_index (some i) (some j) = i == j
same_index _ _ = false

abbrev pub is_option : LineKind → Bool
is_option kind_option = true
is_option _ = false

abbrev pub is_list : LineKind → Bool
is_list kind_list = true
is_list _ = false

-- The line holds this option of the section with this index.
abbrev pub holds_option : ℕ → Bytes → Line → Bool
holds_option idx key l = is_option l.kind && same_index l.section (some idx) && l.key == key

-- The loop of `Get`.
unfoldable pub get_from : ℕ → Bytes → List Line → Option Bytes
get_from idx key [] = none
get_from idx key (l ∷ ls) =
    let rest = get_from idx key ls in if holds_option idx key l then some l.value else rest

unfoldable pub get : File → Bytes → Bytes → Option Bytes
unfolding section_index get_from
get f name key = elim (section_index f name) [ none ↦ none | some idx ↦ get_from idx key f.lines ]

-- The loop of `GetList`.
get_list_from : Option ℕ → Bytes → List Line → List Bytes
get_list_from idx key [] = []
get_list_from idx key (l ∷ ls) =
    let rest = get_list_from idx key ls in
    if is_list l.kind && same_index l.section idx && l.key == key then l.value ∷ rest else rest

unfoldable pub get_list : File → Bytes → Bytes → List Bytes
unfolding section_index get_list_from
get_list f name key = get_list_from (section_index f name) key f.lines

abbrev pub config_line : Bytes → Bytes → Bytes
config_line typ name = codes "config " ++ (typ ++ b' ' ∷ quote name)

abbrev last_section : List Section → Option ℕ
last_section [] = none
last_section (s ∷ ss) = some (length ss)

-- `f.lines` is empty, or its last line is blank.
abbrev ends_blank : List Line → Bool
ends_blank [] = true
ends_blank (l ∷ []) = trim_space l.raw == []
ends_blank (l ∷ m ∷ ls) = ends_blank (m ∷ ls)

-- The lines, with a blank one behind text.
spaced : File → List Line
unfolding trim_space
spaced f =
    if ends_blank f.lines then f.lines else f.lines ++ other_line [] (last_section f.sections) ∷ []

config_line_of : ℕ → Bytes → Bytes → Line
config_line_of idx typ name = record {
  raw = config_line typ name;
  kind = kind_section;
  section = some idx;
  key = [];
  value = [];
}

add_section : File → Bytes → Bytes → File
unfolding spaced config_line_of
add_section f typ name = record {
  lines = spaced f ++ config_line_of (length f.sections) typ name ∷ [];
  sections = f.sections ++ record { typ = typ; name = name } ∷ [];
}

unfoldable pub ensure_section : File → Bytes → Bytes → File
unfolding has_section add_section spaced config_line_of trim_space quote
ensure_section f typ name = if has_section f name then f else add_section f typ name

-- What the loop of `Set` finds: the option's line, or where a new line goes (`none` is -1).
pub data Place : Type 0 where
  found : ℕ → Place
  insert_at : Option ℕ → Place

-- `insertAt` behind a line of the section that is not the option's.
unfoldable pub next_insert : LineKind → ℕ → Option ℕ → Option ℕ
next_insert kind_option i at = some (suc i)
next_insert kind_list i at = some (suc i)
next_insert kind_section i none = some (suc i)
next_insert _ i at = at

-- The loop of `Set`, at line `i`, with `insertAt`.
unfoldable pub find_place : ℕ → Bytes → ℕ → Option ℕ → List Line → Place
unfolding next_insert
find_place idx key i at [] = insert_at at
find_place idx key i at (l ∷ ls) =
    let rest =
      find_place idx key (suc i)
        (if same_index l.section (some idx) then next_insert l.kind i at else at) ls in
    if holds_option idx key l then found i else rest

pub data SetResult : Type 0 where
  updated : File → SetResult
  invalid_option no_section : SetResult
  -- The slice expression `f.lines[:insertAt]` at -1.
  crashed : SetResult

abbrev pub option_line_of : ℕ → Bytes → Bytes → Line
option_line_of idx key value = record {
  raw = codes "\toption " ++ (key ++ b' ' ∷ quote value);
  kind = kind_option;
  section = some idx;
  key = key;
  value = value;
}

set_at : File → Line → Place → SetResult
set_at f l (found i) = updated (record f { lines = take i f.lines ++ l ∷ drop (suc i) f.lines })
set_at f l (insert_at (some i)) =
    updated (record f { lines = take i f.lines ++ l ∷ drop i f.lines })
set_at f l (insert_at none) = crashed

set_in : File → Bytes → Bytes → Option ℕ → SetResult
set_in f key value none = no_section
set_in f key value (some idx) =
    set_at f (option_line_of idx key value) (find_place idx key 0 none f.lines)

unfoldable pub set : File → Bytes → Bytes → Bytes → SetResult
unfolding set_in set_at find_place section_index valid_name quote
set f name key value =
    if not (valid_name key) then invalid_option else set_in f key value (section_index f name)

unfoldable pub delete : File → Bytes → Bytes → File
unfolding section_index
delete f name key = elim (section_index f name) [
  | none ↦ f
  | some idx ↦ record f { lines = keep (λ l. not (holds_option idx key l)) f.lines }
]

unfoldable pub render_lines : List Line → Bytes
render_lines [] = []
render_lines (l ∷ ls) = l.raw ++ b'\n' ∷ render_lines ls

unfoldable pub bytes : File → Bytes
unfolding render_lines
bytes f = render_lines f.lines
