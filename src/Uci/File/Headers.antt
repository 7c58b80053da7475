-- ===== src/Uci/File/Headers.antt =====
-- internal/uci/uci.go: every section has its `config` line, so `Set` always finds a place.
use perch_apd.Base.{
  ℕ, suc, ◌+◌, ◌≤◌, ◌<◌, Bool, true, false, not, ◌&&◌, ◌||◌, List, [], ◌∷◌, ◌++◌, ◌≡◌, ◌≢◌, ◌⊎◌,
  inl, inr, refl, ◌∙◌, ap, Option, none, some, arith, ◌==◌, nat_eq, bytes_eq, if-both, option-both,
  Bytes, codes, length, length-append, keep, any, Bool-cases, subst,
}
use perch_apd.Uci.Tokens.{Tokens, words, tokenize}
use perch_apd.Uci.File.{
  LineKind, kind_section, Line, File, same_index, holds_option, updated, option_line_of, set,
  delete, ensure_section, add_section, spaced, config_line_of, ends_blank, last_section, other_line,
  has_section, section_index, parse,
}
use perch_apd.Uci.File.Edit.{with_old, set-Edit}
use perch_apd.Uci.File.Reader.{line_of, header_of, lines_from, sections_from}
use perch_apd.Uci.File.RoundTrip.{parse-eq, raw_lines, normal_text}

abbrev pub is_section : LineKind → Bool
is_section kind_section = true
is_section _ = false

-- The line is the header of the section with this index.
abbrev pub is_header : ℕ → Line → Bool
is_header idx l = is_section l.kind && same_index l.section (some idx)

abbrev pub HasHeaders : List Line → ℕ → Type 0
HasHeaders ls n = (idx : ℕ) → idx < n → any (is_header idx) ls ≡ true

any-append : (p : Line → Bool) (xs ys : List Line) → any p (xs ++ ys) ≡ (any p xs || any p ys)
any-append p [] ys = refl
any-append p (x ∷ xs) ys = ground (arith, any-append p xs ys)

-- What `Parse` reads.
line_of-header_of :
    (n : ℕ) (raw : Bytes)
    → (header_of raw ≡ []) ⊎ ((length (header_of raw) ≡ 1) × (is_header n (line_of n raw) ≡ true))
unfolding line_of header_of
line_of-header_of n raw = go n (tokenize raw) refl
  where
    go :
        (n : ℕ) (t : Tokens)
        → tokenize raw ≡ t
        → (header_of raw ≡ [])
          ⊎ ((length (header_of raw) ≡ 1) × (is_header n (line_of n raw) ≡ true))
    go n (words (w ∷ k ∷ ws)) e = elim (Bool-cases (w == codes "config")) [
      | inl config ↦ inr (ground arith, ground arith)
      | inr other ↦ inl (ground arith)
    ]
    go n (words (w ∷ [])) e = inl (ground arith)
    go n _ e = inl (ground arith)

lines_from-HasHeaders :
    (raws : List Bytes) (n idx : ℕ)
    → n ≤ idx
    → idx < n + length (sections_from raws)
    → any (is_header idx) (lines_from n raws) ≡ true
lines_from-HasHeaders [] n idx low high = absurd (omega arith)
lines_from-HasHeaders (raw ∷ raws) n idx low high = elim (line_of-header_of n raw) [
  | inl plain ↦
      let zero_more : length (header_of raw) ≡ 0 = ap length plain in
      let rest =
        lines_from-HasHeaders raws (n + length (header_of raw)) idx (omega arith)
          (omega (arith, length-append (header_of raw) (sections_from raws))) in
      ground arith
  | inr (one, header) ↦ elim (Bool-cases (n == idx)) [
    | inl here ↦
        ground (arith, ap (λ i. is_header i (line_of n raw)) ((nat_eq.beq_iff n idx).0 here))
    | inr behind ↦
        let apart : n ≢ idx = λ e. ground (arith, nat_eq.beq_iff n idx) in
        let rest =
          lines_from-HasHeaders raws (n + length (header_of raw)) idx (omega arith)
            (omega (arith, length-append (header_of raw) (sections_from raws))) in
        ground arith
  ]
]

pub parse-HasHeaders : (s : Bytes) → HasHeaders (parse s).lines (length (parse s).sections)
parse-HasHeaders s = rw (parse-eq s) (λ idx high.
    lines_from-HasHeaders (raw_lines (normal_text s)) 0 idx (omega arith) (omega arith))

-- An option's line is no header.
holds_option-is_header :
    (idx i : ℕ) (key : Bytes) (l : Line) → holds_option idx key l ≡ true → is_header i l ≡ false
holds_option-is_header idx i key l h = ground arith

with_old-is_header :
    (idx i : ℕ) (key : Bytes) (old : Option Line) (after : List Line)
    → ((l : Line) → old ≡ some l → holds_option idx key l ≡ true)
    → any (is_header i) (with_old old after) ≡ any (is_header i) after
with_old-is_header idx i key none after h = refl
with_old-is_header idx i key (some l) after h =
    ground (arith, holds_option-is_header idx i key l (h l refl))

keep-is_header :
    (idx i : ℕ) (key : Bytes) (ls : List Line)
    → any (is_header i) (keep (λ l. not (holds_option idx key l)) ls) ≡ any (is_header i) ls
keep-is_header idx i key [] = refl
keep-is_header idx i key (l ∷ ls) = elim (Bool-cases (holds_option idx key l)) [
  | inl gone ↦ ground (arith, keep-is_header idx i key ls, holds_option-is_header idx i key l gone)
  | inr kept ↦ ground (arith, keep-is_header idx i key ls)
]

pub set-HasHeaders :
    (f : File) (name key value : Bytes) {g : File}
    → set f name key value ≡ updated g
    → HasHeaders f.lines (length f.sections)
    → HasHeaders g.lines (length g.sections)
set-HasHeaders f name key value {g} h has i high =
    let (idx, _, same, edit, _) = set-Edit f name key value {g = g} h in
    let before = has i (subst (λ ss. i < length ss) same high) in
    ground (
      arith,
      ap (any (is_header i)) edit.was,
      ap (any (is_header i)) edit.is,
      any-append (is_header i) edit.before (with_old edit.old edit.after),
      any-append (is_header i) edit.before (option_line_of idx key value ∷ edit.after),
      with_old-is_header idx i key edit.old edit.after edit.old_holds,
      before,
    )

pub delete-HasHeaders :
    (f : File) (name key : Bytes)
    → HasHeaders f.lines (length f.sections)
    → HasHeaders (delete f name key).lines (length (delete f name key).sections)
unfolding delete
delete-HasHeaders f name key has =
    option-both (λ (g : File). HasHeaders g.lines (length g.sections)) f
      (λ idx. record f { lines = keep (λ l. not (holds_option idx key l)) f.lines })
      (section_index f name) has (λ idx i high. keep-is_header idx i key f.lines ∙ has i high)

any-spaced : (p : Line → Bool) (f : File) → any p f.lines ≡ true → any p (spaced f) ≡ true
unfolding spaced
any-spaced p f h =
    if-both (λ ls. any p ls ≡ true) f.lines
      (f.lines ++ other_line [] (last_section f.sections) ∷ []) (ends_blank f.lines) h
      (ground (arith, any-append p f.lines (other_line [] (last_section f.sections) ∷ [])))

pub ensure_section-HasHeaders :
    (f : File) (typ name : Bytes)
    → HasHeaders f.lines (length f.sections)
    → HasHeaders (ensure_section f typ name).lines (length (ensure_section f typ name).sections)
unfolding ensure_section add_section config_line_of
ensure_section-HasHeaders f typ name has =
    if-both (λ (g : File). HasHeaders g.lines (length g.sections)) f (add_section f typ name)
      (has_section f name) has
      (λ i high.
        go i (omega (arith, length-append f.sections (record { typ = typ; name = name } ∷ [])))
          (Bool-cases (length f.sections == i)))
  where
    go :
        (i : ℕ)
        → i < suc (length f.sections)
        → ((length f.sections == i) ≡ true) ⊎ ((length f.sections == i) ≡ false)
        → any (is_header i) (add_section f typ name).lines ≡ true
    go i high (inl last) = ground (
      arith,
      any-append (is_header i) (spaced f) (config_line_of (length f.sections) typ name ∷ []),
    )
    go i high (inr inside) =
        let apart : length f.sections ≢ i =
          λ e. ground (arith, nat_eq.beq_iff (length f.sections) i) in
        ground (
          arith,
          any-append (is_header i) (spaced f) (config_line_of (length f.sections) typ name ∷ []),
          any-spaced (is_header i) f (has i (omega arith)),
        )
