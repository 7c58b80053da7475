-- ===== src/Uci/Tokens/RoundTrip.antt =====
-- internal/uci/uci.go: `tokenize` reads back what `Quote` writes.
use perch_apd.Base.{
  ℕ, Bool, true, false, List, [], ◌∷◌, ◌++◌, ◌≡◌, sym, ◌∙◌, arith, append_assoc, append-nil, ◌==◌,
  nat_eq, if◌then◌else◌, Bytes, codes, all, ap,
}
use perch_apd.Uci.Tokens.{
  quote_byte, escape_quotes, quote, is_word_byte, valid_name, words, scan, scan_escape, scan_single,
  classify, plain, tokenize,
}

scan_single_step :
    (c : ℕ) (rest : Bytes) (ws : List Bytes) (cur : Bytes)
    → scan_single ((if c == quote_byte then codes "'\\''" else c ∷ []) ++ rest) ws cur
      ≡ scan_single rest ws (cur ++ c ∷ [])
unfolding scan_single scan_escape scan classify
scan_single_step c rest ws cur = ground arith

scan_single-escape_quotes :
    (v rest : Bytes) (ws : List Bytes) (cur : Bytes)
    → scan_single (escape_quotes v ++ quote_byte ∷ rest) ws cur ≡ scan rest ws (cur ++ v) true
unfolding escape_quotes
scan_single-escape_quotes [] rest ws cur = unfold scan_single in rw append-nil
scan_single-escape_quotes (c ∷ v) rest ws cur =
    rw append_assoc (scan_single_step c _ ws cur)
    ∙ scan_single-escape_quotes v rest ws (cur ++ c ∷ [])
    ∙ rw append_assoc

-- A quoted value continues the word that stands before it.
pub scan-quote :
    (v rest : Bytes) (ws : List Bytes) (cur : Bytes) (in_word : Bool)
    → scan (quote v ++ rest) ws cur in_word ≡ scan rest ws (cur ++ v) true
unfolding quote scan classify
scan-quote v rest ws cur in_word = rw append_assoc (scan_single-escape_quotes v rest ws cur)

classify-is_word_byte : (c : ℕ) (b : Bool) → is_word_byte c ≡ true → classify c b ≡ plain
unfolding classify
classify-is_word_byte c b h = ground arith

scan-is_word_byte :
    (c : ℕ) (rest : Bytes) (ws : List Bytes) (cur : Bytes) (in_word : Bool)
    → is_word_byte c ≡ true
    → scan (c ∷ rest) ws cur in_word ≡ scan rest ws (cur ++ c ∷ []) true
unfolding scan
scan-is_word_byte c rest ws cur in_word h = rw (classify-is_word_byte c in_word h, scan)

scan_letters :
    (n rest : Bytes) (ws : List Bytes) (cur : Bytes)
    → all is_word_byte n ≡ true
    → scan (n ++ b' ' ∷ rest) ws cur true ≡ scan rest (ws ++ (cur ++ n) ∷ []) [] false
scan_letters [] rest ws cur h = unfold scan classify in rw append-nil
scan_letters (c ∷ n) rest ws cur h =
    scan-is_word_byte c _ ws cur true (ground arith)
    ∙ scan_letters n rest ws (cur ++ c ∷ []) (ground arith)
    ∙ rw append_assoc

-- A valid name and the blank behind it are one word.
pub scan-valid_name :
    (n rest : Bytes) (ws : List Bytes)
    → valid_name n ≡ true
    → scan (n ++ b' ' ∷ rest) ws [] false ≡ scan rest (ws ++ n ∷ []) [] false
unfolding valid_name
scan-valid_name [] rest ws h = cc
scan-valid_name (c ∷ n) rest ws h =
    scan-is_word_byte c _ ws [] false (ground arith)
    ∙ scan_letters n rest ws (c ∷ []) (ground arith)

-- The line that `Set` writes for an option.
abbrev pub option_line : Bytes → Bytes → Bytes
option_line key value = codes "\toption " ++ (key ++ b' ' ∷ quote value)

-- An option's line with a valid name is read back as its three words, whatever bytes the value
-- holds.
pub tokenize-option_line :
    (key value : Bytes)
    → valid_name key ≡ true
    → tokenize (option_line key value) ≡ words (codes "option" ∷ key ∷ value ∷ [])
unfolding tokenize
tokenize-option_line key value h =
    scan-valid_name key (quote value) (codes "option" ∷ []) h
    ∙ ap (λ t. scan t (codes "option" ∷ key ∷ []) [] false) (sym (append-nil (quote value)))
    ∙ scan-quote value [] (codes "option" ∷ key ∷ []) [] false
