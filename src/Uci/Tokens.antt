-- ===== src/Uci/Tokens.antt =====
-- internal/uci/uci.go: `Quote`, `validName` and `tokenize`.
pub mod RoundTrip
use perch_apd.Base.{
  ℕ, Bool, true, false, not, ◌&&◌, ◌||◌, List, [], ◌∷◌, ◌++◌, ◌==◌, nat_eq, if◌then◌else◌, Bytes,
  codes, all,
}
use perch_apd.Base.Text.{within, is_digit}

abbrev pub quote_byte : ℕ
quote_byte = b'\''

-- `strings.ReplaceAll(v, "'", `'\''`)`.
unfoldable pub escape_quotes : Bytes → Bytes
escape_quotes [] = []
escape_quotes (c ∷ v) = (if c == quote_byte then codes "'\\''" else c ∷ []) ++ escape_quotes v

unfoldable pub quote : Bytes → Bytes
unfolding escape_quotes
quote v = quote_byte ∷ (escape_quotes v ++ quote_byte ∷ [])

-- The test of one byte; a byte of a longer rune is no ASCII letter, and fails it as the rune does.
abbrev pub is_word_byte : ℕ → Bool
is_word_byte c = c == b'_' || within b'a' b'z' c || within b'A' b'Z' c || is_digit c

unfoldable pub valid_name : Bytes → Bool
valid_name [] = false
valid_name (c ∷ s) = all is_word_byte (c ∷ s)

pub data Tokens : Type 0 where
  words : List Bytes → Tokens
  unterminated_single unterminated_double : Tokens

-- The cases of the loop's `switch`, in their order.
pub data ByteClass : Type 0 where
  comment blank single_quote double_quote backslash plain : ByteClass

unfoldable pub classify : ℕ → Bool → ByteClass
classify c in_word =
    if c == b'#' && not in_word
    then comment
    else if c == b' ' || c == b'\t'
    then blank
    else if c == quote_byte
    then single_quote
    else if c == b'"'
    then double_quote
    else if c == b'\\'
    then backslash
    else plain

abbrev pub end_word : List Bytes → Bytes → Bool → List Bytes
end_word ws cur true = ws ++ cur ∷ []
end_word ws cur false = ws

abbrev end_cur : Bytes → Bool → Bytes
end_cur cur true = []
end_cur cur false = cur

-- `scan` is the loop of `tokenize` over the bytes not yet read, with the words read so far, `cur`
-- and `inWord`; `scan_escape` stands behind a backslash. `scan_single` is the search for the
-- closing quote, which copies the bytes before it, and `scan_double` the inner loop.
unfoldable mutual
  pub scan : Bytes → List Bytes → Bytes → Bool → Tokens
  scan [] ws cur in_word = words (end_word ws cur in_word)
  scan (c ∷ s) ws cur in_word = elim (classify c in_word) [
    | comment ↦ words ws
    | blank ↦ scan s (end_word ws cur in_word) (end_cur cur in_word) false
    | single_quote ↦ scan_single s ws cur
    | double_quote ↦ scan_double s ws cur
    | backslash ↦ scan_escape s ws cur
    | plain ↦ scan s ws (cur ++ c ∷ []) true
  ]

  pub scan_escape : Bytes → List Bytes → Bytes → Tokens
  scan_escape [] ws cur = words (end_word ws (cur ++ b'\\' ∷ []) true)
  scan_escape (d ∷ s) ws cur = scan s ws (cur ++ d ∷ []) true

  pub scan_single : Bytes → List Bytes → Bytes → Tokens
  scan_single [] ws cur = unterminated_single
  scan_single (c ∷ s) ws cur = elim (c == quote_byte) [
    | true ↦ scan s ws cur true
    | false ↦ scan_single s ws (cur ++ c ∷ [])
  ]

  pub scan_double : Bytes → List Bytes → Bytes → Tokens
  scan_double [] ws cur = unterminated_double
  scan_double (c ∷ s) ws cur = elim (c == b'\\') [
    | true ↦ scan_double_escape s ws cur
    | false ↦ elim (c == b'"') [
      | true ↦ scan s ws cur true
      | false ↦ scan_double s ws (cur ++ c ∷ [])
    ]
  ]

  pub scan_double_escape : Bytes → List Bytes → Bytes → Tokens
  scan_double_escape [] ws cur = unterminated_double
  scan_double_escape (d ∷ s) ws cur = scan_double s ws (cur ++ d ∷ [])

unfoldable pub tokenize : Bytes → Tokens
unfolding scan scan_escape scan_single scan_double scan_double_escape classify
tokenize s = scan s [] [] false
