-- ===== src/Base/Number.antt =====
-- Go's `strconv` on decimal and hexadecimal numbers.
use Prim.Native.Nat.{ℕ, ◌+◌, ◌-◌, ◌*◌}
use mathlib.Core.Option.{Option, none, some}
use mathlib.Core.List.{[], ◌∷◌}
use perch_apd.Base.Tests.{ltb, leb, if◌then◌else◌}
use perch_apd.Base.Lists.{all}
use perch_apd.Base.Equality.{Bytes, ◌==◌, nat_eq}
use perch_apd.Base.Int.{ℤ, pos, negsuc}
use perch_apd.Base.Text.{is_digit, within}

abbrev digits_value : ℕ → Bytes → ℕ
digits_value n [] = n
digits_value n (c ∷ s) = digits_value (n * 10 + (c - b'0')) s

abbrev number_of : Bytes → Option ℕ
number_of [] = none
number_of (c ∷ s) = if all is_digit (c ∷ s) then some (digits_value 0 (c ∷ s)) else none

below_limit : ℕ → Option ℕ → Option ℤ
below_limit limit none = none
below_limit limit (some n) = if ltb n limit then some (pos n) else none

negated : ℕ → Option ℕ → Option ℤ
negated limit none = none
negated limit (some n) =
    if leb n limit then some (if n == 0 then pos 0 else negsuc (n - 1)) else none

-- `strconv.Atoi`, where an `int` is below `limit`.
unfoldable pub atoi : ℕ → Bytes → Option ℤ
unfolding below_limit negated
atoi limit [] = none
atoi limit (c ∷ s) =
    if c == b'-'
    then negated limit (number_of s)
    else if c == b'+'
    then below_limit limit (number_of s)
    else below_limit limit (number_of (c ∷ s))

abbrev hex_digit_value : ℕ → Option ℕ
hex_digit_value c =
    if is_digit c
    then some (c - b'0')
    else if within b'a' b'f' c
    then some (c - b'a' + 10)
    else if within b'A' b'F' c
    then some (c - b'A' + 10)
    else none

hex_from : ℕ → Bytes → Option ℕ
hex_from n [] = some n
hex_from n (c ∷ s) = elim (hex_digit_value c) [ none ↦ none | some d ↦ hex_from (n * 16 + d) s ]

below_word : Option ℕ → Option ℕ
below_word none = none
below_word (some n) = if ltb n 4294967296 then some n else none

-- `strconv.ParseUint` in base 16 with 32 bits.
unfoldable pub parse_hex32 : Bytes → Option ℕ
unfolding hex_from below_word
parse_hex32 [] = none
parse_hex32 (c ∷ s) = below_word (hex_from 0 (c ∷ s))
