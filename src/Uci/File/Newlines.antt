-- ===== src/Uci/File/Newlines.antt =====
-- internal/uci/uci.go: how `Parse` cuts a text into lines and `Bytes` joins them again.
use perch_apd.Base.{
  ℕ, Bool, true, false, not, List, [], ◌∷◌, ◌++◌, map, ◌≡◌, ◌≢◌, refl, sym, ◌∙◌, ap, arith, ◌==◌,
  nat_eq, if◌then◌else◌, Bytes, all, All, append_assoc,
}
use perch_apd.Base.Text.{split}
use perch_apd.Uci.File.{Line, is_newline, unify_newlines, trim_newline, render_lines}

abbrev pub is_return : ℕ → Bool
is_return c = c == b'\r'

-- No line break, and no carriage return, in a text.
abbrev pub NoNewline : Bytes → Type 0
NoNewline s = all (λ c. not (is_newline c)) s ≡ true

abbrev pub NoReturn : Bytes → Type 0
NoReturn s = all (λ c. not (is_return c)) s ≡ true

-- Every line with its newline.
abbrev pub join : List Bytes → Bytes
join [] = []
join (r ∷ rs) = r ++ b'\n' ∷ join rs

-- The lines with a newline between two of them.
abbrev pub intersperse : List Bytes → Bytes
intersperse [] = []
intersperse (r ∷ []) = r
intersperse (r ∷ q ∷ rs) = r ++ b'\n' ∷ intersperse (q ∷ rs)

pub render_lines-join : (ls : List Line) → render_lines ls ≡ join (map (λ (l : Line). l.raw) ls)
unfolding render_lines
render_lines-join [] = refl
render_lines-join (l ∷ ls) = rw (render_lines-join ls)

pub join-intersperse :
    (r : Bytes) (rs : List Bytes) → join (r ∷ rs) ≡ intersperse (r ∷ rs) ++ b'\n' ∷ []
join-intersperse r [] = refl
join-intersperse r (q ∷ rs) = rw (join-intersperse q rs) (sym (append_assoc r _ _))

pub trim_newline-append : (s : Bytes) → trim_newline (s ++ b'\n' ∷ []) ≡ s
unfolding trim_newline
trim_newline-append [] = refl
trim_newline-append (c ∷ []) = refl
trim_newline-append (c ∷ d ∷ s) = ap (◌∷◌ c) (trim_newline-append (d ∷ s))

pub unify_newlines-NoReturn : (s : Bytes) → NoReturn s → unify_newlines s ≡ s
unfolding unify_newlines
unify_newlines-NoReturn [] h = refl
unify_newlines-NoReturn (c ∷ s) h = ground (arith, unify_newlines-NoReturn s)

split-NoNewline : (r : Bytes) → NoNewline r → split b'\n' r ≡ r ∷ []
unfolding split
split-NoNewline [] h = refl
split-NoNewline (c ∷ r) h = ground (arith, split-NoNewline r)

split_line : (r s : Bytes) → NoNewline r → split b'\n' (r ++ b'\n' ∷ s) ≡ r ∷ split b'\n' s
unfolding split
split_line [] s h = refl
split_line (c ∷ r) s h = ground (arith, split_line r s)

pub split-intersperse :
    (r : Bytes) (rs : List Bytes)
    → All NoNewline (r ∷ rs)
    → split b'\n' (intersperse (r ∷ rs)) ≡ r ∷ rs
split-intersperse r [] h = split-NoNewline r h.0
split-intersperse r (q ∷ rs) h =
    split_line r (intersperse (q ∷ rs)) h.0 ∙ ap (◌∷◌ r) (split-intersperse q rs h.1)

-- Cutting a text at its newlines gives at least one line, none with a newline, and loses nothing.
pub record Cut (s : Bytes) (ls : List Bytes) : Type 0 where
  pub ne_nil : ls ≢ []
  pub no_newline : All NoNewline ls
  pub whole : intersperse ls ≡ s

Cut-newline : (s : Bytes) (ls : List Bytes) → Cut s ls → Cut (b'\n' ∷ s) ([] ∷ ls)
Cut-newline s [] k = absurd (k.ne_nil refl)
Cut-newline s (l ∷ ls) k = record {
  ne_nil = λ e. cc;
  no_newline = (refl, k.no_newline);
  whole = ap (◌∷◌ b'\n') k.whole;
}

abbrev push_byte : ℕ → List Bytes → List Bytes
push_byte c [] = (c ∷ []) ∷ []
push_byte c (l ∷ ls) = (c ∷ l) ∷ ls

Cut-byte :
    (c : ℕ) (s : Bytes) (ls : List Bytes)
    → is_newline c ≡ false
    → Cut s ls
    → Cut (c ∷ s) (push_byte c ls)
Cut-byte c s [] n k = absurd (k.ne_nil refl)
Cut-byte c s (l ∷ []) n k = record {
  ne_nil = λ e. cc;
  no_newline = (ground (arith, k.no_newline.0), tt);
  whole = ap (◌∷◌ c) k.whole;
}
Cut-byte c s (l ∷ m ∷ ls) n k = record {
  ne_nil = λ e. cc;
  no_newline = (ground (arith, k.no_newline.0), k.no_newline.1);
  whole = ap (◌∷◌ c) k.whole;
}

split_cons :
    (c : ℕ) (s : Bytes)
    → split b'\n' (c ∷ s)
      ≡ (if is_newline c then [] ∷ split b'\n' s else push_byte c (split b'\n' s))
unfolding split
split_cons c s = ground arith

pub split-Cut : (s : Bytes) → Cut s (split b'\n' s)
split-Cut [] = unfold split in record { ne_nil = λ e. cc; no_newline = (refl, tt); whole = refl }
split-Cut (c ∷ s) = go (is_newline c) refl (split-Cut s)
  where
    go : (b : Bool) → is_newline c ≡ b → Cut s (split b'\n' s) → Cut (c ∷ s) (split b'\n' (c ∷ s))
    go true e k =
        let at : c ≡ b'\n' = ground arith in rw (split_cons c s, e, at) (Cut-newline s _ k)
    go false e k = rw (split_cons c s, e) (Cut-byte c s _ e k)
