-- ===== src/Groups/Psk/Line.antt =====
-- internal/groups/psk.go: `parsePSKLine` on the lines that netifd writes.
use perch_apd.Base.{
  ℕ, zero, suc, ◌≤◌, ◌<◌, Bool, true, not, none, some, [], ◌∷◌, ◌++◌, ◌≡◌, ◌≢◌, refl, arith, ◌==◌,
  nat_eq, bytes_eq, append_assoc, bytes_beq, Bytes, codes, all, length, ◌∙◌, ap, sym, inl, inr,
  ◌&&◌, ◌||◌, Option-cases, Bool-cases, ltb, false,
}
use perch_apd.Base.Text.{cut, trim_left, to_lower, is_space}
use perch_apd.Groups.Psk.{
  is_blank, next_token, entry_with, entry_from, line_entry, parse_psk_line, is_all_space, cut_space,
  skip_space, trim_text, lower_text, is_space2, is_space3, vlan_after,
}

length-trim_left : (p : ℕ → Bool) (s : Bytes) → length (trim_left p s) ≤ length s
unfolding trim_left
length-trim_left p [] = omega arith
length-trim_left p (c ∷ s) = ground (arith, length-trim_left p s)

next_token-lt :
    (s : Bytes) {tok rest : Bytes} → next_token s ≡ some (tok, rest) → length rest < length s
unfolding next_token
next_token-lt [] h = cc
next_token-lt (c ∷ s) {tok} {rest} h = elim (Option-cases (next_token s)) [
  | inl none_left ↦ ground (arith, length-trim_left is_blank s)
  | inr (r, e) ↦
      ground (arith, length-trim_left is_blank s, next_token-lt s {tok = r.0} {rest = r.1} e)
]

-- With the line's length as fuel the loop ends by itself: more fuel gives the same.
entry_from_enough :
    (f g : ℕ) (vlan s : Bytes)
    → length s < f
    → length s < g
    → entry_from f vlan s ≡ entry_from g vlan s
unfolding entry_from
entry_from_enough zero g vlan s h k = elim h [ ]
entry_from_enough (suc f) zero vlan s h k = elim k [ ]
entry_from_enough (suc f) (suc g) vlan s h k = elim (Option-cases (next_token s)) [
  | inl ends ↦ rw (ends, entry_from)
  | inr (r, e) ↦
      let shorter = next_token-lt s {tok = r.0} {rest = r.1} e in
      elim (Option-cases (cut b'=' r.0)) [
        | inl mac ↦ rw (e, entry_from) (rw (mac))
        | inr (nv, at) ↦
            rw (e, entry_from)
              (rw (at)
                (entry_from_enough f g (vlan_after nv.0 nv.1 vlan) r.1 (omega arith) (omega arith)))
      ]
]

next_token-append :
    (tok rest : Bytes)
    → all (λ c. not (is_blank c)) tok ≡ true
    → next_token (tok ++ b' ' ∷ rest) ≡ some (tok, trim_left is_blank rest)
unfolding next_token
next_token-append [] rest h = refl
next_token-append (c ∷ tok) rest h = ground (arith, next_token-append tok rest)

cut-none : (b : ℕ) (s : Bytes) → all (λ c. not (c == b)) s ≡ true → cut b s ≡ none
unfolding cut
cut-none b [] h = refl
cut-none b (c ∷ s) h = ground (arith, cut-none b s)

one_of :
    (a one b two c three g : Bool)
    → (one ≡ true → g ≡ true)
    → (two ≡ true → g ≡ true)
    → (three ≡ true → g ≡ true)
    → (a && one || (b && two || c && three)) ≡ true
    → g ≡ true
one_of a one b two c three g p q r h = ground arith

space_blank :
    (a b : ℕ)
    → (is_space2 a b' ' ≡ false)
      × (is_space2 b' ' b ≡ false)
      × (is_space3 a b b' ' ≡ false)
      × (is_space3 a b' ' b ≡ false)
      × (is_space3 b' ' a b ≡ false)
unfolding is_space2 is_space3
space_blank a b = (ground arith, ground arith, ground arith, ground arith, ground arith)

-- White space that reaches over a blank covers what stands behind the blank.
is_all_space-behind :
    (xs key : Bytes) → is_all_space (xs ++ b' ' ∷ key) ≡ true → is_all_space key ≡ true
unfolding is_all_space
is_all_space-behind [] [] h = refl
is_all_space-behind [] (a ∷ []) h = ground (arith, space_blank a a)
is_all_space-behind [] (a ∷ b ∷ s) h = ground (arith, space_blank a b)
is_all_space-behind (x ∷ []) [] h = refl
is_all_space-behind (x ∷ []) (a ∷ s) h =
    one_of (is_space x) (is_all_space (b' ' ∷ a ∷ s)) false false false false (is_all_space (a ∷ s))
      (is_all_space-behind [] (a ∷ s)) (λ e. absurd (ground arith)) (λ e. absurd (ground arith))
      (ground (arith, space_blank x a))
is_all_space-behind (x ∷ y ∷ []) key h =
    one_of (is_space x) (is_all_space (y ∷ b' ' ∷ key)) (is_space2 x y) (is_all_space (b' ' ∷ key))
      false false (is_all_space key) (is_all_space-behind (y ∷ []) key) (is_all_space-behind [] key)
      (λ e. absurd (ground arith)) (ground (arith, space_blank x y))
is_all_space-behind (x ∷ y ∷ z ∷ xs) key h =
    one_of (is_space x) (is_all_space (y ∷ z ∷ xs ++ b' ' ∷ key)) (is_space2 x y)
      (is_all_space (z ∷ xs ++ b' ' ∷ key)) (is_space3 x y z) (is_all_space (xs ++ b' ' ∷ key))
      (is_all_space key) (is_all_space-behind (y ∷ z ∷ xs) key) (is_all_space-behind (z ∷ xs) key)
      (is_all_space-behind xs key) h

cut_space-cons :
    (c : ℕ) (s : Bytes) → is_all_space (c ∷ s) ≡ false → cut_space s ≡ s → cut_space (c ∷ s) ≡ c ∷ s
unfolding cut_space
cut_space-cons c s h e = rw (cut_space, h, e) refl

is_all_space_behind :
    (xs key : Bytes) → is_all_space key ≡ false → is_all_space (xs ++ b' ' ∷ key) ≡ false
is_all_space_behind xs key h = elim (Bool-cases (is_all_space (xs ++ b' ' ∷ key))) [
  | inl covers ↦ absurd (ground (arith, is_all_space-behind xs key covers))
  | inr word ↦ word
]

cut_space-append :
    (xs key : Bytes)
    → is_all_space key ≡ false
    → cut_space key ≡ key
    → cut_space (xs ++ b' ' ∷ key) ≡ xs ++ b' ' ∷ key
cut_space-append [] key h e = cut_space-cons b' ' key (is_all_space_behind [] key h) e
cut_space-append (x ∷ xs) key h e =
    cut_space-cons x (xs ++ b' ' ∷ key) (is_all_space_behind (x ∷ xs) key h)
      (cut_space-append xs key h e)

is_all_space-cut : (s : Bytes) → s ≢ [] → cut_space s ≡ s → is_all_space s ≡ false
unfolding cut_space
is_all_space-cut [] n e = absurd (n refl)
is_all_space-cut (c ∷ s) n e = ground arith

-- A passphrase that no trimming changes: it does not start with a blank or a tab, nor end with white space.
pub record IsTrimmed (key : Bytes) : Type 0 where
  pub ne_nil : key ≢ []
  pub left : trim_left is_blank key ≡ key
  pub right : cut_space key ≡ key

-- A token of a line, such as a MAC.
abbrev pub IsToken : Bytes → Type 0
IsToken t = all (λ c. not (is_blank c)) t ≡ true

abbrev pub HasNoEquals : Bytes → Type 0
HasNoEquals t = all (λ c. not (c == b'=')) t ≡ true

entry_with-key :
    (mac key vlan : Bytes)
    → key ≢ []
    → entry_with mac key vlan ≡ some (record { mac = lower_text mac; key = key; vlan = vlan })
entry_with-key mac [] vlan n = absurd (n refl)
entry_with-key mac (c ∷ key) vlan n = refl

entry_from_mac :
    (f : ℕ) (vlan mac key : Bytes)
    → IsToken mac
    → HasNoEquals mac
    → IsTrimmed key
    → entry_from (suc f) vlan (mac ++ b' ' ∷ key)
      ≡ some (record { mac = lower_text mac; key = key; vlan = vlan })
unfolding entry_from
entry_from_mac f vlan mac key t n k =
    rw (next_token-append mac key t, entry_from)
      (rw (cut-none b'=' mac n, k.left) (entry_with-key mac key vlan k.ne_nil))

entry_from_vlanid :
    (f : ℕ) (vlan vid rest : Bytes)
    → IsToken vid
    → entry_from (suc f) vlan (codes "vlanid=" ++ (vid ++ b' ' ∷ rest))
      ≡ entry_from f vid (trim_left is_blank rest)
unfolding entry_from bytes_beq
entry_from_vlanid f vlan vid rest t =
    rw (next_token-append (codes "vlanid=" ++ vid) rest t, entry_from) refl

trim_left_token : (t rest : Bytes) → t ≢ [] → IsToken t → trim_left is_blank (t ++ rest) ≡ t ++ rest
unfolding trim_left
trim_left_token [] rest n h = absurd (n refl)
trim_left_token (c ∷ t) rest n h = ground arith

abbrev vlan_line : Bytes → Bytes → Bytes → Bytes
vlan_line vid mac key = codes "vlanid=" ++ (vid ++ b' ' ∷ (mac ++ b' ' ∷ key))

trim_text-vlan_line :
    (vid mac key : Bytes)
    → IsTrimmed key
    → trim_text (vlan_line vid mac key) ≡ vlan_line vid mac key
unfolding trim_text skip_space
trim_text-vlan_line vid mac key k =
    let before = codes "vlanid=" ++ (vid ++ b' ' ∷ mac) in
    let whole : before ++ b' ' ∷ key ≡ vlan_line vid mac key =
      ap (λ t. codes "vlanid=" ++ t) (append_assoc vid _ (b' ' ∷ key)) in
    ap cut_space (sym whole)
    ∙ cut_space-append before key (is_all_space-cut key k.ne_nil k.right) k.right
    ∙ whole

-- A line that names a VLAN, a MAC and a passphrase is read back as the three, whatever bytes the
-- passphrase holds inside. The VLAN and the MAC hold no blank and no tab, the MAC is ASCII, not empty and
-- without an equals sign, and the passphrase is not empty, starts with no blank or tab and ends with no
-- white space, Unicode's included.
pub parse_psk_line-vlanid :
    (vid mac key : Bytes)
    → IsToken vid
    → mac ≢ []
    → IsToken mac
    → HasNoEquals mac
    → all (λ c. ltb c 128) mac ≡ true
    → IsTrimmed key
    → parse_psk_line (codes "vlanid=" ++ (vid ++ b' ' ∷ (mac ++ b' ' ∷ key)))
      ≡ some (record { mac = some (to_lower mac); key = key; vlan = vid })
unfolding parse_psk_line lower_text
parse_psk_line-vlanid vid mac key v m t n ascii k =
    let f = length (codes "anid=" ++ (vid ++ b' ' ∷ (mac ++ b' ' ∷ key))) in
    ap line_entry (trim_text-vlan_line vid mac key k)
    ∙ entry_from_vlanid (suc f) [] vid (mac ++ b' ' ∷ key) v
    ∙ ap (entry_from (suc f) vid) (trim_left_token mac (b' ' ∷ key) m t)
    ∙ entry_from_mac f vid mac key t n k
    ∙ ap (λ low. some (record { mac = low; key = key; vlan = vid })) (rw ascii refl)
