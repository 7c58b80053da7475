-- ===== src/Config/Sound.antt =====
-- internal/config/config.go: bounds on what `Load` gives, whatever the file holds.
use perch_apd.Base.{
  ℕ, ◌≤◌, true, false, ◌||◌, Option, none, some, List, [], ◌∷◌, ◌++◌, ◌≡◌, ◌≢◌, refl, subst, arith,
  ◌==◌, nat_eq, bytes_eq, if◌then◌else◌, if-both, if-cases, Bytes, codes, All, All-append,
  option-both, not, any, Bool-cases, ◌⊎◌, inl, inr,
}
use perch_apd.Base.Int.{ℤ, pos, negsuc}
use perch_apd.Base.Text.{trim_space, trim, trim_left, trim_right, is_space}
use perch_apd.Uci.File.{File, get, get_list}
use perch_apd.Base.Number.{atoi}
use perch_apd.Config.{
  Config, UrlKit, Options, Lists, configurable, is_listed, default_confirm_max, min_confirm_max,
  max_confirm_max, section_name, get_or, controller_of, allow_names, allow_step, allow_loop,
  keys_from, parse_seconds, clamped, read_config, load,
}

clamped-within : (lo hi : ℕ) (n : ℤ) → lo ≤ hi → (lo ≤ clamped lo hi n) × (clamped lo hi n ≤ hi)
clamped-within lo hi (pos n) h = ground arith
clamped-within lo hi (negsuc n) h = ground arith

parse_seconds-within :
    (limit : ℕ) (v : Bytes) (def lo hi : ℕ)
    → lo ≤ def
    → def ≤ hi
    → (lo ≤ parse_seconds limit v def lo hi) × (parse_seconds limit v def lo hi ≤ hi)
unfolding parse_seconds
parse_seconds-within limit v def lo hi low high =
    option-both (λ (n : ℕ). (lo ≤ n) × (n ≤ hi)) def (clamped lo hi) (atoi limit (trim_space v))
      (low, high) (λ n. clamped-within lo hi n (omega arith))

-- No string twice.
abbrev pub AllApart : List Bytes → Type 0
AllApart [] = Unit
AllApart (x ∷ xs) = (is_listed xs x ≡ false) × AllApart xs

abbrev pub AllConfigurable : List Bytes → Type 0
AllConfigurable = All (λ n. is_listed configurable n ≡ true)

is_listed-append :
    (xs : List Bytes) (n m : Bytes) → is_listed (xs ++ n ∷ []) m ≡ (is_listed xs m || n == m)
is_listed-append [] n m = ground arith
is_listed-append (x ∷ xs) n m = ground (arith, is_listed-append xs n m)

AllApart-append :
    (xs : List Bytes) (n : Bytes) → is_listed xs n ≡ false → AllApart xs → AllApart (xs ++ n ∷ [])
AllApart-append [] n h a = (refl, tt)
AllApart-append (x ∷ xs) n h a = (
  ground (arith, is_listed-append xs n x, a.0, bytes_eq.beq_iff x n, bytes_eq.beq_iff n x),
  AllApart-append xs n (ground arith) a.1,
)

abbrev IsAllowed : List Bytes × List Bytes → Type 0
IsAllowed r = AllConfigurable r.0 × AllApart r.0

allow_step-IsAllowed :
    (n : Bytes) (r : List Bytes × List Bytes) → IsAllowed r → IsAllowed (allow_step n r)
unfolding allow_step
allow_step-IsAllowed n (allow, ignored) h =
    if-both IsAllowed (allow, ignored) _ (n == []) h
      (if-cases IsAllowed (if is_listed allow n then allow else allow ++ n ∷ [], ignored)
        (allow, ignored ++ n ∷ []) (is_listed configurable n)
        (λ fit.
          if-cases (λ (l : List Bytes). IsAllowed (l, ignored)) allow (allow ++ n ∷ [])
            (is_listed allow n) (λ there. h)
            (λ new. (
              All-append (λ m. is_listed configurable m ≡ true) allow (n ∷ []) (h.0, (fit, tt)),
              AllApart-append allow n new h.1,
            )))
        (λ other. h))

allow_loop-IsAllowed :
    (names : List Bytes) (r : List Bytes × List Bytes)
    → IsAllowed r
    → IsAllowed (allow_loop names r)
unfolding allow_loop
allow_loop-IsAllowed [] r h = h
allow_loop-IsAllowed (name ∷ names) r h =
    allow_loop-IsAllowed names _ (allow_step-IsAllowed (trim_space name) r h)

List-cases : (s : Bytes) → (s ≡ []) ⊎ ((d : ℕ) × (r : Bytes) × (s ≡ d ∷ r))
List-cases [] = inl refl
List-cases (d ∷ r) = inr (d, r, refl)

-- A text with a byte that is no white space.
abbrev pub IsWord : Bytes → Type 0
IsWord s = any (λ c. not (is_space c)) s ≡ true

-- What the daemon may rely on.
pub record IsSound (c : Config) : Type 0 where
  pub allow_configurable : AllConfigurable c.wifi_config_allow
  pub allow_apart : AllApart c.wifi_config_allow
  pub confirm_low : min_confirm_max ≤ c.wifi_config_confirm_max
  pub confirm_high : c.wifi_config_confirm_max ≤ max_confirm_max
  pub keys_IsWord : All IsWord c.update_keys

trim_right-IsWord : (s : Bytes) → trim_right is_space s ≢ [] → IsWord (trim_right is_space s)
unfolding trim_right
trim_right-IsWord [] n = absurd (n refl)
trim_right-IsWord (c ∷ s) n = elim (List-cases (trim_right is_space s)) [
  | inl ends ↦ elim (Bool-cases (is_space c)) [
    | inl blank ↦ absurd (n (rw (trim_right, ends, blank) refl))
    | inr word ↦ rw (trim_right, ends, word) (ground arith)
  ]
  | inr (d, r, more) ↦
      let rest : IsWord (d ∷ r) =
        subst IsWord more (trim_right-IsWord s (λ e. ground (arith, e, more))) in
      rw (trim_right, more) (ground (arith, rest))
]

trim_space-IsWord : (s : Bytes) → trim_space s ≢ [] → IsWord (trim_space s)
unfolding trim_space trim
trim_space-IsWord s = trim_right-IsWord (trim_left is_space s)

keys_from-IsWord : (ks : List Bytes) → All IsWord (keys_from ks)
keys_from-IsWord [] = tt
keys_from-IsWord (k ∷ ks) =
    if-cases (All IsWord) (keys_from ks) (trim_space k ∷ keys_from ks) (trim_space k == [])
      (λ blank. keys_from-IsWord ks)
      (λ word. (
        trim_space-IsWord k (λ e. ground (arith, bytes_eq.beq_iff (trim_space k) [])),
        keys_from-IsWord ks,
      ))

abbrev OnSome : (Config → Type 0) → Option Config → Type 0
OnSome P none = Unit
OnSome P (some c) = P c

read_config-IsSound :
    (kit : UrlKit) (limit : ℕ) (opts : Options) (lists : Lists)
    → OnSome IsSound (read_config kit limit opts lists)
unfolding read_config
read_config-IsSound kit limit opts lists =
    let allow = allow_loop-IsAllowed (allow_names opts lists) ([], []) (tt, tt) in
    let seconds =
      parse_seconds-within limit (get_or opts (codes "wifi_config_confirm_max") [])
        default_confirm_max min_confirm_max max_confirm_max (omega arith) (omega arith) in
    option-both (OnSome IsSound) none _ (controller_of kit opts) tt (λ u. record {
      allow_configurable = allow.0;
      allow_apart = allow.1;
      confirm_low = seconds.0;
      confirm_high = seconds.1;
      keys_IsWord = keys_from-IsWord (lists (codes "update_key"));
    })

-- Whatever the file holds, the settings that `Load` gives let the plane use no config but wireless and
-- network, each once, keep the confirm window's cap between 30 and 1800 seconds, and hold no update key
-- that is empty or all white space.
pub load-IsSound :
    (kit : UrlKit) (limit : ℕ) (f : File) (c : Config) → load kit limit f ≡ some c → IsSound c
unfolding load
load-IsSound kit limit f c e =
    subst (OnSome IsSound) e
      (read_config-IsSound kit limit (get f section_name) (get_list f section_name))
