-- ===== src/WifiPlane/Expect/Covered.antt =====
-- internal/wifiplane/health.go: what `expectFrom` covers.
use perch_apd.Base.{
  Bool, true, not, ◌||◌, Option, none, some, List, [], ◌∷◌, ◌≡◌, inl, inr, refl, arith, ◌==◌,
  bytes_eq, if◌then◌else◌, Bytes, codes, keep, Bool-cases, if-both,
}
use perch_apd.Base.Maps.{at_key, put_key, is_in_set, put_in_set-is_in_set}
use perch_apd.Groups.Kit.{Kit, of_type}
use perch_apd.WifiPlane.Health.{ExpBss, Expectation}
use perch_apd.WifiPlane.Expect.{
  Expect, expect_bss, put_all, Walk, iface_step, iface_steps, nothing, walk, expect_live, enabled,
  bss_of, is_access_point, expect_access_point, radios_on, add_radios, add_listed, is_there,
  or_empty, expect_from,
}

-- Every radio of an expected BSS is expected.
abbrev pub IsCovered : Expectation → Type 0
IsCovered e =
    (n : Bytes) (b : ExpBss)
    → at_key n e.bss ≡ some b
    → (r : Bytes) → is_in_set r b.radios ≡ true
    → is_in_set r e.radios ≡ true

put_all-is_in_set :
    (r : Bytes) (rs s : List Bytes) → is_in_set r (put_all rs s) ≡ (is_in_set r rs || is_in_set r s)
put_all-is_in_set r [] s = refl
put_all-is_in_set r (q ∷ rs) s =
    ground (arith, put_in_set-is_in_set r q (put_all rs s), put_all-is_in_set r rs s)

pub at_key-put_key {ℓ} :
    {A : Type ℓ} (n k : Bytes) (a : A) (m : List (Bytes × A))
    → at_key n (put_key k a m) ≡ (if k == n then some a else at_key n m)
at_key-put_key n k a [] = refl
at_key-put_key n k a ((j, b) ∷ m) = elim (Bool-cases (j == k)) [
  | inl same ↦ ground (arith, bytes_eq.beq_iff j k)
  | inr apart ↦ ground (
    arith,
    at_key-put_key n k a m,
    bytes_eq.beq_iff j n,
    bytes_eq.beq_iff k n,
    bytes_eq.beq_iff j k,
  )
]

expect_bss-IsCovered :
    (n : Bytes) (b : ExpBss) (e : Expectation) → IsCovered e → IsCovered (expect_bss n b e)
expect_bss-IsCovered n b e c m d found r listed = elim (Bool-cases (n == m)) [
  | inl same ↦ ground (arith, at_key-put_key m n b e.bss, put_all-is_in_set r b.radios e.radios)
  | inr apart ↦ ground (
    arith,
    put_all-is_in_set r b.radios e.radios,
    c m d (ground (arith, at_key-put_key m n b e.bss)) r listed,
  )
]

add_radios-IsCovered :
    (rs : List Bytes) (e : Expectation) → IsCovered e → IsCovered (add_radios rs e)
unfolding add_radios
add_radios-IsCovered [] e c = c
add_radios-IsCovered (r ∷ rs) e c = add_radios-IsCovered rs _ (
    if-both IsCovered e _ (r == []) c (λ m d found q listed.
      ground (arith, put_in_set-is_in_set q r e.radios, c m d found q listed)))

add_listed-IsCovered :
    (every : List (Bytes × ExpBss)) (ns : List Bytes) (e : Expectation)
    → IsCovered e
    → IsCovered (add_listed every ns e)
unfolding add_listed
add_listed-IsCovered every [] e c = c
add_listed-IsCovered every (n ∷ ns) e c = add_listed-IsCovered every ns _ (
    if-both IsCovered e _ (is_there (at_key n e.bss) || n == []) c
      (expect_bss-IsCovered n (or_empty (at_key n every)) e c))

module _ (k : Kit) where
  expect_live-IsCovered :
      (off : Bool) (n ssid : Bytes) (rs : List Bytes) (e : Expectation)
      → IsCovered e
      → IsCovered (expect_live k off n ssid rs e)
  unfolding expect_live
  expect_live-IsCovered off n ssid [] e c = c
  expect_live-IsCovered off n ssid (r ∷ rs) e c =
      if-both IsCovered e _ off c
        (expect_bss-IsCovered n (record { radios = r ∷ rs; ssid = ssid }) e c)

  expect_access_point-IsCovered :
      (on : List Bytes) (i : k.Section) (b : ExpBss) (e : Expectation)
      → IsCovered e
      → IsCovered (expect_access_point k on i b e)
  unfolding expect_access_point
  expect_access_point-IsCovered on i b e c =
      expect_live-IsCovered (not (enabled k i)) (k.name i) b.ssid
        (keep (λ r. is_in_set r on) b.radios) (record e { ap = put_key (k.name i) b e.ap }) c

  iface_steps-IsCovered :
      (on : List Bytes) (is : List (k.Section)) (w : Walk)
      → IsCovered w.e
      → IsCovered (iface_steps k on is w).e
  unfolding iface_steps iface_step
  iface_steps-IsCovered on [] w c = c
  iface_steps-IsCovered on (i ∷ is) w c = iface_steps-IsCovered on is (iface_step k on i w) (
      if-both IsCovered w.e (expect_access_point k on i (bss_of k i) w.e)
        (not (is_access_point k i)) c (expect_access_point-IsCovered on i (bss_of k i) w.e c))

  walk-IsCovered : (cfg : Option (List (k.Section))) → IsCovered (walk k cfg).e
  unfolding walk
  walk-IsCovered none = λ n b found r listed. ground arith
  walk-IsCovered (some cfg) =
      iface_steps-IsCovered (radios_on k cfg) (of_type k (codes "wifi-iface") cfg) (nothing k)
        (λ n b found r listed. ground arith)

-- Whatever the configuration and the controller list, every radio of a BSS that is expected is expected
-- too.
pub expect_from-IsCovered :
    (k : Kit) (cfg : Option (List (k.Section))) (ex : Expect) → IsCovered (expect_from k cfg ex)
unfolding expect_from
expect_from-IsCovered k cfg ex =
    add_listed-IsCovered (walk k cfg).every ex.bss _
      (add_radios-IsCovered ex.radios _ (walk-IsCovered k cfg))
