-- ===== src/WifiPlane/Expect.antt =====
-- internal/wifiplane/health.go: `expectFrom`, what must run after an apply.
pub mod Covered
use perch_apd.Base.{
  ℕ, Bool, true, false, not, ◌&&◌, ◌||◌, Option, none, some, List, [], ◌∷◌, ◌==◌, bytes_eq,
  if◌then◌else◌, Bytes, codes, any, keep, map,
}
use perch_apd.Base.Text.{trim_space, to_lower}
use perch_apd.Base.Maps.{at_key, put_key, is_in_set, put_in_set}
use perch_apd.Groups.Kit.{Kit, str, of_type}
use perch_apd.WifiPlane.Health.{ExpBss, Expectation}

-- `Expect`, the controller's list.
pub record Expect : Type 0 where
  pub bss : List Bytes
  pub radios : List Bytes

-- The values of `disabled` that switch a section off.
abbrev off_words : List Bytes
off_words = codes "1" ∷ codes "on" ∷ codes "true" ∷ codes "yes" ∷ codes "enabled" ∷ []

abbrev put_all : List Bytes → List Bytes → List Bytes
put_all [] s = s
put_all (r ∷ rs) s = put_in_set r (put_all rs s)

abbrev pub expect_bss : Bytes → ExpBss → Expectation → Expectation
expect_bss name b e = record e { bss = put_key name b e.bss; radios = put_all b.radios e.radios }

-- The expectation, with every interface of the configuration.
pub record Walk : Type 0 where
  pub e : Expectation
  pub every : List (Bytes × ExpBss)

module _ (k : Kit) where
  open k use {Section, name, items, get}

  unfoldable pub enabled : Section → Bool
  unfolding trim_space to_lower str
  enabled s = not (is_in_set (to_lower (trim_space (str k s (codes "disabled")))) off_words)

  -- `v.Items`, of no value none.
  items_of : Section → Bytes → List Bytes
  items_of s n = elim (get s n) [ none ↦ [] | some v ↦ items v ]

  -- The radios that are on.
  unfoldable pub radios_on : List Section → List Bytes
  unfolding enabled
  radios_on cfg = map name (keep enabled (of_type k (codes "wifi-device") cfg))

  -- An access point's interface that is enabled is expected on its live radios.
  expect_live : Bool → Bytes → Bytes → List Bytes → Expectation → Expectation
  expect_live off n ssid [] e = e
  expect_live off n ssid (r ∷ rs) e =
      if off then e else expect_bss n (record { radios = r ∷ rs; ssid = ssid }) e

  bss_of : Section → ExpBss
  bss_of i = record { radios = items_of i (codes "device"); ssid = str k i (codes "ssid") }

  is_access_point : Section → Bool
  is_access_point i = str k i (codes "mode") == [] || str k i (codes "mode") == codes "ap"

  expect_access_point : List Bytes → Section → ExpBss → Expectation → Expectation
  expect_access_point on i b e =
      expect_live (not (enabled i)) (name i) b.ssid (keep (λ r. is_in_set r on) b.radios)
        (record e { ap = put_key (name i) b e.ap })

  -- The body of the loop over the interfaces.
  unfoldable pub iface_step : List Bytes → Section → Walk → Walk
  unfolding bss_of is_access_point expect_access_point items_of enabled expect_live str
  iface_step on i w = record {
    every = put_key (name i) (bss_of i) w.every;
    e = if not (is_access_point i) then w.e else expect_access_point on i (bss_of i) w.e;
  }

  unfoldable pub iface_steps : List Bytes → List Section → Walk → Walk
  unfolding iface_step
  iface_steps on [] w = w
  iface_steps on (i ∷ is) w = iface_steps on is (iface_step on i w)

  abbrev pub nothing : Walk
  nothing = record { e = record { radios = []; bss = []; ap = [] }; every = [] }

  unfoldable pub walk : Option (List Section) → Walk
  unfolding iface_steps radios_on
  walk none = nothing
  walk (some cfg) = iface_steps (radios_on cfg) (of_type k (codes "wifi-iface") cfg) nothing

-- The controller's radios.
unfoldable pub add_radios : List Bytes → Expectation → Expectation
add_radios [] e = e
add_radios (r ∷ rs) e =
    add_radios rs (if r == [] then e else record e { radios = put_in_set r e.radios })

abbrev or_empty : Option ExpBss → ExpBss
or_empty none = record { radios = []; ssid = [] }
or_empty (some b) = b

abbrev pub is_there : Option ExpBss → Bool
is_there none = false
is_there (some b) = true

-- The controller's BSSes, with what the configuration says of them.
unfoldable pub add_listed : List (Bytes × ExpBss) → List Bytes → Expectation → Expectation
add_listed every [] e = e
add_listed every (n ∷ ns) e =
    add_listed every ns (
      if is_there (at_key n e.bss) || n == []
      then e
      else expect_bss n (or_empty (at_key n every)) e)

-- `expectFrom`.
unfoldable pub expect_from : (k : Kit) → Option (List (k.Section)) → Expect → Expectation
unfolding walk add_radios add_listed
expect_from k cfg ex = let w = walk k cfg in add_listed w.every ex.bss (add_radios ex.radios w.e)
