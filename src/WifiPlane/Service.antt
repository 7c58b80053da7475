-- ===== src/WifiPlane/Service.antt =====
-- internal/wifiplane/wifiplane.go: the plane's use of the write lock, what a commit reloads, and which
-- requests reach the kit. The kit's method names, its params and its answers are parameters.
pub mod Writers
pub mod Routes
mod Examples
use perch_apd.Base.{
  ℕ, Bool, true, false, not, ◌&&◌, ◌||◌, Option, none, some, List, [], ◌∷◌, ◌++◌, ◌==◌, nat_eq,
  bytes_eq, if◌then◌else◌, Bytes, codes, keep,
}
use perch_apd.ApplyLock
use perch_apd.ApplyLock.{Lock, Hold, AcquireError, plane_holder}
use perch_apd.WifiPlane.Guard.{Status}
use perch_apd.WifiPlane.Screen.{
  Access, access_none, access_read, access_write, ApplyScreen, ScreenError, screen_apply,
}

-- `planeLock`, with the lock that it shares.
pub record PlaneLock : Type 0 where
  pub lock : Lock
  pub hold : Option Hold

-- What `Acquire` says of a refusal.
abbrev reason_or_locked : AcquireError → Bytes
reason_or_locked e = if not (ApplyLock.reason e == []) then ApplyLock.reason e else codes "locked"

-- `planeLock.Acquire`: whether it has the lock, and the reason if it has not.
unfoldable pub acquire : ℕ → Bytes → PlaneLock → PlaneLock × Bool × Bytes
acquire now id pl =
    let (l, r) = ApplyLock.try_acquire now plane_holder id pl.lock in
    elim r [
      | ApplyLock.acquired h ↦ (record { lock = l; hold = some h }, true, [])
      | ApplyLock.refused e ↦ (record pl { lock = l }, false, reason_or_locked e)
    ]

-- `planeLock.Release`.
unfoldable pub release : PlaneLock → PlaneLock
release pl = record { lock = ApplyLock.release pl.hold pl.lock; hold = none }

-- The loop of `reloadKind`.
reload_from : Bytes → List Bytes → Bytes
reload_from kind [] = kind
reload_from kind (c ∷ cs) =
    let wifi = reload_from (codes "wifi") cs in
    let same = reload_from kind cs in
    if c == codes "network" then codes "network" else if c == codes "wireless" then wifi else same

-- `reloadKind`.
unfoldable pub reload_kind : List Bytes → Bytes
unfolding reload_from
reload_kind configs = reload_from (codes "none") configs

-- The configs that `New` lets the plane use.
unfoldable pub allowed : List Bytes → List Bytes
allowed = keep (λ c. c == codes "wireless" || c == codes "network")

-- The effective access: none off OpenWrt.
abbrev pub effective : Bool → Access → Access
effective openwrt access = if openwrt then access else access_none

-- `m.Read`, `m.Apply`, `m.Confirm`, `m.Rollback` and `m.Ack`.
pub record Methods : Type 0 where
  pub read : Bytes
  pub apply : Bytes
  pub confirm : Bytes
  pub rollback : Bytes
  pub ack : Bytes

-- Where `Serve` sends a request: to a refusal, a read, or the kit's `ServeWrite`.
pub data Route : Type 0 where
  plane_off : Route
  capabilities health : Route
  bad_read : Route
  read_configs : List Bytes → Route
  screened : ScreenError → Route
  not_found : Route
  serve_write : Route

is_off : Access → Bool
is_off access_none = true
is_off _ = false

abbrev is_write_method : Methods → Bytes → Bool
is_write_method m method = method == m.confirm || (method == m.rollback || method == m.ack)

-- The read's params: empty or null ones name no configs.
read_route : (Bytes → Option (List Bytes)) → Bytes → Route
read_route decode raw =
    if raw == [] || raw == codes "null"
    then read_configs []
    else elim (decode raw) [ none ↦ bad_read | some configs ↦ read_configs configs ]

apply_route : Option ScreenError → Route
apply_route none = serve_write
apply_route (some e) = screened e

-- What the kit and the device say when a request comes: the access and the configured one, the sections
-- that the groups own, whether the device is OpenWrt, and the boot guard.
pub record Gate : Type 0 where
  pub access : Access
  pub configured : Access
  pub set : List Bytes
  pub openwrt : Bool
  pub guard : Status

-- `Serve`, with JSON's decoding of a read's params, of a signed envelope and of the screen's part.
unfoldable pub serve :
    Methods
    → (Bytes → Option (List Bytes))
    → (Bytes → Option Bytes)
    → (Bytes → Option ApplyScreen)
    → Gate
    → Bytes
    → Bytes
    → Route
unfolding is_off read_route apply_route screen_apply
serve m decode_read signed decode g method raw =
    if is_off g.access
    then plane_off
    else if method == codes "wifi.capabilities"
    then capabilities
    else if method == codes "wifi.health"
    then health
    else if method == m.read
    then read_route decode_read raw
    else if method == m.apply
    then apply_route (screen_apply signed decode g.configured g.set g.openwrt g.guard raw)
    else if is_write_method m method
    then serve_write
    else not_found
