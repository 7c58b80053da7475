-- ===== src/WifiPlane/Service/Routes.antt =====
-- internal/wifiplane/wifiplane.go: which requests reach the kit's writes, and what a commit reloads.
use perch_apd.Base.{
  true, false, ◌⊎◌, inl, inr, Option, none, some, List, [], ◌∷◌, ◌≡◌, ◌≢◌, refl, arith, ◌==◌,
  bytes_eq, if◌then◌else◌, Bytes, codes, Option-cases,
}
use perch_apd.Base.Maps.{is_in_set}
use perch_apd.WifiPlane.Screen.{
  Access, access_none, access_read, access_write, ApplyScreen, ScreenError, screen_apply, params_of,
}
use perch_apd.WifiPlane.Screen.Refused.{MayPass, screen_apply-MayPass}
use perch_apd.WifiPlane.Service.{
  Gate, Methods, serve_write, serve, is_off, read_route, apply_route, is_write_method, reload_from,
  reload_kind,
}

read_route-ne-serve_write :
    (decode : Bytes → Option (List Bytes)) (raw : Bytes) → read_route decode raw ≢ serve_write
unfolding read_route
read_route-ne-serve_write decode raw e = ground arith

apply_route_passes :
    (screen : Option ScreenError) → apply_route screen ≡ serve_write → screen ≡ none
unfolding apply_route
apply_route_passes none e = refl
apply_route_passes (some err) e = absurd (ground arith)

is_off-on : (access : Access) → is_off access ≡ false → access ≢ access_none
unfolding is_off
is_off-on access_none h = cc
is_off-on access_read h = λ e. ground arith
is_off-on access_write h = λ e. ground arith

-- Only with access, and only on an apply that passes the screen or on a confirm, a rollback or an
-- acknowledgement, does a request reach the kit's writes.
serve_gate :
    (m : Methods) (decode_read : Bytes → Option (List Bytes)) (signed : Bytes → Option Bytes)
    (decode : Bytes → Option ApplyScreen) (g : Gate) (method raw : Bytes)
    → serve m decode_read signed decode g method raw ≡ serve_write
    → (is_off g.access ≡ false)
      × (((method == m.apply) ≡ true)
            × (screen_apply signed decode g.configured g.set g.openwrt g.guard raw ≡ none)
          ⊎ ((method == m.apply) ≡ false) × (is_write_method m method ≡ true))
unfolding serve
serve_gate m decode_read signed decode g method raw e =
    let screen = screen_apply signed decode g.configured g.set g.openwrt g.guard raw in
    ground (arith, read_route-ne-serve_write decode_read raw, apply_route_passes screen)

-- A request that reaches the kit's writes came in with access, and it is a confirm, a rollback, an
-- acknowledgement, or an apply. Where the configured access is `write`, such an apply either cannot be
-- read, or it passed the screen: it names nothing of the groups', it carries no digests for a guard that
-- this agent lacks, and the boot guard is in place where it is needed.
pub serve-MayPass :
    (m : Methods) (decode_read : Bytes → Option (List Bytes)) (signed : Bytes → Option Bytes)
    (decode : Bytes → Option ApplyScreen) (g : Gate) (method raw : Bytes)
    → serve m decode_read signed decode g method raw ≡ serve_write
    → (g.access ≢ access_none)
      × ((is_write_method m method ≡ true)
          ⊎ ((method ≡ m.apply)
              × ((g.configured ≢ access_write)
                  ⊎ (decode (params_of raw (signed raw)) ≡ none)
                  ⊎ ((a : ApplyScreen) × (decode (params_of raw (signed raw)) ≡ some a)
                      × MayPass g.set g.openwrt g.guard a))))
serve-MayPass m decode_read signed decode g method raw e =
    let (on, way) = serve_gate m decode_read signed decode g method raw e in
    (
      is_off-on g.access on,
      elim way [
        | inr others ↦ inl others.1
        | inl (same, passed) ↦
            inr ((bytes_eq.beq_iff method m.apply).0 same, judged g.configured passed)
      ],
    )
  where
    judged :
        (acc : Access)
        → screen_apply signed decode acc g.set g.openwrt g.guard raw ≡ none
        → (acc ≢ access_write)
          ⊎ (decode (params_of raw (signed raw)) ≡ none)
          ⊎ ((a : ApplyScreen) × (decode (params_of raw (signed raw)) ≡ some a)
              × MayPass g.set g.openwrt g.guard a)
    judged access_none passed = inl (λ e. ground arith)
    judged access_read passed = inl (λ e. ground arith)
    judged access_write passed = elim (Option-cases (decode (params_of raw (signed raw)))) [
      | inl unread ↦ inr (inl unread)
      | inr (a, read) ↦ inr (
          inr (
            a,
            read,
            (screen_apply-MayPass signed decode g.set g.openwrt g.guard raw a read).0 passed,
          ))
    ]

reload_from_eq :
    (kind : Bytes) (cs : List Bytes)
    → reload_from kind cs ≡ (
        if is_in_set (codes "network") cs
        then codes "network"
        else if is_in_set (codes "wireless") cs
        then codes "wifi"
        else kind)
unfolding reload_from
reload_from_eq kind [] = refl
reload_from_eq kind (c ∷ cs) =
    ground (arith, reload_from_eq kind cs, reload_from_eq (codes "wifi") cs)

-- What a commit reloads, whatever the order of its configs: the network if it is among them, otherwise
-- the Wi-Fi if `wireless` is, otherwise nothing.
pub reload_kind-is_in_set :
    (configs : List Bytes)
    → reload_kind configs ≡ (
        if is_in_set (codes "network") configs
        then codes "network"
        else if is_in_set (codes "wireless") configs
        then codes "wifi"
        else codes "none")
unfolding reload_kind
reload_kind-is_in_set configs = reload_from_eq (codes "none") configs
