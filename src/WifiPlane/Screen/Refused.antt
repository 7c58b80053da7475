-- ===== src/WifiPlane/Screen/Refused.antt =====
-- internal/wifiplane/screen.go: what an apply that passes the screen leaves alone.
use perch_apd.Base.{
  Bool, true, false, ◌&&◌, ◌⊎◌, ◌↔◌, Option, none, some, List, [], ◌∷◌, ◌≡◌, ◌≢◌, refl, arith,
  bytes_eq, Bytes, length, All, ltb,
}
use perch_apd.WifiPlane.Guard.{Status, installed, self_installed, missing}
use perch_apd.WifiPlane.Screen.{
  is_missing, access_write, Op, ApplyScreen, is_shared, groups_name, check, check_names, check_op,
  check_ops, check_ledger, hits_of, screen_params, screen_apply, params_of,
}

module _ (set : List Bytes) where
  -- A section of this config is none of the groups'.
  abbrev pub IsFree : Bytes → Bytes → Type 0
  IsFree config name = (is_shared config && groups_name set name) ≡ false

  abbrev pub IsFreeOp : Op → Type 0
  IsFreeOp op =
      IsFree op.config op.section
      × IsFree op.config op.rename_to
      × All (IsFree op.config) op.sections

  -- Nothing that the apply names is the groups'.
  abbrev pub IsFreeApply : ApplyScreen → Type 0
  IsFreeApply a = All IsFreeOp a.ops × All (λ (e : Bytes × Bytes). IsFree e.0 e.1) a.ledger

  check-nil :
      (config name : Bytes) (hits : List Bytes)
      → (check set config name hits ≡ []) ↔ ((hits ≡ []) × IsFree config name)
  unfolding check
  check-nil config name [] = ground arith
  check-nil config name (h ∷ hits) = ground arith

  check_names-nil :
      (config : Bytes) (ns hits : List Bytes)
      → (check_names set config ns hits ≡ []) ↔ ((hits ≡ []) × All (IsFree config) ns)
  unfolding check_names
  check_names-nil config [] hits = ground arith
  check_names-nil config (n ∷ ns) hits =
      ground (arith, check_names-nil config ns (check set config n hits), check-nil config n hits)

  check_op-nil :
      (op : Op) (hits : List Bytes) → (check_op set op hits ≡ []) ↔ ((hits ≡ []) × IsFreeOp op)
  unfolding check_op
  check_op-nil op hits =
      let one = check set op.config op.section hits in
      let two = check set op.config op.rename_to one in
      ground (
        arith,
        check_names-nil op.config op.sections two,
        check-nil op.config op.rename_to one,
        check-nil op.config op.section hits,
      )

  check_ops-nil :
      (ops : List Op) (hits : List Bytes)
      → (check_ops set ops hits ≡ []) ↔ ((hits ≡ []) × All IsFreeOp ops)
  unfolding check_ops
  check_ops-nil [] hits = ground arith
  check_ops-nil (op ∷ ops) hits =
      ground (arith, check_ops-nil ops (check_op set op hits), check_op-nil op hits)

  check_ledger-nil :
      (l : List (Bytes × Bytes)) (hits : List Bytes)
      → (check_ledger set l hits ≡ [])
        ↔ ((hits ≡ []) × All (λ (e : Bytes × Bytes). IsFree e.0 e.1) l)
  unfolding check_ledger
  check_ledger-nil [] hits = ground arith
  check_ledger-nil ((config, n) ∷ l) hits =
      ground (arith, check_ledger-nil l (check set config n hits), check-nil config n hits)

  hits_of-nil : (a : ApplyScreen) → (hits_of set a ≡ []) ↔ IsFreeApply a
  unfolding hits_of
  hits_of-nil a =
      ground (arith, check_ledger-nil a.ledger (check_ops set a.ops []), check_ops-nil a.ops [])

no_hits : (hits : List Bytes) → (ltb 0 (length hits) ≡ false) ↔ (hits ≡ [])
no_hits [] = ground arith
no_hits (h ∷ hits) = ground arith

is_missing_iff : (g : Status) → (is_missing g ≡ false) ↔ (g ≢ missing)
unfolding is_missing
is_missing_iff installed = (λ h. ground arith, λ h. refl)
is_missing_iff self_installed = (λ h. ground arith, λ h. refl)
is_missing_iff missing = (λ h. cc, λ h. absurd (h refl))

-- What the plane lets through to the kit.
abbrev pub MayPass : List Bytes → Bool → Status → ApplyScreen → Type 0
MayPass set openwrt guard a =
    (a.psk_digests ≡ [])
    × IsFreeApply set a
    × ((a.dry_run ≡ true) ⊎ (openwrt ≡ false) ⊎ (guard ≢ missing))

screen_params-MayPass :
    (set : List Bytes) (openwrt : Bool) (guard : Status) (a : ApplyScreen)
    → (screen_params set openwrt guard a ≡ none) ↔ MayPass set openwrt guard a
unfolding screen_params
screen_params-MayPass set openwrt guard a =
    ground (
      arith,
      no_hits a.psk_digests,
      no_hits (hits_of set a),
      hits_of-nil set a,
      is_missing_iff guard,
    )

-- With write access, an apply that can be read passes the screen exactly if it carries no digests for a
-- guard that this agent lacks, none of the sections that it names in wireless or network, its renames and
-- its ledger included, is one that the groups own or a name that they create, and it is a dry run, or the
-- device is no OpenWrt, or the boot guard is in place. A signed apply is judged by its payload.
pub screen_apply-MayPass :
    (signed : Bytes → Option Bytes) (decode : Bytes → Option ApplyScreen) (set : List Bytes)
    (openwrt : Bool) (guard : Status) (raw : Bytes) (a : ApplyScreen)
    → decode (params_of raw (signed raw)) ≡ some a
    → (screen_apply signed decode access_write set openwrt guard raw ≡ none)
      ↔ MayPass set openwrt guard a
unfolding screen_apply
screen_apply-MayPass signed decode set openwrt guard raw a read =
    rw read (screen_params-MayPass set openwrt guard a)
