-- ===== src/Groups/Engine/Apply.antt =====
-- internal/groups/engine.go: `Apply` and `Confirm`.
pub mod Ends
pub mod Crash
pub mod Lifecycle
pub mod Promise
use perch_apd.Base.{
  ℕ, zero, suc, ◌+◌, Bool, true, false, not, ◌&&◌, ◌||◌, Option, none, some, List, [], ◌∷◌, ◌++◌,
  ◌==◌, nat_eq, bytes_eq, ltb, if◌then◌else◌, Bytes, codes,
}
use perch_apd.Base.Int.{ℤ, pos, negsuc, int_eq}
use perch_apd.ApplyLock
use perch_apd.ApplyLock.{Hold, Lock, groups_holder, holder_reason, AcquireError, Acquired}
use perch_apd.Groups.Desired.{
  Desired, Code, Refusal, refuse, busy, uncommitted, config_unreadable, apply_failed, not_pending,
  unsafe_binding, validate,
}
use perch_apd.Groups.Kit.{Kit}
use perch_apd.Groups.Draft.{Outcome, ok, refused}
use perch_apd.Groups.Plan.{Plan}
use perch_apd.Groups.Assemble.{plan}
use perch_apd.Groups.Psk.{check_psk_files}
use perch_apd.Groups.Engine.{
  ApplyState, pending_confirm, noop, ApplyResult, Pending, Cause, write_wireless_failed,
  write_network_failed, reload_failed, unsafe_key, Saved, Files, Engine, Env, apply_id, persist,
  release_hold, wrote, reload, roll_back, arm,
}

abbrev pub busy_for : Bytes → Refusal
busy_for r = record { code = busy; reason = r }

pub data Reply : Type 0 where
  applied : ApplyResult → Reply
  failed : Refusal → Reply

-- An attempt under the lock: it ended early, and the lock is released, or it opened the window, which
-- keeps the lock.
pub data Attempt : Type 0 where
  early window : Engine → Reply → Attempt

-- The confirm window in seconds: the default for 0, and within the bounds.
unfoldable pub confirm_window : ℤ → ℕ
confirm_window (negsuc n) = 30
confirm_window (pos n) =
    if n == 0 then 120 else if ltb n 30 then 30 else if ltb 600 n then 600 else n

abbrev content : Option Bytes → Bytes
content none = []
content (some b) = b

-- The new contents of the configurations that change.
pub record Changes : Type 0 where
  pub wireless : Option Bytes
  pub network : Option Bytes

abbrev pub is_changed : Option Bytes → Bool
is_changed none = false
is_changed (some _) = true

abbrev changed_to : Bytes → Bytes → Option Bytes
changed_to new old = if new == old then none else some new

abbrev or_keep : Option Bytes → Option Bytes → Option Bytes
or_keep none old = old
or_keep (some b) old = some b

opened : Env → Hold → Pending → Engine → Engine
opened v h p e = persist v (record e { st = record (e.st) { pending = some p }; hold = some h })

-- Behind the writes: the call of `Wrote`, the reload, and the timer.
finish_window : Env → ApplyResult → Changes → Engine → Attempt
finish_window v out c e =
    let reloaded = reload (is_changed c.network) (wrote out.revision c.wireless c.network e) in
    if v.reloads
    then window (arm reloaded) (applied out)
    else window (roll_back v reload_failed reloaded) (failed (refuse apply_failed))

write_network : Env → ApplyResult → Changes → Engine → Attempt
write_network v out c e =
    if is_changed c.network && not v.writes_network
    then window (roll_back v write_network_failed e) (failed (refuse apply_failed))
    else finish_window v out c
        (record e { files = record (e.files) { network = or_keep c.network e.files.network } })

write_wireless : Env → ApplyResult → Changes → Engine → Attempt
write_wireless v out c e =
    if is_changed c.wireless && not v.writes_wireless
    then window (roll_back v write_wireless_failed e) (failed (refuse apply_failed))
    else write_network v out c
        (record e { files = record (e.files) { wireless = or_keep c.wireless e.files.wireless } })

-- The detected trunk, where the controller does not name one.
detected_port : Env → Bytes → Bytes
detected_port v trunk = if trunk == [] || trunk == codes "auto" then content v.detected else []

-- The deferred release of an attempt that opened no window.
closed : Hold → Attempt → Engine × Reply
closed h (early e r) = (record e { lock = ApplyLock.release (some h) e.lock }, r)
closed h (window e r) = (e, r)

module _ (k : Kit) (digest : Bytes → Bytes) (parse : Bytes → Option (List (k.Section)))
    (render : List (k.Section) → Bytes) where
  open k use {Section}

  -- `readConfig`: a missing file is empty.
  read_config : Bool → Option Bytes → Option (List Section)
  read_config reads none = parse []
  read_config reads (some b) = if reads then parse b else none

  result_of : Desired → Plan k digest → ApplyState → ℕ → ApplyResult
  result_of d p s deadline = record {
    revision = d.revision;
    state = s;
    deadline = deadline;
    trunk = p.trunk;
    bridge = p.bridge;
    converted = p.converted;
    managed = p.managed;
    issues = p.issues;
  }

  pending_of : Desired → Plan k digest → Changes → ApplyResult → Pending
  pending_of d p c out = record {
    revision = d.revision;
    deadline = out.deadline;
    ledger = p.ledger;
    network = is_changed c.network;
    binding_keys = p.binding_keys;
    result = out;
  }

  -- The pending apply and its hold, saved before the first write.
  open_window : Env → Desired → Hold → Plan k digest → Changes → Engine → Attempt
  unfolding pending_of
  open_window v d h p c e =
      let out = result_of d p pending_confirm (v.now + confirm_window d.confirm_seconds) in
      write_wireless v out c (opened v h (pending_of d p c out) e)

  -- The rollback copies.
  save_copies : Env → Desired → Hold → Plan k digest → Changes → Engine → Attempt
  save_copies v d h p c e =
      let e1 = record e {
        files = record (e.files) { saved_wireless = some (content e.files.wireless) };
      } in
      let e2 = record e1 {
        files = record (e1.files) { saved_network = some (content e.files.network) };
      } in
      if not v.saves_wireless
      then early e (failed (refuse apply_failed))
      else if not v.saves_network
      then early e1 (failed (refuse apply_failed))
      else open_window v d h p c e2

  keep_state : Env → Desired → Plan k digest → Engine → Attempt
  keep_state v d p e =
      early
        (persist v
          (record e { st = record (e.st) { applied_revision = d.revision; ledger = p.ledger } }))
        (applied (result_of d p noop 0))

  planned : Env → Desired → Hold → List Section → List Section → Plan k digest → Engine → Attempt
  planned v d h wc nc p e =
      let trunk = if p.trunk == [] then e.st.trunk else p.trunk in
      let e1 = record e { st = record (e.st) { trunk = trunk } } in
      let c : Changes = record {
        wireless = changed_to (render p.wireless) (render wc);
        network = changed_to (render p.network) (render nc);
      } in
      if not (is_changed c.wireless) && not (is_changed c.network)
      then keep_state v d p e1
      else save_copies v d h p c e1

  -- `Apply` between the lock and its release.
  pub attempt : Env → Desired → Hold → Engine → Attempt
  attempt v d h e =
      if v.luci_pending
      then early e (failed (busy_for (codes "luci_pending")))
      else if v.uncommitted
      then early e (failed (refuse uncommitted))
      else elim (read_config v.reads_wireless e.files.wireless) [
        | none ↦ early e (failed (refuse config_unreadable))
        | some wc ↦ elim (read_config v.reads_network e.files.network) [
          | none ↦ early e (failed (refuse config_unreadable))
          | some nc ↦ elim (plan k digest wc nc d (detected_port v d.trunk) e.st.ledger) [
            | refused r ↦ early e (failed r)
            | ok p ↦ planned v d h wc nc p e
          ]
        ]
      ]

  under_lock : Env → Desired → Engine → Lock × Acquired → Engine × Reply
  under_lock v d e (l, ApplyLock.refused err) = (e, failed (busy_for (ApplyLock.reason err)))
  under_lock v d e (l, ApplyLock.acquired h) = closed h (attempt v d h (record e { lock = l }))

  unfoldable pub apply : Env → Desired → Engine → Engine × Reply
  unfolding under_lock closed attempt planned keep_state save_copies open_window pending_of opened
      result_of read_config detected_port write_wireless write_network finish_window confirm_window
      persist arm wrote reload roll_back
  apply v d e = elim e.st.pending [
    | some p ↦
        if p.revision == d.revision
        then (e, applied p.result)
        else (e, failed (busy_for (holder_reason groups_holder)))
    | none ↦ elim (validate d) [
      | some r ↦ (e, failed r)
      | none ↦
          under_lock v d e (ApplyLock.try_acquire v.now groups_holder (apply_id d.revision) e.lock)
    ]
  ]

-- `Confirm` of the pending apply.
confirm_pending : Pending → Env → Engine → Engine
confirm_pending p v e =
    let kept = record e {
      timer = none;
      st = record (e.st) { applied_revision = p.revision; ledger = p.ledger; pending = none };
    } in
    let released = release_hold (persist v kept) in
    record released {
      files = record (released.files) { saved_wireless = none; saved_network = none };
    }

unfoldable pub confirm : (Bytes → Bytes) → Env → ℤ → Engine → Engine × Option Refusal
unfolding confirm_pending persist release_hold roll_back
confirm digest v revision e = elim e.st.pending [
  | none ↦ if e.st.applied_revision == revision then (e, none) else (e, some (refuse not_pending))
  | some p ↦
      if not (p.revision == revision)
      then (e, some (refuse not_pending))
      else if check_psk_files digest v.psk p.binding_keys
      then (roll_back v unsafe_key e, some (refuse unsafe_binding))
      else (confirm_pending p v e, none)
]
