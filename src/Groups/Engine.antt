-- ===== src/Groups/Engine.antt =====
-- internal/groups/engine.go: the engine's state, and its operations. The file system, the reload
-- command and the clock are inputs of each operation (`Env`): what succeeds, and what is read.
pub mod Apply
pub mod Window
use perch_apd.Base.{
  ℕ, zero, suc, ◌+◌, Bool, true, false, not, ◌&&◌, ◌||◌, Option, none, some, List, [], ◌∷◌, ◌++◌,
  ◌==◌, nat_eq, bytes_eq, ltb, if◌then◌else◌, Bytes, codes,
}
use perch_apd.Base.Int.{ℤ, pos, negsuc, int_eq}
use perch_apd.Base.Text.{itoa}
use perch_apd.ApplyLock
use perch_apd.ApplyLock.{Hold, Lock, groups_holder}
use perch_apd.Groups.Ledger.{Ledger}
use perch_apd.Groups.Plan.{Issue}
use perch_apd.Groups.Psk.{Dir}

pub data ApplyState : Type 0 where
  pending_confirm noop : ApplyState

-- `ApplyResult`; a deadline is in seconds.
pub record ApplyResult : Type 0 where
  pub revision : ℤ
  pub state : ApplyState
  pub deadline : ℕ
  pub trunk : Bytes
  pub bridge : Bytes
  pub converted : Bool
  pub managed : List Bytes
  pub issues : List Issue

pub record Pending : Type 0 where
  pub revision : ℤ
  pub deadline : ℕ
  pub ledger : Ledger
  pub network : Bool
  pub binding_keys : List Bytes
  pub result : ApplyResult

-- The reasons of a rollback, without the errors' texts.
pub data Cause : Type 0 where
  no_confirm window_passed write_wireless_failed write_network_failed reload_failed unsafe_key :
      Cause

pub record Rollback : Type 0 where
  pub revision : ℤ
  pub at : ℕ
  pub cause : Cause

-- `state`, which state.json keeps.
pub record Saved : Type 0 where
  pub applied_revision : ℤ
  pub ledger : Ledger
  pub pending : Option Pending
  pub last_rollback : Option Rollback
  pub trunk : Bytes

-- The files: a configuration is missing (`none`) or has a content; `saved_*` are the rollback
-- copies, and `state` is state.json.
pub record Files : Type 0 where
  pub wireless : Option Bytes
  pub network : Option Bytes
  pub saved_wireless : Option Bytes
  pub saved_network : Option Bytes
  pub state : Saved

-- A call of `Options.Wrote`: the contents that an apply or its rollback wrote. The code passes their
-- hashes on.
pub record Written : Type 0 where
  pub revision : ℤ
  pub wireless : Option Bytes
  pub network : Option Bytes

-- `timer` is the revision that the armed timer would roll back. `reloads` are the reloads asked for,
-- the newest first: true for the network's. `written` are the calls of `Wrote`, in the same order.
pub record Engine : Type 0 where
  pub st : Saved
  pub timer : Option ℤ
  pub hold : Option Hold
  pub lock : Lock
  pub files : Files
  pub reloads : List Bool
  pub written : List Written

-- What the operating system does during one operation.
pub record Env : Type 0 where
  pub now : ℕ
  pub luci_pending : Bool
  pub uncommitted : Bool
  -- A configuration can be read, where it is not missing.
  pub reads_wireless : Bool
  pub reads_network : Bool
  -- `DetectTrunk`.
  pub detected : Option Bytes
  -- The atomic writes that succeed: of the rollback copies, the configurations, their restoring and
  -- state.json.
  pub saves_wireless : Bool
  pub saves_network : Bool
  pub writes_wireless : Bool
  pub writes_network : Bool
  pub restores_wireless : Bool
  pub restores_network : Bool
  pub writes_state : Bool
  pub reloads : Bool
  -- hostapd's PSK files.
  pub psk : Option Dir

-- `applyID`.
unfoldable pub apply_id : ℤ → Bytes
unfolding itoa
apply_id (pos n) = codes "groups-" ++ itoa n
apply_id (negsuc n) = codes "groups--" ++ itoa (suc n)

-- `persistLocked`.
unfoldable pub persist : Env → Engine → Engine
persist v e = record e {
  files = record (e.files) { state = if v.writes_state then e.st else e.files.state };
}

-- `releaseLocked`.
unfoldable pub release_hold : Engine → Engine
release_hold e = record e { lock = ApplyLock.release e.hold e.lock; hold = none }

-- Nothing written is not told.
tell : ℤ → Option Bytes → Option Bytes → List Written → List Written
tell revision none none calls = calls
tell revision w n calls = record { revision = revision; wireless = w; network = n } ∷ calls

-- `wrote`.
unfoldable pub wrote : ℤ → Option Bytes → Option Bytes → Engine → Engine
unfolding tell
wrote revision w n e = record e { written = tell revision w n e.written }

-- A copy that is missing, or that cannot be written, is not restored.
abbrev restored_copy : Bool → Option Bytes → Option Bytes
restored_copy true copy = copy
restored_copy false copy = none

restored : Bool → Option Bytes → Option Bytes → Option Bytes
restored ok none content = content
restored ok (some b) content = if ok then some b else content

-- `restore` of both configurations: a copy that is missing, or a write that fails, leaves the
-- configuration as it is.
unfoldable pub restore : Env → Files → Files
unfolding restored
restore v f = record f {
  wireless = restored v.restores_wireless f.saved_wireless f.wireless;
  network = restored v.restores_network f.saved_network f.network;
}

-- `reload`, which tells whether the command succeeded.
unfoldable pub reload : Bool → Engine → Engine
reload network e = record e { reloads = network ∷ e.reloads }

-- `rollbackLocked` of a pending apply.
roll_back_pending : Env → Cause → Pending → Engine → Engine
roll_back_pending v cause p e =
    let restored_files = record e { timer = none; files = restore v e.files } in
    let told =
      wrote p.revision (restored_copy v.restores_wireless e.files.saved_wireless)
        (restored_copy v.restores_network e.files.saved_network) restored_files in
    let reloaded = reload true told in
    let closed = record reloaded {
      st = record (reloaded.st) {
        last_rollback = some (record { revision = p.revision; at = v.now; cause = cause });
        pending = none;
      };
    } in
    release_hold (persist v closed)

unfoldable pub roll_back : Env → Cause → Engine → Engine
unfolding roll_back_pending persist release_hold restore wrote reload
roll_back v cause e = elim e.st.pending [ none ↦ e | some p ↦ roll_back_pending v cause p e ]

-- `armLocked`: the timer fires for the revision that is pending now.
unfoldable pub arm : Engine → Engine
arm e = record e { timer = elim e.st.pending [ none ↦ none | some p ↦ some p.revision ] }

-- The timer's function, for the revision that it was armed for.
unfoldable pub fire : Env → ℤ → Engine → Engine
unfolding roll_back
fire v revision e = elim e.st.pending [
  | none ↦ e
  | some p ↦ if p.revision == revision then roll_back v no_confirm e else e
]

-- The lock that `Start` takes again, where it is free.
start_hold : Env → Engine → Pending → Engine
start_hold v e p =
    let (l, r) = ApplyLock.try_acquire v.now groups_holder (apply_id p.revision) e.lock in
    elim r [ ApplyLock.acquired h ↦ record e { lock = l; hold = some h } | ApplyLock.refused _ ↦ e ]

start_pending : Env → Pending → Engine → Engine
start_pending v p e =
    let held = start_hold v e p in
    if ltb v.now p.deadline then arm held else roll_back v window_passed held

-- `Start`.
unfoldable pub start : Env → Engine → Engine
unfolding start_pending start_hold roll_back arm
start v e = elim e.st.pending [ none ↦ e | some p ↦ start_pending v p e ]

-- A restart of the daemon: `New` loads state.json, and the lock is a new one.
unfoldable pub restart : Engine → Engine
restart e = record e { st = e.files.state; timer = none; hold = none; lock = ApplyLock.new }
