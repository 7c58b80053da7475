-- ===== src/ApplyLock.antt =====
-- internal/applylock/applylock.go: the access point's one write lock. The lock and its holds are
-- shared pointers, so a hold carries the identity that pointer comparison sees: the number of holds
-- made before it. `sync.Mutex` makes each operation one step.
mod Examples
pub mod Exclusive
use perch_apd.Base.{
  ℕ, suc, Bool, true, false, Option, none, some, List, [], ◌∷◌, ◌++◌, ◌==◌, nat_eq, bytes_eq,
  if◌then◌else◌, Bytes, codes,
}

-- `Holder` is a string; the writers' constants.
abbrev pub groups_holder : Bytes
groups_holder = codes "groups"

abbrev pub plane_holder : Bytes
plane_holder = codes "plane"

abbrev pub update_holder : Bytes
update_holder = codes "update"

-- `Holder.Reason`.
unfoldable pub holder_reason : Bytes → Bytes
holder_reason h = h ++ codes "_pending"

pub record Info : Type 0 where
  pub holder : Bytes
  pub id : Bytes
  pub since : ℕ

pub record Hold : Type 0 where
  pub ident : ℕ
  pub info : Info

-- `made` counts the holds made, for the identity of the next one.
pub record Lock : Type 0 where
  pub cur : Option Hold
  pub made : ℕ

abbrev pub new : Lock
new = record { cur = none; made = 0 }

-- The error of `TryAcquire`: a `BusyError`, or the plain error for an empty holder.
pub data AcquireError : Type 0 where
  busy_error : Info → AcquireError
  empty_holder : AcquireError

pub data Acquired : Type 0 where
  acquired : Hold → Acquired
  refused : AcquireError → Acquired

-- `Reason(err)`: empty for an error that is no `BusyError`.
unfoldable pub reason : AcquireError → Bytes
unfolding holder_reason
reason (busy_error i) = holder_reason i.holder
reason empty_holder = []

acquire_free : ℕ → Bytes → Bytes → Lock → Lock × Acquired
acquire_free now holder id l =
    let h : Hold = record {
      ident = l.made;
      info = record { holder = holder; id = id; since = now };
    } in
    (record { cur = some h; made = suc l.made }, acquired h)

-- `TryAcquire` at the clock's time `now`.
unfoldable pub try_acquire : ℕ → Bytes → Bytes → Lock → Lock × Acquired
unfolding acquire_free
try_acquire now holder id l = if holder == [] then (l, refused empty_holder) else elim l.cur [
  | some h ↦ (l, refused (busy_error h.info))
  | none ↦ acquire_free now holder id l
]

unfoldable pub current : Lock → Option Info
current l = elim l.cur [ none ↦ none | some h ↦ some h.info ]

-- `Busy`: empty while the lock is free.
unfoldable pub busy : Lock → Bytes
unfolding holder_reason
busy l = elim l.cur [ none ↦ [] | some h ↦ holder_reason h.info.holder ]

is_current : Hold → Option Hold → Bool
is_current h none = false
is_current h (some c) = c.ident == h.ident

-- `Active` of a hold that is not nil; nil is never active.
unfoldable pub active : Option Hold → Lock → Bool
unfolding is_current
active none l = false
active (some h) l = is_current h l.cur

unfoldable pub release : Option Hold → Lock → Lock
unfolding is_current
release none l = l
release (some h) l = if is_current h l.cur then record l { cur = none } else l
