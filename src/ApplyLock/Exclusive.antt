-- ===== src/ApplyLock/Exclusive.antt =====
-- internal/applylock/applylock.go: the windows of the writers never overlap. The writers' calls come
-- in any order.
use perch_apd.Base.{
  ℕ, suc, ◌<◌, true, false, Option, none, some, List, [], ◌∷◌, ◌≡◌, ◌≢◌, ◌≤◌, ap, arith, nat_eq,
  bytes_eq, Bytes,
}
use perch_apd.ApplyLock.{
  Info, Hold, Lock, acquired, refused, busy_error, try_acquire, active, release, reason,
  holder_reason, is_current,
}

-- One call on the lock by any goroutine.
pub data Call : Type 0 where
  acquire : ℕ → Bytes → Bytes → Call
  free : Option Hold → Call

unfoldable pub call : Call → Lock → Lock
call (acquire now holder id) l = (try_acquire now holder id l).0
call (free h) l = release h l

unfoldable pub calls : List Call → Lock → Lock
unfolding call
calls [] l = l
calls (c ∷ cs) l = calls cs (call c l)

-- The call frees no hold with this identity.
abbrev pub Spares : ℕ → Call → Type 0
Spares i (free (some h)) = h.ident ≢ i
Spares i _ = Unit

abbrev pub AllSpare : ℕ → List Call → Type 0
AllSpare i [] = Unit
AllSpare i (c ∷ cs) = Spares i c × AllSpare i cs

pub call_keeps :
    (c : Call) (l : Lock) (h : Hold) → l.cur ≡ some h → Spares h.ident c → (call c l).cur ≡ some h
unfolding call try_acquire release
call_keeps (acquire now holder id) l h e s = ground arith
call_keeps (free none) l h e s = e
call_keeps (free (some k)) l h e s = ground arith

calls_keep :
    (cs : List Call) (l : Lock) (h : Hold)
    → l.cur ≡ some h
    → AllSpare h.ident cs
    → (calls cs l).cur ≡ some h
unfolding calls
calls_keep [] l h e s = e
calls_keep (c ∷ cs) l h e s = calls_keep cs (call c l) h (call_keeps c l h e s.0) s.1

-- What a successful call of `TryAcquire` has done.
pub try_acquire-acquired :
    (now : ℕ) (holder id : Bytes) (l : Lock) {h : Hold}
    → (try_acquire now holder id l).1 ≡ acquired h
    → ((try_acquire now holder id l).0.cur ≡ some h)
      × (h.info ≡ record { holder = holder; id = id; since = now })
      × (h.ident ≡ l.made)
      × ((try_acquire now holder id l).0.made ≡ suc l.made)
      × (l.cur ≡ none)
unfolding try_acquire
try_acquire-acquired now holder id l got = ground arith

pub try_acquire_taken :
    (now : ℕ) (holder id : Bytes) (l : Lock) (h : Hold)
    → holder ≢ []
    → l.cur ≡ some h
    → (try_acquire now holder id l).1 ≡ refused (busy_error h.info)
unfolding try_acquire
try_acquire_taken now holder id l h ne e = ground (arith, bytes_eq.beq_iff holder [])

-- A writer that acquired the lock keeps it whatever calls follow, in any order and by any writer,
-- until a call releases this very hold: until then it is the current hold, it is active, and every
-- writer that asks for the lock is refused with this window's holder and id.
pub try_acquire-exclusive :
    (now : ℕ) (holder id : Bytes) (l : Lock) {h : Hold} (cs : List Call) (now' : ℕ)
    (other id' : Bytes)
    → (try_acquire now holder id l).1 ≡ acquired h
    → AllSpare h.ident cs
    → other ≢ []
    → let later = calls cs (try_acquire now holder id l).0 in
      (active (some h) later ≡ true)
      × (h.info ≡ record { holder = holder; id = id; since = now })
      × ((try_acquire now' other id' later).1 ≡ refused (busy_error h.info))
      × (reason (busy_error h.info) ≡ holder_reason holder)
unfolding active reason is_current
try_acquire-exclusive now holder id l {h} cs now' other id' got spare ne =
    let (cur, info, _, _, _) = try_acquire-acquired now holder id l {h = h} got in
    let later = calls cs (try_acquire now holder id l).0 in
    let kept : later.cur ≡ some h = calls_keep cs (try_acquire now holder id l).0 h cur spare in
    (
      ground arith,
      info,
      try_acquire_taken now' other id' later h ne kept,
      ap (λ (i : Info). holder_reason i.holder) info,
    )

made-call : (c : Call) (l : Lock) → l.made ≤ (call c l).made
unfolding call try_acquire release
made-call (acquire now holder id) l = ground arith
made-call (free none) l = ground arith
made-call (free (some h)) l = ground arith

made-calls : (cs : List Call) (l : Lock) → l.made ≤ (calls cs l).made
unfolding calls
made-calls [] l = omega arith
made-calls (c ∷ cs) l = omega (arith, made-call c l, made-calls cs (call c l))

-- A hold that lost the lock cannot free the window of another: once a later call of `TryAcquire`
-- succeeded, releasing the earlier hold, once or again, changes nothing.
pub release_stale :
    (now : ℕ) (holder id : Bytes) (l : Lock) {h : Hold} (cs : List Call) (now' : ℕ)
    (other id' : Bytes) {k : Hold}
    → (try_acquire now holder id l).1 ≡ acquired h
    → let later = calls cs (try_acquire now holder id l).0 in
      (try_acquire now' other id' later).1 ≡ acquired k
      → let taken = (try_acquire now' other id' later).0 in
        (release (some h) taken ≡ taken)
        × (active (some h) taken ≡ false)
        × (active (some k) taken ≡ true)
unfolding release active is_current
release_stale now holder id l {h} cs now' other id' {k} got got' =
    let (_, _, first, made, _) = try_acquire-acquired now holder id l {h = h} got in
    let later = calls cs (try_acquire now holder id l).0 in
    let (cur, _, second, _, _) = try_acquire-acquired now' other id' later {h = k} got' in
    let apart : h.ident < k.ident = omega (arith, made-calls cs (try_acquire now holder id l).0) in
    (ground arith, ground arith, ground arith)
