-- ===== src/WifiPlane/Service/Writers.antt =====
-- internal/applylock and its three writers: the lock refines an owner, which is at most one of them.
use perch_apd.Base.{
  ℕ, Bool, true, false, Option, none, some, List, [], ◌∷◌, ◌≡◌, refl, sym, ap, ◌∙◌, arith, nat_eq,
  bytes_eq, bytes_beq, if◌then◌else◌, Bytes, Bool-cases, inl, inr,
}
use perch_apd.ApplyLock
use perch_apd.ApplyLock.{
  Lock, Hold, groups_holder, plane_holder, update_holder, holder_reason, try_acquire,
}
use perch_apd.WifiPlane.Service.{PlaneLock, acquire, release}

pub data Writer : Type 0 where
  groups plane update : Writer

abbrev pub same : Writer → Writer → Bool
same groups groups = true
same plane plane = true
same update update = true
same _ _ = false

abbrev pub holder_of : Writer → Bytes
holder_of groups = groups_holder
holder_of plane = plane_holder
holder_of update = update_holder

-- The lock, and the hold that each writer keeps.
pub record World : Type 0 where
  pub lock : Lock
  pub holds : Writer → Option Hold

-- A writer asks for the lock, or gives up what it holds.
pub data Move : Type 0 where
  ask : Writer → ℕ → Bytes → Move
  give_up : Writer → Move

-- `TryAcquire` as the engine and the updater call it: a hold is kept where there is no error.
keep_hold : Option Hold → Lock → ApplyLock.Acquired → PlaneLock × Bytes
keep_hold hold l (ApplyLock.acquired h) = (record { lock = l; hold = some h }, [])
keep_hold hold l (ApplyLock.refused e) = (record { lock = l; hold = hold }, ApplyLock.reason e)

ask_plainly : Writer → ℕ → Bytes → PlaneLock → PlaneLock × Bytes
unfolding keep_hold
ask_plainly w now id pl =
    let (l, r) = try_acquire now (holder_of w) id pl.lock in keep_hold pl.hold l r

ask_lock : Writer → ℕ → Bytes → PlaneLock → PlaneLock × Bytes
unfolding ask_plainly
ask_lock plane now id pl = let r = acquire now id pl in (r.0, r.2)
ask_lock groups now id pl = ask_plainly groups now id pl
ask_lock update now id pl = ask_plainly update now id pl

give_lock : Writer → PlaneLock → PlaneLock
give_lock plane pl = release pl
give_lock _ pl = record { lock = ApplyLock.release pl.hold pl.lock; hold = none }

abbrev part : Writer → World → PlaneLock
part w x = record { lock = x.lock; hold = x.holds w }

abbrev with_part : Writer → PlaneLock → World → World
with_part w pl x = record { lock = pl.lock; holds = λ v. if same v w then pl.hold else x.holds v }

-- The state behind a move, and the reason that the writer is given, empty if there is none.
step : Move → World → World × Bytes
step (ask w now id) x = let r = ask_lock w now id (part w x) in (with_part w r.0 x, r.1)
step (give_up w) x = (with_part w (give_lock w (part w x)) x, [])

-- The specification: who owns the access point's configuration.
step_owner : Move → Option Writer → Option Writer × Bytes
step_owner (ask w now id) none = (some w, [])
step_owner (ask w now id) (some v) = (some v, holder_reason (holder_of v))
step_owner (give_up w) none = (none, [])
step_owner (give_up w) (some v) = (if same v w then none else some v, [])

-- The state shows this owner: the lock is under the hold that the owner keeps, and no other writer keeps one.
abbrev pub Shows : Option Writer → World → Type 0
Shows none x = (x.lock.cur ≡ none) × ((v : Writer) → x.holds v ≡ none)
Shows (some w) x =
    (h : Hold) × (x.lock.cur ≡ some h)
    × (h.info.holder ≡ holder_of w)
    × ((v : Writer) → x.holds v ≡ (if same v w then some h else none))

abbrev made_hold : Writer → ℕ → Bytes → Lock → Hold
made_hold w now id l = record {
  ident = l.made;
  info = record { holder = holder_of w; id = id; since = now };
}

ask_lock-free :
    (w : Writer) (now : ℕ) (id : Bytes) (pl : PlaneLock)
    → pl.lock.cur ≡ none
    → (h : Hold) × ((ask_lock w now id pl).0.lock.cur ≡ some h)
      × ((ask_lock w now id pl).0.hold ≡ some h)
      × (h.info.holder ≡ holder_of w)
      × ((ask_lock w now id pl).1 ≡ [])
unfolding ask_lock acquire try_acquire bytes_beq
ask_lock-free plane now id pl free =
    (made_hold plane now id pl.lock, ground arith, ground arith, refl, ground arith)
ask_lock-free groups now id pl free =
    (made_hold groups now id pl.lock, ground arith, ground arith, refl, ground arith)
ask_lock-free update now id pl free =
    (made_hold update now id pl.lock, ground arith, ground arith, refl, ground arith)

ask_lock-taken :
    (w : Writer) (now : ℕ) (id : Bytes) (pl : PlaneLock) (h : Hold) (v : Writer)
    → pl.lock.cur ≡ some h
    → h.info.holder ≡ holder_of v
    → ask_lock w now id pl ≡ (pl, holder_reason (holder_of v))
unfolding ask_lock acquire try_acquire bytes_beq ApplyLock.reason holder_reason
ask_lock-taken plane now id pl h v held named = ground (arith, ap holder_reason named)
ask_lock-taken groups now id pl h v held named = ground (arith, ap holder_reason named)
ask_lock-taken update now id pl h v held named = ground (arith, ap holder_reason named)

-- A hold is given up only where it is the current one.
give_lock-freed :
    (w : Writer) (pl : PlaneLock) (h : Hold)
    → pl.lock.cur ≡ some h
    → pl.hold ≡ some h
    → ((give_lock w pl).lock.cur ≡ none) × ((give_lock w pl).hold ≡ none)
unfolding give_lock release ApplyLock.release
give_lock-freed plane pl h held mine = (ground arith, ground arith)
give_lock-freed groups pl h held mine = (ground arith, ground arith)
give_lock-freed update pl h held mine = (ground arith, ground arith)

give_lock-without : (w : Writer) (pl : PlaneLock) → pl.hold ≡ none → (give_lock w pl) ≡ pl
unfolding give_lock release ApplyLock.release
give_lock-without plane pl h = ground arith
give_lock-without groups pl h = ground arith
give_lock-without update pl h = ground arith

same_iff : (v w : Writer) → (same v w ≡ true) → v ≡ w
same_iff groups groups h = refl
same_iff plane plane h = refl
same_iff update update h = refl
same_iff groups plane h = absurd (cc h)
same_iff groups update h = absurd (cc h)
same_iff plane groups h = absurd (cc h)
same_iff plane update h = absurd (cc h)
same_iff update groups h = absurd (cc h)
same_iff update plane h = absurd (cc h)

same_self : (w : Writer) → same w w ≡ true
same_self groups = refl
same_self plane = refl
same_self update = refl

same_sym : (v w : Writer) → same v w ≡ same w v
same_sym groups groups = refl
same_sym groups plane = refl
same_sym groups update = refl
same_sym plane groups = refl
same_sym plane plane = refl
same_sym plane update = refl
same_sym update groups = refl
same_sym update plane = refl
same_sym update update = refl

same_chain : (u v w : Writer) → same v w ≡ true → same u w ≡ same u v
same_chain u v w is = ap (same u) (sym (same_iff v w is))

step-Shows :
    (m : Move) (o : Option Writer) (x : World)
    → Shows o x
    → Shows (step_owner m o).0 (step m x).0 × ((step m x).1 ≡ (step_owner m o).1)
unfolding step step_owner
step-Shows (ask w now id) none x s =
    let (h, cur, mine, named, why) = ask_lock-free w now id (part w x) s.0 in
    ((h, cur, named, λ v. ground (arith, s.1 v, mine)), why)
step-Shows (ask w now id) (some v) x (h, cur, named, holds) =
    let taken = ask_lock-taken w now id (part w x) h v cur named in
    (
      (
        h,
        ap (λ (r : PlaneLock × Bytes). r.0.lock.cur) taken ∙ cur,
        named,
        λ u. elim (Bool-cases (same u w)) [
          | inl is ↦ rw is (
              ap (λ (r : PlaneLock × Bytes). r.0.hold) taken
              ∙ (sym (ap x.holds (same_iff u w is)) ∙ holds u))
          | inr other ↦ rw other (holds u)
        ],
      ),
      ap (λ (r : PlaneLock × Bytes). r.1) taken,
    )
step-Shows (give_up w) none x s =
    let kept = give_lock-without w (part w x) (s.1 w) in
    (
      (ap (λ (pl : PlaneLock). pl.lock.cur) kept ∙ s.0, λ v. ground (arith, kept, s.1 v, s.1 w)),
      refl,
    )
step-Shows (give_up w) (some v) x (h, cur, named, holds) = elim (Bool-cases (same v w)) [
  | inl is ↦
      let mine : x.holds w ≡ some h =
        ground (arith, holds v, ap x.holds (same_iff v w is), same_self v) in
      let freed = give_lock-freed w (part w x) h cur mine in
      rw is ((freed.0, λ u. ground (arith, freed.1, holds u, same_chain u v w is)), refl)
  | inr other ↦
      let none_here : x.holds w ≡ none = ground (arith, holds w, same_sym w v) in
      let kept = give_lock-without w (part w x) none_here in
      rw other (
        (
          h,
          ap (λ (pl : PlaneLock). pl.lock.cur) kept ∙ cur,
          named,
          λ u. elim (Bool-cases (same u w)) [
            | inl it ↦ rw it (
                ap (λ (pl : PlaneLock). pl.hold) kept
                ∙ (sym (ap x.holds (same_iff u w it)) ∙ holds u))
            | inr else' ↦ rw else' (holds u)
          ],
        ),
        refl,
      )
]

pub run : List Move → World → World × List Bytes
run [] x = (x, [])
run (m ∷ ms) x = let r = run ms (step m x).0 in (r.0, (step m x).1 ∷ r.1)

unfoldable pub run_owner : List Move → Option Writer → Option Writer × List Bytes
unfolding step_owner
run_owner [] o = (o, [])
run_owner (m ∷ ms) o = let r = run_owner ms (step_owner m o).0 in (r.0, (step_owner m o).1 ∷ r.1)

-- The device groups, the Wi-Fi plane and the updater on one lock behave as one owner: whatever they ask
-- and give up, in whatever order, each gets the answer that the owner specifies, and the lock is under the
-- hold of the owner and of nobody else.
pub run-Shows :
    (ms : List Move) (o : Option Writer) (x : World)
    → Shows o x
    → Shows (run_owner ms o).0 (run ms x).0 × ((run ms x).1 ≡ (run_owner ms o).1)
unfolding run run_owner
run-Shows [] o x s = (s, refl)
run-Shows (m ∷ ms) o x s =
    let (shows, answer) = step-Shows m o x s in
    let (after, answers) = run-Shows ms (step_owner m o).0 (step m x).0 shows in
    (after, cc (answer, answers))
