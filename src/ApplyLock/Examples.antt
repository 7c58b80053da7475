-- ===== src/ApplyLock/Examples.antt =====
-- Tests of internal/applylock: the groups' window, with the other writers' calls in it.
use perch_apd.Base.{true, none, some, List, [], ◌∷◌, ◌≡◌, refl, bytes_beq, codes}
use perch_apd.ApplyLock.{
  Hold, new, groups_holder, plane_holder, update_holder, acquired, refused, busy_error, try_acquire,
  active, release, reason, holder_reason,
}
use perch_apd.ApplyLock.Exclusive.{Call, acquire, free, calls, try_acquire-exclusive}

abbrev first_hold : Hold
first_hold = record {
  ident = 0;
  info = record { holder = groups_holder; id = codes "groups-7"; since = 1000 };
}

abbrev second_hold : Hold
second_hold = record {
  ident = 1;
  info = record { holder = update_holder; id = codes "u1"; since = 1002 };
}

abbrev others : List Call
others = acquire 1001 plane_holder (codes "n1") ∷ free none ∷ free (some second_hold) ∷ []

got_first : (try_acquire 1000 groups_holder (codes "groups-7") new).1 ≡ acquired first_hold
unfolding try_acquire bytes_beq
got_first = refl

try_acquire-exclusive_example :
    let later = calls others (try_acquire 1000 groups_holder (codes "groups-7") new).0 in
    (active (some first_hold) later ≡ true)
    × (first_hold.info ≡ record { holder = groups_holder; id = codes "groups-7"; since = 1000 })
    × ((try_acquire 1002 update_holder (codes "u1") later).1 ≡ refused (busy_error first_hold.info))
    × (reason (busy_error first_hold.info) ≡ holder_reason groups_holder)
try_acquire-exclusive_example =
    try_acquire-exclusive 1000 groups_holder (codes "groups-7") new {h = first_hold} others 1002
      update_holder (codes "u1") got_first (tt, (tt, (λ e. cc, tt))) (λ e. cc)

abbrev let_go : List Call
let_go = free (some first_hold) ∷ []

got_second :
    (try_acquire 1002 update_holder
      (codes "u1")
      (calls let_go (try_acquire 1000 groups_holder (codes "groups-7") new).0)).1
    ≡ acquired second_hold
unfolding try_acquire calls release bytes_beq
got_second = refl
