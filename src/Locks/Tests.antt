-- ===== src/Locks/Tests.antt =====
-- Runs of the locks of src/locks.c, and the theorems at concrete inputs.
use jega.Base.{◌+◌, ◌≤◌, ◌≡◌, refl, ◌⊎◌, true, none, some, List, [], ◌∷◌, arith}
use jega.Locks.{
  done, discard, add, pop, init, acquire, resume, release, notify_waiter, bounded_release, Action,
  acquiring, releasing, notifying, act, run, RLock, rlock_init, own, rlock_acquire, rlock_notify,
  rlock_release, RLockAction, locking, unlocking, telling, rlock_act, rlock_run,
}
use jega.Locks.Bound.{gots, run-counts, run-bounded}
use jega.Locks.Owner.{
  IsExclusive, rlock_run-IsExclusive, rlock_acquire-excludes, rlock_release-acquire,
}

-- Greenlet 1 takes the unit, 2 and 3 wait; the unit comes back, and a waiter gets it.
abbrev turns : List Action
turns =
    acquiring true 1 true 0
    ∷ acquiring true 2 true 5
    ∷ acquiring true 3 true 0
    ∷ releasing
    ∷ notifying 0
    ∷ []

after_turns :
    run (release true) turns (init 1)
    ≡ record { counter = 0; waiters = 2 ∷ []; timeouts = 2 ∷ []; notifies = 0 }
unfolding run act init acquire resume release notify_waiter pop add discard
after_turns = refl

turns_counted : (run (release true) turns (init 1)).counter + gots (release true) turns (init 1) ≡ 2
turns_counted = run-counts true turns 1 (omega arith)

run-bounded_example : (run (bounded_release 1 true) turns (init 1)).counter ≤ 1
run-bounded_example = run-bounded true turns 1

-- Greenlet 1 takes the lock twice, 2 waits; 1 lets go twice, and 2 is told.
abbrev nested : List RLockAction
nested =
    locking true 1 true 0
    ∷ locking true 1 true 0
    ∷ locking true 2 true 0
    ∷ unlocking true 1
    ∷ unlocking true 1
    ∷ telling 0
    ∷ []

after_nested : (rlock_run nested rlock_init).owner ≡ some 2
unfolding rlock_run rlock_act rlock_init rlock_acquire rlock_release rlock_notify own acquire resume
    release notify_waiter pop add discard
after_nested = refl

nested-IsExclusive : IsExclusive (rlock_run nested rlock_init)
nested-IsExclusive = rlock_run-IsExclusive nested

rlock_acquire-excludes_example :
    (((rlock_run nested rlock_init).owner ≡ none) ⊎ ((rlock_run nested rlock_init).owner ≡ some 2))
    × ((rlock_acquire true 2 true 0 (rlock_run nested rlock_init)).1.owner ≡ some 2)
unfolding rlock_run rlock_act rlock_init rlock_acquire rlock_release rlock_notify own acquire resume
    release notify_waiter pop add discard
rlock_acquire-excludes_example = rlock_acquire-excludes nested true 2 true 0 refl

-- Greenlet 1 has taken the lock once.
abbrev taken : RLock
taken = record {
  block = record { counter = 0; waiters = []; timeouts = []; notifies = 0 };
  count = 1;
  owner = some 1;
}

nested_and_back : rlock_release true 1 (rlock_acquire true 1 true 0 taken).1 ≡ (done, taken)
nested_and_back = rlock_release-acquire true 1 true 0 true taken refl (omega arith) (omega arith)
