-- ===== src/Event/Tests.antt =====
-- A wait for an Event and its set, and the theorem there.
use mathlib.Core.List.{not-mem-nil}
use jega.Base.{◌≡◌, refl, true, false, none, some, []}
use jega.Event.{
  Event, lock_is_owned, lock_wait_begin, event_init, event_set, event_clear, event_wait_locked,
  event_wait_begin,
}
use jega.Locks.{got, waiting, done, discard, add, init, acquire, release, notify_waiter}
use jega.Event.Signal.{event_wait-woken}

abbrev new_event : Event
new_event = record {
  flag = false;
  cond = record {
    lock = record { counter = 1; waiters = []; timeouts = []; notifies = 0 };
    waiters = [];
    sems = λ i. record { counter = 0; waiters = []; timeouts = []; notifies = 0 };
  };
}

made_by_init :
    event_init (λ i. record { counter = 0; waiters = []; timeouts = []; notifies = 0 }) ≡ new_event
unfolding event_init init
made_by_init = refl

event_wait-woken_example :
    (b : Event) × (event_wait_begin true true 5 (some 3) 0 new_event ≡ (waiting, b))
    × (n : Event) × (event_set true true 6 b ≡ (done, n))
    × ((n.cond.sems 3).notifies ≡ 1)
    × ((notify_waiter 0 (n.cond.sems 3)).0 ≡ got)
    × (event_wait_begin true true 7 none 0 n ≡ (done, n))
event_wait-woken_example =
    event_wait-woken 5 3 0 6 7 0 none new_event refl (refl, refl) (λ m. not-mem-nil m, tt)

-- After a clear a wait switches again.
cleared :
    (event_wait_begin true true 7 (some 4) 0 (event_clear true true 6 new_event).1).0 ≡ waiting
unfolding event_wait_begin event_wait_locked lock_wait_begin lock_is_owned event_clear acquire
    release init add discard
cleared = refl
