-- ===== src/Condition/Tests.antt =====
-- A wait and its notification, and the theorems at concrete inputs.
use jega.Base.{ℕ, ◌≡◌, refl, true, none, some, [], ◌∷◌, arith}
use mathlib.Core.Logic.Or
use mathlib.Core.List.{mem-cons, not-mem-nil}
use jega.Locks.{
  got, waiting, done, timed_out, discard, add, init, acquire, resume, release, notify_waiter, RLock,
}
use jega.Condition.{
  Condition, rlock_release_save, wait_begin, wait_resume, notify_each, condition_notify,
}
use jega.Condition.Notify.{IsDistinct, Notified, condition_notify-Notified}
use jega.Condition.Wait.{wait-notified}

-- A lock that this greenlet has.
abbrev locked_by : ℕ → RLock
locked_by g = record {
  block = record { counter = 0; waiters = []; timeouts = []; notifies = 0 };
  count = 1;
  owner = some g;
}

-- Nobody waits, and greenlet 5 has the lock.
abbrev quiet : Condition RLock
quiet = record { lock = locked_by 5; waiters = []; sems = λ i. (locked_by 5).block }

abbrev two_waits : Condition RLock
two_waits = record quiet { waiters = 8 ∷ 9 ∷ [] }

two_waits-IsDistinct : IsDistinct (8 ∷ 9 ∷ [])
two_waits-IsDistinct = (
  λ m.
      Or.elim (λ a b. absurd a) (mem-cons.0 m) (λ e. absurd (omega (arith, e)))
        (λ k. not-mem-nil k),
  (λ m. not-mem-nil m, tt),
)

condition_notify-Notified_example :
    (n : Condition RLock) × (condition_notify true 5 1 two_waits ≡ (done, n))
    × Notified (8 ∷ []) (9 ∷ []) two_waits n
condition_notify-Notified_example =
    condition_notify-Notified 5 1 two_waits refl two_waits-IsDistinct

wait-notified_example :
    (b : Condition RLock) × (wait_begin true true 5 (some 3) 0 quiet
      ≡ (waiting, some (1, some 5), b))
    × (b.lock.owner ≡ none)
    × (n : Condition RLock) × (condition_notify true 6 1 (record b { lock = locked_by 6 })
        ≡ (done, n))
    × ((n.sems 3).notifies ≡ 1)
    × ((notify_waiter 0 (n.sems 3)).0 ≡ got)
wait-notified_example =
    wait-notified 5 3 0 6 1 quiet (locked_by 6) refl refl (λ m. not-mem-nil m, tt) (omega arith)

-- A wait that has timed out is still listed, and the next notify is spent on it.
abbrev given_up : Condition RLock
given_up = (wait_resume 5 timed_out 3 (wait_begin true true 5 (some 3) 9 quiet).2).1

abbrev spent : Condition RLock
spent = (condition_notify true 6 1 (record given_up { lock = locked_by 6 })).1

notify_spent : (given_up.waiters ≡ 3 ∷ []) × (spent.waiters ≡ []) × ((spent.sems 3).notifies ≡ 0)
unfolding wait_begin wait_resume condition_notify rlock_release_save notify_each acquire release
    resume init add discard
notify_spent = (refl, refl, refl)
