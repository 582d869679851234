-- ===== src/Condition.antt =====
-- Condition of src/locks.c over an RLock, the lock that it makes itself, and the two methods of RLock
-- that it uses, _release_save and _acquire_restore; a Condition over a Lock is with the Event. A wait has three parts, each up to a switch to the
-- loop: wait_begin, wait_resume and wait_restore. The semaphore of each wait has a number.
pub mod Notify
pub mod Wait
mod Tests
use jega.Base.{
  ◌==◌, if◌then◌else◌, length, take, ℕ, Bool, true, false, Option, none, some, List, [], ◌∷◌, ◌++◌,
}
use jega.Locks.{
  Semaphore, Outcome, got, refused, failed, waiting, done, Wakeup, init, acquire, resume, release,
  RLock, is_owner,
}

-- `Lock` is the type of its lock.
pub record Condition (Lock : Type 0) : Type 0 where
  pub lock : Lock
  pub waiters : List ℕ
  pub sems : ℕ → Semaphore

abbrev pub set_sem : (ℕ → Semaphore) → ℕ → Semaphore → ℕ → Semaphore
set_sem sems i s j = if j == i then s else sems j

abbrev pub is_failed : Outcome → Bool
is_failed got = false
is_failed refused = false
is_failed failed = true
is_failed waiting = false
is_failed done = false

-- The count and the owner that a lock had; `none` is NULL.
pub rlock_release_save : Bool → RLock → Option (ℕ × Option ℕ) × RLock
rlock_release_save granted l =
    let r = release granted l.block in
    (
      if is_failed r.0 then none else some (l.count, l.owner),
      record { block = r.1; count = 0; owner = none },
    )

abbrev pub restored : ℕ × Option ℕ → RLock → Outcome × Semaphore → Outcome × RLock
restored state l (got, b) = (done, record { block = b; count = state.0; owner = state.1 })
restored state l (refused, b) = (done, record { block = b; count = state.0; owner = state.1 })
restored state l (failed, b) = (failed, record l { block = b })
restored state l (waiting, b) = (waiting, record l { block = b })
restored state l (done, b) = (done, record { block = b; count = state.0; owner = state.1 })

pub rlock_acquire_restore : Bool → ℕ → ℕ × Option ℕ → RLock → Outcome × RLock
rlock_acquire_restore ready me state l = restored state l (acquire ready me true 0 l.block)

-- The same after a switch to the loop.
pub rlock_restore_resume : ℕ → Wakeup → ℕ × Option ℕ → RLock → Outcome × RLock
rlock_restore_resume me how state l = restored state l (resume me how l.block)

abbrev pub saved :
    Bool
    → ℕ
    → ℕ
    → ℕ
    → Condition RLock
    → Option (ℕ × Option ℕ) × RLock
    → Outcome × Option (ℕ × Option ℕ) × Condition RLock
saved ready me i timeout c (none, l) = (failed, none, record c { lock = l })
saved ready me i timeout c (some state, l) =
    let r = acquire ready me true timeout (c.sems i) in
    (r.0, some state, record c { lock = l; sems = set_sem c.sems i r.1 })

-- The wait up to its switch, with the state of the lock that it gives back. `fresh` is the number of
-- the new semaphore, or none when it could not be made.
pub wait_begin :
    Bool
    → Bool
    → ℕ
    → Option ℕ
    → ℕ
    → Condition RLock
    → Outcome × Option (ℕ × Option ℕ) × Condition RLock
wait_begin ready granted me none timeout c = (failed, none, c)
wait_begin ready granted me (some i) timeout c =
    let taken = (acquire ready me true 0 (init 1)).1 in
    let listed = record c { waiters = c.waiters ++ i ∷ []; sems = set_sem c.sems i taken } in
    let begun = saved ready me i timeout listed (rlock_release_save granted c.lock) in
    if is_owner me c.lock.owner then begun else (failed, none, c)

-- The semaphore stays among the waiters, however the wait ends.
pub wait_resume : ℕ → Wakeup → ℕ → Condition RLock → Outcome × Condition RLock
wait_resume me how i c =
    let r = resume me how (c.sems i) in (r.0, record c { sems = set_sem c.sems i r.1 })

pub wait_restore : Bool → ℕ → ℕ × Option ℕ → Condition RLock → Outcome × Condition RLock
wait_restore ready me state c =
    let r = rlock_acquire_restore ready me state c.lock in (r.0, record c { lock = r.1 })

-- The first equal item goes.
abbrev pub remove_from_list : List ℕ → ℕ → List ℕ
remove_from_list [] v = []
remove_from_list (x ∷ xs) v = let rest = remove_from_list xs v in if x == v then xs else x ∷ rest

-- The loop of condition_notify over a slice of the waiters.
pub notify_each : {L : Type 0} → Bool → List ℕ → Condition L → Outcome × Condition L
notify_each granted [] c = (done, c)
notify_each granted (i ∷ rest) c =
    let r = release granted (c.sems i) in
    let released = record c { sems = set_sem c.sems i r.1 } in
    let others =
      notify_each granted rest (record released { waiters = remove_from_list c.waiters i }) in
    if is_failed r.0 then (failed, released) else others

pub condition_notify : Bool → ℕ → ℕ → Condition RLock → Outcome × Condition RLock
condition_notify granted me num c =
    let notified = notify_each granted (take num c.waiters) c in
    if is_owner me c.lock.owner then notified else (failed, c)

pub notify_all : Bool → ℕ → Condition RLock → Outcome × Condition RLock
notify_all granted me c = condition_notify granted me (length c.waiters) c
