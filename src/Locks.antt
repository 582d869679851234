-- ===== src/Locks.antt =====
-- src/locks.c: Semaphore, BoundedSemaphore, Lock and RLock. An acquire that has to wait switches to
-- the loop, so it is two functions here: `acquire` up to the switch and `resume` after it. What the
-- scheduler does with a lock is an arbitrary sequence of these steps, `run`. A greenlet is its
-- number. The methods' argument parsing and the reference counts are left out.
pub mod Waiting
pub mod Bound
pub mod Owner
mod Tests
use jega.Base.{
  ltb, leb, ◌==◌, if◌then◌else◌, length, u32_mod, u32, ℕ, zero, suc, ◌+◌, ◌-◌, Bool, false, not,
  ◌&&◌, Option, none, some, List, [], ◌∷◌,
}

-- `timeouts` are the waiting greenlets whose timer is not cancelled, and `notifies` counts the calls
-- of _notify_waiter that are scheduled and have not run.
pub record Semaphore : Type 0 where
  pub counter : ℕ
  pub waiters : List ℕ
  pub timeouts : List ℕ
  pub notifies : ℕ

-- What a call returns: True, False or None, an exception; or it waits in the loop.
pub data Outcome : Type 0 where
  got refused failed waiting done : Outcome

-- How the switch to the loop ends: with a value, or with the exception of the acquire's own timer, or
-- with another one.
pub data Wakeup : Type 0 where
  switched timed_out raised : Wakeup

-- PySet_Discard and PySet_Add on a list without repetitions.
unfoldable pub discard : ℕ → List ℕ → List ℕ
discard g [] = []
discard g (x ∷ xs) = let rest = discard g xs in if x == g then rest else x ∷ rest

unfoldable pub add : ℕ → List ℕ → List ℕ
add g xs = g ∷ discard g xs

-- PySet_Pop takes some element out, by its place.
unfoldable pub pop : ℕ → List ℕ → Option (ℕ × List ℕ)
pop n [] = none
pop zero (x ∷ xs) = some (x, xs)
pop (suc n) (x ∷ xs) = elim (pop n xs) [ none ↦ some (x, xs) | some (y, ys) ↦ some (y, x ∷ ys) ]

unfoldable pub init : ℕ → Semaphore
init value = record { counter = u32 value; waiters = []; timeouts = []; notifies = 0 }

-- `ready` says that the loop, the greenlet, the timer and the set's element could be had.
unfoldable pub acquire : Bool → ℕ → Bool → ℕ → Semaphore → Outcome × Semaphore
acquire ready me blocking timeout s =
    if ltb 0 s.counter
    then (got, record s { counter = s.counter - 1 })
    else if not blocking
    then (refused, s)
    else if not ready
    then (failed, s)
    else (
      waiting,
      record s {
        waiters = add me s.waiters;
        timeouts = if timeout == 0 then s.timeouts else add me s.timeouts;
      },
    )

-- The wait is over: the timer is cancelled, and the greenlet no waiter.
abbrev pub leave : ℕ → Semaphore → Semaphore
leave me s = record s { waiters = discard me s.waiters; timeouts = discard me s.timeouts }

-- A greenlet that finds the counter at 0 switches to the loop again.
unfoldable pub resume : ℕ → Wakeup → Semaphore → Outcome × Semaphore
resume me switched s =
    if s.counter == 0 then (waiting, s) else (got, leave me (record s { counter = s.counter - 1 }))
resume me timed_out s = (refused, leave me s)
resume me raised s = (failed, leave me s)

-- `granted` says that the notification could be scheduled.
unfoldable pub release : Bool → Semaphore → Outcome × Semaphore
release granted s =
    let given = record s { counter = u32 (s.counter + 1) } in
    if length s.waiters == 0
    then (done, given)
    else if granted
    then (done, record given { notifies = s.notifies + 1 })
    else (failed, given)

abbrev wake : Semaphore → Option (ℕ × List ℕ) → Outcome × Semaphore
wake s none = (failed, s)
wake s (some (w, others)) = resume w switched (record s { waiters = others })

-- A scheduled notification runs; `place` is the choice of the set. The waiter is switched to, and the
-- outcome is the waiter's.
unfoldable pub notify_waiter : ℕ → Semaphore → Outcome × Semaphore
notify_waiter place s =
    let ran = record s { notifies = s.notifies - 1 } in
    if ltb 0 (length s.waiters) && ltb 0 s.counter
    then wake ran (pop place s.waiters)
    else (done, ran)

-- BoundedSemaphore keeps the value that it was made with.
pub bounded_release : ℕ → Bool → Semaphore → Outcome × Semaphore
bounded_release init_counter granted s =
    if leb init_counter s.counter then (failed, s) else release granted s

unfoldable pub lock_init : Semaphore
unfolding init
lock_init = init 1

pub data Action : Type 0 where
  acquiring : Bool → ℕ → Bool → ℕ → Action
  resuming : ℕ → Wakeup → Action
  releasing : Action
  notifying : ℕ → Action

-- The releases are made by `give`, the one of the class.
unfoldable pub act : (Semaphore → Outcome × Semaphore) → Action → Semaphore → Outcome × Semaphore
act give (acquiring ready me blocking timeout) s = acquire ready me blocking timeout s
act give (resuming me how) s = resume me how s
act give releasing s = give s
act give (notifying place) s = notify_waiter place s

-- The state after the actions.
unfoldable pub run : (Semaphore → Outcome × Semaphore) → List Action → Semaphore → Semaphore
run give [] s = s
run give (a ∷ rest) s = run give rest (act give a s).1

pub record RLock : Type 0 where
  pub block : Semaphore
  pub count : ℕ
  pub owner : Option ℕ

-- The block is a semaphore of one.
unfoldable pub rlock_init : RLock
unfolding init
rlock_init = record { block = init 1; count = 0; owner = none }

abbrev pub is_owner : ℕ → Option ℕ → Bool
is_owner me none = false
is_owner me (some g) = g == me

-- What rlock_acquire does when its acquire of the block comes back.
pub own : ℕ → RLock → Outcome × Semaphore → Outcome × RLock
own me l (got, b) = (got, record { block = b; count = 1; owner = some me })
own me l (refused, b) = (refused, record l { block = b })
own me l (failed, b) = (failed, record l { block = b })
own me l (waiting, b) = (waiting, record l { block = b })
own me l (done, b) = (done, record l { block = b })

pub rlock_acquire : Bool → ℕ → Bool → ℕ → RLock → Outcome × RLock
rlock_acquire ready me blocking timeout l =
    if is_owner me l.owner
    then (got, record l { count = u32 (l.count + 1) })
    else own me l (acquire ready me blocking timeout l.block)

pub rlock_resume : ℕ → Wakeup → RLock → Outcome × RLock
rlock_resume me how l = own me l (resume me how l.block)

abbrev told : RLock → Outcome × Semaphore → Option (ℕ × List ℕ) → Outcome × RLock
told l (o, b) none = (o, record l { block = b })
told l result (some (w, others)) = own w l result

-- The block's notification runs, and the waiter that it switches to goes on in rlock_acquire.
pub rlock_notify : ℕ → RLock → Outcome × RLock
rlock_notify place l = told l (notify_waiter place l.block) (pop place l.block.waiters)

abbrev unblocked : RLock → Outcome × Semaphore → Outcome × RLock
unblocked l (o, b) = (o, record { block = b; count = 0; owner = none })

pub rlock_release : Bool → ℕ → RLock → Outcome × RLock
rlock_release granted me l =
    let count = u32 (l.count + u32_mod - 1) in
    if not (is_owner me l.owner)
    then (failed, l)
    else if count == 0
    then unblocked l (release granted l.block)
    else (done, record l { count = count })

pub rlock_is_owned : ℕ → RLock → Bool
rlock_is_owned me l = is_owner me l.owner

pub data RLockAction : Type 0 where
  locking : Bool → ℕ → Bool → ℕ → RLockAction
  waking : ℕ → Wakeup → RLockAction
  unlocking : Bool → ℕ → RLockAction
  telling : ℕ → RLockAction

unfoldable pub rlock_act : RLockAction → RLock → Outcome × RLock
rlock_act (locking ready me blocking timeout) l = rlock_acquire ready me blocking timeout l
rlock_act (waking me how) l = rlock_resume me how l
rlock_act (unlocking granted me) l = rlock_release granted me l
rlock_act (telling place) l = rlock_notify place l

unfoldable pub rlock_run : List RLockAction → RLock → RLock
rlock_run [] l = l
rlock_run (a ∷ rest) l = rlock_run rest (rlock_act a l).1
