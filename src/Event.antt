-- ===== src/Event.antt =====
-- src/event.c: an Event is a flag and a Condition over a Lock; and the methods of Condition (src/locks.c)
-- that a Lock, which has none of its own, gets: _is_owned, _release_save and _acquire_restore. A Lock is a
-- semaphore of one. A wait has parts, each up to a switch to the loop, as in Condition.
pub mod Signal
mod Tests
use jega.Base.{if◌then◌else◌, length, take, ℕ, Bool, true, false, Option, none, some, [], ◌∷◌, ◌++◌}
use jega.Locks.{
  Semaphore, Outcome, got, refused, failed, waiting, done, Wakeup, init, acquire, resume, release,
  run,
}
use jega.Condition.{Condition, set_sem, is_failed, notify_each}

pub record Event : Type 0 where
  pub flag : Bool
  pub cond : Condition Semaphore

abbrev pub with_lock : Condition Semaphore → Semaphore → Condition Semaphore
with_lock c s = record c { lock = s }

-- ConditionObject_is_owned: the lock is owned when it cannot be acquired. `none` is an exception.
abbrev pub tried : Bool → Outcome × Semaphore → Option Bool × Semaphore
tried granted (got, s) =
    let r = release granted s in if is_failed r.0 then (none, r.1) else (some false, r.1)
tried granted (refused, s) = (some true, s)
tried granted (failed, s) = (none, s)
tried granted (waiting, s) = (none, s)
tried granted (done, s) = (none, s)

pub lock_is_owned : Bool → ℕ → Semaphore → Option Bool × Semaphore
lock_is_owned granted me s = tried granted (acquire true me false 0 s)

-- condition_notify and notify_all over a Lock.
abbrev pub if_owned : {A : Type 0} → Option Bool × Semaphore → A → A → A
if_owned (none, s) run refuse = refuse
if_owned (some true, s) run refuse = run
if_owned (some false, s) run refuse = refuse

pub lock_notify_all : Bool → ℕ → Condition Semaphore → Outcome × Condition Semaphore
lock_notify_all granted me c =
    let owned = lock_is_owned granted me c.lock in
    let c' = with_lock c owned.1 in
    if_owned owned (notify_each granted (take (length c'.waiters) c'.waiters) c') (failed, c')

-- ConditionObject_wait over a Lock, up to its switch; `fresh` is the number of the new semaphore.
abbrev pub lock_saved :
    Bool → ℕ → ℕ → ℕ → Condition Semaphore → Outcome × Semaphore → Outcome × Condition Semaphore
lock_saved ready me i timeout c (o, s) =
    let c' = with_lock c s in
    let r = acquire ready me true timeout (c.sems i) in
    if is_failed o then (failed, c') else (r.0, record c' { sems = set_sem c.sems i r.1 })

abbrev pub lock_listed :
    Bool → Bool → ℕ → Option ℕ → ℕ → Condition Semaphore → Outcome × Condition Semaphore
lock_listed ready granted me none timeout c = (failed, c)
lock_listed ready granted me (some i) timeout c =
    let taken = (acquire ready me true 0 (init 1)).1 in
    let listed = record c { waiters = c.waiters ++ i ∷ []; sems = set_sem c.sems i taken } in
    lock_saved ready me i timeout listed (release granted c.lock)

pub lock_wait_begin :
    Bool → Bool → ℕ → Option ℕ → ℕ → Condition Semaphore → Outcome × Condition Semaphore
lock_wait_begin ready granted me fresh timeout c =
    let owned = lock_is_owned granted me c.lock in
    let c' = with_lock c owned.1 in
    if_owned owned (lock_listed ready granted me fresh timeout c') (failed, c')

-- After the switch: the wait's semaphore, and then the lock again.
pub lock_wait_resume : ℕ → Wakeup → ℕ → Condition Semaphore → Outcome × Condition Semaphore
lock_wait_resume me how i c =
    let r = resume me how (c.sems i) in (r.0, record c { sems = set_sem c.sems i r.1 })

pub lock_wait_restore : Bool → ℕ → Condition Semaphore → Outcome × Condition Semaphore
lock_wait_restore ready me c = let r = acquire ready me true 0 c.lock in (r.0, with_lock c r.1)

pub event_init : (ℕ → Semaphore) → Event
event_init sems = record {
  flag = false;
  cond = record { lock = init 1; waiters = []; sems = sems };
}

pub is_set : Event → Bool
is_set e = e.flag

-- The acquire of the condition's lock: the rest of each method runs when it is `got`, now or after the
-- switches of the acquire.
abbrev pub when_got : Event → Outcome × Semaphore → (Event → Outcome × Event) → Outcome × Event
when_got e (got, s) next = next (record e { cond = with_lock e.cond s })
when_got e (refused, s) next = (refused, record e { cond = with_lock e.cond s })
when_got e (failed, s) next = (failed, record e { cond = with_lock e.cond s })
when_got e (waiting, s) next = (waiting, record e { cond = with_lock e.cond s })
when_got e (done, s) next = (done, record e { cond = with_lock e.cond s })

-- The release at the end; its failure, or the one before it, is the method's.
abbrev pub let_go : Bool → Outcome → Event → Outcome × Event
let_go granted o e =
    let r = release granted e.cond.lock in
    let freed = record e { cond = with_lock e.cond r.1 } in
    if is_failed o then (failed, freed) else if is_failed r.0 then (failed, freed) else (o, freed)

pub event_set_locked : Bool → ℕ → Event → Outcome × Event
event_set_locked granted me e =
    let res = lock_notify_all granted me e.cond in
    let_go granted res.0 (record e { flag = true; cond = res.1 })

pub event_set : Bool → Bool → ℕ → Event → Outcome × Event
event_set ready granted me e =
    when_got e (acquire ready me true 0 e.cond.lock) (event_set_locked granted me)

pub event_clear : Bool → Bool → ℕ → Event → Outcome × Event
event_clear ready granted me e =
    when_got e (acquire ready me true 0 e.cond.lock)
      (λ held. let_go granted done (record held { flag = false }))

-- A wait that does not come to its switch lets the lock go.
abbrev pub begun : Bool → Event → Outcome × Condition Semaphore → Outcome × Event
begun granted e (waiting, c) = (waiting, record e { cond = c })
begun granted e (got, c) = let_go granted got (record e { cond = c })
begun granted e (refused, c) = let_go granted refused (record e { cond = c })
begun granted e (failed, c) = let_go granted failed (record e { cond = c })
begun granted e (done, c) = let_go granted done (record e { cond = c })

pub event_wait_locked : Bool → Bool → ℕ → Option ℕ → ℕ → Event → Outcome × Event
event_wait_locked ready granted me fresh timeout e =
    if e.flag
    then let_go granted done e
    else begun granted e (lock_wait_begin ready granted me fresh timeout e.cond)

pub event_wait_begin : Bool → Bool → ℕ → Option ℕ → ℕ → Event → Outcome × Event
event_wait_begin ready granted me fresh timeout e =
    when_got e (acquire ready me true 0 e.cond.lock)
      (event_wait_locked ready granted me fresh timeout)

-- The end of a wait whose semaphore gave `o`, when the lock is had again.
pub event_wait_end : Bool → Outcome → Event → Outcome × Event
event_wait_end granted o e = let_go granted o e
