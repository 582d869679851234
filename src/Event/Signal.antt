-- ===== src/Event/Signal.antt =====
-- src/event.c: a wait for an Event, and the set that ends it.
use mathlib.Core.List.{append-nil, mem-cons_self, mem-append_right}
use jega.Base.{
  if◌then◌else◌, length, take, ℕ, ◌≡◌, refl, sym, ap, ◌∙◌, subst, Bool, true, false, Option, some,
  List, [], ◌∷◌, ◌++◌, arith,
}
use jega.Event.{
  Event, with_lock, lock_is_owned, if_owned, lock_notify_all, lock_saved, lock_listed,
  lock_wait_begin, when_got, let_go, event_set_locked, event_set, begun, event_wait_locked,
  event_wait_begin,
}
use jega.Locks.{
  Semaphore, Outcome, got, failed, waiting, done, init, acquire, release, notify_waiter,
}
use jega.Condition.{Condition, set_sem, is_failed, notify_each}
use jega.Condition.Notify.{IsDistinct, Notified, notify_each-Notified}
use jega.Condition.Wait.{waited, set_sem-here, notified_wakes, notified_scheduled}

-- Nobody has the lock, and nobody waits for it.
abbrev pub IsIdle : Semaphore → Type 0
IsIdle s = (s.counter ≡ 1) × (s.waiters ≡ [])

-- An idle lock is taken and given back.
abbrev pub taken : Semaphore → Semaphore
taken s = record s { counter = 0 }

acquire-taken :
    (ready blocking : Bool) (me : ℕ) (s : Semaphore)
    → s.counter ≡ 1
    → acquire ready me blocking 0 s ≡ (got, taken s)
unfolding acquire
acquire-taken ready blocking me s e = ground (arith, e)

release-given :
    (granted : Bool) (s : Semaphore)
    → s.counter ≡ 0
    → s.waiters ≡ []
    → release granted s ≡ (done, record s { counter = 1 })
unfolding release
release-given granted s e w = rw (e, w) refl

owned-taken :
    (granted : Bool) (me : ℕ) (s : Semaphore)
    → s.counter ≡ 0
    → lock_is_owned granted me s ≡ (some true, s)
unfolding lock_is_owned acquire
owned-taken granted me s e = rw e refl

idle_again : (s : Semaphore) → IsIdle s → record (taken s) { counter = 1 } ≡ s
idle_again s (e, w) = ap (λ k. record s { counter = k }) (sym e)

take-length : (ws : List ℕ) → take (length ws) ws ≡ ws
take-length [] = refl
take-length (w ∷ ws) = ap (λ xs. w ∷ xs) (take-length ws)

lock_notify_all-Notified :
    (me : ℕ) (c : Condition Semaphore)
    → c.lock.counter ≡ 0
    → IsDistinct c.waiters
    → (n : Condition Semaphore) × (lock_notify_all true me c ≡ (done, n))
      × Notified c.waiters [] c n
unfolding lock_notify_all
lock_notify_all-Notified me c e distinct =
    let (n, runs, h) = notify_each-Notified c.waiters [] c distinct (sym (append-nil c.waiters)) in
    (
      n,
      ap
            (λ o.
              if_owned o (notify_each true (take (length c.waiters) c.waiters) (with_lock c o.1))
                (failed, with_lock c o.1))
            (owned-taken true me c.lock e)
          ∙ ap (λ ws. notify_each true ws c) (take-length c.waiters)
          ∙ runs,
      h,
    )

let_go-given :
    (o : Outcome) (e : Event) (s : Semaphore)
    → is_failed o ≡ false
    → IsIdle s
    → e.cond.lock ≡ taken s
    → let_go true o e ≡ (o, record e { cond = with_lock e.cond s })
let_go-given o e s fine idle held =
    let given : release true e.cond.lock ≡ (done, s) =
      ap (release true) held
      ∙ release-given true (taken s) refl idle.1
      ∙ ap (λ t. (done, t)) (idle_again s idle) in
    rw given (rw fine refl)

-- A set of an Event whose lock is idle sets the flag, releases the semaphore of each wait once, in the
-- order of the waits, empties their list, and leaves the lock idle.
pub event_set-Notified :
    (me : ℕ) (e : Event)
    → IsIdle e.cond.lock
    → IsDistinct e.cond.waiters
    → (c : Condition Semaphore) × (event_set true true me e
        ≡ (done, record { flag = true; cond = c }))
      × Notified e.cond.waiters [] e.cond c
unfolding event_set event_set_locked
event_set-Notified me e idle distinct =
    let s = e.cond.lock in
    let held = with_lock e.cond (taken s) in
    let (n, runs, h) = lock_notify_all-Notified me held refl distinct in
    let start = λ (r : Outcome × Semaphore). when_got e r (event_set_locked true me) in
    let finish =
      λ (r : Outcome × Condition Semaphore). let_go true r.0 (record { flag = true; cond = r.1 }) in
    (
      with_lock n s,
      ap start (acquire-taken true true me s idle.0)
          ∙ ap finish runs
          ∙ let_go-given done (record { flag = true; cond = n }) s refl idle h.lock_kept,
      record { released = h.released; others = h.others; left = h.left; lock_kept = refl },
    )

-- A wait for an Event that is set returns at once and changes nothing.
pub event_wait-set :
    (me timeout : ℕ) (fresh : Option ℕ) (e : Event)
    → e.flag ≡ true
    → IsIdle e.cond.lock
    → event_wait_begin true true me fresh timeout e ≡ (done, e)
unfolding event_wait_begin event_wait_locked
event_wait-set me timeout fresh e up idle =
    let s = e.cond.lock in
    let held = record e { cond = with_lock e.cond (taken s) } in
    let start =
      λ (r : Outcome × Semaphore). when_got e r (event_wait_locked true true me fresh timeout) in
    let branch = λ (b : Bool).
      if b
      then let_go true done held
      else begun true held (lock_wait_begin true true me fresh timeout held.cond) in
    ap start (acquire-taken true true me s idle.0)
    ∙ ap branch up
    ∙ let_go-given done held s refl idle refl

-- The condition in which a greenlet waits with the semaphore `i`, with the lock as it was.
abbrev pub waiting_with : ℕ → ℕ → ℕ → Condition Semaphore → Condition Semaphore
waiting_with me i timeout c = record c {
  waiters = c.waiters ++ i ∷ [];
  sems =
      set_sem (set_sem c.sems i (acquire true me true 0 (init 1)).1) i
        (acquire true me true timeout (set_sem c.sems i (acquire true me true 0 (init 1)).1 i)).1;
}

begins_waiting :
    (me timeout : ℕ)
    → (acquire true me true timeout (acquire true me true 0 (init 1)).1).0 ≡ waiting
unfolding acquire init
begins_waiting me timeout = ground arith

event_wait_begin-waits :
    (me i timeout : ℕ) (e : Event)
    → e.flag ≡ false
    → IsIdle e.cond.lock
    → event_wait_begin true true me (some i) timeout e
      ≡ (waiting, record { flag = false; cond = waiting_with me i timeout e.cond })
unfolding event_wait_begin event_wait_locked lock_wait_begin
event_wait_begin-waits me i timeout e down idle =
    let s = e.cond.lock in
    let held = with_lock e.cond (taken s) in
    let sem = (acquire true me true 0 (init 1)).1 in
    let listed = record held { waiters = held.waiters ++ i ∷ []; sems = set_sem held.sems i sem } in
    let begin = λ (r : Outcome × Condition Semaphore). begun true (record e { cond = held }) r in
    let start =
      λ (r : Outcome × Semaphore). when_got e r (event_wait_locked true true me (some i) timeout) in
    let branch = λ (b : Bool).
      if b
      then let_go true done (record e { cond = held })
      else begin (lock_wait_begin true true me (some i) timeout held) in
    let owned = λ (o : Option Bool × Semaphore). begin (
      if_owned o (lock_listed true true me (some i) timeout (with_lock held o.1))
        (failed, with_lock held o.1)) in
    let freed = λ (r : Outcome × Semaphore). begin (lock_saved true me i timeout listed r) in
    let end = λ (o : Outcome). begin (o, waiting_with me i timeout e.cond) in
    ap start (acquire-taken true true me s idle.0)
    ∙ ap branch down
    ∙ ap owned (owned-taken true me (taken s) refl)
    ∙ ap freed (release-given true (taken s) refl idle.1 ∙ ap (λ t. (done, t)) (idle_again s idle))
    ∙ ap (λ t. end (acquire true me true timeout t).0) (set_sem-here e.cond.sems i sem)
    ∙ ap end (begins_waiting me timeout)
    ∙ ap (λ b. (waiting, record { flag = b; cond = waiting_with me i timeout e.cond })) down

-- A greenlet waits for an Event that is not set, and is switched away from. When another one sets the
-- Event then, a notification of the wait's semaphore is scheduled, and when it runs it hands the
-- semaphore over, so that the greenlet goes on; and a wait right after the set returns at once. The lock is idle at first, memory, loop and
-- notifications can be had, and no wait is listed twice.
pub event_wait-woken :
    (me i timeout other third later : ℕ) (fresh : Option ℕ) (e : Event)
    → e.flag ≡ false
    → IsIdle e.cond.lock
    → IsDistinct (e.cond.waiters ++ i ∷ [])
    → (b : Event) × (event_wait_begin true true me (some i) timeout e ≡ (waiting, b))
      × (n : Event) × (event_set true true other b ≡ (done, n))
      × ((n.cond.sems i).notifies ≡ 1)
      × ((notify_waiter 0 (n.cond.sems i)).0 ≡ got)
      × (event_wait_begin true true third fresh later n ≡ (done, n))
event_wait-woken me i timeout other third later fresh e down idle distinct =
    let c = waiting_with me i timeout e.cond in
    let b : Event = record { flag = false; cond = c } in
    let (d, sets, h) = event_set-Notified other b idle distinct in
    let n : Event = record { flag = true; cond = d } in
    let sem = (acquire true me true 0 (init 1)).1 in
    let held : c.sems i ≡ waited me timeout =
      set_sem-here (set_sem e.cond.sems i sem) i _
      ∙ ap (λ s. (acquire true me true timeout s).1) (set_sem-here e.cond.sems i sem) in
    let idle_still : IsIdle d.lock = subst IsIdle (sym h.lock_kept) idle in
    (
      b,
      event_wait_begin-waits me i timeout e down idle,
      n,
      sets,
      ap (λ s. s.notifies)
            (h.released i (mem-append_right e.cond.waiters mem-cons_self)
              ∙ ap (λ s. (release true s).1) held)
          ∙ notified_scheduled me timeout,
      ap (λ s. (notify_waiter 0 s).0)
            (h.released i (mem-append_right e.cond.waiters mem-cons_self)
              ∙ ap (λ s. (release true s).1) held)
          ∙ notified_wakes me timeout,
      event_wait-set third later fresh n refl idle_still,
    )
