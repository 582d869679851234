-- ===== src/Condition/Wait.antt =====
-- A wait on the Condition of src/locks.c, and the notify that ends it.
use mathlib.Core.List.{mem-cons_self, mem-append_right}
use jega.Base.{
  if◌then◌else◌, ==_iff, length, take, length-append, ℕ, zero, suc, ◌≤◌, ◌<◌, ◌≡◌, refl, sym, ap,
  ◌∙◌, subst, Bool, true, none, some, List, [], ◌∷◌, ◌++◌, Mem, arith,
}
use jega.Locks.{
  Semaphore, got, failed, waiting, done, discard, add, pop, init, acquire, resume, release,
  notify_waiter, RLock, is_owner,
}
use jega.Condition.{Condition, set_sem, rlock_release_save, saved, wait_begin, condition_notify}
use jega.Condition.Notify.{IsDistinct, release-succeeds, condition_notify-Notified}

-- The semaphore of a wait: it has nothing to give, and the greenlet waits for it.
abbrev pub waited : ℕ → ℕ → Semaphore
waited me timeout = (acquire true me true timeout (acquire true me true 0 (init 1)).1).1

abbrev listed : ℕ → ℕ → ℕ → Condition RLock → Condition RLock
listed me i timeout c = record c {
  lock = (rlock_release_save true c.lock).1;
  waiters = c.waiters ++ i ∷ [];
  sems =
      set_sem (set_sem c.sems i (acquire true me true 0 (init 1)).1) i
        (acquire true me true timeout (set_sem c.sems i (acquire true me true 0 (init 1)).1 i)).1;
}

pub set_sem-here : (sems : ℕ → Semaphore) (i : ℕ) (s : Semaphore) → set_sem sems i s i ≡ s
set_sem-here sems i s = ap (λ b. if b then s else sems i) ((==_iff i i).1 refl)

wait_begin-waits :
    (me i timeout : ℕ) (c : Condition RLock)
    → is_owner me c.lock.owner ≡ true
    → wait_begin true true me (some i) timeout c
      ≡ (waiting, some (c.lock.count, c.lock.owner), listed me i timeout c)
unfolding wait_begin rlock_release_save acquire init
wait_begin-waits me i timeout c mine =
    let taken = (acquire true me true 0 (init 1)).1 in
    let c' = record c { waiters = c.waiters ++ i ∷ []; sems = set_sem c.sems i taken } in
    let begun = λ (b : Bool).
      (if b
        then saved true me i timeout c' (rlock_release_save true c.lock)
        else (failed, none, c)) in
    let unlocked = λ (b : Bool).
      saved true me i timeout c' (
        if b then none else some (c.lock.count, c.lock.owner),
        (rlock_release_save true c.lock).1,
      ) in
    let state = some (c.lock.count, c.lock.owner) in
    ap begun mine
    ∙ ap unlocked (release-succeeds c.lock.block)
    ∙ ap (λ s. ((acquire true me true timeout s).0, state, listed me i timeout c))
        (set_sem-here c.sems i taken)

pub notified_wakes :
    (me timeout : ℕ) → (notify_waiter 0 (release true (waited me timeout)).1).0 ≡ got
unfolding notify_waiter release acquire init add discard resume pop
notified_wakes me timeout = ground arith

pub notified_scheduled : (me timeout : ℕ) → (release true (waited me timeout)).1.notifies ≡ 1
unfolding release acquire init add discard
notified_scheduled me timeout = ground arith

take-all : (n : ℕ) (ws : List ℕ) → length ws ≤ n → take n ws ≡ ws
take-all zero [] h = refl
take-all zero (w ∷ ws) h = absurd (omega arith)
take-all (suc n) [] h = refl
take-all (suc n) (w ∷ ws) h = ap (λ xs. w ∷ xs) (take-all n ws (omega arith))

-- A greenlet that owns the lock waits on the condition: it is switched away from, and the lock has no
-- owner. When another owner of the lock then notifies more waits than were listed before, a
-- notification of the wait's semaphore is scheduled, and when it runs it hands the semaphore over, so
-- that the greenlet goes on. Memory,
-- loop and notifications can be had, and no wait is listed twice.
pub wait-notified :
    (me i timeout other num : ℕ) (c : Condition RLock) (l : RLock)
    → is_owner me c.lock.owner ≡ true
    → is_owner other l.owner ≡ true
    → IsDistinct (c.waiters ++ i ∷ [])
    → length c.waiters < num
    → (b : Condition RLock) × (wait_begin true true me (some i) timeout c
        ≡ (waiting, some (c.lock.count, c.lock.owner), b))
      × (b.lock.owner ≡ none)
      × (n : Condition RLock) × (condition_notify true other num (record b { lock = l })
          ≡ (done, n))
      × ((n.sems i).notifies ≡ 1)
      × ((notify_waiter 0 (n.sems i)).0 ≡ got)
unfolding rlock_release_save
wait-notified me i timeout other num c l mine theirs distinct more =
    let b = listed me i timeout c in
    let (n, runs, h) =
      condition_notify-Notified other num (record b { lock = l }) theirs distinct in
    let in_slice =
      subst (λ ws. Mem i ws)
        (sym (
          take-all num (c.waiters ++ i ∷ [])
            (omega (arith, length-append c.waiters (i ∷ []), more))))
        (mem-append_right c.waiters mem-cons_self) in
    let taken = (acquire true me true 0 (init 1)).1 in
    let sem : b.sems i ≡ waited me timeout =
      set_sem-here (set_sem c.sems i taken) i _
      ∙ ap (λ s. (acquire true me true timeout s).1) (set_sem-here c.sems i taken) in
    (
      b,
      wait_begin-waits me i timeout c mine,
      refl,
      n,
      runs,
      ap (λ s. s.notifies) (h.released i in_slice ∙ ap (λ s. (release true s).1) sem)
          ∙ notified_scheduled me timeout,
      ap (λ s. (notify_waiter 0 s).0) (h.released i in_slice ∙ ap (λ s. (release true s).1) sem)
          ∙ notified_wakes me timeout,
    )
