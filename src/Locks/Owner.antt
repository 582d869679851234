-- ===== src/Locks/Owner.antt =====
-- RLock of src/locks.c: its block is held exactly while it has an owner.
use jega.Base.{
  ◌==◌, ==_iff, Bool-cases, Option-cases, u32_mod, u32, ℕ, ◌+◌, ◌-◌, ◌<◌, ◌≡◌, refl, ap, ◌∙◌, ◌⊎◌,
  inl, inr, Bool, true, false, Option, none, some, List, [], ◌∷◌, arith,
}
use jega.Locks.{
  Semaphore, Outcome, got, refused, failed, waiting, done, pop, init, acquire, resume, release,
  notify_waiter, RLock, rlock_init, is_owner, own, rlock_acquire, rlock_resume, rlock_notify,
  rlock_release, RLockAction, locking, waking, unlocking, telling, rlock_act, rlock_run,
}
use jega.Locks.Bound.{Counts, acquire-Counts, resume-Counts, notify-Counts}
use jega.Locks.Waiting.{notify-empty}

abbrev owned_one : Option ℕ → ℕ
owned_one none = 0
owned_one (some g) = 1

-- The block's one unit is there, or an owner has it.
abbrev pub IsExclusive : RLock → Type 0
IsExclusive l = l.block.counter + owned_one l.owner ≡ 1

own-IsExclusive :
    (me : ℕ) (l : RLock) (r : Outcome × Semaphore)
    → IsExclusive l
    → Counts l.block 0 r
    → IsExclusive (own me l r).1
unfolding own
own-IsExclusive me l (got, b) h c = omega (arith, h, c)
own-IsExclusive me l (refused, b) h c = omega (arith, h, c)
own-IsExclusive me l (failed, b) h c = omega (arith, h, c)
own-IsExclusive me l (waiting, b) h c = omega (arith, h, c)
own-IsExclusive me l (done, b) h c = omega (arith, h, c)

is_owner-owned : (me : ℕ) (o : Option ℕ) → is_owner me o ≡ true → owned_one o ≡ 1
is_owner-owned me none e = absurd (ground arith)
is_owner-owned me (some g) e = refl

is_owner-some : (me : ℕ) (o : Option ℕ) → is_owner me o ≡ true → o ≡ some me
is_owner-some me none e = absurd (ground arith)
is_owner-some me (some g) e = ap some ((==_iff g me).0 e)

release-counter :
    (granted : Bool) (s : Semaphore) → (release granted s).1.counter ≡ u32 (s.counter + 1)
unfolding release
release-counter granted s = ground arith

rlock_release-IsExclusive :
    (granted : Bool) (me : ℕ) (l : RLock)
    → IsExclusive l
    → IsExclusive (rlock_release granted me l).1
unfolding rlock_release
rlock_release-IsExclusive granted me l h = elim (Bool-cases (is_owner me l.owner)) [
  | inr other ↦ rw other h
  | inl mine ↦
      let one = is_owner-owned me l.owner mine in
      rw mine (ground (arith, one, release-counter granted l.block))
]

rlock_act-IsExclusive :
    (a : RLockAction) (l : RLock) → IsExclusive l → IsExclusive (rlock_act a l).1
unfolding rlock_act rlock_acquire rlock_resume rlock_notify
rlock_act-IsExclusive (locking ready me blocking timeout) l h =
    elim (Bool-cases (is_owner me l.owner)) [
      | inl mine ↦ rw mine h
      | inr other ↦ rw other (
          own-IsExclusive me l (acquire ready me blocking timeout l.block) h
            (acquire-Counts ready me blocking timeout l.block))
    ]
rlock_act-IsExclusive (waking me how) l h =
    own-IsExclusive me l (resume me how l.block) h (resume-Counts me how l.block)
rlock_act-IsExclusive (unlocking granted me) l h = rlock_release-IsExclusive granted me l h
rlock_act-IsExclusive (telling place) l h = elim (Option-cases (pop place l.block.waiters)) [
  | inl empty ↦ rw (empty, notify-empty place l.block empty) h
  | inr ((w, others), e) ↦
      rw e (own-IsExclusive w l (notify_waiter place l.block) h (notify-Counts place l.block))
]

reaches : (acts : List RLockAction) (l : RLock) → IsExclusive l → IsExclusive (rlock_run acts l)
unfolding rlock_run
reaches [] l h = h
reaches (a ∷ rest) l h = reaches rest (rlock_act a l).1 (rlock_act-IsExclusive a l h)

-- The block of a lock that its own calls have used is free exactly while the lock has no owner,
-- however the calls, the timeouts and the notifications come.
pub rlock_run-IsExclusive : (acts : List RLockAction) → IsExclusive (rlock_run acts rlock_init)
unfolding rlock_init init
rlock_run-IsExclusive acts = reaches acts rlock_init refl

own-got :
    (me : ℕ) (l : RLock) (r : Outcome × Semaphore)
    → (own me l r).0 ≡ got
    → (r.0 ≡ got) × ((own me l r).1.owner ≡ some me)
unfolding own
own-got me l (got, b) e = (refl, refl)
own-got me l (refused, b) e = absurd (ground arith)
own-got me l (failed, b) e = absurd (ground arith)
own-got me l (waiting, b) e = absurd (ground arith)
own-got me l (done, b) e = absurd (ground arith)

Counts-got : (s : Semaphore) (r : Outcome × Semaphore) → r.0 ≡ got → Counts s 0 r → 0 < s.counter
Counts-got s (got, t) e c = omega (arith, c)
Counts-got s (refused, t) e c = absurd (ground arith)
Counts-got s (failed, t) e c = absurd (ground arith)
Counts-got s (waiting, t) e c = absurd (ground arith)
Counts-got s (done, t) e c = absurd (ground arith)

not_owned : (o : Option ℕ) → owned_one o ≡ 0 → o ≡ none
not_owned none e = refl
not_owned (some g) e = absurd (omega arith)

-- Mutual exclusion: after any sequence of acquires, resumptions, releases and notifications, an acquire
-- by `me` succeeds only if nobody else is the owner, and then `me` is.
pub rlock_acquire-excludes :
    (acts : List RLockAction) (ready : Bool) (me : ℕ) (blocking : Bool) (timeout : ℕ)
    → let l = rlock_run acts rlock_init in
      (rlock_acquire ready me blocking timeout l).0 ≡ got
      → ((l.owner ≡ none) ⊎ (l.owner ≡ some me))
        × ((rlock_acquire ready me blocking timeout l).1.owner ≡ some me)
unfolding rlock_acquire
rlock_acquire-excludes acts ready me blocking timeout e =
    let l = rlock_run acts rlock_init in
    let taken = acquire ready me blocking timeout l.block in
    elim (Bool-cases (is_owner me l.owner)) [
      | inl mine ↦ let same = is_owner-some me l.owner mine in (inr same, rw mine same)
      | inr other ↦
          let (held, now) = own-got me l taken (rw other at e) in
          let some_left =
            Counts-got l.block taken held (acquire-Counts ready me blocking timeout l.block) in
          (
            inl (not_owned l.owner (omega (arith, some_left, rlock_run-IsExclusive acts))),
            rw other now,
          )
    ]

-- An acquire by the owner and its release take each other back: the lock counts nested uses, while
-- these stay below 2 ^ 32.
pub rlock_release-acquire :
    (ready : Bool) (me : ℕ) (blocking : Bool) (timeout : ℕ) (granted : Bool) (l : RLock)
    → l.owner ≡ some me
    → 0 < l.count
    → l.count + 1 < u32_mod
    → rlock_release granted me (rlock_acquire ready me blocking timeout l).1 ≡ (done, l)
unfolding rlock_release rlock_acquire
rlock_release-acquire ready me blocking timeout granted l mine used small =
    let owns : is_owner me l.owner ≡ true = ap (is_owner me) mine ∙ (==_iff me me).1 refl in
    let back : u32 (u32 (l.count + 1) + u32_mod - 1) ≡ l.count = ground arith in
    let still : (l.count == 0) ≡ false = ground arith in rw (owns, owns, back, still) refl
