-- ===== src/Locks/Bound.antt =====
-- Semaphores of src/locks.c: that the counter counts, and that a bounded one stays in its bound.
use jega.Base.{
  u32_mod, u32, ℕ, ◌+◌, ◌≤◌, ◌<◌, ◌≡◌, refl, sym, subst, inl, inr, Bool, List, [], ◌∷◌, arith,
}
use jega.Locks.{
  Semaphore, Outcome, got, refused, failed, waiting, done, Wakeup, switched, timed_out, raised,
  init, acquire, resume, release, notify_waiter, bounded_release, Action, acquiring, resuming,
  releasing, notifying, act, run,
}
use jega.Locks.Waiting.{notify-cases, run-keeps}

abbrev one_if_got : Outcome → ℕ
one_if_got got = 1
one_if_got refused = 0
one_if_got failed = 0
one_if_got waiting = 0
one_if_got done = 0

-- The acquires that the actions complete, the waiters' among them.
abbrev pub gots : (Semaphore → Outcome × Semaphore) → List Action → Semaphore → ℕ
gots give [] s = 0
gots give (a ∷ rest) s = one_if_got (act give a s).0 + gots give rest (act give a s).1

abbrev one_if_release : Action → ℕ
one_if_release (acquiring ready me blocking timeout) = 0
one_if_release (resuming me how) = 0
one_if_release releasing = 1
one_if_release (notifying place) = 0

abbrev pub releases : List Action → ℕ
releases [] = 0
releases (a ∷ rest) = one_if_release a + releases rest

abbrev pub Counts : Semaphore → ℕ → Outcome × Semaphore → Type 0
Counts s n (o, t) = t.counter + one_if_got o ≡ s.counter + n

pub acquire-Counts :
    (ready : Bool) (me : ℕ) (blocking : Bool) (timeout : ℕ) (s : Semaphore)
    → Counts s 0 (acquire ready me blocking timeout s)
unfolding acquire
acquire-Counts ready me blocking timeout s = ground arith

pub resume-Counts : (me : ℕ) (how : Wakeup) (s : Semaphore) → Counts s 0 (resume me how s)
unfolding resume
resume-Counts me switched s = ground arith
resume-Counts me timed_out s = refl
resume-Counts me raised s = refl

pub release-Counts :
    (granted : Bool) (s : Semaphore) → s.counter + 1 < u32_mod → Counts s 1 (release granted s)
unfolding release
release-Counts granted s word = ground arith

pub notify-Counts : (place : ℕ) (s : Semaphore) → Counts s 0 (notify_waiter place s)
notify-Counts place s = elim (notify-cases place s) [
  | inl (w, ys, e, len, units) ↦ subst (Counts s 0) (sym e) (ground arith)
  | inr (e, idle) ↦ subst (Counts s 0) (sym e) refl
]

act-Counts :
    (granted : Bool) (a : Action) (s : Semaphore)
    → s.counter + one_if_release a < u32_mod
    → Counts s (one_if_release a) (act (release granted) a s)
unfolding act
act-Counts granted (acquiring ready me blocking timeout) s word =
    acquire-Counts ready me blocking timeout s
act-Counts granted (resuming me how) s word = resume-Counts me how s
act-Counts granted releasing s word = release-Counts granted s word
act-Counts granted (notifying place) s word = notify-Counts place s

run_from-counts :
    (granted : Bool) (acts : List Action) (s : Semaphore)
    → s.counter + releases acts < u32_mod
    → (run (release granted) acts s).counter + gots (release granted) acts s
      ≡ s.counter + releases acts
unfolding run
run_from-counts granted [] s word = refl
run_from-counts granted (a ∷ rest) s word =
    let step = act-Counts granted a s (omega arith) in
    omega (
      arith,
      step,
      run_from-counts granted rest (act (release granted) a s).1 (omega (arith, step)),
    )

-- A semaphore gives out exactly what it has: however the calls, the timeouts and the notifications
-- come, the acquires that succeeded and the units left are the initial value and the releases, while
-- these stay below 2 ^ 32.
pub run-counts :
    (granted : Bool) (acts : List Action) (value : ℕ)
    → value + releases acts < u32_mod
    → (run (release granted) acts (init value)).counter + gots (release granted) acts (init value)
      ≡ value + releases acts
unfolding init
run-counts granted acts value word =
    omega (arith, run_from-counts granted acts (init value) (omega arith))

bounded_release-bounded :
    (n : ℕ) (granted : Bool) (s : Semaphore)
    → s.counter ≤ n
    → (bounded_release n granted s).1.counter ≤ n
unfolding bounded_release release
bounded_release-bounded n granted s h = ground arith

act-bounded :
    (n : ℕ) (granted : Bool) (a : Action) (s : Semaphore)
    → s.counter ≤ n
    → (act (bounded_release n granted) a s).1.counter ≤ n
unfolding act
act-bounded n granted (acquiring ready me blocking timeout) s h =
    omega (arith, acquire-Counts ready me blocking timeout s)
act-bounded n granted (resuming me how) s h = omega (arith, resume-Counts me how s)
act-bounded n granted releasing s h = bounded_release-bounded n granted s h
act-bounded n granted (notifying place) s h = omega (arith, notify-Counts place s)

-- The counter of a bounded semaphore never passes the value that it was made with, when its own
-- release makes the releases.
pub run-bounded :
    (granted : Bool) (acts : List Action) (value : ℕ)
    → (run (bounded_release (u32 value) granted) acts (init value)).counter ≤ u32 value
unfolding init
run-bounded granted acts value =
    run-keeps (λ s. s.counter ≤ u32 value) (bounded_release (u32 value) granted)
      (act-bounded (u32 value) granted) acts (init value) (omega arith)
