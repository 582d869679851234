-- ===== src/Locks/Waiting.antt =====
-- Semaphores of src/locks.c: that the counter counts, that a bounded semaphore stays in its bound,
-- and that no wake-up is lost.
use jega.Base.{
  ◌==◌, lt→ltb, length, ℕ, zero, suc, ◌+◌, ◌-◌, ◌≤◌, ◌<◌, ◌≡◌, refl, sym, ◌∙◌, ◌⊎◌, inl, inr, false,
  none, some, List, [], ◌∷◌, arith, dec_lt,
}
use jega.Locks.{Semaphore, Outcome, got, done, pop, leave, resume, notify_waiter, Action, act, run}

-- Every unit that is there for a waiter has a notification under way.
abbrev pub IsCovered : Semaphore → Type 0
IsCovered s = (s.counter ≤ s.notifies) ⊎ (length s.waiters ≤ s.notifies)

length-pop :
    (n : ℕ) (xs : List ℕ)
    → 0 < length xs
    → (w : ℕ) × (ys : List ℕ) × (pop n xs ≡ some (w, ys)) × (length xs ≡ length ys + 1)
unfolding pop
length-pop n [] h = absurd (omega arith)
length-pop zero (x ∷ xs) h = (x, xs, refl, omega arith)
length-pop (suc n) (x ∷ []) h = (x, [], refl, refl)
length-pop (suc n) (x ∷ y ∷ xs) h =
    let (w, ys, e, len) = length-pop n (y ∷ xs) (omega arith) in
    (w, x ∷ ys, rw e refl, omega (arith, len))

-- A notification that finds a waiter and a unit gives the one to the other, and does nothing else.
pub notify-cases :
    (place : ℕ) (s : Semaphore)
    → ((w : ℕ) × (ys : List ℕ) × (notify_waiter place s ≡ (
      got,
      leave w (record s { counter = s.counter - 1; waiters = ys; notifies = s.notifies - 1 }),
    ))
        × (length s.waiters ≡ length ys + 1)
        × (0 < s.counter))
      ⊎ ((notify_waiter place s ≡ (done, record s { notifies = s.notifies - 1 }))
          × ((length s.waiters ≡ 0) ⊎ (s.counter ≡ 0)))
unfolding notify_waiter resume
notify-cases place s = elim (dec_lt 0 (length s.waiters)) [
  | no empty ↦ inr (ground arith, inl (omega arith))
  | yes some_wait ↦ elim (dec_lt 0 s.counter) [
    | no nothing ↦ inr (ground arith, inr (omega arith))
    | yes units ↦
        let (w, ys, e, len) = length-pop place s.waiters some_wait in
        let counted : (s.counter == 0) ≡ false = ground arith in
        inl (
          w,
          ys,
          rw (lt→ltb 0 (length s.waiters) some_wait, lt→ltb 0 s.counter units, e, counted) refl,
          len,
          units,
        )
  ]
]

pub notify-empty :
    (place : ℕ) (s : Semaphore)
    → pop place s.waiters ≡ none
    → notify_waiter place s ≡ (done, record s { notifies = s.notifies - 1 })
unfolding notify_waiter
notify-empty place s e = elim (dec_lt 0 (length s.waiters)) [
  | no empty ↦ ground arith
  | yes some_wait ↦
      let (w, ys, found, len) = length-pop place s.waiters some_wait in
      absurd (ground (arith, sym e ∙ found))
]

-- The notification gives a unit to a waiter, or leaves the waiters alone.
abbrev pub Hands : ℕ → Semaphore → Type 0
Hands place s = ((notify_waiter place s).0 ≡ got) ⊎ ((notify_waiter place s).1.waiters ≡ s.waiters)

-- What every step keeps, all steps keep.
pub run-keeps {ℓ} :
    (P : Semaphore → Type ℓ) (give : Semaphore → Outcome × Semaphore)
    → ((a : Action) (s : Semaphore) → P s → P (act give a s).1)
    → (acts : List Action) (s : Semaphore) → P s
    → P (run give acts s)
unfolding run
run-keeps P give step [] s c = c
run-keeps P give step (a ∷ rest) s c = run-keeps P give step rest (act give a s).1 (step a s c)
