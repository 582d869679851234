-- ===== src/Futures/Waiters.antt =====
-- set_result and set_exception of src/futures.c: callbacks and waiters, each in its turn.
use mathlib.Core.Path.{fun_ext}
use jega.Base.{
  ltb, ◌==◌, Bool-cases, length, Run, ok, ◌>>=◌, ℕ, zero, suc, ◌+◌, ◌^◌, ◌<◌, ◌≡◌, refl, sym, ap,
  ◌∙◌, subst, ◌⊎◌, inl, inr, Bool, true, none, some, List, [], ◌∷◌, arith,
}
use jega.Calls.{Calls, put_at}
use jega.Calls.Order.{Ready, put_at-here}
use jega.Futures.{Future, Tasks, set_future, wake, back_waiter, settle, set_result}
use jega.Futures.Callbacks.{Scheduled, call_callbacks-schedules}

-- The greenlets are switched to one after the other.
abbrev pub woken : (ℕ → Tasks → Tasks) → ℕ → List ℕ → Tasks → Tasks
woken switch self [] s = s
woken switch self (g ∷ gs) s =
    woken switch self gs (switch g (set_future s self (record (s.futures self) { waiters = gs })))

-- A switch leaves the waiters of the future alone.
abbrev pub Leaves : (ℕ → Tasks → Tasks) → ℕ → Type 0
Leaves switch self =
    (g : ℕ) (s : Tasks) → ((switch g s).futures self).waiters ≡ (s.futures self).waiters

module _ (py_mem c_mem obj_mem : ℕ → Bool) where
  abbrev next_waiter : ℕ → (ℕ → Tasks → Tasks) → Tasks → ℕ → List ℕ → Run Tasks
  next_waiter fuel switch s self [] = ok s
  next_waiter fuel switch s self (g ∷ gs) =
      wake py_mem c_mem obj_mem fuel switch
        (switch g (set_future s self (record (s.futures self) { waiters = gs }))) self

  wake-switches :
      (fuel : ℕ) (switch : ℕ → Tasks → Tasks) (s : Tasks) (self : ℕ) (gs : List ℕ)
      → (s.futures self).waiters ≡ gs
      → length gs < fuel
      → Leaves switch self
      → (wake py_mem c_mem obj_mem fuel switch s self ≡ ok (woken switch self gs s))
        × (((woken switch self gs s).futures self).waiters ≡ [])
  unfolding wake
  wake-switches zero switch s self gs e enough leaves = absurd (omega arith)
  wake-switches (suc fuel) switch s self [] e enough leaves =
      (ap (next_waiter fuel switch s self) e, e)
  wake-switches (suc fuel) switch s self (g ∷ gs) e enough leaves =
      let f = record (s.futures self) { waiters = gs } in
      let popped = set_future s self f in
      let here = ap (λ f. f.waiters) (put_at-here s.futures self f) in
      let (runs, empty) =
        wake-switches fuel switch (switch g popped) self gs (leaves g popped ∙ here) (omega arith)
          leaves in
      (ap (next_waiter fuel switch s self) e ∙ runs, empty)

  -- No greenlet that runs the future's function has to be scheduled for the waiters.
  abbrev pub IsQuiet : Future → Type 0
  IsQuiet f = (f.handle ≡ none) ⊎ (f.waiters ≡ [])

  back_waiter-wakes :
      (fuel : ℕ) (switch : ℕ → Tasks → Tasks) (s : Tasks) (self : ℕ)
      → IsQuiet (s.futures self)
      → back_waiter py_mem c_mem obj_mem fuel switch s self
        ≡ wake py_mem c_mem obj_mem fuel switch s self
  unfolding back_waiter
  back_waiter-wakes fuel switch s self (inl plain) =
      elim (Bool-cases (ltb 0 (length (s.futures self).waiters))) [
        | inl some_wait ↦ rw (some_wait, plain) refl
        | inr none_wait ↦ rw none_wait refl
      ]
  back_waiter-wakes fuel switch s self (inr alone) = rw alone refl

  pub settle-settles :
      (fuel : ℕ) (switch : ℕ → Tasks → Tasks) (s : Tasks) (self : ℕ) (f : Future) (ps ts : List ℕ)
      → s.futures self ≡ f
      → ((n : ℕ) → py_mem n ≡ true)
      → ((n : ℕ) → c_mem n ≡ true)
      → ((n : ℕ) → obj_mem n ≡ true)
      → Ready s.calls ps ts
      → length ps + length f.callbacks < 2 ^ 30
      → length ts < 2 ^ 30
      → IsQuiet f
      → length f.waiters < fuel
      → Leaves switch self
      → (m : Calls) × Scheduled s.calls f.callbacks (self ∷ []) ps ts m
        × (let settled =
              woken switch self f.waiters
                (record (set_future s self (record f { callbacks = [] })) { calls = m }) in
            (settle py_mem c_mem obj_mem fuel switch s self ≡ ok (true, settled))
            × ((settled.futures self).waiters ≡ []))
  settle-settles fuel switch s self f ps ts e py c obj r fewer_ps fewer_ts quiet enough leaves =
      let (m, runs, h) =
        call_callbacks-schedules py_mem c_mem obj_mem s self ps ts py c obj r
          (subst (λ f. length ps + length f.callbacks < 2 ^ 30) (sym e) fewer_ps) fewer_ts in
      let f' = record f { callbacks = [] } in
      let s' = record (set_future s self f') { calls = m } in
      let here : s'.futures self ≡ f' = put_at-here s.futures self f' in
      let called =
        runs
        ∙ ap
            (λ g. ok (true, record (set_future s self (record g { callbacks = [] })) { calls = m }))
            e in
      let (wakes, empty) =
        wake-switches fuel switch s' self f.waiters (ap (λ g. g.waiters) here) enough leaves in
      let backs = back_waiter-wakes fuel switch s' self (subst IsQuiet (sym here) quiet) ∙ wakes in
      (
        m,
        subst (λ g. Scheduled s.calls g.callbacks (self ∷ []) ps ts m) e h,
        (
          ap
                (λ c. c >>= λ (done, s').
                  back_waiter py_mem c_mem obj_mem fuel switch s' self >>= λ m. ok (done, m))
                called
              ∙ ap (λ c. c >>= λ m. ok (true, m)) backs,
          empty,
        ),
      )

  rewritten :
      (fs : ℕ → Future) (self : ℕ) (f g : Future)
      → put_at (put_at fs self f) self g ≡ put_at fs self g
  rewritten fs self f g =
      fun_ext
        λ j. elim (Bool-cases (j == self)) [ inl same ↦ rw same refl | inr other ↦ rw other refl ]

  -- When the result is set, every callback becomes a pending call, in order and with the future as its
  -- argument, and then each waiter is switched to, in order and once. The call succeeds, and nobody
  -- waits any more. It needs allocators that grant every request, fewer than 2 ^ 30 calls of each
  -- kind, switches that leave the waiters alone, fuel for one round more than there are waiters, and
  -- that the future has no handle when it has waiters.
  pub set_result-settles :
      (fuel : ℕ) (switch : ℕ → Tasks → Tasks) (s : Tasks) (self r : ℕ) (ps ts : List ℕ)
      → ((n : ℕ) → py_mem n ≡ true)
      → ((n : ℕ) → c_mem n ≡ true)
      → ((n : ℕ) → obj_mem n ≡ true)
      → Ready s.calls ps ts
      → length ps + length (s.futures self).callbacks < 2 ^ 30
      → length ts < 2 ^ 30
      → IsQuiet (s.futures self)
      → length (s.futures self).waiters < fuel
      → Leaves switch self
      → (m : Calls) × Scheduled s.calls (s.futures self).callbacks (self ∷ []) ps ts m
        × (let f = record (s.futures self) { result = some r; callbacks = [] } in
            let settled =
              woken switch self
                (s.futures self).waiters
                (record (set_future s self f) { calls = m }) in
            (set_result py_mem c_mem obj_mem fuel switch s self r ≡ ok (true, settled))
            × ((settled.futures self).waiters ≡ []))
  unfolding set_result
  set_result-settles fuel switch s self r ps ts py c obj ready fewer_ps fewer_ts quiet enough
        leaves =
      let f = record (s.futures self) { result = some r } in
      let f' = record (s.futures self) { result = some r; callbacks = [] } in
      let (m, h, sets) =
        settle-settles fuel switch (set_future s self f) self f ps ts (put_at-here s.futures self f)
          py c obj ready fewer_ps fewer_ts quiet enough leaves in
      (
        m,
        h,
        subst
            (λ fs.
              let settled = woken switch self f.waiters (record { calls = m; futures = fs }) in
              (settle py_mem c_mem obj_mem fuel switch (set_future s self f) self
                ≡ ok (true, settled))
              × ((settled.futures self).waiters ≡ []))
            (rewritten s.futures self f f') sets,
      )
