-- ===== src/Executor/Work.antt =====
-- run_worker of src/executor.c: what the future of a submitted function answers afterwards.
use jega.Base.{
  length, ok, ℕ, ◌+◌, ◌^◌, ◌<◌, ◌≡◌, refl, ap, ◌∙◌, Bool, true, none, some, List, [], ◌∷◌,
}
use jega.Calls.{Calls}
use jega.Calls.Order.{Ready, put_at-here}
use jega.Futures.{
  pending, finished, Future, Tasks, set_future, Answer, value, exception_raised, set_result,
  set_exception, future_result,
}
use jega.Futures.Callbacks.{Scheduled}
use jega.Futures.Waiters.{woken, IsQuiet, settle-settles}
use jega.Executor.{
  WorkerItem, Outcome, returned, returned_fresh, raised_error, settle_with, run_worker,
}

-- Nothing was set, and the future is not cancelled.
pub record IsOpen (f : Future) : Type 0 where
  pub unset : f.result ≡ none
  pub unraised : f.exc_info ≡ none
  pub waits : f.state ≡ pending

-- A switch leaves the future alone.
abbrev pub Keeps : (ℕ → Tasks → Tasks) → ℕ → Type 0
Keeps switch self = (g : ℕ) (s : Tasks) → (switch g s).futures self ≡ s.futures self

abbrev pub answer_of : Outcome → Answer
answer_of (returned r) = value r
answer_of (returned_fresh r) = value r
answer_of (raised_error e) = exception_raised e

-- A result is referred to by something else than the worker.
abbrev pub IsHeld : Outcome → Type 0
IsHeld (returned r) = Unit
IsHeld (returned_fresh r) = ⊥
IsHeld (raised_error e) = Unit

-- The future with the outcome.
abbrev pub with_outcome : Future → Outcome → Future
with_outcome f (returned r) = record f { result = some r; state = finished }
with_outcome f (returned_fresh r) = record f { result = some r; state = finished }
with_outcome f (raised_error e) = record f { exc_info = some e; state = finished }

woken-Keeps :
    (switch : ℕ → Tasks → Tasks) (self : ℕ) (gs : List ℕ) (s : Tasks) (f : Future)
    → Keeps switch self
    → s.futures self ≡ f
    → f.waiters ≡ gs
    → (woken switch self gs s).futures self ≡ record f { waiters = [] }
woken-Keeps switch self [] s f keeps e none_wait =
    let with_waiters : List ℕ → Future = λ gs. record f { waiters = gs } in
    e ∙ ap with_waiters none_wait
woken-Keeps switch self (g ∷ gs) s f keeps e some_wait =
    let popped = set_future s self (record (s.futures self) { waiters = gs }) in
    woken-Keeps switch self gs (switch g popped) (record f { waiters = gs }) keeps
      (keeps g popped
        ∙ put_at-here s.futures self (record (s.futures self) { waiters = gs })
        ∙ ap (λ (h : Future). record h { waiters = gs }) e)
      refl

answers-at_once :
    (start_loop loop_switch : Tasks → Bool × Tasks) (autostart : Bool) (m : Tasks)
    (self current : ℕ) (f : Future) (o : Outcome)
    → m.futures self ≡ record (with_outcome f o) { callbacks = []; waiters = [] }
    → f.exc_info ≡ none
    → future_result start_loop loop_switch autostart m self current ≡ (answer_of o, m)
unfolding future_result
answers-at_once start_loop loop_switch autostart m self current f (returned r) e clear =
    rw e (rw clear refl)
answers-at_once start_loop loop_switch autostart m self current f (returned_fresh r) e clear =
    rw e (rw clear refl)
answers-at_once start_loop loop_switch autostart m self current f (raised_error x) e clear =
    rw e refl

module _ (py_mem c_mem obj_mem : ℕ → Bool) where
  settle_with-settles :
      (fuel : ℕ) (switch : ℕ → Tasks → Tasks) (s : Tasks) (self : ℕ) (o : Outcome) (ps ts : List ℕ)
      → IsHeld o
      → ((n : ℕ) → py_mem n ≡ true)
      → ((n : ℕ) → c_mem n ≡ true)
      → ((n : ℕ) → obj_mem n ≡ true)
      → Ready s.calls ps ts
      → length ps + length (s.futures self).callbacks < 2 ^ 30
      → length ts < 2 ^ 30
      → IsQuiet py_mem c_mem obj_mem (s.futures self)
      → length (s.futures self).waiters < fuel
      → Keeps switch self
      → (m : Tasks) × (calls : Calls) × Scheduled s.calls
          (s.futures self).callbacks
          (self ∷ [])
          ps
          ts
          calls
        × (settle_with py_mem c_mem obj_mem fuel switch
              (set_future s self (record (s.futures self) { state = finished }))
              self
              o
            ≡ ok (true, m))
        × (m.futures self
            ≡ record (with_outcome (s.futures self) o) { callbacks = []; waiters = [] })
  unfolding set_result set_exception
  settle_with-settles fuel switch s self (returned r) ps ts held py c obj ready fewer_ps fewer_ts
        quiet enough keeps =
      let f = with_outcome (s.futures self) (returned r) in
      let s' = set_future s self (record (s.futures self) { state = finished }) in
      let s'' = set_future s' self (record (s'.futures self) { result = some r }) in
      let (calls, h, (runs, empty)) =
        settle-settles py_mem c_mem obj_mem fuel switch s'' self f ps ts
          (put_at-here s'.futures self (record (s'.futures self) { result = some r })
            ∙ ap (λ (g : Future). record g { result = some r })
                (put_at-here s.futures self (record (s.futures self) { state = finished })))
          py c obj ready fewer_ps fewer_ts quiet enough (λ g t. ap (λ h. h.waiters) (keeps g t)) in
      (
        _,
        calls,
        h,
        runs,
        woken-Keeps switch self f.waiters _ (record f { callbacks = [] }) keeps
            (put_at-here s''.futures self (record f { callbacks = [] })) refl,
      )
  settle_with-settles fuel switch s self (returned_fresh r) ps ts held py c obj ready fewer_ps
        fewer_ts quiet enough keeps =
      absurd held
  settle_with-settles fuel switch s self (raised_error x) ps ts held py c obj ready fewer_ps
        fewer_ts quiet enough keeps =
      let f = with_outcome (s.futures self) (raised_error x) in
      let s' = set_future s self (record (s.futures self) { state = finished }) in
      let s'' = set_future s' self (record (s'.futures self) { exc_info = some x }) in
      let (calls, h, (runs, empty)) =
        settle-settles py_mem c_mem obj_mem fuel switch s'' self f ps ts
          (put_at-here s'.futures self (record (s'.futures self) { exc_info = some x })
            ∙ ap (λ (g : Future). record g { exc_info = some x })
                (put_at-here s.futures self (record (s.futures self) { state = finished })))
          py c obj ready fewer_ps fewer_ts quiet enough (λ g t. ap (λ h. h.waiters) (keeps g t)) in
      (
        _,
        calls,
        h,
        runs,
        woken-Keeps switch self f.waiters _ (record f { callbacks = [] }) keeps
            (put_at-here s''.futures self (record f { callbacks = [] })) refl,
      )

  run_worker-calls :
      (fuel : ℕ) (switch : ℕ → Tasks → Tasks) (call : WorkerItem → Tasks → Outcome × Tasks)
      (s s' : Tasks) (item : WorkerItem) (o : Outcome)
      → IsOpen (s.futures item.future)
      → call item s ≡ (o, s')
      → run_worker py_mem c_mem obj_mem fuel switch call s item
        ≡ settle_with py_mem c_mem obj_mem fuel switch
            (set_future s' item.future (record (s'.futures item.future) { state = finished }))
            item.future
            o
  unfolding run_worker
  run_worker-calls fuel switch call s s' item o unsettled called =
      rw (unsettled.waits, unsettled.unset, unsettled.unraised)
        (ap
          (λ c.
            settle_with py_mem c_mem obj_mem fuel switch
              (set_future c.1 item.future (record (c.1.futures item.future) { state = finished }))
              item.future c.0)
          called)

  -- A worker calls the function of a future that is not settled and not cancelled. Afterwards the
  -- callbacks that the future has then are pending calls, in order, nobody waits, and `result` gives
  -- what the function returned, or raises what it raised, at once and without a switch. It needs that
  -- the call ends with no exception in the future, that something else refers to a result, that the switches to the waiters leave the future
  -- alone, allocators that grant every request, fewer than 2 ^ 30 calls of each kind, fuel for one
  -- round more than there are waiters, and that the future has no handle when it has waiters.
  pub run_worker-answers :
      (fuel : ℕ) (switch : ℕ → Tasks → Tasks) (call : WorkerItem → Tasks → Outcome × Tasks)
      (s s' : Tasks) (item : WorkerItem) (o : Outcome) (ps ts : List ℕ)
      → IsOpen (s.futures item.future)
      → call item s ≡ (o, s')
      → (s'.futures item.future).exc_info ≡ none
      → IsHeld o
      → ((n : ℕ) → py_mem n ≡ true)
      → ((n : ℕ) → c_mem n ≡ true)
      → ((n : ℕ) → obj_mem n ≡ true)
      → Ready s'.calls ps ts
      → length ps + length (s'.futures item.future).callbacks < 2 ^ 30
      → length ts < 2 ^ 30
      → IsQuiet py_mem c_mem obj_mem (s'.futures item.future)
      → length (s'.futures item.future).waiters < fuel
      → Keeps switch item.future
      → (m : Tasks) × (calls : Calls) × (run_worker py_mem c_mem obj_mem fuel switch call s item
          ≡ ok (true, m))
        × Scheduled s'.calls (s'.futures item.future).callbacks (item.future ∷ []) ps ts calls
        × ((m.futures item.future).waiters ≡ [])
        × ((start_loop loop_switch : Tasks → Bool × Tasks) (autostart : Bool) (current : ℕ)
            → future_result start_loop loop_switch autostart m item.future current
              ≡ (answer_of o, m))
  run_worker-answers fuel switch call s s' item o ps ts unsettled called clear kept_alive py c obj
        ready fewer_ps fewer_ts quiet enough keeps =
      let (m, calls, h, runs, e) =
        settle_with-settles fuel switch s' item.future o ps ts kept_alive py c obj ready fewer_ps
          fewer_ts quiet enough keeps in
      (
        m,
        calls,
        run_worker-calls fuel switch call s s' item o unsettled called ∙ runs,
        h,
        ap (λ f. f.waiters) e,
        λ start_loop loop_switch autostart current.
            answers-at_once start_loop loop_switch autostart m item.future current
              (s'.futures item.future) o e clear,
      )
