-- ===== src/Futures.antt =====
-- src/futures.c and src/futures.h: results that greenlets wait for and callbacks are called with.
-- The futures are in a store from their numbers, beside the scheduler's calls. The set of waiters is
-- a list in the order in which PySet_Pop gives its members. Tuples and lists are always granted.
pub mod Callbacks
pub mod Waiters
pub mod Removal
mod Tests
use jega.Base.{
  ltb, ◌==◌, if◌then◌else◌, length, Run, out_of_fuel, ok, ◌>>=◌, ℕ, zero, suc, ◌+◌, Bool, true,
  false, ◌||◌, Option, none, some, List, [], ◌∷◌, ◌++◌,
}
use jega.Loop.{update, schedule_timer}
use jega.Calls.{function, Calls, put_at, loop_schedule_call}
use jega.Events.{is_some}

pub data FutureState : Type 0 where
  pending cancelled finished : FutureState

pub record Future : Type 0 where
  pub result : Option ℕ
  pub exc_info : Option ℕ
  pub callbacks : List ℕ
  pub waiters : List ℕ
  pub handle : Option ℕ
  pub state : FutureState

pub record Tasks : Type 0 where
  pub calls : Calls
  pub futures : ℕ → Future

pub future_init : Future
future_init = record {
  result = none;
  exc_info = none;
  callbacks = [];
  waiters = [];
  handle = none;
  state = pending;
}

abbrev pub set_future : Tasks → ℕ → Future → Tasks
set_future s self f = record s { futures = put_at s.futures self f }

abbrev pub is_pending : FutureState → Bool
is_pending pending = true
is_pending cancelled = false
is_pending finished = false

abbrev pub is_cancelled : FutureState → Bool
is_cancelled pending = false
is_cancelled cancelled = true
is_cancelled finished = false

abbrev pub is_finished : FutureState → Bool
is_finished pending = false
is_finished cancelled = false
is_finished finished = true

pub cancelled? : Future → Bool
cancelled? f = is_cancelled f.state

pub running? : Future → Bool
running? f = false

pub done? : Future → Bool
done? f = is_cancelled f.state || is_some f.result || is_some f.exc_info

-- What future_result and future_exception give: a value, an exception that is raised, None, or an error of
-- their own.
pub data Answer : Type 0 where
  value : ℕ → Answer
  exception_raised : ℕ → Answer
  no_exception : Answer
  cancelled_error : Answer
  value_error : Answer
  wait_error : Answer

-- `Run` ends in `false` where the function returns -1 or NULL.
module _ (py_mem c_mem obj_mem : ℕ → Bool) where
  -- The loop of call_callbacks, which stops at a call that cannot be scheduled.
  pub schedule_each : List ℕ → List ℕ → Calls → Run (Bool × Calls)
  schedule_each [] args s = ok (true, s)
  schedule_each (cb ∷ cbs) args s =
      loop_schedule_call py_mem c_mem obj_mem s 0 (function cb) args >>= λ (i, s'). elim i [
        | none ↦ ok (false, s')
        | some n ↦ schedule_each cbs args s'
      ]

  pub call_callbacks : Tasks → ℕ → Run (Bool × Tasks)
  call_callbacks s self =
      schedule_each (s.futures self).callbacks (self ∷ []) s.calls >>= λ (done, calls). ok (
        done,
        record (set_future s self (record (s.futures self) { callbacks = [] })) { calls = calls },
      )

  -- The handle of the greenlet that runs the future's function is scheduled again. A push that
  -- fails is not noticed.
  abbrev pub rescheduled : Tasks → Option ℕ → Run Tasks
  rescheduled s none = ok s
  rescheduled s (some h) =
      let l = s.calls.loop in
      let l' = record l { objs = update l.objs h (record (l.objs h) { called = false }) } in
      schedule_timer py_mem c_mem l' h >>= λ (done, m).
      ok (record s { calls = record s.calls { loop = m } })

  -- `switch` is what happens from a switch to a greenlet until it comes back.
  pub wake : ℕ → (ℕ → Tasks → Tasks) → Tasks → ℕ → Run Tasks
  wake zero switch s self = out_of_fuel
  wake (suc fuel) switch s self = elim (s.futures self).waiters [
    | [] ↦ ok s
    | g ∷ gs ↦
        wake fuel switch (switch g (set_future s self (record (s.futures self) { waiters = gs })))
          self
  ]

  pub back_waiter : ℕ → (ℕ → Tasks → Tasks) → Tasks → ℕ → Run Tasks
  back_waiter fuel switch s self =
      let handle = (s.futures self).handle in
      (if ltb 0 (length (s.futures self).waiters) then rescheduled s handle else ok s) >>= λ s'.
      wake fuel switch s' self

  -- Both settings: the callbacks are scheduled, then the waiters are switched to.
  abbrev pub settle : ℕ → (ℕ → Tasks → Tasks) → Tasks → ℕ → Run (Bool × Tasks)
  settle fuel switch s self =
      call_callbacks s self >>= λ (done, s'). back_waiter fuel switch s' self >>= λ m. ok (done, m)

  unfoldable pub set_result : ℕ → (ℕ → Tasks → Tasks) → Tasks → ℕ → ℕ → Run (Bool × Tasks)
  set_result fuel switch s self r =
      settle fuel switch (set_future s self (record (s.futures self) { result = some r })) self

  unfoldable pub set_exception : ℕ → (ℕ → Tasks → Tasks) → Tasks → ℕ → ℕ → Run (Bool × Tasks)
  set_exception fuel switch s self e =
      settle fuel switch (set_future s self (record (s.futures self) { exc_info = some e })) self

  pub cancel_future : Tasks → ℕ → Run (Bool × Tasks)
  cancel_future s self =
      call_callbacks (set_future s self (record (s.futures self) { state = cancelled })) self

  pub add_done_callback : Tasks → ℕ → ℕ → Run (Bool × Tasks)
  add_done_callback s self cb =
      let f = s.futures self in
      let soon = loop_schedule_call py_mem c_mem obj_mem s.calls 0 (function cb) [] in
      if is_pending f.state
      then ok (true, set_future s self (record f { callbacks = f.callbacks ++ cb ∷ [] }))
      else (soon >>= λ (i, calls). ok (is_some i, record s { calls = calls }))

-- PySequence_Index and PySequence_DelItem, where `same` is equality in Python.
abbrev pub index_of : (ℕ → ℕ → Bool) → ℕ → List ℕ → Option ℕ
index_of same cb [] = none
index_of same cb (x ∷ xs) =
    let later = index_of same cb xs in
    if same x cb then some 0 else elim later [ none ↦ none | some i ↦ some (suc i) ]

abbrev pub del_item : List ℕ → ℕ → List ℕ
del_item [] i = []
del_item (x ∷ xs) zero = xs
del_item (x ∷ xs) (suc i) = x ∷ del_item xs i

pub remove_loop : ℕ → (ℕ → ℕ → Bool) → ℕ → List ℕ → Run (List ℕ)
remove_loop zero same cb xs = out_of_fuel
remove_loop (suc fuel) same cb xs = elim (index_of same cb xs) [
  | none ↦ ok xs
  | some i ↦ remove_loop fuel same cb (del_item xs i)
]

pub remove_done_callback : (ℕ → ℕ → Bool) → Tasks → ℕ → ℕ → Run Tasks
remove_done_callback same s self cb =
    let f = s.futures self in
    remove_loop (length f.callbacks + 1) same cb f.callbacks >>= λ xs.
    ok (set_future s self (record f { callbacks = xs }))

abbrev pub insert : ℕ → List ℕ → List ℕ
insert g [] = g ∷ []
insert g (h ∷ hs) = let rest = insert g hs in if h == g then h ∷ hs else h ∷ rest

-- `start_loop` and `loop_switch` may run anything; `false` is an exception.
module _ (start_loop loop_switch : Tasks → Bool × Tasks) (loop_autostart : Bool) where
  pub wait_future : Tasks → ℕ → ℕ → Bool × Tasks
  wait_future s self current =
      let f = s.futures self in
      let started =
        start_loop (set_future s self (record f { waiters = insert current f.waiters })) in
      if loop_autostart
      then if started.0
        then if is_pending (started.1.futures self).state
          then loop_switch started.1
          else (true, started.1)
        else (false, started.1)
      else (false, s)

  abbrev pub result_of : Future → Answer
  result_of f = elim f.exc_info [
    | some e ↦ exception_raised e
    | none ↦ elim f.result [ some r ↦ value r | none ↦ value_error ]
  ]

  abbrev pub exception_of : Future → Answer
  exception_of f = elim f.exc_info [ some e ↦ value e | none ↦ no_exception ]

  -- A cancelled future is refused, and one that is not finished is waited for.
  abbrev pub awaited : (Future → Answer) → Tasks → ℕ → ℕ → Answer × Tasks
  awaited answer s self current =
      let f = s.futures self in
      let w = wait_future s self current in
      if is_cancelled f.state
      then (cancelled_error, s)
      else if is_finished f.state
      then (answer f, s)
      else if w.0
      then (answer (w.1.futures self), w.1)
      else (wait_error, w.1)

  unfoldable pub future_result : Tasks → ℕ → ℕ → Answer × Tasks
  future_result s self current = awaited result_of s self current

  pub future_exception : Tasks → ℕ → ℕ → Answer × Tasks
  future_exception s self current = awaited exception_of s self current
