-- ===== src/Executor.antt =====
-- src/executor.c and src/executor.h: a pool of worker greenlets that run submitted functions and settle
-- their futures. The executor that a worker's weak reference names is `executor`, which `dead` says is
-- gone. New objects are passed in with their numbers; `none` is an allocation that fails.
pub mod Submit
pub mod Work
mod Tests
use jega.Base.{
  ltb, ◌==◌, if◌then◌else◌, Run, fault, out_of_fuel, ok, ◌>>=◌, u32, ℕ, zero, suc, ◌+◌, Bool, true,
  false, ◌||◌, Option, none, some, [], ◌∷◌,
}
use jega.Ring.{Ring, init_queue, queue_push, queue_shift}
use jega.Loop.{Loop, update, check_stop_signal, schedule_timer}
use jega.Calls.{resume, put_at, loop_schedule_call}
use jega.Events.{is_some}
use jega.Futures.{
  finished, Tasks, future_init, set_future, is_pending, is_cancelled, set_result, set_exception,
}

pub record WorkerItem : Type 0 where
  pub future : ℕ
  pub fn : ℕ
  pub args : Option ℕ
  pub kwargs : Option ℕ

pub record Executor : Type 0 where
  pub pendings : Ring ℕ
  pub run_workers : ℕ
  pub max_workers : ℕ
  pub shutdown : Bool

pub record Workplace : Type 0 where
  pub tasks : Tasks
  pub executor : Executor
  pub items : ℕ → WorkerItem
  -- The weak reference to the executor, the argument of its workers.
  pub weakref : ℕ

-- What a call of a submitted function ends in; `returned_fresh` is a result that nothing else refers
-- to.
pub data Outcome : Type 0 where
  returned : ℕ → Outcome
  returned_fresh : ℕ → Outcome
  raised_error : ℕ → Outcome

abbrev pub executor_with : ℕ → Option (Ring ℕ) → Option Executor
executor_with max_workers none = none
executor_with max_workers (some r) =
    some (record { pendings = r; run_workers = 0; max_workers = max_workers; shutdown = false })

-- The check of the `event_loop` argument is left out.
pub executor_init : (ℕ → Bool) → ℕ → Option Executor
executor_init py_mem max_workers = executor_with (u32 max_workers) (init_queue py_mem 32)

abbrev pub make_workeritem : ℕ → ℕ → Option ℕ → Option ℕ → WorkerItem
make_workeritem future fn args kwargs = record {
  future = future;
  fn = fn;
  args = args;
  kwargs = kwargs;
}

abbrev pub with_future : Workplace → ℕ → Workplace
with_future w future = record w { tasks = set_future w.tasks future future_init }

abbrev pub with_item : Workplace → ℕ → WorkerItem → Workplace
with_item w i item = record w { items = put_at w.items i item }

-- An exception is set.
abbrev pub failing : Workplace → Workplace
failing w = record w {
  tasks = record w.tasks {
    calls = record w.tasks.calls { loop = record w.tasks.calls.loop { raised = true } };
  };
}

module _ (py_mem c_mem obj_mem : ℕ → Bool) where
  -- The worker's reference to the result is given up before the future takes it, so that a fresh one
  -- is used after it was freed.
  abbrev pub settle_with : ℕ → (ℕ → Tasks → Tasks) → Tasks → ℕ → Outcome → Run (Bool × Tasks)
  settle_with fuel switch s self (returned r) = set_result py_mem c_mem obj_mem fuel switch s self r
  settle_with fuel switch s self (returned_fresh r) = fault
  settle_with fuel switch s self (raised_error e) =
      set_exception py_mem c_mem obj_mem fuel switch s self e

  -- `call` is the call of the submitted function. A future that was cancelled or is settled is left as
  -- it is, without a call.
  unfoldable pub run_worker :
      ℕ
      → (ℕ → Tasks → Tasks)
      → (WorkerItem → Tasks → Outcome × Tasks)
      → Tasks
      → WorkerItem
      → Run (Bool × Tasks)
  run_worker fuel switch call s item =
      let f = s.futures item.future in
      let called = call item s in
      let run =
        set_future called.1 item.future
          (record (called.1.futures item.future) { state = finished }) in
      let settled = settle_with fuel switch run item.future called.0 in
      if is_cancelled f.state || (is_some f.result || is_some f.exc_info)
      then ok (true, s)
      else settled

  -- A worker is started while there are fewer than max_workers, or always when that is 0. It waits
  -- for its first switch as a pending call.
  pub adjust_thread_count : Option ℕ → Workplace → Run (Bool × Workplace)
  adjust_thread_count none w =
      let x = w.executor in
      if x.max_workers == 0 || ltb x.run_workers x.max_workers
      then ok (false, failing w)
      else ok (true, w)
  adjust_thread_count (some greenlet) w =
      let x = w.executor in
      let started =
        loop_schedule_call py_mem c_mem obj_mem w.tasks.calls 0 (resume greenlet) (w.weakref ∷ [])
        >>= λ (handle, calls). ok (
          is_some handle,
          record w {
            tasks = record w.tasks { calls = calls };
            executor =
                if is_some handle then record x { run_workers = u32 (x.run_workers + 1) } else x;
          },
        ) in
      if x.max_workers == 0 || ltb x.run_workers x.max_workers then started else ok (true, w)

  abbrev pub enqueued : Workplace → ℕ → Option ℕ → Option (Ring ℕ) → Run (Option ℕ × Workplace)
  enqueued w future greenlet none = ok (none, failing w)
  enqueued w future greenlet (some r) =
      adjust_thread_count greenlet (record w { executor = record w.executor { pendings = r } })
      >>= λ (done, w'). ok (if done then some future else none, w')

  -- `none` is NULL.
  pub internal_submit :
      Workplace
      → Option ℕ
      → Option ℕ
      → Option ℕ
      → ℕ
      → Option ℕ
      → Option ℕ
      → Run (Option ℕ × Workplace)
  internal_submit w none new_item greenlet fn args kwargs = ok (none, failing w)
  internal_submit w (some future) none greenlet fn args kwargs =
      ok (none, failing (with_future w future))
  internal_submit w (some future) (some i) greenlet fn args kwargs =
      let w' = with_item (with_future w future) i (make_workeritem future fn args kwargs) in
      queue_push py_mem w'.executor.pendings i >>= enqueued w' future greenlet

  -- What the loop of _worker uses of its surroundings.
  pub record Surroundings : Type 0 where
    pub switch : ℕ → Tasks → Tasks
    pub call : WorkerItem → Tasks → Outcome × Tasks
    pub loop_switch : Workplace → Workplace
    pub dead : Workplace → Bool

  abbrev pub with_loop : Workplace → Loop → Workplace
  with_loop w l = record w { tasks = record w.tasks { calls = record w.tasks.calls { loop = l } } }

  abbrev pub interrupted : Workplace → Bool × Workplace
  interrupted w =
      let r = check_stop_signal w.tasks.calls.loop in (r.0 || w.executor.shutdown, with_loop w r.1)

  -- The worker's handle may be called once more.
  abbrev pub requeued : Workplace → ℕ → Run Workplace
  requeued w handle =
      let l = w.tasks.calls.loop in
      let o = record (l.objs handle) { called = false } in
      schedule_timer py_mem c_mem (record l { objs = update l.objs handle o }) handle
      >>= λ (done, m). ok (with_loop w m)

  abbrev pub take_handle : Workplace → ℕ → ℕ → Workplace
  take_handle w self handle = record w {
    tasks = set_future w.tasks self (record (w.tasks.futures self) { handle = some handle });
  }

  -- The loop of _worker, with the max_workers that it read before; `false` is NULL.
  pub worker_loop : ℕ → Surroundings → ℕ → ℕ → Workplace → Run (Bool × Workplace)
  worker_loop zero around max_workers handle w = out_of_fuel
  worker_loop (suc fuel) around max_workers handle w =
      let rest = λ (m : Workplace). worker_loop fuel around max_workers handle m in
      let again = λ (m : Workplace).
        let more = requeued (interrupted m).1 handle >>= rest in
        if around.dead m
        then ok (true, m)
        else if (interrupted m).0
        then ok (true, (interrupted m).1)
        else if max_workers == 0
        then ok (true, (interrupted m).1)
        else more in
      let finish =
        λ (m : Workplace). if m.tasks.calls.loop.raised then ok (false, m) else again m in
      let work = λ (m : Workplace) (item : WorkerItem).
        let ran =
          run_worker fuel around.switch around.call (take_handle m item.future handle).tasks item
          >>= λ (done, tasks). finish (record m { tasks = tasks }) in
        let skipped = rest m in
        if is_pending (m.tasks.futures item.future).state then ran else skipped in
      let next = λ (m : Workplace). queue_shift m.executor.pendings >>= λ (item, r).
      let m' = record m { executor = record m.executor { pendings = r } } in
      elim item [ none ↦ rest (around.loop_switch m') | some i ↦ work m' (m'.items i) ] in
      let on = next (interrupted w).1 in
      if around.dead w
      then ok (true, w)
      else if (interrupted w).0
      then ok (true, (interrupted w).1)
      else on

  -- A worker from its first switch on, with the handle that it was scheduled by.
  pub worker : ℕ → Surroundings → ℕ → Workplace → Run (Bool × Workplace)
  worker fuel around handle w =
      let runs = worker_loop fuel around w.executor.max_workers handle w in
      if around.dead w then ok (true, w) else runs
