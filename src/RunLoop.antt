-- ===== src/RunLoop.antt =====
-- The run loop of src/loop.c: internal_run_once and LoopObject_run. The poll of the event library and
-- what a reset after a fork does are parameters, and so is the switch to a suspended greenlet; each
-- may change the loop in any way.
pub mod Drain
pub mod Fork
mod Tests
use jega.Base.{
  ltb, if◌then◌else◌, Run, fault, out_of_fuel, ok, ◌>>=◌, ℕ, zero, suc, Bool, true, false, not,
  ◌&&◌, ◌||◌, Option, none, some,
}
use jega.Events.{is_some}
use jega.Loop.{
  stop, running, Loop, World, is_running, check_stop_signal, fire_timers, fire_pendings,
}
use jega.Calls.{put_at}

-- `main_loop` is the pointer to the event library's loop, and `is_live` says which of its loops are not
-- destroyed. `suspend_thread` is a greenlet that waits for the loop to run.
pub record Runner : Type 0 where
  pub loop : Loop
  pub ioactivecnt : ℕ
  pub postfork : Bool
  pub main_loop : ℕ
  pub is_live : ℕ → Bool
  pub suspend_thread : Option ℕ

-- `aborted` says that the exception that is set is a LoopAbortException.
pub record Around : Type 0 where
  pub create : Runner → ℕ
  pub reset : Runner → Bool × Runner
  pub poll : ℕ → Runner → Runner
  pub switch_back : ℕ → Runner → Runner
  pub aborted : Runner → Bool

abbrev pub over : Runner → Bool × Loop → Bool × Runner
over m (done, l) = (done, record m { loop = l })

-- A step is left out when one before it has failed.
abbrev pub next_step : (Runner → Run (Bool × Runner)) → Bool × Runner → Run (Bool × Runner)
next_step step (true, m) = step m
next_step step (false, m) = ok (false, m)

abbrev pub stopped : Runner → Runner
stopped m = record m { loop = record m.loop { state = stop } }

abbrev pub busy : Runner → Bool
busy m = is_running m.loop.state && (ltb 0 m.loop.activecnt || ltb 1 m.ioactivecnt)

-- KeyboardInterrupt takes the place of another exception.
abbrev pub ended : Bool → Runner → Bool × Runner
ended interrupted m =
    if interrupted
    then (false, record m { loop = record m.loop { state = stop; raised = true } })
    else (true, stopped m)

module _ (py_mem c_mem : ℕ → Bool) (w : World) (around : Around) where
  -- The event library's loop is destroyed, and a new one is created.
  abbrev pub remade : Runner → Runner
  remade m = record m {
    main_loop = around.create m;
    is_live = put_at (put_at m.is_live m.main_loop false) (around.create m) true;
    ioactivecnt = 0;
  }

  abbrev pub reset_loop : Runner → Bool × Runner
  reset_loop m = around.reset (remade m)

  abbrev pub after_fork : Runner → Bool × Runner
  after_fork m = if m.postfork then reset_loop (record m { postfork = false }) else (true, m)

  abbrev pub fire_due : Runner → Run (Bool × Runner)
  fire_due m =
      let fired = fire_timers py_mem c_mem m.loop >>= λ r. ok (over m r) in
      if ltb 0 m.loop.scheduled.size then fired else ok (true, m)

  abbrev pub fire_queued : ℕ → Runner → Run (Bool × Runner)
  fire_queued fuel m =
      let fired = fire_pendings py_mem c_mem fuel w m.loop >>= λ r. ok (over m r) in
      if ltb 0 m.loop.pendings.size then fired else ok (true, m)

  -- The pointer `main_loop` was read at the start of the round.
  abbrev pub wait_for_events : ℕ → ℕ → Runner → Run (Bool × Runner)
  wait_for_events main_loop timeout m =
      if ltb 0 m.loop.scheduled.size || ltb 1 m.ioactivecnt
      then if m.is_live main_loop then ok (true, around.poll timeout m) else fault
      else ok (true, m)

  -- `false` is NULL.
  pub internal_run_once : ℕ → ℕ → Runner → Run (Bool × Runner)
  internal_run_once fuel timeout m =
      next_step fire_due (after_fork m)
      >>= next_step (fire_queued fuel)
      >>= next_step (wait_for_events m.main_loop timeout)
      >>= next_step (λ m'. ok (after_fork m'))

  abbrev pub failed_run : Runner → Bool × Runner
  failed_run m =
      if around.aborted m
      then (true, record m { loop = record m.loop { state = stop; raised = false } })
      else (false, stopped m)

  -- The `while` loop of LoopObject_run.
  pub run_rounds : ℕ → ℕ → Bool → Runner → Run (Bool × Runner)
  run_rounds zero fuel interrupted m = out_of_fuel
  run_rounds (suc rounds) fuel interrupted m =
      let after = λ (r : Bool × Runner).
        let checked = check_stop_signal r.1.loop in
        let m' = record r.1 { loop = checked.1 } in
        let rest = run_rounds rounds fuel checked.0 m' in
        if not r.0
        then ok (failed_run r.1)
        else if checked.1.raised
        then ok (failed_run m')
        else rest in
      let round = internal_run_once fuel 1 m >>= after in
      if busy m then round else ok (ended interrupted m)

  abbrev pub resumed : Option ℕ → Runner → Runner
  resumed none m = m
  resumed (some g) m = record (around.switch_back g m) { suspend_thread = none }

  pub loop_run : ℕ → ℕ → Runner → Run (Bool × Runner)
  loop_run rounds fuel m =
      let started = record m { loop = record m.loop { state = running } } in
      let m' = resumed m.suspend_thread started in
      let runs = run_rounds rounds fuel false m' in
      if is_some m.suspend_thread && m'.loop.raised then ok (false, m') else runs

  pub loop_run_once : ℕ → ℕ → Runner → Run (Bool × Runner)
  loop_run_once fuel timeout m = internal_run_once fuel timeout (resumed m.suspend_thread m)
