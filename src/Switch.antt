-- ===== src/Switch.antt =====
-- The switches between greenlets in src/loop.c: loop_switch, LoopObject_run_on_main_task, run_loop,
-- ready_trampoline, start_loop, internal_loop_handle_error and trampoline_switch_callback, with
-- greenlet_dead and greenlet_getparent of src/greensupport.c. The greenlet library is a parameter.
pub mod Safe
pub mod Errors
mod Tests
use jega.Base.{
  ◌==◌, if◌then◌else◌, Run, fault, ok, ◌>>=◌, ℕ, Bool, true, false, not, ◌&&◌, ◌||◌, Option, none,
  some, [], ◌∷◌,
}
use jega.Loop.{LoopState, stop, running}
use jega.Calls.{throw, Calls, loop_schedule_call}
use jega.Events.{is_some}

-- The loop object, in which `calls` has the state and the scheduled calls, and everything else.
pub record Main (W : Type 0) : Type 0 where
  pub calls : Calls
  pub greenlet : Option ℕ
  pub suspend_thread : Option ℕ
  pub world : W

-- What the code calls of the greenlet library. A switch ends when the greenlet that made it is
-- resumed, and everything may have changed by then; `false` is NULL. `is_system` is the test for a
-- subclass of one of `system_errors`.
pub record Greenlets (W : Type 0) : Type 0 where
  pub current : W → ℕ
  pub parent : ℕ → W → Option ℕ
  pub active : ℕ → W → Bool
  pub started : ℕ → W → Bool
  pub make : W → Option ℕ × W
  pub set_parent : ℕ → ℕ → W → W
  pub switch : ℕ → Main W → Run (Bool × Main W)
  pub throw_at : ℕ → ℕ → Main W → Run (Bool × Main W)
  pub is_system : ℕ → Bool

abbrev pub is_stopped : LoopState → Bool
is_stopped stop = true
is_stopped running = false

abbrev pub is_at : Option ℕ → ℕ → Bool
is_at none g = false
is_at (some h) g = h == g

-- The bits of an event.
pub record Fired : Type 0 where
  pub overdue : Bool
  pub readable : Bool
  pub writable : Bool

module _ {W : Type 0} where
  abbrev pub in_state : LoopState → Main W → Main W
  in_state state m = record m {
    calls = record m.calls { loop = record m.calls.loop { state = state } };
  }

  abbrev pub with_raised : Bool → Main W → Main W
  with_raised b m = record m {
    calls = record m.calls { loop = record m.calls.loop { raised = b } };
  }

  module _ (lib : Greenlets W) where
    unfoldable pub greenlet_dead : Option ℕ → W → Bool
    greenlet_dead none w = true
    greenlet_dead (some g) w = if lib.active g w || not (lib.started g w) then false else true

    -- The parent of NULL is None, which is no greenlet.
    abbrev pub greenlet_getparent : Option ℕ → W → Option ℕ
    greenlet_getparent none w = none
    greenlet_getparent (some g) w = lib.parent g w

    -- A switch to NULL is a fault.
    abbrev pub switch_or_fault : Option ℕ → Main W → Run (Bool × Main W)
    switch_or_fault none m = fault
    switch_or_fault (some g) m = lib.switch g m

    abbrev pub with_new : Main W → Option ℕ × W → Bool × Main W
    with_new m (none, w) = (false, with_raised true (record m { greenlet = none; world = w }))
    with_new m (some g, w) = (true, record m { greenlet = some g; world = w })

    abbrev pub finished : Bool × Main W → Bool × Main W
    finished (res, m) = (res, if greenlet_dead m.greenlet m.world then in_state stop m else m)

    abbrev pub begun : Main W → Bool × Main W
    begun m = if greenlet_dead m.greenlet m.world then with_new m (lib.make m.world) else (true, m)

    abbrev pub entered : Bool × Main W → Run (Bool × Main W)
    entered (true, m) = switch_or_fault m.greenlet (in_state running m) >>= λ r. ok (finished r)
    entered (false, m) = ok (false, m)

    unfoldable pub run_on_main_task : Bool → Main W → Run (Bool × Main W)
    run_on_main_task can_call m =
        let runs = entered (begun m) in if can_call then runs else ok (false, with_raised true m)

    -- The method `run` calls run_on_main_task with the method that goes round the loop.
    abbrev pub run_loop : Main W → Run (Bool × Main W)
    run_loop m = run_on_main_task true m

    -- The greenlet that waits becomes a child of the loop's.
    abbrev pub enter : Option ℕ → Main W → Run (Bool × Main W)
    enter none m = fault
    enter (some g) m =
        let current = lib.current m.world in
        if is_at (lib.parent g m.world) current
        then lib.switch g m
        else lib.switch g (record m { world = lib.set_parent current g m.world })

    unfoldable pub loop_switch : Main W → Run (Bool × Main W)
    loop_switch m =
        let current = lib.current m.world in
        if is_at m.greenlet current
        then switch_or_fault (greenlet_getparent m.greenlet m.world) m
        else if greenlet_dead m.greenlet m.world
        then run_loop (record m { greenlet = none; suspend_thread = some current })
        else enter m.greenlet m

    -- The loop is there. `false` is the result -1.
    unfoldable pub ready_trampoline : Bool → Main W → Run (Bool × Main W)
    ready_trampoline loop_check m =
        let current = lib.current m.world in
        if greenlet_dead m.greenlet m.world
        then run_loop (record m { greenlet = none; suspend_thread = some current })
        else if is_stopped m.calls.loop.state
        then run_loop (record m { suspend_thread = some current })
        else if loop_check && is_at m.greenlet current
        then ok (false, with_raised true m)
        else ok (true, m)

    pub start_loop : Bool → Main W → Run (Bool × Main W)
    start_loop loop_autostart m =
        let ready = ready_trampoline true m in if loop_autostart then ready else ok (true, m)

    module _ (py_mem c_mem obj_mem : ℕ → Bool) where
      -- The method `throw` of the parent is called by the loop, with the exception `e`.
      abbrev pub throws_later : Option ℕ → ℕ → Main W → Run (Bool × Main W)
      throws_later none e m = ok (false, with_raised true m)
      throws_later (some p) e m =
          loop_schedule_call py_mem c_mem obj_mem m.calls 0 (throw p e) (e ∷ [])
          >>= λ (timer, calls). ok (is_some timer, record m { calls = calls })

      abbrev pub throws_now : Option ℕ → ℕ → Main W → Run (Bool × Main W)
      throws_now none e m = fault
      throws_now (some p) e m = lib.throw_at p e (in_state stop m)

      pub internal_loop_handle_error : ℕ → Bool → Main W → Run (Bool × Main W)
      internal_loop_handle_error e checktype m =
          let current = lib.current m.world in
          let parent = greenlet_getparent m.greenlet m.world in
          if checktype && not (lib.is_system e)
          then ok (true, m)
          else if is_at m.greenlet current || is_at parent current
          then throws_now parent e m
          else throws_later parent e m

      -- The exception `e` is fetched, and printed as well.
      abbrev pub loop_handle_error : ℕ → Main W → Run (Bool × Main W)
      loop_handle_error e m = internal_loop_handle_error e true (with_raised false m)

      abbrev pub loop_handle_timeout_error : ℕ → Main W → Run (Bool × Main W)
      loop_handle_timeout_error e m = internal_loop_handle_error e false (with_raised false m)

      -- `waiter` is the greenlet that waits, and `timeout_exc` the exception that it asked for.
      pub trampoline_switch_callback : ℕ → ℕ → Fired → Main W → Run (Main W)
      trampoline_switch_callback waiter timeout_exc events m =
          if events.overdue
          then (loop_handle_timeout_error timeout_exc m >>= λ r. ok r.1)
          else if events.writable || events.readable
          then (lib.switch waiter m >>= λ r. ok r.1)
          else ok m
