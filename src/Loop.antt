-- ===== src/Loop.antt =====
-- The scheduler of src/loop.c: the queue of pending calls, the heap of timers, and the two functions
-- that run them. The objects live in a store, `objs`, from their numbers. What the code outside
-- does when it is called, a callback or a greenlet that is switched to, is the parameter `World`.
pub mod Sweep
pub mod Fire
pub mod Pending
pub mod Schedule
mod Tests
use jega.Base.{
  ltb, leb, ◌==◌, if◌then◌else◌, Run, fault, out_of_fuel, ok, ◌>>=◌, u32_mod, u32, load, ℕ, zero,
  suc, ◌+◌, ◌-◌, Bool, true, false, ◌&&◌, ◌||◌, Option, none, some,
}
use jega.Ring.{Ring, queue_push, queue_shift}
use jega.Heapq.{Heapq, heappop, heappush}
use jega.Timer.{Object, check_handle_obj, time_after}

pub data LoopState : Type 0 where
  stop running : LoopState

pub data Signal : Type 0 where
  no_signal sigint sigterm : Signal

-- `clock` is what `time(NULL)` gives, and `raised` says that a Python exception is set.
pub record Loop : Type 0 where
  pub objs : ℕ → Object
  pub pendings : Ring ℕ
  pub scheduled : Heapq ℕ
  pub activecnt : ℕ
  pub state : LoopState
  pub catch_signal : Signal
  pub clock : ℕ
  pub raised : Bool

-- A call of the callback, or a switch to the greenlet, of an object may change the loop in any way.
pub record World : Type 0 where
  pub run : ℕ → Loop → Loop
  pub dead : ℕ → Loop → Bool

abbrev pub due_time : Loop → ℕ → ℕ
due_time l i = (l.objs i).seconds

abbrev pub update : (ℕ → Object) → ℕ → Object → ℕ → Object
update objs i o j = if j == i then o else objs j

abbrev pub is_running : LoopState → Bool
is_running stop = false
is_running running = true

abbrev pub less_one : ℕ → ℕ
less_one n = u32 (n + u32_mod - 1)

-- The handler of SIGINT and SIGTERM keeps the first signal.
pub sigint_cb : Signal → Loop → Loop
sigint_cb s l = elim l.catch_signal [
  | no_signal ↦ record l { catch_signal = s }
  | sigint ↦ l
  | sigterm ↦ l
]

abbrev stop_on : Signal → Loop → Bool × Loop
stop_on no_signal l = (false, l)
stop_on sigint l = (true, record l { state = stop; catch_signal = no_signal })
stop_on sigterm l = (false, l)

pub check_stop_signal : Loop → Bool × Loop
check_stop_signal l = if is_running l.state then stop_on l.catch_signal l else (true, l)

-- A switch to a dead greenlet is left out.
pub call_object : World → ℕ → Loop → Loop
call_object w i l = if (l.objs i).has_greenlet && w.dead i l then l else w.run i l

-- fire_handle leaves `called` as it is.
pub fire_handle : World → ℕ → Loop → Loop
fire_handle w i l = let o = l.objs i in if o.cancelled || o.called then l else call_object w i l

-- The timer is about to be called.
abbrev pub marked : ℕ → Loop → Loop
marked i l = record l { objs = update l.objs i (record (l.objs i) { called = true }) }

-- The timer is new again, and due an interval from now.
abbrev pub armed : ℕ → Loop → Loop
armed i l = record l {
  objs = update l.objs i (record (l.objs i) {
    called = false;
    cancelled = false;
    seconds = time_after l.clock (l.objs i).interval;
  });
}

module _ (py_mem c_mem : ℕ → Bool) where
  abbrev queued : Loop → Option (Ring ℕ) → Run (Bool × Loop)
  queued l none = ok (false, record l { raised = true })
  queued l (some r) = ok (true, record l { pendings = r; activecnt = u32 (l.activecnt + 1) })

  abbrev heaped : Loop → Option (Heapq ℕ) → Run (Bool × Loop)
  heaped l none = ok (false, record l { raised = true })
  heaped l (some q) = ok (true, record l { scheduled = q; activecnt = u32 (l.activecnt + 1) })

  -- `false` is NULL, with an exception set and the loop as it was otherwise.
  pub schedule_timer : Loop → ℕ → Run (Bool × Loop)
  unfolding check_handle_obj
  schedule_timer l i =
      if check_handle_obj (l.objs i)
      then queue_push py_mem l.pendings i >>= queued l
      else heappush (due_time l) c_mem l.scheduled i >>= heaped l

  -- The timer is dropped from the heap, and counts no more.
  pub drop_timer : Loop → Run Loop
  drop_timer l = heappop (due_time l) l.scheduled >>= λ (t, q).
      ok (record l { scheduled = q; activecnt = less_one l.activecnt })

  abbrev moved : Loop → Option (Ring ℕ) → Run (Bool × Loop)
  moved l none = ok (false, record l { raised = true })
  moved l (some r) = ok (true, record l { pendings = r })

  abbrev move_popped : Loop → Option ℕ × Heapq ℕ → Run (Bool × Loop)
  move_popped l (none, q) = fault
  move_popped l (some i, q) = queue_push py_mem l.pendings i >>= moved (record l { scheduled = q })

  -- The timer goes from the heap to the pending calls. `false` is a push that failed.
  pub move_timer : Loop → Run (Bool × Loop)
  move_timer l = heappop (due_time l) l.scheduled >>= move_popped l

  -- The `while` loop of fire_timers, with the time that it has read.
  unfoldable pub fire_timers_loop : ℕ → ℕ → Loop → Run (Bool × Loop)
  fire_timers_loop zero now l = out_of_fuel
  fire_timers_loop (suc fuel) now l =
      let dropped = drop_timer l >>= λ l'. fire_timers_loop fuel now l' in
      let fired = move_timer l >>= λ (done, l').
      let rest = fire_timers_loop fuel now l' in if done then rest else ok (false, l') in
      let round = load l.scheduled.heap 0 >>= λ i.
      if (l.objs i).cancelled
      then dropped
      else if leb (due_time l i) now
      then fired
      else ok (true, l) in
      if ltb 0 l.scheduled.size && is_running l.state then round else ok (true, l)

  unfoldable pub fire_timers : Loop → Run (Bool × Loop)
  fire_timers l = fire_timers_loop (l.scheduled.size + 1) l.clock l

  -- A repeated timer is armed again after its call.
  pub rearm : ℕ → Loop → Run Loop
  rearm i l = schedule_timer (armed i l) i >>= λ (done, l'). ok l'

  pub fire_timer : World → ℕ → Loop → Run Loop
  fire_timer w i l =
      let after = call_object w i (marked i l) in
      if (l.objs i).cancelled || (l.objs i).called
      then ok l
      else if (after.objs i).repeats
      then rearm i after
      else ok after

  -- One pending call.
  pub fire_item : World → ℕ → Loop → Run Loop
  fire_item w i l =
      if check_handle_obj (l.objs i)
      then ok (if (l.objs i).cancelled then l else fire_handle w i l)
      else if (l.objs i).cancelled
      then ok l
      else fire_timer w i l

  -- The `while` loop of fire_pendings; `false` is the result -1. A failed stop test sets
  -- KeyboardInterrupt.
  pub fire_pendings : ℕ → World → Loop → Run (Bool × Loop)
  fire_pendings zero w l = out_of_fuel
  fire_pendings (suc fuel) w l =
      let checked = λ (m : Loop).
        let rest = fire_pendings fuel w (check_stop_signal m).1 in
        if m.raised
        then ok (false, m)
        else if (check_stop_signal m).0
        then ok (false, record (check_stop_signal m).1 { raised = true })
        else rest in
      let fire = λ (i : ℕ) (m : Loop).
        fire_item w i m >>= λ m'. checked (record m' { activecnt = less_one m'.activecnt }) in
      let round = queue_shift l.pendings >>= λ (item, r). elim item [
        | none ↦ ok (true, record l { pendings = r })
        | some i ↦ fire i (record l { pendings = r })
      ] in
      if is_running l.state then round else ok (true, l)
