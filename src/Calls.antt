-- ===== src/Calls.antt =====
-- How a call gets into the scheduler of src/loop.c: loop_schedule_call and the methods on it, call_soon,
-- call_later, call_repeatedly, set_timeout and sleep. Beside the scheduler's loop, the model keeps what
-- each handle and timer is to call; a new one has the number `next`.
pub mod Order
pub mod Repeat
pub mod Sample
mod Tests
use jega.Base.{
  ltb, ◌==◌, if◌then◌else◌, Run, fault, ok, ◌>>=◌, ℕ, ◌+◌, ◌^◌, Bool, true, false, Option, none,
  some, List, [], ◌∷◌,
}
use jega.Timer.{is_handle, make_handle, cancel}
use jega.Loop.{Loop, update, schedule_timer}

-- What a handle calls: a callback, a greenlet, or the method `throw` of a greenlet with an exception.
pub data Job : Type 0 where
  function : ℕ → Job
  resume : ℕ → Job
  throw : ℕ → ℕ → Job

pub record Calls : Type 0 where
  pub loop : Loop
  pub next : ℕ
  pub jobs : ℕ → Job
  pub args : ℕ → List ℕ

abbrev pub put_at {ℓ} : {A : Type ℓ} → (ℕ → A) → ℕ → A → ℕ → A
put_at f i a j = if j == i then a else f j

abbrev pub job_switches : Job → Bool
job_switches (function f) = false
job_switches (resume g) = true
job_switches (throw g e) = false

-- A Python argument that is looked at: an int or a callable, or anything else.
pub data Arg : Type 0 where
  natural : ℕ → Arg
  negative : ℕ → Arg
  callable : ℕ → Arg
  unusable : ℕ → Arg

abbrev pub object_of : Arg → ℕ
object_of (natural n) = n
object_of (negative n) = n
object_of (callable f) = f
object_of (unusable o) = o

abbrev pub objects : List Arg → List ℕ
objects [] = []
objects (a ∷ rest) = object_of a ∷ objects rest

abbrev pub raises : Calls → Option ℕ × Calls
raises s = (none, record s { loop = record s.loop { raised = true } })

module _ (py_mem c_mem obj_mem : ℕ → Bool) where
  abbrev pub made : Calls → ℕ → Job → List ℕ → Calls
  made s seconds job args = record s {
    loop = record s.loop {
      objs = update s.loop.objs s.next (make_handle s.loop.clock seconds (job_switches job));
    };
    next = s.next + 1;
    jobs = put_at s.jobs s.next job;
    args = put_at s.args s.next args;
  }

  abbrev pub schedule_done : Calls → ℕ → Bool × Loop → Option ℕ × Calls
  schedule_done s i (done, l) = (if done then some i else none, record s { loop = l })

  -- `none` is NULL.
  pub loop_schedule_call : Calls → ℕ → Job → List ℕ → Run (Option ℕ × Calls)
  loop_schedule_call s seconds job args =
      if obj_mem s.next
      then (schedule_timer py_mem c_mem (made s seconds job args).loop s.next >>= λ r.
          ok (schedule_done (made s seconds job args) s.next r))
      else ok (raises s)

  -- call_later refuses fewer than two arguments, a delay that is no int, is negative or is too large
  -- for a long, and what cannot be called.
  pub call_later : Calls → List Arg → Run (Option ℕ × Calls)
  call_later s (natural seconds ∷ callable cb ∷ rest) =
      if ltb seconds (2 ^ 63)
      then loop_schedule_call s seconds (function cb) (objects rest)
      else ok (raises s)
  call_later s args = ok (raises s)

  pub call_soon : Calls → List Arg → Run (Option ℕ × Calls)
  call_soon s (callable cb ∷ rest) = loop_schedule_call s 0 (function cb) (objects rest)
  call_soon s args = ok (raises s)

  -- The cast to a TimerObject writes behind the end of a HandleObject.
  abbrev pub repeated : Option ℕ × Calls → Run (Option ℕ × Calls)
  repeated (none, s) = ok (none, s)
  repeated (some i, s) =
      if is_handle (s.loop.objs i).kind
      then fault
      else ok (
        some i,
        record s {
          loop = record s.loop {
            objs = update s.loop.objs i (record (s.loop.objs i) { repeats = true });
          };
        },
      )

  pub call_repeatedly : Calls → List Arg → Run (Option ℕ × Calls)
  call_repeatedly s args = call_later s args >>= repeated

  -- _add_callback: a handle or a timer that was made before.
  pub add_callback : Calls → ℕ → Run (Option ℕ × Calls)
  add_callback s i = schedule_timer py_mem c_mem s.loop i >>= λ r. ok (schedule_done s i r)

  abbrev pub cancelled_at : Option ℕ × Calls → Option ℕ × Calls
  cancelled_at (none, s) = (none, s)
  cancelled_at (some i, s) = (
    some i,
    record s { loop = record s.loop { objs = update s.loop.objs i (cancel (s.loop.objs i)) } },
  )

  -- loop_set_timeout throws `exc` into the greenlet `current` after the delay. A delay of 0 gives a
  -- handle that is cancelled at once.
  pub set_timeout : Calls → ℕ → ℕ → ℕ → Run (Option ℕ × Calls)
  set_timeout s current seconds exc =
      loop_schedule_call s seconds (throw current exc) (exc ∷ []) >>= λ r.
      ok (if seconds == 0 then cancelled_at r else r)

  abbrev pub slept : (Calls → Calls) → Option ℕ × Calls → Option ℕ × Calls
  slept loop_switch (none, s) = (none, s)
  slept loop_switch (some i, s) = (some i, loop_switch s)

  -- `loop_switch` is what happens until the greenlet is switched back to.
  pub loop_sleep : (Calls → Calls) → Calls → ℕ → ℕ → Run (Option ℕ × Calls)
  loop_sleep loop_switch s current seconds =
      loop_schedule_call s seconds (resume current) [] >>= λ r. ok (slept loop_switch r)
