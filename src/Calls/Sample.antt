-- ===== src/Calls/Sample.antt =====
-- A small scheduler for runs: nothing waits in it, and the next object is number 5.
use mathlib.Core.List.{not-mem-nil}
use mathlib.Core.List.Perm
use jega.Base.{ℕ, refl, Bool, true, false, none, [], ◌∷◌, arith}
use jega.Heapq.Timers.{Contains}
use jega.Timer.{handle_new}
use jega.Loop.{running, no_signal, Loop, due_time}
use jega.Calls.{function, Calls}
use jega.Calls.Order.{Ready}

abbrev pub plenty : ℕ → Bool
plenty n = true

abbrev idle_loop : Loop
idle_loop = record {
  objs = λ i. handle_new false;
  pendings = record { q = none ∷ none ∷ none ∷ []; first = 0; last = 1; size = 0; max = 2 };
  scheduled = record { heap = none ∷ none ∷ []; size = 0; max = 2 };
  activecnt = 0;
  state = running;
  catch_signal = no_signal;
  clock = 100;
  raised = false;
}

abbrev pub idle_calls : Calls
idle_calls = record { loop = idle_loop; next = 5; jobs = λ i. function 0; args = λ i. [] }

idle_calls-empty : Contains (due_time idle_loop) idle_loop.scheduled []
idle_calls-empty = (
  [],
  record {
    rest = none ∷ none ∷ [];
    laid = refl;
    sized = refl;
    roomy = refl;
    small = omega arith;
    ordered = λ d c p h. absurd (omega arith);
  },
  Perm.refl [],
)

pub idle_calls-Ready : Ready idle_calls [] []
idle_calls-Ready = record {
  pending = record {
    roomy = omega arith;
    sized = refl;
    bounded = omega arith;
    word = omega arith;
    first_in = omega arith;
    last_in = omega arith;
    joined = refl;
    entries = λ i h. absurd (omega arith);
  };
  timed = idle_calls-empty;
  roomy = omega arith;
  older = λ i m. absurd (not-mem-nil m);
}
