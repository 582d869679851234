-- ===== src/Executor/Tests.antt =====
-- A worker and a submission on a small executor, and the theorems at concrete inputs.
use jega.Base.{fault, ok, ℕ, ◌≡◌, refl, inr, Bool, true, false, none, some, [], ◌∷◌, arith}
use jega.Ring
use jega.Calls.{Calls}
use jega.Calls.Sample.{plenty, idle_calls, idle_calls-Ready}
use jega.Futures.{pending, Future, Tasks, future_init, future_result}
use jega.Futures.Callbacks.{Scheduled}
use jega.Executor.{
  WorkerItem, Workplace, Outcome, returned, returned_fresh, make_workeritem, run_worker,
  internal_submit,
}
use jega.Executor.Work.{answer_of, run_worker-answers}
use jega.Executor.Submit.{WithinLimit, Staffed, internal_submit-queues}

-- Futures with one callback.
abbrev fresh_future : Future
fresh_future = record {
  result = none;
  exc_info = none;
  callbacks = 7 ∷ [];
  waiters = [];
  handle = some 2;
  state = pending;
}

abbrev sample : Tasks
sample = record { calls = idle_calls; futures = λ i. fresh_future }

abbrev item : WorkerItem
item = make_workeritem 3 50 none none

abbrev comes_back : ℕ → Tasks → Tasks
comes_back g s = s

-- A function that returns 40.
abbrev forty : WorkerItem → Tasks → Outcome × Tasks
forty i s = (returned 40, s)

run_worker-answers_example :
    (m : Tasks) × (calls : Calls) × (run_worker plenty plenty plenty 1 comes_back forty sample item
      ≡ ok (true, m))
    × Scheduled idle_calls (7 ∷ []) (3 ∷ []) [] [] calls
    × ((m.futures 3).waiters ≡ [])
    × ((start_loop loop_switch : Tasks → Bool × Tasks) (autostart : Bool) (current : ℕ)
        → future_result start_loop loop_switch autostart m 3 current ≡ (answer_of (returned 40), m))
run_worker-answers_example =
    run_worker-answers plenty plenty plenty 1 comes_back forty sample sample item (returned 40) []
      [] (record { unset = refl; unraised = refl; waits = refl }) refl refl tt (λ n. refl)
      (λ n. refl) (λ n. refl) idle_calls-Ready (omega arith) (omega arith) (inr refl) (omega arith)
      (λ g s. refl)

-- One of at most two workers runs.
abbrev office : Workplace
office = record {
  tasks = sample;
  executor = record {
    pendings = record { q = none ∷ none ∷ none ∷ []; first = 0; last = 1; size = 0; max = 2 };
    run_workers = 1;
    max_workers = 2;
    shutdown = false;
  };
  items = λ i. item;
  weakref = 90;
}

office-Holds : Ring.Contents.Holds office.executor.pendings []
office-Holds = record {
  roomy = omega arith;
  sized = refl;
  bounded = omega arith;
  word = omega arith;
  first_in = omega arith;
  last_in = omega arith;
  joined = refl;
  entries = λ i h. absurd (omega arith);
}

internal_submit-queues_example :
    (m : Workplace) × (internal_submit plenty plenty plenty office
        (some 6)
        (some 4)
        (some 23)
        51
        none
        none
      ≡ ok (some 6, m))
    × Ring.Contents.Holds m.executor.pendings (4 ∷ [])
    × (m.items 4 ≡ make_workeritem 6 51 none none)
    × (m.tasks.futures 6 ≡ future_init)
    × Staffed office 23 [] [] m
    × WithinLimit m.executor
internal_submit-queues_example =
    internal_submit-queues plenty plenty plenty office 6 4 23 51 none none [] [] [] (λ n. refl)
      (λ n. refl) (λ n. refl) idle_calls-Ready office-Holds (omega arith) (omega arith)
      (omega arith) (omega arith) (inr (omega arith))

-- A result that only the worker refers to is used after it was freed.
freed_result :
    run_worker plenty plenty plenty 1 comes_back (λ i s. (returned_fresh 40, s)) sample item ≡ fault
unfolding run_worker
freed_result = refl
