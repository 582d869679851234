-- ===== src/RunLoop/Tests.antt =====
-- A run of the loop over two handles, and the theorem at a concrete input.
use jega.Base.{
  ◌==◌, get_elem?, fault, ok, load, ℕ, zero, suc, ◌+◌, ◌*◌, ◌<◌, ◌≡◌, refl, true, false, none, some,
  [], ◌∷◌, arith,
}
use jega.Ring
use jega.Timer.{handle_new, timer_new}
use jega.Loop.{stop, fire_timers_loop, fire_timers}
use jega.Loop.Pending.{takes}
use jega.Calls.Sample.{plenty, idle_calls}
use jega.RunLoop.{Runner, Around, remade, internal_run_once, loop_run}
use jega.RunLoop.Fork.{internal_run_once-stale}
use jega.RunLoop.Drain.{loop_run-drains}

-- Handle 10 and handle 20 wait, and one descriptor is active.
abbrev two_calls : Runner
two_calls = record {
  loop = record idle_calls.loop {
    pendings = record { q = some 10 ∷ some 20 ∷ none ∷ []; first = 0; last = 1; size = 2; max = 2 };
    activecnt = 2;
    state = stop;
  };
  ioactivecnt = 1;
  postfork = false;
  main_loop = 60;
  is_live = λ p. p == 60;
  suspend_thread = none;
}

-- Nothing happens around the loop.
abbrev still : Around
still = record {
  create = λ m. 61;
  reset = λ m. (true, m);
  poll = λ t m. m;
  switch_back = λ g m. m;
  aborted = λ m. false;
}

-- The clock after a call tells the calls, and their order.
abbrev durations : ℕ → ℕ → ℕ
durations i clock = clock * 2 + i

two_entries :
    (i : ℕ)
    → i < 2
    → get_elem? two_calls.loop.pendings.q (Ring.Wrap.wrap 2 (0 + i))
      ≡ some (get_elem? (10 ∷ 20 ∷ []) i)
two_entries zero h = refl
two_entries (suc zero) h = refl
two_entries (suc (suc i)) h = absurd (omega arith)

two_calls-Holds : Ring.Contents.Holds two_calls.loop.pendings (10 ∷ 20 ∷ [])
two_calls-Holds = record {
  roomy = omega arith;
  sized = refl;
  bounded = omega arith;
  word = omega arith;
  first_in = omega arith;
  last_in = omega arith;
  joined = refl;
  entries = two_entries;
}

loop_run-drains_example :
    (n : Runner) × (loop_run plenty plenty (takes durations) still 2 3 two_calls ≡ ok (true, n))
    × (n.loop.clock ≡ 440)
    × Ring.Contents.Holds n.loop.pendings []
    × (n.loop.activecnt ≡ 0)
    × (n.loop.state ≡ stop)
    × (n.ioactivecnt ≡ 1)
unfolding handle_new
loop_run-drains_example =
    loop_run-drains plenty plenty durations still 0 3 (10 ∷ 20 ∷ []) two_calls (omega arith)
      (omega arith) (record { no_timers = refl; few = omega arith; unforked = refl }) refl
      two_calls-Holds (λ i m. (refl, refl, refl, refl)) refl refl refl

-- The child of a fork, with a timer that is due at the time 200.
abbrev forked_child : Runner
forked_child = record {
  loop = record idle_calls.loop {
    objs = λ i. timer_new 100 100 false;
    scheduled = record { heap = some 7 ∷ none ∷ []; size = 1; max = 2 };
    activecnt = 1;
  };
  ioactivecnt = 0;
  postfork = true;
  main_loop = 60;
  is_live = λ p. p == 60;
  suspend_thread = none;
}

late_timer : fire_timers plenty plenty forked_child.loop ≡ ok (true, forked_child.loop)
unfolding fire_timers fire_timers_loop timer_new load
late_timer = refl

internal_run_once-stale_example :
    internal_run_once plenty plenty (takes durations) still 3 1 forked_child ≡ fault
internal_run_once-stale_example =
    internal_run_once-stale plenty plenty (takes durations) still 3 1 forked_child
      (remade plenty plenty (takes durations) still (record forked_child { postfork = false }))
      forked_child.loop refl (omega arith) refl (λ k. refl) (omega arith) late_timer (omega arith)
      refl
