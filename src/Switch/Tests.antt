-- ===== src/Switch/Tests.antt =====
-- Switches between a few greenlets, and the theorems there. The loop's greenlet is number 1, and its
-- parent number 0; a switch to a greenlet that has ended is a fault.
use jega.Switch.{
  Main, Greenlets, in_state, with_raised, greenlet_dead, run_on_main_task, loop_switch,
  ready_trampoline, internal_loop_handle_error, trampoline_switch_callback,
}
use jega.Switch.Safe.{IsLive, run_on_main_task-returns, loop_switch-returns}
use jega.Switch.Errors.{trampoline_switch_callback-misses, internal_loop_handle_error-queues}
use jega.Loop.{stop, running}
use jega.Calls.{throw, Calls, put_at}
use jega.Calls.Order.{Gains, put_at-here}
use jega.Calls.Sample.{plenty, idle_calls, idle_calls-Ready}
use jega.Base.{
  ◌==◌, if◌then◌else◌, Bool-cases, Run, fault, ok, ◌>>=◌, ℕ, ◌+◌, ◌≡◌, refl, ap, subst, inl, inr,
  Bool, true, false, not, Option, none, some, [], ◌∷◌, arith,
}

record Tree : Type 0 where
  here : ℕ
  next : ℕ
  ended : ℕ → Bool
  parents : ℕ → Option ℕ

abbrev strict : (Tree → ℕ → Tree) → ℕ → Main Tree → Run (Bool × Main Tree)
strict after g m =
    if m.world.ended g then fault else ok (true, record m { world = after m.world g })

abbrev library : (Tree → ℕ → Tree) → Greenlets Tree
library after = record {
  current = λ w. w.here;
  parent = λ g w. w.parents g;
  active = λ g w. not (w.ended g);
  started = λ g w. true;
  make = λ w. (some w.next, record w { next = w.next + 1; ended = put_at w.ended w.next false });
  set_parent = λ c p w. record w { parents = put_at w.parents c (some p) };
  switch = strict after;
  throw_at = λ g e. strict after g;
  is_system = λ e. e == 2;
}

library-IsLive : (after : Tree → ℕ → Tree) → IsLive (library after)
unfolding greenlet_dead
library-IsLive after = record {
  new = λ w g w' e.
      subst (λ (r : Option ℕ × Tree). greenlet_dead (library after) r.0 r.1 ≡ false) e
        (rw (put_at-here w.ended w.next false) refl);
  same = λ c p g w. refl;
  back = λ g m alive. elim (Bool-cases (m.world.ended g)) [
    | inl over ↦ absurd (ground (arith, over, alive))
    | inr on ↦
        (_, ap (λ b. if b then fault else ok (true, record m { world = after m.world g })) on)
  ];
}

-- A switch that ends in the same place.
abbrev stay : Tree → ℕ → Tree
stay w g = w

-- The greenlet that is switched to ends.
abbrev ended_by : Tree → ℕ → Tree
ended_by w g = record w { ended = put_at w.ended g true }

abbrev tree : Tree
tree = record {
  here = 0;
  next = 7;
  ended = λ g. false;
  parents = λ g. if g == 1 then some 0 else none;
}

abbrev main : Main Tree
main = record { calls = idle_calls; greenlet = some 1; suspend_thread = none; world = tree }

abbrev dead_main : Main Tree
dead_main = record main { world = record tree { ended = λ g. g == 1 } }

loop_switch-returns_example : (x : Bool × Main Tree) × (loop_switch (library stay) dead_main ≡ ok x)
loop_switch-returns_example =
    loop_switch-returns (library stay) (library-IsLive stay) dead_main (λ e. absurd (cc e))

-- The new greenlet is number 7, and the one that asked waits.
restarted :
    (x : Main Tree) × (ready_trampoline (library stay) true dead_main ≡ ok (true, x))
    × (x.greenlet ≡ some 7)
    × (x.suspend_thread ≡ some 0)
    × (x.calls.loop.state ≡ running)
unfolding ready_trampoline run_on_main_task greenlet_dead
restarted = (_, refl, refl, refl, refl)

run_on_main_task-returns_example :
    (x : Bool × Main Tree) × (run_on_main_task (library ended_by) true dead_main ≡ ok x)
    × ((x.0 ≡ true)
        → greenlet_dead (library ended_by) x.1.greenlet x.1.world ≡ true
        → x.1.calls.loop.state ≡ stop)
run_on_main_task-returns_example =
    run_on_main_task-returns (library ended_by) (library-IsLive ended_by) dead_main

-- Number 4 waits for a descriptor.
thrown_at_parent :
    trampoline_switch_callback
      (library stay)
      plenty
      plenty
      plenty
      4
      9
      (record { overdue = true; readable = false; writable = false })
      (record main { world = record tree { here = 1 } })
    ≡ (strict stay 0
          (in_state stop (with_raised false (record main { world = record tree { here = 1 } })))
        >>= λ r. ok r.1)
thrown_at_parent =
    trampoline_switch_callback-misses (library stay) plenty plenty plenty
      (record main { world = record tree { here = 1 } }) 4 9 1 0
      (record { overdue = true; readable = false; writable = false }) refl refl refl refl

internal_loop_handle_error-queues_example :
    (c : Calls) × (internal_loop_handle_error
        (library stay)
        plenty
        plenty
        plenty
        2
        true
        (record main { world = record tree { here = 4 } })
      ≡ ok (true, record main { calls = c; world = record tree { here = 4 } }))
    × Gains idle_calls 0 (throw 0 2) (2 ∷ []) [] [] c
internal_loop_handle_error-queues_example =
    internal_loop_handle_error-queues (library stay) plenty plenty plenty
      (record main { world = record tree { here = 4 } }) 2 1 0 [] [] refl refl refl refl refl
      (λ n. refl) (λ n. refl) refl idle_calls-Ready (omega arith) (omega arith)
