-- ===== src/Loop/Tests.antt =====
-- Runs of the scheduler on a small loop, and the theorems at concrete inputs. The timer of number i
-- is due at the time i; number 3 is cancelled, and number 0 is a handle.
use mathlib.Core.List.Perm
use jega.Base.{
  ◌==◌, if◌then◌else◌, get_elem?, ok, Ends, ℕ, zero, suc, ◌+◌, ◌*◌, ◌≤◌, ◌<◌, ◌≡◌, refl, Bool, true,
  false, none, some, List, [], ◌∷◌, arith,
}
use jega.Ring
use jega.Heapq.Slots.{slots}
use jega.Heapq.Sift.{key}
use jega.Heapq.{Heapq, parent}
use jega.Loop.{
  stop, running, no_signal, sigint, sigterm, Loop, World, due_time, update, sigint_cb,
  check_stop_signal, call_object, marked, armed, schedule_timer, fire_timers, fire_timer,
  fire_pendings,
}
use jega.Timer.{handle, timer, Object, handle_new}
use jega.Ring.{Ring}
use jega.Heapq.Timers.{Contains}
use jega.Loop.Sweep.{Sweeps, fire_timers-Sweeps}
use jega.Loop.Fire.{deliver, sigterm_masks, sigint_stops, fire_timer-rearms}
use jega.Loop.Schedule.{schedule_timer-waits}
use jega.Loop.Pending.{takes, fire_pendings-in_turn}

abbrev plenty : ℕ → Bool
plenty n = true

abbrev alarm : ℕ → Object
alarm i = record {
  kind = if i == 0 then handle else timer;
  has_greenlet = false;
  called = false;
  cancelled = i == 3;
  seconds = i;
  repeats = i == 7;
  interval = 10;
}

abbrev times : List ℕ
times = 2 ∷ 5 ∷ 3 ∷ []

abbrev idle_ring : Ring ℕ
idle_ring = record { q = none ∷ none ∷ none ∷ []; first = 0; last = 1; size = 0; max = 2 }

abbrev three_timers : Heapq ℕ
three_timers = record { heap = slots times (none ∷ []); size = 3; max = 4 }

abbrev sample : Loop
sample = record {
  objs = alarm;
  pendings = idle_ring;
  scheduled = three_timers;
  activecnt = 3;
  state = running;
  catch_signal = no_signal;
  clock = 4;
  raised = false;
}

abbrev terminated : Loop
terminated = record sample { catch_signal = sigterm }

-- A call that advances the clock by one second and cancels its own object.
abbrev cancels : World
cancels = record {
  run = λ i l. record l {
    objs = update l.objs i (record (l.objs i) { cancelled = true });
    clock = l.clock + 1;
  };
  dead = λ i l. false;
}

abbrev rearmed : Loop
rearmed = armed 7 (cancels.run 7 (marked 7 sample))

module _ (due : ℕ → ℕ) (two : due 2 ≡ 2) (three : due 3 ≡ 3) (five : due 5 ≡ 5) where
  times-IsHeap : (d c : ℕ) → 0 < c → c < 3 → key due d times (parent c) ≤ key due d times c
  times-IsHeap d zero p h = absurd (omega arith)
  times-IsHeap d (suc zero) p h = omega (arith, two, five)
  times-IsHeap d (suc (suc zero)) p h = omega (arith, two, three)
  times-IsHeap d (suc (suc (suc c))) p h = absurd (omega arith)

  times-Contains : Contains due three_timers times
  times-Contains = (
    times,
    record {
      rest = none ∷ [];
      laid = refl;
      sized = refl;
      roomy = refl;
      small = omega arith;
      ordered = times-IsHeap;
    },
    Perm.refl times,
  )

sample-Contains : Contains (due_time sample) three_timers times
sample-Contains = times-Contains (due_time sample) refl refl refl

rearmed-Contains : Contains (due_time rearmed) three_timers times
rearmed-Contains = times-Contains (due_time rearmed) refl refl refl

idle-Holds : Ring.Contents.Holds idle_ring []
idle-Holds = record {
  roomy = omega arith;
  sized = refl;
  bounded = omega arith;
  word = omega arith;
  first_in = omega arith;
  last_in = omega arith;
  joined = refl;
  entries = λ i h. absurd (omega arith);
}

fire_timers-Sweeps_example : Ends (Sweeps sample 4 times []) (fire_timers plenty plenty sample)
fire_timers-Sweeps_example =
    fire_timers-Sweeps plenty plenty (λ n. refl) sample times [] idle-Holds sample-Contains refl
      (omega arith) (omega arith) (omega arith)

timer_waits :
    (m : Loop) × (schedule_timer plenty plenty sample 9 ≡ ok (true, m))
    × (m.activecnt ≡ 4)
    × (m.objs ≡ alarm)
    × (if false
        then Ring.Contents.Holds m.pendings (9 ∷ []) × (m.scheduled ≡ three_timers)
        else Contains (due_time sample) m.scheduled (9 ∷ times) × (m.pendings ≡ idle_ring))
timer_waits =
    schedule_timer-waits plenty plenty sample 9 [] times (λ n. refl) (λ n. refl) idle-Holds
      sample-Contains (omega arith) (omega arith) (omega arith)

masked_by_sigterm :
    check_stop_signal (deliver (sigint ∷ sigterm ∷ sigint ∷ []) terminated) ≡ (false, terminated)
masked_by_sigterm = sigterm_masks (sigint ∷ sigterm ∷ sigint ∷ []) terminated refl refl

interrupted_once :
    check_stop_signal (sigint_cb sigint sample)
    ≡ (true, record sample { state = stop; catch_signal = no_signal })
interrupted_once = sigint_stops sample refl refl

-- Number 7 repeats, and its call cancels it.
fire_timer-rearms_example :
    (m : Loop) × (fire_timer plenty plenty cancels 7 sample ≡ ok m)
    × (m.activecnt ≡ 4)
    × ((m.objs 7).cancelled ≡ false)
    × ((m.objs 7).called ≡ false)
    × ((m.objs 7).seconds ≡ 15)
    × Contains (due_time rearmed) m.scheduled (7 ∷ times)
unfolding call_object
fire_timer-rearms_example =
    fire_timer-rearms plenty plenty cancels 7 sample times (λ n. refl) (λ n. refl) refl refl refl
      refl [] idle-Holds rearmed-Contains (omega arith) (omega arith) (omega arith) (omega arith)

-- Two handles wait in the queue.
abbrev two_handles : Ring ℕ
two_handles = record { q = some 20 ∷ some 10 ∷ none ∷ []; first = 1; last = 0; size = 2; max = 2 }

two_entries :
    (i : ℕ)
    → i < 2
    → get_elem? two_handles.q (Ring.Wrap.wrap 2 (1 + i)) ≡ some (get_elem? (10 ∷ 20 ∷ []) i)
two_entries zero h = refl
two_entries (suc zero) h = refl
two_entries (suc (suc i)) h = absurd (omega arith)

two_handles-Holds : Ring.Contents.Holds two_handles (10 ∷ 20 ∷ [])
two_handles-Holds = record {
  roomy = omega arith;
  sized = refl;
  bounded = omega arith;
  word = omega arith;
  first_in = omega arith;
  last_in = omega arith;
  joined = refl;
  entries = two_entries;
}

abbrev waiting_handles : Loop
waiting_handles = record sample { objs = λ i. handle_new false; pendings = two_handles }

-- The clock after a call tells the calls, and their order.
abbrev durations : ℕ → ℕ → ℕ
durations i clock = clock * 2 + i

fire_pendings-in_turn_example :
    (m : Loop) × (fire_pendings plenty plenty 3 (takes durations) waiting_handles ≡ ok (true, m))
    × (m.clock ≡ 56)
    × Ring.Contents.Holds m.pendings []
    × (m.activecnt + 2 ≡ 3)
    × (m.objs ≡ waiting_handles.objs)
    × (m.scheduled ≡ three_timers)
    × (m.state ≡ running)
    × (m.raised ≡ false)
    × (m.catch_signal ≡ no_signal)
unfolding handle_new
fire_pendings-in_turn_example =
    fire_pendings-in_turn plenty plenty durations 3 (10 ∷ 20 ∷ []) waiting_handles (omega arith)
      two_handles-Holds (λ i m. (refl, refl, refl, refl)) refl refl refl (omega arith) (omega arith)
