-- ===== src/RunLoop/Drain.antt =====
-- LoopObject_run of src/loop.c on a quiet loop: the pending calls run, and the loop stops.
use jega.Base.{
  ltb, if◌then◌else◌, length, Run, fault, ok, ◌>>=◌, u32_mod, ℕ, suc, ◌≤◌, ◌<◌, ◌≡◌, refl, ap, ◌∙◌,
  Bool, true, false, not, ◌&&◌, ◌||◌, none, List, [], ◌∷◌, Mem, arith,
}
use jega.Ring
use jega.Events.{is_some}
use jega.Loop.{
  stop, running, no_signal, Loop, is_running, check_stop_signal, fire_timers, fire_pendings,
}
use jega.Loop.Pending.{IsFresh, takes, in_turn, check_stop_signal-calm, fire_pendings-in_turn}
use jega.RunLoop.{
  Runner, Around, over, next_step, busy, ended, reset_loop, after_fork, fire_due, fire_queued,
  wait_for_events, internal_run_once, failed_run, run_rounds, resumed, loop_run,
}

and-false : (a b : Bool) → b ≡ false → (a && b) ≡ false
and-false a b e = ground arith

module _ (py_mem c_mem : ℕ → Bool) (time : ℕ → ℕ → ℕ) (around : Around) where
  -- No timer waits, at most one descriptor is active, and there was no fork.
  pub record IsCalm (m : Runner) : Type 0 where
    pub no_timers : m.loop.scheduled.size ≡ 0
    pub few : m.ioactivecnt ≤ 1
    pub unforked : m.postfork ≡ false

  after_fork-calm :
      (m : Runner) → m.postfork ≡ false → after_fork py_mem c_mem (takes time) around m ≡ (true, m)
  after_fork-calm m e =
      ap
        (λ b.
          if b
          then reset_loop py_mem c_mem (takes time) around (record m { postfork = false })
          else (true, m))
        e

  fire_due-calm :
      (m : Runner)
      → m.loop.scheduled.size ≡ 0
      → fire_due py_mem c_mem (takes time) around m ≡ ok (true, m)
  fire_due-calm m e =
      let none_due : ltb 0 m.loop.scheduled.size ≡ false = ground (arith, e) in
      ap (λ b. if b then (fire_timers py_mem c_mem m.loop >>= λ r. ok (over m r)) else ok (true, m))
        none_due

  fire_queued-fires :
      (fuel : ℕ) (m : Runner) (l : Loop)
      → 0 < m.loop.pendings.size
      → fire_pendings py_mem c_mem fuel (takes time) m.loop ≡ ok (true, l)
      → fire_queued py_mem c_mem (takes time) around fuel m ≡ ok (true, record m { loop = l })
  fire_queued-fires fuel m l some_wait e =
      let queued : ltb 0 m.loop.pendings.size ≡ true = ground (arith, some_wait) in
      ap
        (λ b.
          if b
          then (fire_pendings py_mem c_mem fuel (takes time) m.loop >>= λ r. ok (over m r))
          else ok (true, m))
        queued
      ∙ ap (λ c. c >>= λ r. ok (over m r)) e

  wait_for_events-calm :
      (main_loop : ℕ) (timeout : ℕ) (m : Runner)
      → m.loop.scheduled.size ≡ 0
      → m.ioactivecnt ≤ 1
      → wait_for_events py_mem c_mem (takes time) around main_loop timeout m ≡ ok (true, m)
  wait_for_events-calm main_loop timeout m e few =
      let nothing : (ltb 0 m.loop.scheduled.size || ltb 1 m.ioactivecnt) ≡ false =
        ground (arith, e, few) in
      ap
        (λ b.
          if b
          then if m.is_live main_loop then ok (true, around.poll timeout m) else fault
          else ok (true, m))
        nothing

  internal_run_once-fires :
      (fuel timeout : ℕ) (m : Runner) (l : Loop)
      → IsCalm m
      → 0 < m.loop.pendings.size
      → fire_pendings py_mem c_mem fuel (takes time) m.loop ≡ ok (true, l)
      → l.scheduled ≡ m.loop.scheduled
      → internal_run_once py_mem c_mem (takes time) around fuel timeout m
        ≡ ok (true, record m { loop = l })
  unfolding internal_run_once
  internal_run_once-fires fuel timeout m l calm some_wait fired heap =
      let fork = after_fork py_mem c_mem (takes time) around in
      let due = next_step (fire_due py_mem c_mem (takes time) around) in
      let queued = next_step (fire_queued py_mem c_mem (takes time) around fuel) in
      let wait = next_step (wait_for_events py_mem c_mem (takes time) around m.main_loop timeout) in
      let last = next_step (λ m'. ok (fork m')) in
      let m' = record m { loop = l } in
      ap (λ r. due r >>= queued >>= wait >>= last) (after_fork-calm m calm.unforked)
      ∙ ap (λ c. c >>= queued >>= wait >>= last) (fire_due-calm m calm.no_timers)
      ∙ ap (λ c. c >>= wait >>= last) (fire_queued-fires fuel m l some_wait fired)
      ∙ ap (λ c. c >>= last)
          (wait_for_events-calm m.main_loop timeout m' (ap (λ q. q.size) heap ∙ calm.no_timers)
            calm.few)
      ∙ ap ok (after_fork-calm m' calm.unforked)

  abbrev after_round : ℕ → ℕ → Bool × Runner → Run (Bool × Runner)
  after_round rounds fuel r =
      let checked = check_stop_signal r.1.loop in
      let m' = record r.1 { loop = checked.1 } in
      let rest = run_rounds py_mem c_mem (takes time) around rounds fuel checked.0 m' in
      if not r.0
      then ok (failed_run py_mem c_mem (takes time) around r.1)
      else if checked.1.raised
      then ok (failed_run py_mem c_mem (takes time) around m')
      else rest

  after_round-calm :
      (rounds fuel : ℕ) (m : Runner)
      → m.loop.state ≡ running
      → m.loop.catch_signal ≡ no_signal
      → m.loop.raised ≡ false
      → after_round rounds fuel (true, m)
        ≡ run_rounds py_mem c_mem (takes time) around rounds fuel false m
  after_round-calm rounds fuel m on quiet clear =
      ap
        (λ checked.
          let m' = record m { loop = checked.1 } in
          let rest = run_rounds py_mem c_mem (takes time) around rounds fuel checked.0 m' in
          if checked.1.raised then ok (failed_run py_mem c_mem (takes time) around m') else rest)
        (check_stop_signal-calm m.loop on quiet)
      ∙ ap
          (λ b.
            if b
            then ok (failed_run py_mem c_mem (takes time) around m)
            else run_rounds py_mem c_mem (takes time) around rounds fuel false m)
          clear

  run_rounds-idle :
      (rounds fuel : ℕ) (m : Runner)
      → m.loop.activecnt ≡ 0
      → m.ioactivecnt ≤ 1
      → run_rounds py_mem c_mem (takes time) around (suc rounds) fuel false m
        ≡ ok (true, record m { loop = record m.loop { state = stop } })
  unfolding run_rounds
  run_rounds-idle rounds fuel m empty few =
      let rests : busy m ≡ false =
        and-false (is_running m.loop.state) _ (ground (arith, empty, few)) in
      ap
        (λ b.
          if b
          then (internal_run_once py_mem c_mem (takes time) around fuel 1 m
              >>= after_round rounds fuel)
          else ok (ended false m))
        rests

  run_rounds-busy :
      (rounds fuel : ℕ) (m n : Runner)
      → m.loop.state ≡ running
      → 0 < m.loop.activecnt
      → internal_run_once py_mem c_mem (takes time) around fuel 1 m ≡ ok (true, n)
      → n.loop.state ≡ running
      → n.loop.catch_signal ≡ no_signal
      → n.loop.raised ≡ false
      → run_rounds py_mem c_mem (takes time) around (suc rounds) fuel false m
        ≡ run_rounds py_mem c_mem (takes time) around rounds fuel false n
  unfolding run_rounds
  run_rounds-busy rounds fuel m n on counts once still quiet clear =
      let works : busy m ≡ true = ground (arith, ap is_running on, counts) in
      ap
        (λ b.
          if b
          then (internal_run_once py_mem c_mem (takes time) around fuel 1 m
              >>= after_round rounds fuel)
          else ok (ended false m))
        works
      ∙ ap (λ c. c >>= after_round rounds fuel) once
      ∙ after_round-calm rounds fuel n still quiet clear

  IsCalm-again :
      (m : Runner) → IsCalm m → IsCalm (record m { loop = record m.loop { state = running } })
  IsCalm-again m calm = record {
    no_timers = calm.no_timers;
    few = calm.few;
    unforked = calm.unforked;
  }

  run_rounds-drains :
      (rounds fuel : ℕ) (is : List ℕ) (m : Runner)
      → length is < fuel
      → length is < u32_mod
      → IsCalm m
      → Ring.Contents.Holds m.loop.pendings is
      → ((i : ℕ) → Mem i is → IsFresh (m.loop.objs i))
      → m.loop.state ≡ running
      → m.loop.raised ≡ false
      → m.loop.catch_signal ≡ no_signal
      → m.loop.activecnt ≡ length is
      → (n : Runner) × (run_rounds py_mem c_mem (takes time) around (suc (suc rounds)) fuel false m
          ≡ ok (true, n))
        × (n.loop.clock ≡ in_turn time is m.loop.clock)
        × Ring.Contents.Holds n.loop.pendings []
        × (n.loop.activecnt ≡ 0)
        × (n.loop.state ≡ stop)
        × (n.ioactivecnt ≡ m.ioactivecnt)
  run_rounds-drains rounds fuel [] m enough word calm held fresh on clear quiet count =
      (_, run_rounds-idle (suc rounds) fuel m count calm.few, refl, held, count, refl, refl)
  run_rounds-drains rounds fuel (i ∷ is) m enough word calm held fresh on clear quiet count =
      let (l, fired, clock, empty, left, objs, heap, still, no_error, no_stop) =
        fire_pendings-in_turn py_mem c_mem time fuel (i ∷ is) m.loop enough held fresh on clear
          quiet (omega (arith, count)) (omega (arith, count, word)) in
      let once = internal_run_once-fires fuel 1 m l calm (omega (arith, held.sized)) fired heap in
      let none_left : l.activecnt ≡ 0 = omega (arith, left, count) in
      let n = record m { loop = l } in
      (
        _,
        run_rounds-busy (suc rounds) fuel m n on (omega (arith, count)) once still no_stop no_error
            ∙ run_rounds-idle rounds fuel n none_left calm.few,
        clock,
        empty,
        none_left,
        refl,
        refl,
      )

  -- With callbacks that only take time, at most one active descriptor, no timer, no signal, exception or
  -- fork pending and no suspended greenlet, and pending handles that are to be called and are all
  -- that is counted, run ends without an error: the handles are called each once and in order, which
  -- the clock shows, none is left and none is counted, the loop is stopped, and the event library is
  -- not asked. Two rounds are enough, with fuel for one call more than there are handles.
  pub loop_run-drains :
      (rounds fuel : ℕ) (is : List ℕ) (m : Runner)
      → length is < fuel
      → length is < u32_mod
      → IsCalm m
      → m.suspend_thread ≡ none
      → Ring.Contents.Holds m.loop.pendings is
      → ((i : ℕ) → Mem i is → IsFresh (m.loop.objs i))
      → m.loop.raised ≡ false
      → m.loop.catch_signal ≡ no_signal
      → m.loop.activecnt ≡ length is
      → (n : Runner) × (loop_run py_mem c_mem (takes time) around (suc (suc rounds)) fuel m
          ≡ ok (true, n))
        × (n.loop.clock ≡ in_turn time is m.loop.clock)
        × Ring.Contents.Holds n.loop.pendings []
        × (n.loop.activecnt ≡ 0)
        × (n.loop.state ≡ stop)
        × (n.ioactivecnt ≡ m.ioactivecnt)
  unfolding loop_run
  loop_run-drains rounds fuel is m enough word calm alone held fresh clear quiet count =
      let started = record m { loop = record m.loop { state = running } } in
      let (n, runs, clock, empty, left, halted, io) =
        run_rounds-drains rounds fuel is started enough word (IsCalm-again m calm) held fresh refl
          clear quiet count in
      (
        n,
        ap
              (λ t.
                let m' = resumed py_mem c_mem (takes time) around t started in
                if is_some t && m'.loop.raised
                then ok (false, m')
                else run_rounds py_mem c_mem (takes time) around (suc (suc rounds)) fuel false m')
              alone
            ∙ runs,
        clock,
        empty,
        left,
        halted,
        io,
      )
