-- ===== src/RunLoop/Fork.antt =====
-- internal_run_once of src/loop.c in the child of a fork.
use jega.Base.{
  ltb, ◌==◌, if◌then◌else◌, ==_iff, fault, ok, ◌>>=◌, ℕ, ◌<◌, ◌≡◌, refl, sym, ap, ◌∙◌, ◌≢◌, Bool,
  true, false, ◌||◌, arith,
}
use jega.Loop.{Loop, World, fire_timers, fire_pendings}
use jega.RunLoop.{
  Runner, Around, over, next_step, remade, reset_loop, after_fork, fire_due, fire_queued,
  wait_for_events, internal_run_once,
}
use jega.Calls.{put_at}

destroyed :
    (f : ℕ → Bool) (old new : ℕ) → new ≢ old → put_at (put_at f old false) new true old ≡ false
destroyed f old new ne =
    let apart : (old == new) ≡ false = ground (arith, ne) in
    let here : (old == old) ≡ true = (==_iff old old).1 refl in
    ap (λ b. if b then true else put_at f old false old) apart
    ∙ ap (λ b. if b then false else f old) here

module _ (py_mem c_mem : ℕ → Bool) (w : World) (around : Around) where
  after_fork-resets :
      (m : Runner)
      → m.postfork ≡ true
      → after_fork py_mem c_mem w around m
        ≡ reset_loop py_mem c_mem w around (record m { postfork = false })
  after_fork-resets m e =
      ap
        (λ b.
          if b then reset_loop py_mem c_mem w around (record m { postfork = false }) else (true, m))
        e

  fire_due-fires :
      (m : Runner) (l : Loop)
      → 0 < m.loop.scheduled.size
      → fire_timers py_mem c_mem m.loop ≡ ok (true, l)
      → fire_due py_mem c_mem w around m ≡ ok (true, record m { loop = l })
  fire_due-fires m l timers e =
      let some_wait : ltb 0 m.loop.scheduled.size ≡ true = ground (arith, timers) in
      ap (λ b. if b then (fire_timers py_mem c_mem m.loop >>= λ r. ok (over m r)) else ok (true, m))
        some_wait
      ∙ ap (λ c. c >>= λ r. ok (over m r)) e

  fire_queued-skips :
      (fuel : ℕ) (m : Runner)
      → m.loop.pendings.size ≡ 0
      → fire_queued py_mem c_mem w around fuel m ≡ ok (true, m)
  fire_queued-skips fuel m e =
      let nothing : ltb 0 m.loop.pendings.size ≡ false = ground (arith, e) in
      ap
        (λ b.
          if b
          then (fire_pendings py_mem c_mem fuel w m.loop >>= λ r. ok (over m r))
          else ok (true, m))
        nothing

  wait_for_events-stale :
      (main_loop timeout : ℕ) (m : Runner)
      → 0 < m.loop.scheduled.size
      → m.is_live main_loop ≡ false
      → wait_for_events py_mem c_mem w around main_loop timeout m ≡ fault
  wait_for_events-stale main_loop timeout m timers gone =
      let waits : (ltb 0 m.loop.scheduled.size || ltb 1 m.ioactivecnt) ≡ true =
        ground (arith, timers) in
      let polls = λ (b : Bool). if b then ok (true, around.poll timeout m) else fault in
      ap (λ b. if b then polls (m.is_live main_loop) else ok (true, m)) waits ∙ ap polls gone

  -- The first round after a fork uses the event library's loop that the round itself has destroyed, and
  -- faults, when a timer waits that is not due yet, no call is pending, the new loop is not where the
  -- old one was, and the method `reset` creates and destroys no other.
  pub internal_run_once-stale :
      (fuel timeout : ℕ) (m n : Runner) (l : Loop)
      → m.postfork ≡ true
      → around.create (record m { postfork = false }) ≢ m.main_loop
      → reset_loop py_mem c_mem w around (record m { postfork = false }) ≡ (true, n)
      → ((k : Runner) → (around.reset k).1.is_live ≡ k.is_live)
      → 0 < n.loop.scheduled.size
      → fire_timers py_mem c_mem n.loop ≡ ok (true, l)
      → 0 < l.scheduled.size
      → l.pendings.size ≡ 0
      → internal_run_once py_mem c_mem w around fuel timeout m ≡ fault
  unfolding internal_run_once
  internal_run_once-stale fuel timeout m n l forked elsewhere reset same timers fired left empty =
      let fork = after_fork py_mem c_mem w around in
      let due = next_step (fire_due py_mem c_mem w around) in
      let queued = next_step (fire_queued py_mem c_mem w around fuel) in
      let wait = next_step (wait_for_events py_mem c_mem w around m.main_loop timeout) in
      let last = next_step (λ m'. ok (fork m')) in
      let n' = record n { loop = l } in
      let k = record m { postfork = false } in
      let gone : n.is_live m.main_loop ≡ false =
        ap (λ (r : Bool × Runner). r.1.is_live m.main_loop) (sym reset)
        ∙ ap (λ f. f m.main_loop) (same (remade py_mem c_mem w around k))
        ∙ destroyed m.is_live m.main_loop (around.create k) elsewhere in
      ap (λ r. due r >>= queued >>= wait >>= last) (after_fork-resets m forked ∙ reset)
      ∙ ap (λ c. c >>= queued >>= wait >>= last) (fire_due-fires n l timers fired)
      ∙ ap (λ c. c >>= wait >>= last) (fire_queued-skips fuel n' empty)
      ∙ ap (λ c. c >>= last) (wait_for_events-stale m.main_loop timeout n' left gone)
