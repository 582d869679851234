-- ===== src/Loop/Fire.antt =====
-- fire_handle, fire_timer, fire_pendings and the stop test of src/loop.c and src/timer.c.
use jega.Base.{
  if◌then◌else◌, ==_iff, length, ok, ◌>>=◌, u32, ℕ, ◌+◌, ◌^◌, ◌<◌, ◌≡◌, refl, ap, ◌∙◌, subst, Bool,
  true, false, ◌||◌, List, [], ◌∷◌, ◌++◌, arith,
}
use jega.Ring
use jega.Timer.{timer, Object, is_handle, time_after}
use jega.Loop.{
  stop, running, Signal, no_signal, sigint, sigterm, Loop, World, due_time, update, sigint_cb,
  check_stop_signal, call_object, marked, armed, rearm, fire_timer,
}
use jega.Heapq.Timers.{Contains}
use jega.Loop.Schedule.{schedule_timer-waits}

-- Signals that arrive one after the other.
abbrev pub deliver : List Signal → Loop → Loop
deliver [] l = l
deliver (s ∷ ss) l = deliver ss (sigint_cb s l)

sigint_cb-kept : (s : Signal) (l : Loop) → l.catch_signal ≡ sigterm → sigint_cb s l ≡ l
unfolding sigint_cb
sigint_cb-kept s l e = rw e refl

deliver-kept : (ss : List Signal) (l : Loop) → l.catch_signal ≡ sigterm → deliver ss l ≡ l
deliver-kept [] l e = refl
deliver-kept (s ∷ ss) l e = rw (sigint_cb-kept s l e) (deliver-kept ss l e)

-- Once SIGTERM has been caught in a running loop, no later signal stops it: the stop test answers no
-- after any of them, and leaves the loop as it was.
pub sigterm_masks :
    (ss : List Signal) (l : Loop)
    → l.catch_signal ≡ sigterm
    → l.state ≡ running
    → check_stop_signal (deliver ss l) ≡ (false, l)
unfolding check_stop_signal
sigterm_masks ss l e r = rw (deliver-kept ss l e, r, e) refl

-- SIGINT, when no signal was caught before, stops the loop at the next test, and is used up there.
pub sigint_stops :
    (l : Loop)
    → l.catch_signal ≡ no_signal
    → l.state ≡ running
    → check_stop_signal (sigint_cb sigint l)
      ≡ (true, record l { state = stop; catch_signal = no_signal })
unfolding check_stop_signal sigint_cb
sigint_stops l e r = rw (e, r) refl

update-here : (objs : ℕ → Object) (i : ℕ) (o : Object) → update objs i o i ≡ o
update-here objs i o = rw ((==_iff i i).1 refl) refl

third_branch {ℓ} :
    {A : Type ℓ} (x y z : A) (a b c : Bool)
    → a ≡ false
    → b ≡ false
    → c ≡ true
    → (if a || b then x else if c then y else z) ≡ y
third_branch x y z a b c ea eb ec = ground arith

module _ (py_mem c_mem : ℕ → Bool) (w : World) (i : ℕ) (l : Loop) where
  abbrev pub after : Loop
  after = call_object w i (marked i l)

  -- A repeated timer is armed again after its call: it waits in the heap beside the timers
  -- that the call left there and is counted, a cancellation that the call made is lost, and the next
  -- time is an interval after the clock of the end of the call. It needs that the call leaves the loop's
  -- queue and heap well-formed and the object a repeated timer, allocators that grant every request,
  -- fewer than 2 ^ 30 calls of each kind, and that the next time is below 2 ^ 63.
  pub fire_timer-rearms :
      (ts : List ℕ)
      → ((n : ℕ) → py_mem n ≡ true)
      → ((n : ℕ) → c_mem n ≡ true)
      → (l.objs i).cancelled ≡ false
      → (l.objs i).called ≡ false
      → (after.objs i).repeats ≡ true
      → (after.objs i).kind ≡ timer
      → (ps : List ℕ) → Ring.Contents.Holds after.pendings ps
      → Contains (due_time (armed i after)) after.scheduled ts
      → 0 < after.scheduled.max
      → length ps < 2 ^ 30
      → length ts < 2 ^ 30
      → after.clock + (after.objs i).interval < 2 ^ 63
      → (m : Loop) × (fire_timer py_mem c_mem w i l ≡ ok m)
        × (m.activecnt ≡ u32 (after.activecnt + 1))
        × ((m.objs i).cancelled ≡ false)
        × ((m.objs i).called ≡ false)
        × ((m.objs i).seconds ≡ after.clock + (after.objs i).interval)
        × Contains (due_time (armed i after)) m.scheduled (i ∷ ts)
  unfolding fire_timer rearm
  fire_timer-rearms ts py_grants c_grants live fresh again is_t ps p c pos fewer_ps fewer_ts
        in_time =
      let (m, e, count, objs, place) =
        schedule_timer-waits py_mem c_mem (armed i after) i ps ts py_grants c_grants p c pos
          fewer_ps fewer_ts in
      let here =
        ap (λ f. f i) objs
        ∙ update-here after.objs i (record (after.objs i) {
          called = false;
          cancelled = false;
          seconds = time_after after.clock (after.objs i).interval;
        }) in
      let waits =
        subst
          (λ (b : Bool).
            if b
            then Ring.Contents.Holds m.pendings (ps ++ i ∷ []) × (m.scheduled ≡ after.scheduled)
            else Contains (due_time (armed i after)) m.scheduled (i ∷ ts)
              × (m.pendings ≡ after.pendings))
          {y = false} (ap (λ o. is_handle o.kind) (update-here after.objs i _) ∙ ap is_handle is_t)
          place in
      (
        m,
        third_branch _ _ _ (l.objs i).cancelled (l.objs i).called (after.objs i).repeats live fresh
              again
            ∙ ap (λ call. call >>= λ (done, l'). ok l') e,
        count,
        ap (λ o. o.cancelled) here,
        ap (λ o. o.called) here,
        ap (λ o. o.seconds) here ∙ ground (arith, in_time),
        waits.0,
      )
