-- ===== src/Switch/Errors.antt =====
-- The errors of src/loop.c that end in the loop's parent: internal_loop_handle_error and the timeout of a
-- greenlet that waits for a descriptor.
use jega.Switch.{
  Main, Greenlets, Fired, in_state, with_raised, internal_loop_handle_error,
  trampoline_switch_callback,
}
use jega.Loop.{stop}
use jega.Calls.{throw, Calls}
use jega.Calls.Order.{Ready, Gains, loop_schedule_call-waits}
use jega.Locks.{own}
use jega.Base.{
  ◌==◌, ==_iff, length, ok, ◌>>=◌, ℕ, ◌^◌, ◌<◌, ◌≡◌, refl, Bool, true, false, some, List, [], ◌∷◌,
}

module _ {W : Type 0} (lib : Greenlets W) (py_mem c_mem obj_mem : ℕ → Bool) where
  -- In the loop's greenlet, the timeout of any greenlet that waits for a descriptor is thrown at the
  -- parent of the loop's greenlet, and the loop stops.
  pub trampoline_switch_callback-misses :
      (m : Main W) (waiter exc g p : ℕ) (events : Fired)
      → events.overdue ≡ true
      → m.greenlet ≡ some g
      → lib.current m.world ≡ g
      → lib.parent g m.world ≡ some p
      → trampoline_switch_callback lib py_mem c_mem obj_mem waiter exc events m
        ≡ (lib.throw_at p exc (in_state stop (with_raised false m)) >>= λ r. ok r.1)
  unfolding trampoline_switch_callback internal_loop_handle_error
  trampoline_switch_callback-misses m waiter exc g p events late own here above =
      rw (late, own, here, above, (==_iff g g).1 refl) refl

  -- Outside of the loop's greenlet and of its parent, a system error becomes the last of the pending
  -- calls: the loop will throw it at the parent. It needs allocators that grant every request and
  -- fewer than 2 ^ 30 calls of each kind.
  pub internal_loop_handle_error-queues :
      (m : Main W) (e g p : ℕ) (ps ts : List ℕ)
      → lib.is_system e ≡ true
      → m.greenlet ≡ some g
      → lib.parent g m.world ≡ some p
      → (g == lib.current m.world) ≡ false
      → (p == lib.current m.world) ≡ false
      → ((n : ℕ) → py_mem n ≡ true)
      → ((n : ℕ) → c_mem n ≡ true)
      → obj_mem m.calls.next ≡ true
      → Ready m.calls ps ts
      → length ps < 2 ^ 30
      → length ts < 2 ^ 30
      → (c : Calls) × (internal_loop_handle_error lib py_mem c_mem obj_mem e true m
          ≡ ok (true, record m { calls = c }))
        × Gains m.calls 0 (throw p e) (e ∷ []) ps ts c
  unfolding internal_loop_handle_error
  internal_loop_handle_error-queues m e g p ps ts system own above not_loop not_parent py_grants
        c_grants granted r fewer_ps fewer_ts =
      let (c, runs, gains) =
        loop_schedule_call-waits py_mem c_mem obj_mem m.calls 0 (throw p e) (e ∷ []) ps ts py_grants
          c_grants granted r fewer_ps fewer_ts in
      (c, rw (system, own, above, not_loop, not_parent, runs) refl, gains)
