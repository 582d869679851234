-- ===== src/Loop/Schedule.antt =====
-- schedule_timer of src/loop.c: where a new call waits, and that it is counted.
use jega.Base.{
  if◌then◌else◌, Bool-cases, length, ok, u32, ℕ, ◌+◌, ◌^◌, ◌<◌, ◌≡◌, refl, inl, inr, Bool, true,
  List, [], ◌∷◌, ◌++◌, arith,
}
use jega.Ring
use jega.Heapq.Timers.{Contains, heappush-granted}
use jega.Timer.{is_handle, check_handle_obj}
use jega.Loop.{Loop, due_time, schedule_timer}
use jega.Ring.Push.{push-granted}

module _ (py_mem c_mem : ℕ → Bool) (l : Loop) (i : ℕ) where
  -- A handle waits behind the pending calls, a timer in the heap; either is counted, and the other
  -- container and the objects stay as they were. It needs allocators that grant every request and
  -- fewer than 2 ^ 30 calls of each kind.
  pub schedule_timer-waits :
      (ps ts : List ℕ)
      → ((n : ℕ) → py_mem n ≡ true)
      → ((n : ℕ) → c_mem n ≡ true)
      → Ring.Contents.Holds l.pendings ps
      → Contains (due_time l) l.scheduled ts
      → 0 < l.scheduled.max
      → length ps < 2 ^ 30
      → length ts < 2 ^ 30
      → (m : Loop) × (schedule_timer py_mem c_mem l i ≡ ok (true, m))
        × (m.activecnt ≡ u32 (l.activecnt + 1))
        × (m.objs ≡ l.objs)
        × (if is_handle (l.objs i).kind
            then Ring.Contents.Holds m.pendings (ps ++ i ∷ []) × (m.scheduled ≡ l.scheduled)
            else Contains (due_time l) m.scheduled (i ∷ ts) × (m.pendings ≡ l.pendings))
  unfolding schedule_timer check_handle_obj
  schedule_timer-waits ps ts py_grants c_grants p c pos fewer_ps fewer_ts =
      elim (Bool-cases (is_handle (l.objs i).kind)) [
        | inl is_h ↦
            let (r, e, h) = push-granted py_mem l.pendings ps i py_grants p (omega arith) in
            rw (is_h, e)
              (
                record l { pendings = r; activecnt = u32 (l.activecnt + 1) },
                refl,
                refl,
                refl,
                (h, refl),
              )
        | inr is_t ↦
            let (q, e, h) =
              heappush-granted (due_time l) c_mem l.scheduled ts i c_grants c pos fewer_ts in
            rw (is_t, e)
              (
                record l { scheduled = q; activecnt = u32 (l.activecnt + 1) },
                refl,
                refl,
                refl,
                (h, refl),
              )
      ]
