-- ===== src/Executor/Submit.antt =====
-- internal_submit of src/executor.c: the work waits in order, and a worker is started while there are
-- too few.
use jega.Base.{
  ltb, ◌==◌, if◌then◌else◌, Bool-cases, length, ok, ◌>>=◌, u32_mod, u32, ℕ, ◌+◌, ◌^◌, ◌≤◌, ◌<◌, ◌≡◌,
  refl, sym, ap, ◌∙◌, subst, ◌⊎◌, inl, inr, Bool, true, ◌||◌, Option, none, some, List, [], ◌∷◌,
  ◌++◌, arith,
}
use jega.Ring
use jega.Ring.Push.{push-granted}
use jega.Calls.{resume}
use jega.Calls.Order.{Ready, Gains, put_at-here, loop_schedule_call-waits}
use jega.Futures.{future_init}
use jega.Executor.{
  Executor, Workplace, make_workeritem, with_future, with_item, adjust_thread_count, enqueued,
  internal_submit,
}

-- One more worker is allowed.
abbrev pub has_room : Executor → Bool
has_room x = x.max_workers == 0 || ltb x.run_workers x.max_workers

abbrev pub WithinLimit : Executor → Type 0
WithinLimit x = (x.max_workers ≡ 0) ⊎ (x.run_workers ≤ x.max_workers)

-- A worker is started in `m` if there was room in `w`.
abbrev pub Staffed : Workplace → ℕ → List ℕ → List ℕ → Workplace → Type 0
Staffed w greenlet ps ts m =
    if has_room w.executor
    then Gains w.tasks.calls 0 (resume greenlet) (w.weakref ∷ []) ps ts m.tasks.calls
      × (m.executor.run_workers ≡ u32 (w.executor.run_workers + 1))
    else (m.tasks.calls ≡ w.tasks.calls) × (m.executor.run_workers ≡ w.executor.run_workers)

limit_kept :
    (x : Executor) (n : ℕ)
    → WithinLimit x
    → x.max_workers < u32_mod
    → has_room x ≡ true
    → n ≡ u32 (x.run_workers + 1)
    → (x.max_workers ≡ 0) ⊎ (n ≤ x.max_workers)
limit_kept x n (inl free) word room e = inl free
limit_kept x n (inr within) word room e = elim (Bool-cases (x.max_workers == 0)) [
  | inl free ↦ inl (ground (arith, free))
  | inr limited ↦ inr (ground (arith, room, limited, e, word))
]

module _ (py_mem c_mem obj_mem : ℕ → Bool) where
  adjust_thread_count-staffs :
      (w : Workplace) (greenlet : ℕ) (ps ts : List ℕ)
      → ((n : ℕ) → py_mem n ≡ true)
      → ((n : ℕ) → c_mem n ≡ true)
      → ((n : ℕ) → obj_mem n ≡ true)
      → Ready w.tasks.calls ps ts
      → length ps < 2 ^ 30
      → length ts < 2 ^ 30
      → w.executor.max_workers < u32_mod
      → WithinLimit w.executor
      → (m : Workplace) × (adjust_thread_count py_mem c_mem obj_mem (some greenlet) w
          ≡ ok (true, m))
        × Staffed w greenlet ps ts m
        × WithinLimit m.executor
        × (m.executor.pendings ≡ w.executor.pendings)
        × (m.items ≡ w.items)
        × (m.tasks.futures ≡ w.tasks.futures)
  unfolding adjust_thread_count
  adjust_thread_count-staffs w greenlet ps ts py c obj ready fewer_ps fewer_ts word within =
      elim (Bool-cases (has_room w.executor)) [
        | inl room ↦
            let (calls, e, g) =
              loop_schedule_call-waits py_mem c_mem obj_mem w.tasks.calls 0 (resume greenlet)
                (w.weakref ∷ []) ps ts py c (obj w.tasks.calls.next) ready fewer_ps fewer_ts in
            rw (room, e)
              (
                record w {
                  tasks = record w.tasks { calls = calls };
                  executor = record w.executor { run_workers = u32 (w.executor.run_workers + 1) };
                },
                refl,
                (g, refl),
                limit_kept w.executor _ within word room refl,
                refl,
                refl,
                refl,
              )
        | inr full ↦ rw full (w, refl, (refl, refl), within, refl, refl, refl)
      ]

  -- A submitted function waits behind the ones submitted before, with a new future that is pending, and
  -- a worker greenlet is made and becomes the last pending call, with the weak reference to the executor as
  -- its argument, if there is room for one more; else
  -- the calls stay as they were. There are never more workers than max_workers, unless that is 0. It
  -- needs allocators that grant every request and fewer than 2 ^ 30 calls of each kind and items.
  pub internal_submit-queues :
      (w : Workplace) (future i greenlet fn : ℕ) (args kwargs : Option ℕ) (items ps ts : List ℕ)
      → ((n : ℕ) → py_mem n ≡ true)
      → ((n : ℕ) → c_mem n ≡ true)
      → ((n : ℕ) → obj_mem n ≡ true)
      → Ready w.tasks.calls ps ts
      → Ring.Contents.Holds w.executor.pendings items
      → length items < 2 ^ 30
      → length ps < 2 ^ 30
      → length ts < 2 ^ 30
      → w.executor.max_workers < u32_mod
      → WithinLimit w.executor
      → (m : Workplace) × (internal_submit py_mem c_mem obj_mem w
            (some future)
            (some i)
            (some greenlet)
            fn
            args
            kwargs
          ≡ ok (some future, m))
        × Ring.Contents.Holds m.executor.pendings (items ++ i ∷ [])
        × (m.items i ≡ make_workeritem future fn args kwargs)
        × (m.tasks.futures future ≡ future_init)
        × Staffed w greenlet ps ts m
        × WithinLimit m.executor
  unfolding internal_submit
  internal_submit-queues w future i greenlet fn args kwargs items ps ts py c obj ready held fewer
        fewer_ps fewer_ts word within =
      let item = make_workeritem future fn args kwargs in
      let w' = with_item (with_future w future) i item in
      let (r, pushed, holds) =
        push-granted py_mem w.executor.pendings items i py held (omega arith) in
      let w'' = record w' { executor = record w'.executor { pendings = r } } in
      let (m, e, staffed, limit, same, same_items, same_futures) =
        adjust_thread_count-staffs w'' greenlet ps ts py c obj ready fewer_ps fewer_ts word
          within in
      (
        m,
        ap (λ c. c >>= enqueued py_mem c_mem obj_mem w' future (some greenlet)) pushed
            ∙ ap (λ c. c >>= λ (done, w'). ok (if done then some future else none, w')) e,
        subst (λ q. Ring.Contents.Holds q (items ++ i ∷ [])) (sym same) holds,
        ap (λ f. f i) same_items ∙ put_at-here w.items i item,
        ap (λ f. f future) same_futures ∙ put_at-here w.tasks.futures future future_init,
        staffed,
        limit,
      )
