-- ===== src/Calls/Order.antt =====
-- loop_schedule_call of src/loop.c: a new call is remembered, and waits in its turn.
use mathlib.Core.Logic.Or
use mathlib.Core.List.{mem-cons}
use native.Mathlib.Bridge.{le_prop}
use jega.Base.{
  ltb, ◌==◌, if◌then◌else◌, ==_iff, Bool-cases, length, length-perm, Run, ok, ◌>>=◌, u32, ℕ, ◌+◌,
  ◌^◌, ◌<◌, ◌≡◌, refl, sym, ap, ◌∙◌, subst, inl, inr, Bool, true, false, not, some, List, [], ◌∷◌,
  ◌++◌, Mem, arith,
}
use jega.Ring
use jega.Heapq.{Heapq}
use jega.Heapq.Timers.{Contains}
use jega.Heapq.Slots.{length-slots}
use jega.Heapq.Agree.{Contains-agree}
use jega.Timer.{is_handle, handle_new, timer_new, make_handle}
use jega.Loop.{Loop, due_time, schedule_timer}
use jega.Calls.{Job, Calls, put_at, job_switches, raises, made, schedule_done, loop_schedule_call}
use jega.Loop.Schedule.{schedule_timer-waits}

-- The pending calls are `ps` and the timers `ts`, all of them made before.
pub record Ready (s : Calls) (ps ts : List ℕ) : Type 0 where
  pub pending : Ring.Contents.Holds s.loop.pendings ps
  pub timed : Contains (due_time s.loop) s.loop.scheduled ts
  pub roomy : 0 < s.loop.scheduled.max
  pub older : (i : ℕ) → Mem i ts → i < s.next

-- The lists of both kinds after a call with this delay.
abbrev pub then_pending : ℕ → ℕ → List ℕ → List ℕ
then_pending seconds i ps = if ltb 0 seconds then ps else ps ++ i ∷ []

abbrev pub then_timed : ℕ → ℕ → List ℕ → List ℕ
then_timed seconds i ts = if ltb 0 seconds then i ∷ ts else ts

-- `m` is `s` with the call of `job` after `seconds` as the number `s.next`.
pub record Gains (s : Calls) (seconds : ℕ) (job : Job) (args ps ts : List ℕ) (m : Calls)
    : Type 0 where
  pub jobs : m.jobs ≡ put_at s.jobs s.next job
  pub args_kept : m.args ≡ put_at s.args s.next args
  pub objs :
      m.loop.objs ≡ put_at s.loop.objs s.next (make_handle s.loop.clock seconds (job_switches job))
  pub next : m.next ≡ s.next + 1
  pub counted : m.loop.activecnt ≡ u32 (s.loop.activecnt + 1)
  pub ready : Ready m (then_pending seconds s.next ps) (then_timed seconds s.next ts)

pub put_at-here {ℓ} : {A : Type ℓ} → (f : ℕ → A) (i : ℕ) (a : A) → put_at f i a i ≡ a
put_at-here f i a = ap (λ b. if b then a else f i) ((==_iff i i).1 refl)

Contains-roomy : (f : ℕ → ℕ) (q : Heapq ℕ) (x : ℕ) (xs : List ℕ) → Contains f q (x ∷ xs) → 0 < q.max
Contains-roomy f q x xs (ys, h, p) =
    omega (arith, h.roomy, ap length h.laid, length-slots ys h.rest, length-perm p)

newer :
    (i n : ℕ) (ts : List ℕ)
    → ((j : ℕ) → Mem j ts → j < i)
    → n ≡ i + 1
    → (j : ℕ) → Mem j (i ∷ ts)
    → j < n
newer i n ts older new j m =
    Or.elim le_prop (mem-cons.0 m) (λ e. omega (arith, e, new)) (λ k. omega (arith, older j k, new))

module _ (py_mem c_mem obj_mem : ℕ → Bool) where
  made-timed :
      (s : Calls) (seconds : ℕ) (job : Job) (args ts : List ℕ)
      → Contains (due_time s.loop) s.loop.scheduled ts
      → ((i : ℕ) → Mem i ts → i < s.next)
      → Contains (due_time (made py_mem c_mem obj_mem s seconds job args).loop) s.loop.scheduled ts
  made-timed s seconds job args ts c older =
      Contains-agree (due_time s.loop) _ s.loop.scheduled ts
        (λ i m.
          let other : (i == s.next) ≡ false = ground (arith, older i m) in
          ap
            (λ b.
              (if b
                then make_handle s.loop.clock seconds (job_switches job)
                else s.loop.objs i).seconds)
            (sym other))
        c

  is_handle-made :
      (s : Calls) (seconds : ℕ) (job : Job) (args : List ℕ)
      → is_handle ((made py_mem c_mem obj_mem s seconds job args).loop.objs s.next).kind
        ≡ not (ltb 0 seconds)
  unfolding make_handle timer_new handle_new
  is_handle-made s seconds job args =
      ap
        (λ b.
          is_handle
            (if b
              then make_handle s.loop.clock seconds (job_switches job)
              else s.loop.objs s.next).kind)
        ((==_iff s.next s.next).1 refl)
      ∙ elim (Bool-cases (ltb 0 seconds)) [ inl late ↦ rw late refl | inr soon ↦ rw soon refl ]

  -- The queues of the loop `l` after schedule_timer put the number `i` into one of them.
  abbrev Placed : Loop → Loop → ℕ → List ℕ → List ℕ → Bool → Type 0
  Placed old l i ps ts handled =
      if handled
      then Ring.Contents.Holds l.pendings (ps ++ i ∷ []) × (l.scheduled ≡ old.scheduled)
      else Contains (due_time old) l.scheduled (i ∷ ts) × (l.pendings ≡ old.pendings)

  retimed :
      (old l : Loop) (q : Heapq ℕ) (ts : List ℕ)
      → l.objs ≡ old.objs
      → Contains (due_time old) q ts
      → Contains (due_time l) q ts
  retimed old l q ts objs c =
      Contains-agree (due_time old) (due_time l) q ts (λ i m. ap (λ f. (f i).seconds) (sym objs)) c

  Placed-Ready :
      (n : Calls) (l : Loop) (i seconds : ℕ) (ps ts : List ℕ)
      → Ring.Contents.Holds n.loop.pendings ps
      → Contains (due_time n.loop) n.loop.scheduled ts
      → 0 < n.loop.scheduled.max
      → ((j : ℕ) → Mem j ts → j < i)
      → n.next ≡ i + 1
      → l.objs ≡ n.loop.objs
      → Placed n.loop l i ps ts (not (ltb 0 seconds))
      → Ready (record n { loop = l }) (then_pending seconds i ps) (then_timed seconds i ts)
  Placed-Ready n l i seconds ps ts p c roomy older new objs place =
      elim (Bool-cases (ltb 0 seconds)) [
        | inl late ↦
            let (heaped, same) = subst (λ b. Placed n.loop l i ps ts (not b)) late place in
            let heap = retimed n.loop l l.scheduled (i ∷ ts) objs heaped in
            rw late (record {
              pending = subst (λ r. Ring.Contents.Holds r ps) (sym same) p;
              timed = heap;
              roomy = Contains-roomy (due_time l) l.scheduled i ts heap;
              older = λ j m. newer i n.next ts older new j m;
            })
        | inr soon ↦
            let (queued, same) = subst (λ b. Placed n.loop l i ps ts (not b)) soon place in
            rw soon (record {
              pending = queued;
              timed =
                  retimed n.loop l l.scheduled ts objs
                    (subst (λ q. Contains (due_time n.loop) q ts) (sym same) c);
              roomy = subst (λ q. 0 < q.max) (sym same) roomy;
              older = λ j m. omega (arith, older j m, new);
            })
      ]

  pub loop_schedule_call-waits :
      (s : Calls) (seconds : ℕ) (job : Job) (args ps ts : List ℕ)
      → ((n : ℕ) → py_mem n ≡ true)
      → ((n : ℕ) → c_mem n ≡ true)
      → obj_mem s.next ≡ true
      → Ready s ps ts
      → length ps < 2 ^ 30
      → length ts < 2 ^ 30
      → (m : Calls) × (loop_schedule_call py_mem c_mem obj_mem s seconds job args
          ≡ ok (some s.next, m))
        × Gains s seconds job args ps ts m
  unfolding loop_schedule_call
  loop_schedule_call-waits s seconds job args ps ts py_grants c_grants granted r fewer_ps fewer_ts =
      let n = made py_mem c_mem obj_mem s seconds job args in
      let timed = made-timed s seconds job args ts r.timed r.older in
      let (l, e, count, objs, place) =
        schedule_timer-waits py_mem c_mem n.loop s.next ps ts py_grants c_grants r.pending timed
          r.roomy fewer_ps fewer_ts in
      let answer = λ (c : Run (Bool × Loop)).
        (c >>= λ r. ok (schedule_done py_mem c_mem obj_mem n s.next r)) in
      (
        record n { loop = l },
        ap (λ b. if b then answer (schedule_timer py_mem c_mem n.loop s.next) else ok (raises s))
              granted
            ∙ ap answer e,
        record {
          jobs = refl;
          args_kept = refl;
          objs = objs;
          next = refl;
          counted = count;
          ready =
              Placed-Ready n l s.next seconds ps ts r.pending timed r.roomy r.older refl objs
                (subst (Placed n.loop l s.next ps ts) (is_handle-made s seconds job args) place);
        },
      )
