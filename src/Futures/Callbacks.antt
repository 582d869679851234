-- ===== src/Futures/Callbacks.antt =====
-- call_callbacks of src/futures.c: the callbacks of a future become pending calls, in order.
use mathlib.Core.List.{append_assoc, append-nil}
use jega.Base.{
  ◌==◌, if◌then◌else◌, length, get_or, length-append, ok, ℕ, zero, suc, ◌+◌, ◌^◌, ◌<◌, ◌≡◌, refl,
  sym, ap, ◌∙◌, subst, Bool, true, false, List, [], ◌∷◌, ◌++◌, arith,
}
use jega.Timer.{handle_new, make_handle}
use jega.Calls.{function, Calls, put_at}
use jega.Calls.Order.{Ready, Gains, put_at-here, loop_schedule_call-waits}
use jega.Futures.{Tasks, set_future, schedule_each, call_callbacks}

-- `n` numbers from `i` on.
abbrev pub numbers : ℕ → ℕ → List ℕ
numbers i zero = []
numbers i (suc n) = i ∷ numbers (i + 1) n

-- `m` is `s` with calls of the callbacks, with these arguments, as the last pending calls.
pub record Scheduled (s : Calls) (cbs args ps ts : List ℕ) (m : Calls) : Type 0 where
  pub older_jobs : (j : ℕ) → j < s.next → m.jobs j ≡ s.jobs j
  pub older_args : (j : ℕ) → j < s.next → m.args j ≡ s.args j
  pub older_objs : (j : ℕ) → j < s.next → m.loop.objs j ≡ s.loop.objs j
  pub new_jobs : (i : ℕ) → i < length cbs → m.jobs (s.next + i) ≡ function (get_or cbs i 0)
  pub new_args : (i : ℕ) → i < length cbs → m.args (s.next + i) ≡ args
  pub new_objs : (i : ℕ) → i < length cbs → m.loop.objs (s.next + i) ≡ handle_new false
  pub next : m.next ≡ s.next + length cbs
  pub ready : Ready m (ps ++ numbers s.next (length cbs)) ts

put_at-below {ℓ} : {A : Type ℓ} → (f : ℕ → A) (i j : ℕ) (a : A) → j < i → put_at f i a j ≡ f j
put_at-below f i j a h =
    let apart : (j == i) ≡ false = ground arith in ap (λ b. if b then a else f j) apart

-- A store that is written at `k`, and then only behind it.
module _ {ℓ} {A : Type ℓ} (old mid new : ℕ → A) (k k' : ℕ) (a : A) (step : mid ≡ put_at old k a)
    (up : k' ≡ k + 1) (same : (j : ℕ) → j < k' → new j ≡ mid j) where
  older-kept : (j : ℕ) → j < k → new j ≡ old j
  older-kept j h = same j (omega (arith, up)) ∙ ap (λ f. f j) step ∙ put_at-below old k j a h

  first-new : new k ≡ a
  first-new = same k (omega (arith, up)) ∙ ap (λ f. f k) step ∙ put_at-here old k a

  new-shift :
      (n : ℕ) (want : ℕ → A)
      → want 0 ≡ a
      → ((i : ℕ) → i < n → new (k' + i) ≡ want (suc i))
      → (i : ℕ) → i < suc n
      → new (k + i) ≡ want i
  new-shift n want head tail zero h = ap new (omega arith) ∙ first-new ∙ sym head
  new-shift n want head tail (suc i) h = ap new (omega (arith, up)) ∙ tail i (omega arith)

module _ (py_mem c_mem obj_mem : ℕ → Bool) where
  Scheduled-nil : (s : Calls) (args ps ts : List ℕ) → Ready s ps ts → Scheduled s [] args ps ts s
  Scheduled-nil s args ps ts r = record {
    older_jobs = λ j h. refl;
    older_args = λ j h. refl;
    older_objs = λ j h. refl;
    new_jobs = λ i h. absurd (omega arith);
    new_args = λ i h. absurd (omega arith);
    new_objs = λ i h. absurd (omega arith);
    next = omega arith;
    ready = subst (λ xs. Ready s xs ts) (sym (append-nil ps)) r;
  }

  Scheduled-cons :
      (s n m : Calls) (cb : ℕ) (cbs args ps ts : List ℕ)
      → Gains s 0 (function cb) args ps ts n
      → Scheduled n cbs args (ps ++ s.next ∷ []) ts m
      → Scheduled s (cb ∷ cbs) args ps ts m
  unfolding make_handle
  Scheduled-cons s n m cb cbs args ps ts g r = record {
    older_jobs = older-kept s.jobs n.jobs m.jobs s.next n.next _ g.jobs g.next r.older_jobs;
    older_args = older-kept s.args n.args m.args s.next n.next _ g.args_kept g.next r.older_args;
    older_objs =
        older-kept s.loop.objs n.loop.objs m.loop.objs s.next n.next _ g.objs g.next r.older_objs;
    new_jobs =
        new-shift s.jobs n.jobs m.jobs s.next n.next _ g.jobs g.next r.older_jobs (length cbs)
          (λ i. function (get_or (cb ∷ cbs) i 0)) refl r.new_jobs;
    new_args =
        new-shift s.args n.args m.args s.next n.next _ g.args_kept g.next r.older_args (length cbs)
          (λ i. args) refl r.new_args;
    new_objs =
        new-shift s.loop.objs n.loop.objs m.loop.objs s.next n.next _ g.objs g.next r.older_objs
          (length cbs) (λ i. handle_new false) refl r.new_objs;
    next = omega (arith, g.next, r.next);
    ready =
        subst (λ xs. Ready m xs ts)
          (append_assoc ps (s.next ∷ []) _ ∙ ap (λ k. ps ++ s.next ∷ numbers k (length cbs)) g.next)
          r.ready;
  }

  pub schedule_each-schedules :
      (cbs args : List ℕ) (s : Calls) (ps ts : List ℕ)
      → ((n : ℕ) → py_mem n ≡ true)
      → ((n : ℕ) → c_mem n ≡ true)
      → ((n : ℕ) → obj_mem n ≡ true)
      → Ready s ps ts
      → length ps + length cbs < 2 ^ 30
      → length ts < 2 ^ 30
      → (m : Calls) × (schedule_each py_mem c_mem obj_mem cbs args s ≡ ok (true, m))
        × Scheduled s cbs args ps ts m
  unfolding schedule_each
  schedule_each-schedules [] args s ps ts py c obj r fewer_ps fewer_ts =
      (s, refl, Scheduled-nil s args ps ts r)
  schedule_each-schedules (cb ∷ cbs) args s ps ts py c obj r fewer_ps fewer_ts =
      let (n, e, g) =
        loop_schedule_call-waits py_mem c_mem obj_mem s 0 (function cb) args ps ts py c (obj s.next)
          r (omega arith) fewer_ts in
      let (m, e', rest) =
        schedule_each-schedules cbs args n (ps ++ s.next ∷ []) ts py c obj g.ready
          (omega (arith, length-append ps (s.next ∷ []))) fewer_ts in
      (m, rw e e', Scheduled-cons s n m cb cbs args ps ts g rest)

  -- The callbacks of a future become the last pending calls, one each and in order, with the future as
  -- their argument, and the future has none left. The calls, arguments and objects of before stay. It
  -- needs allocators that grant every request and fewer than 2 ^ 30 calls of each kind.
  pub call_callbacks-schedules :
      (s : Tasks) (self : ℕ) (ps ts : List ℕ)
      → ((n : ℕ) → py_mem n ≡ true)
      → ((n : ℕ) → c_mem n ≡ true)
      → ((n : ℕ) → obj_mem n ≡ true)
      → Ready s.calls ps ts
      → length ps + length (s.futures self).callbacks < 2 ^ 30
      → length ts < 2 ^ 30
      → (m : Calls) × (call_callbacks py_mem c_mem obj_mem s self
          ≡ ok (
            true,
            record (set_future s self (record (s.futures self) { callbacks = [] })) { calls = m },
          ))
        × Scheduled s.calls (s.futures self).callbacks (self ∷ []) ps ts m
  unfolding call_callbacks
  call_callbacks-schedules s self ps ts py c obj r fewer_ps fewer_ts =
      let (m, e, h) =
        schedule_each-schedules (s.futures self).callbacks (self ∷ []) s.calls ps ts py c obj r
          fewer_ps fewer_ts in
      (m, rw e refl, h)
