-- ===== src/Loop/Sweep.antt =====
-- fire_timers of src/loop.c: which timers leave the heap, in which order they become pending calls,
-- and what is counted.
use mathlib.Core.List.{
  mem-cons_self, mem-append_right, not-mem-nil, Pairwise, mem-cons_of_mem, mem-append_left,
  append_assoc, append-nil, perm_middle,
}
use mathlib.Core.List.Perm
use jega.Base.{
  ltb, leb, Bool-cases, length, length-append, length-perm, ok, Ends, ends, Ends-weaken,
  Ends-branch, u32_mod, ℕ, zero, suc, ◌+◌, ◌-◌, ◌^◌, ◌≤◌, ◌<◌, ◌≡◌, refl, sym, ap, ◌∙◌, subst, ◌⊎◌,
  inl, inr, Bool, true, false, some, List, [], ◌∷◌, ◌++◌, Mem, Perm, arith,
}
use jega.Ring
use jega.Heapq.{Heapq, heappop}
use jega.Heapq.Timers.{Contains}
use jega.Heapq.Drain.{IsSorted}
use jega.Heapq.Pop.{IsEarliest, heappop-some}
use jega.Timer.{Object}
use jega.Loop.{
  running, Loop, due_time, is_running, less_one, drop_timer, move_timer, fire_timers_loop,
  fire_timers,
}
use jega.Ring.{queue_push}
use jega.Ring.Push.{push-granted}

abbrev pub All {ℓ} : (ℕ → Type ℓ) → List ℕ → Type ℓ
All P [] = Unit
All P (x ∷ xs) = P x × All P xs

abbrev pub due_at : (ℕ → Object) → ℕ → ℕ
due_at objs i = (objs i).seconds

-- The timer is to be called: its time has come, and it was not cancelled.
abbrev pub IsDue : (ℕ → Object) → ℕ → ℕ → Type 0
IsDue objs now i = ((objs i).cancelled ≡ false) × (due_at objs i ≤ now)

-- The earliest of the timers is not cancelled.
abbrev pub Stopper : (ℕ → Object) → List ℕ → Type 0
Stopper objs left =
    (i : ℕ) × Mem i left × IsEarliest (due_at objs) i left × ((objs i).cancelled ≡ false)

-- How the timers `xs` of a heap and the pending calls `ps` are found again in the loop `m`, when
-- `count` calls were counted before.
pub record Swept (objs : ℕ → Object) (count now : ℕ) (xs ps : List ℕ) (m : Loop) : Type 0 where
  pub fired : List ℕ
  pub dropped : List ℕ
  pub left : List ℕ
  pub whole : Perm (fired ++ (dropped ++ left)) xs
  pub pending : Ring.Contents.Holds m.pendings (ps ++ fired)
  pub waiting : Contains (due_at objs) m.scheduled left
  pub in_order : IsSorted (due_at objs) fired
  pub due : All (IsDue objs now) fired
  pub cancelled : All (λ i. (objs i).cancelled ≡ true) dropped
  pub later : (i : ℕ) → Mem i left → now < due_at objs i
  pub ahead : All (λ i. (j : ℕ) → Mem j left → due_at objs i ≤ due_at objs j) dropped
  pub stops : (left ≡ []) ⊎ Stopper objs left
  pub counted : m.activecnt + length dropped ≡ count
  pub objs_kept : m.objs ≡ objs
  pub still : m.state ≡ running

module _ (objs : ℕ → Object) (count now t : ℕ) (others xs ps : List ℕ) (n : Loop)
    (all : Perm (t ∷ others) xs) where
  -- A cancelled timer that is dropped counts once less.
  Swept-drop :
      IsEarliest (due_at objs) t xs
      → (objs t).cancelled ≡ true
      → Swept objs count now others ps n
      → Swept objs (count + 1) now xs ps n
  Swept-drop first gone s = record {
    fired = s.fired;
    dropped = t ∷ s.dropped;
    left = s.left;
    whole =
        Perm.trans (perm_middle s.fired (s.dropped ++ s.left))
          (Perm.trans (Perm.cons t s.whole) all);
    pending = s.pending;
    waiting = s.waiting;
    in_order = s.in_order;
    due = s.due;
    cancelled = (gone, s.cancelled);
    later = s.later;
    ahead = (
      λ j i. first j (
          (Perm.mem_iff all).0 (
            mem-cons_of_mem t (
              (Perm.mem_iff s.whole).0 (mem-append_right s.fired (mem-append_right s.dropped i))))),
      s.ahead,
    );
    stops = s.stops;
    counted = omega (arith, s.counted);
    objs_kept = s.objs_kept;
    still = s.still;
  }

  -- A timer that is moved to the pending calls comes before the later ones.
  Swept-fire :
      IsEarliest (due_at objs) t xs
      → IsDue objs now t
      → Swept objs count now others (ps ++ t ∷ []) n
      → Swept objs count now xs ps n
  Swept-fire first ready s = record {
    fired = t ∷ s.fired;
    dropped = s.dropped;
    left = s.left;
    whole = Perm.trans (Perm.cons t s.whole) all;
    pending = rw (append_assoc ps (t ∷ []) s.fired) at s.pending;
    waiting = s.waiting;
    in_order =
        Pairwise.cons
          (λ u i. first u (
            (Perm.mem_iff all).0
              (mem-cons_of_mem t ((Perm.mem_iff s.whole).0 (mem-append_left _ i)))))
          s.in_order;
    due = (ready, s.due);
    cancelled = s.cancelled;
    later = s.later;
    ahead = s.ahead;
    stops = s.stops;
    counted = s.counted;
    objs_kept = s.objs_kept;
    still = s.still;
  }

-- Nothing leaves the heap where its root is not due.
Swept-stop :
    (l : Loop) (now : ℕ) (xs ps : List ℕ)
    → Ring.Contents.Holds l.pendings ps
    → Contains (due_time l) l.scheduled xs
    → l.state ≡ running
    → ((i : ℕ) → Mem i xs → now < due_time l i)
    → (xs ≡ []) ⊎ Stopper l.objs xs
    → Swept l.objs l.activecnt now xs ps l
Swept-stop l now xs ps p c r late last = record {
  fired = [];
  dropped = [];
  left = xs;
  whole = Perm.refl xs;
  pending = rw (append-nil ps) p;
  waiting = c;
  in_order = Pairwise.nil;
  due = tt;
  cancelled = tt;
  later = late;
  ahead = tt;
  stops = last;
  counted = omega arith;
  objs_kept = refl;
  still = r;
}

not-mem-empty : (xs : List ℕ) (i : ℕ) → length xs ≡ 0 → ¬ Mem i xs
not-mem-empty [] i e m = not-mem-nil m
not-mem-empty (x ∷ xs) i e m = absurd (omega arith)

empty-list : (xs : List ℕ) → length xs ≡ 0 → xs ≡ []
empty-list [] e = refl
empty-list (x ∷ xs) e = absurd (omega arith)

length-Contains :
    (l : Loop) (q : Heapq ℕ) (xs : List ℕ) → Contains (due_time l) q xs → q.size ≡ length xs
length-Contains l q xs (ys, h, same) = h.sized ∙ length-perm same

-- `true` is the result 1.
abbrev pub Sweeps : Loop → ℕ → List ℕ → List ℕ → Bool × Loop → Type 0
Sweeps l now xs ps (done, m) = (done ≡ true) × Swept l.objs l.activecnt now xs ps m

module _ (py_mem c_mem : ℕ → Bool) (grants : (n : ℕ) → py_mem n ≡ true) where
  -- What the loop needs to know of the state that a round starts from.
  record RoundStart (l : Loop) (xs ps : List ℕ) : Type 0 where
    pending : Ring.Contents.Holds l.pendings ps
    waiting : Contains (due_time l) l.scheduled xs
    goes_on : l.state ≡ running
    small : length ps + length xs < 2 ^ 31
    counts : length xs ≤ l.activecnt
    word : l.activecnt < u32_mod

  drop_timer-popped :
      (l : Loop) (t : ℕ) (q : Heapq ℕ)
      → heappop (due_time l) l.scheduled ≡ ok (some t, q)
      → 0 < l.activecnt
      → l.activecnt < u32_mod
      → drop_timer py_mem c_mem l ≡ ok (record l { scheduled = q; activecnt = l.activecnt - 1 })
  unfolding drop_timer
  drop_timer-popped l t q e pos word =
      let less : less_one l.activecnt ≡ l.activecnt - 1 = omega arith in rw (e, less)

  move_timer-popped :
      (l : Loop) (t : ℕ) (q : Heapq ℕ) (r : Ring.Ring ℕ)
      → heappop (due_time l) l.scheduled ≡ ok (some t, q)
      → queue_push py_mem l.pendings t ≡ ok (some r)
      → move_timer py_mem c_mem l ≡ ok (true, record l { scheduled = q; pendings = r })
  unfolding move_timer
  move_timer-popped l t q r e pushed = rw (e, pushed)

  fire_timers_loop-Sweeps :
      (fuel now : ℕ) (l : Loop) (xs ps : List ℕ)
      → l.scheduled.size < fuel
      → RoundStart l xs ps
      → Ends (Sweeps l now xs ps) (fire_timers_loop py_mem c_mem fuel now l)
  unfolding fire_timers_loop
  fire_timers_loop-Sweeps zero now l xs ps f y = absurd (omega arith)
  fire_timers_loop-Sweeps (suc fuel) now l xs ps f y =
      let alive : is_running l.state ≡ true = ap is_running y.goes_on in
      let stop_here =
        λ (late : (i : ℕ) → Mem i xs → now < due_time l i) (last : (xs ≡ []) ⊎ Stopper l.objs xs).
          Swept-stop l now xs ps y.pending y.waiting y.goes_on late last in
      let size = length-Contains l l.scheduled xs y.waiting in
      elim (Bool-cases (ltb 0 l.scheduled.size)) [
        | inr none_left ↦ rw none_left (
            ends (
              refl,
              stop_here (λ i m. absurd (not-mem-empty xs i (ground arith) m))
                  (inl (empty-list xs (ground arith))),
            ))
        | inl more ↦
            let (t, q, others, popped, root, held, all, first) =
              heappop-some (due_time l) l.scheduled xs y.waiting (ground arith) in
            let fewer : length xs ≡ suc (length others) = sym (length-perm all) in
            let left = length-Contains l q others held in
            let dropping = drop_timer-popped l t q popped (omega (arith, y.counts)) y.word in
            let gone : Loop = record l { scheduled = q; activecnt = l.activecnt - 1 } in
            rw (more, alive, root)
              (Ends-branch (l.objs t).cancelled
                (λ dead. rw dropping (
                  Ends-weaken
                    (fire_timers_loop-Sweeps fuel now gone others ps (omega arith) (record {
                      pending = y.pending;
                      waiting = held;
                      goes_on = y.goes_on;
                      small = omega (arith, y.small);
                      counts = omega (arith, y.counts);
                      word = omega (arith, y.word);
                    }))
                    λ (done, n) (d, s). (
                      d,
                      subst (λ k. Swept l.objs k now xs ps n) (omega (arith, y.counts))
                          (Swept-drop l.objs (l.activecnt - 1) now t others xs ps n all first dead
                            s),
                    )))
                (λ live.
                  Ends-branch (leb (due_time l t) now)
                    (λ due.
                      let (r, pushed, kept) =
                        push-granted py_mem l.pendings ps t grants y.pending
                          (omega (arith, y.small)) in
                      let moved_on : Loop = record l { scheduled = q; pendings = r } in
                      rw (move_timer-popped l t q r popped pushed) (
                        Ends-weaken
                          (fire_timers_loop-Sweeps fuel now moved_on others (ps ++ t ∷ [])
                            (omega arith)
                            (record {
                              pending = kept;
                              waiting = held;
                              goes_on = y.goes_on;
                              small = omega (arith, y.small, length-append ps (t ∷ []));
                              counts = omega (arith, y.counts);
                              word = y.word;
                            }))
                          λ (done, n) (d, s). (
                            d,
                            Swept-fire l.objs l.activecnt now t others xs ps n all first
                                (live, ground arith) s,
                          )))
                    (λ early. ends (
                      refl,
                      stop_here (λ i m. ground (arith, first i m))
                          (inr (t, (Perm.mem_iff all).0 mem-cons_self, first, live)),
                    ))))
      ]

  -- fire_timers takes exactly the timers out of the heap that are cancelled or whose time has come,
  -- up to the first that is neither: those that are due and not cancelled become pending calls
  -- behind the others, the earlier ones first, the cancelled ones are dropped and count no more, none
  -- of them after one that is left, and the earliest that is left is not cancelled, and later than
  -- now as all are. It needs an allocator that grants every request and
  -- fewer than 2 ^ 31 calls in all.
  pub fire_timers-Sweeps :
      (l : Loop) (xs ps : List ℕ)
      → Ring.Contents.Holds l.pendings ps
      → Contains (due_time l) l.scheduled xs
      → l.state ≡ running
      → length ps + length xs < 2 ^ 31
      → length xs ≤ l.activecnt
      → l.activecnt < u32_mod
      → Ends (Sweeps l l.clock xs ps) (fire_timers py_mem c_mem l)
  unfolding fire_timers
  fire_timers-Sweeps l xs ps p c r small counts word =
      fire_timers_loop-Sweeps (l.scheduled.size + 1) l.clock l xs ps (omega arith) (record {
        pending = p;
        waiting = c;
        goes_on = r;
        small = small;
        counts = counts;
        word = word;
      })
