-- ===== src/Heapq/Pop.antt =====
-- heappop of src/heapq.c removes an earliest timer.
use mathlib.Core.Logic.Or
use mathlib.Core.List.{mem-cons, not-mem-nil}
use mathlib.Core.List.Perm
use native.Mathlib.Bridge.{le_prop}
use jega.Base.{
  ltb, ◌==◌, length, set, get_or, take, length-set, length-take, ok, Ends, ends, Ends-weaken,
  Ends-then, Ends-value, load, ℕ, suc, ◌-◌, ◌≤◌, ◌<◌, ◌≡◌, refl, sym, ap, ◌∙◌, subst, true, false,
  Option, none, some, List, [], ◌∷◌, Mem, Perm, arith,
}
use jega.Heapq.{Heapq, parent, heappop}
use jega.Heapq.Slots.{
  load-slots, length-slots, store-slots, set-perm, store-last, get_or-take, last-perm,
}
use jega.Heapq.Order.{IsHeap, HasHole, root_least}
use jega.Heapq.Sift.{key, key-set}
use jega.Heapq.Sink.{siftup_restores}
use jega.Heapq.Timers.{Holds, Contains, Ordered-Holds}

module _ {ℓ} {A : Type ℓ} (seconds : A → ℕ) where
  -- No timer of `xs` is earlier than `t`.
  abbrev pub IsEarliest : A → List A → Type ℓ
  IsEarliest t xs = (u : A) → Mem u xs → seconds t ≤ seconds u

  -- The timer in the first slot was removed, none is earlier, and a heap of the others is left.
  abbrev pub Popped : Heapq A → List A → Option A × Heapq A → Type ℓ
  Popped q xs (r, s) =
      (t : A) × (others : List A) × (r ≡ some t)
      × (load q.heap 0 ≡ ok t)
      × Contains seconds s others
      × Perm (t ∷ others) xs
      × IsEarliest t xs
      × (s.max ≡ q.max)

  le_of_mem :
      (xs : List A) (d : A) (b : ℕ)
      → ((i : ℕ) → i < length xs → b ≤ key seconds d xs i)
      → (u : A) → Mem u xs
      → b ≤ seconds u
  le_of_mem [] d b h u m = absurd (not-mem-nil m)
  le_of_mem (x ∷ xs) d b h u m =
      Or.elim le_prop (mem-cons.0 m) (λ e. rw e (h 0 (omega arith)))
        (le_of_mem xs d b (λ i p. h (suc i) (omega arith)) u)

  root-IsEarliest :
      (ys : List A) (d : A)
      → IsHeap (length ys) (key seconds d ys)
      → 0 < length ys
      → IsEarliest (get_or ys 0 d) ys
  root-IsEarliest ys d h pos =
      le_of_mem ys d (key seconds d ys 0) (λ i p. root_least (length ys) (key seconds d ys) i h p)

  -- The slots that heappop hands to _siftup.
  refill-HasHole :
      (ys : List A) (n : ℕ) (v d : A)
      → IsHeap (length ys) (key seconds d ys)
      → length ys ≡ suc n
      → 0 < n
      → HasHole n (key seconds d (set (take n ys) 0 v)) 0
  refill-HasHole ys n v d h size pos =
      let short = length-take n ys (omega arith) in
      let at = λ (i : ℕ). key-set seconds d (take n ys) 0 i v (omega (arith, short)) in
      record {
        edges = λ c p q r s. ground (
          arith,
          at c,
          at (parent c),
          h c,
          ap seconds (get_or-take n ys c d q),
          ap seconds (get_or-take n ys (parent c) d (omega arith)),
        );
        bridged = λ c p q r s. absurd (omega arith);
      }

  -- The root, and the last timer put in its place, with the order restored below it.
  pop-refilled :
      (q : Heapq A) (ys : List A) (n : ℕ)
      → (h : Holds seconds q ys) → (d : A) → length ys ≡ suc n
      → 0 < n
      → Ends (Popped q ys) (heappop seconds q)
  unfolding heappop
  pop-refilled q ys n h d size pos =
      let last = get_or ys n d in
      let short = take n ys in
      let short_size : length short ≡ n = length-take n ys (omega arith) in
      let xs = set short 0 last in
      let xs_size : length xs ≡ n = length-set short 0 last ∙ short_size in
      let refill =
        siftup_restores seconds d xs (none ∷ h.rest) (omega (arith, xs_size))
          (omega (arith, xs_size, length-slots ys h.rest, ap length h.laid, h.roomy, h.small))
          (rw xs_size (refill-HasHole ys n last d (h.ordered d) size pos)) in
      let empty : (q.size == 0) ≡ false = ground (arith, h.sized) in
      let more : ltb 0 n ≡ true = ground arith in
      let newsize : q.size - 1 ≡ n = omega (arith, h.sized) in
      rw
        (
          empty,
          newsize,
          h.laid,
          load-slots ys h.rest n d (omega arith),
          store-last n ys h.rest size,
          more,
          load-slots short (none ∷ h.rest) 0 d (omega arith),
          store-slots short (none ∷ h.rest) 0 last (omega arith),
        )
        (Ends-then (rw xs_size at refill) λ p o. ends (
          get_or short 0 d,
          xs,
          refl,
          load-slots ys h.rest 0 d (omega arith) ∙ ap ok (sym (get_or-take n ys 0 d pos)),
          subst (λ k. Contains seconds (record { heap = p; size = k; max = q.max }) xs) xs_size
              (Ordered-Holds seconds d xs (none ∷ h.rest) q.max p o
                (omega (arith, xs_size, length-slots ys h.rest, ap length h.laid, h.roomy))
                h.small),
          Perm.trans (set-perm short 0 last d (omega arith)) (last-perm n ys d size),
          rw (get_or-take n ys 0 d pos) (root-IsEarliest ys d (h.ordered d) (omega arith)),
          refl,
        ))

  -- The only timer of a heap is taken without a sift.
  pop-single :
      (q : Heapq A) (x : A)
      → Holds seconds q (x ∷ [])
      → Ends (Popped q (x ∷ [])) (heappop seconds q)
  unfolding heappop
  pop-single q x h =
      let empty : (q.size == 0) ≡ false = ground (arith, h.sized) in
      let newsize : q.size - 1 ≡ 0 = omega (arith, h.sized) in
      rw
        (
          empty,
          newsize,
          h.laid,
          load-slots (x ∷ []) h.rest 0 x (omega arith),
          store-last 0 (x ∷ []) h.rest refl,
        )
        (ends (
          x,
          [],
          refl,
          load-slots (x ∷ []) h.rest 0 x (omega arith),
          (
            [],
            record {
              rest = none ∷ h.rest;
              laid = refl;
              sized = refl;
              roomy = ap length (sym h.laid) ∙ h.roomy;
              small = h.small;
              ordered = λ d c p b. absurd (omega arith);
            },
            Perm.refl [],
          ),
          Perm.refl (x ∷ []),
          root-IsEarliest (x ∷ []) x (h.ordered x) (omega arith),
          refl,
        ))

  pop-Holds :
      (q : Heapq A) (ys : List A)
      → Holds seconds q ys
      → 0 < length ys
      → Ends (Popped q ys) (heappop seconds q)
  pop-Holds q [] h pos = absurd (omega arith)
  pop-Holds q (x ∷ []) h pos = pop-single q x h
  pop-Holds q (x ∷ y ∷ ys) h pos =
      pop-refilled q (x ∷ y ∷ ys) (length (y ∷ ys)) h x refl (omega arith)

  -- heappop on a heap that is not empty returns the timer in the first slot, which none is earlier
  -- than, and leaves a heap of exactly the others, with the capacity as it was.
  pub heappop-Popped :
      (q : Heapq A) (xs : List A)
      → Contains seconds q xs
      → 0 < q.size
      → Ends (Popped q xs) (heappop seconds q)
  heappop-Popped q xs (ys, h, same) pos =
      Ends-weaken (pop-Holds q ys h (omega (arith, h.sized)))
        λ (r, s) (t, others, e, root, c, all, earliest, m). (
          t,
          others,
          e,
          root,
          c,
          Perm.trans all same,
          (λ u i. earliest u ((Perm.mem_iff same).1 i)),
          m,
        )

  -- An empty heap gives NULL and stays as it was.
  pub heappop-empty : (q : Heapq A) → q.size ≡ 0 → heappop seconds q ≡ ok (none, q)
  unfolding heappop
  heappop-empty q e = ground arith

  -- The same, with the parts named.
  pub heappop-some :
      (q : Heapq A) (xs : List A)
      → Contains seconds q xs
      → 0 < q.size
      → (t : A) × (s : Heapq A) × (others : List A) × (heappop seconds q ≡ ok (some t, s))
        × (load q.heap 0 ≡ ok t)
        × Contains seconds s others
        × Perm (t ∷ others) xs
        × IsEarliest t xs
  heappop-some q xs c pos =
      let ((r, s), popped, (t, others, e, root, held, all, first, m)) =
        Ends-value (heappop-Popped q xs c pos) in
      (t, s, others, popped ∙ ap (λ x. ok (x, s)) e, root, held, all, first)
