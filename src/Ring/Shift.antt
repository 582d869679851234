-- ===== src/Ring/Shift.antt =====
-- queue_shift and init_queue of src/queue.c against the list of entries.
use jega.Base.{
  length, replicate, length-replicate, ok, u32_mod, u32, ptr_size, load, load-ok, ℕ, suc, ◌+◌, ◌-◌,
  ◌*◌, ◌<◌, ◌≡◌, refl, Bool, true, Option, none, some, List, [], ◌∷◌, arith,
}
use jega.Ring.{Ring, ring_bytes, init_queue, queue_shift}
use jega.Ring.Wrap.{wrap, next_index-wrap, wrap-shift}
use jega.Ring.Contents.{Holds}

module _ {ℓ} {A : Type ℓ} where
  -- queue_shift takes the oldest entry and leaves the others in order.
  pub shift-cons :
      (r : Ring A) (x : A) (xs : List A)
      → Holds r (x ∷ xs)
      → (s : Ring A) × (queue_shift r ≡ ok (some x, s)) × Holds s xs × (s.max ≡ r.max)
  unfolding queue_shift
  shift-cons r x xs h =
      let s = record r { first = wrap r.max (r.first + 1); size = r.size - 1 } in
      let front : load r.q r.first ≡ ok x =
        load-ok r.q r.first x (ground (arith, h.entries 0, h.first_in)) in
      (
        s,
        rw (front, next_index-wrap r.first r.max h.first_in h.word) (ground (arith, h.sized)),
        record {
          roomy = h.roomy;
          sized = omega (arith, h.sized);
          bounded = omega (arith, h.bounded);
          word = h.word;
          first_in = ground (arith, h.first_in);
          last_in = h.last_in;
          joined =
              ground (arith, h.joined, h.sized, h.bounded, wrap-shift r.max r.first (length xs));
          entries = λ i b.
              ground (arith, h.entries (suc i), h.sized, h.bounded, wrap-shift r.max r.first i);
        },
        refl,
      )

  -- An empty queue gives NULL and stays as it was.
  pub shift-nil : (r : Ring A) → Holds r [] → queue_shift r ≡ ok (none, r)
  unfolding queue_shift
  shift-nil r h = ground (arith, h.sized)

  -- A queue that init_queue makes is empty.
  pub init-Holds :
      (mem : ℕ → Bool) (maxsize : ℕ)
      → 0 < maxsize
      → maxsize + 1 < u32_mod
      → mem ring_bytes ≡ true
      → mem (ptr_size * (maxsize + 1)) ≡ true
      → (r : Ring A) × (init_queue mem maxsize ≡ some r) × Holds r [] × (r.max ≡ maxsize)
  unfolding init_queue
  init-Holds mem maxsize pos small struct_granted granted =
      let slots : u32 (maxsize + 1) ≡ maxsize + 1 = omega arith in
      let last : u32 (maxsize + u32_mod - 1) ≡ maxsize - 1 = omega arith in
      (
        record {
          q = replicate (maxsize + 1) none;
          first = 0;
          last = maxsize - 1;
          size = 0;
          max = maxsize;
        },
        rw (struct_granted, slots, granted, last),
        record {
          roomy = omega (arith, length-replicate {A = Option A} (maxsize + 1) none);
          sized = refl;
          bounded = omega arith;
          word = omega arith;
          first_in = pos;
          last_in = omega arith;
          joined = ground arith;
          entries = λ i b. absurd (omega arith);
        },
        refl,
      )
