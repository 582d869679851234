-- ===== src/Heapq/Timers.antt =====
-- heappush and heappop of src/heapq.c as operations on a bag of timers.
use mathlib.Core.List.Perm
use jega.Base.{
  leb, length, replicate, length-append, length-replicate, length-perm, ok, Ends, ends, Ends-weaken,
  Ends-then, Ends-value, u32, ptr_size, ℕ, zero, suc, ◌+◌, ◌-◌, ◌*◌, ◌^◌, ◌≤◌, ◌<◌, ◌≡◌, refl, sym,
  ap, ◌∙◌, Bool, true, false, Option, none, some, List, [], ◌∷◌, ◌++◌, Perm, arith, dec_lt,
}
use jega.Heapq.{Heapq, parent, resize, push_slot, heappush}
use jega.Heapq.Slots.{slots, length-slots, store-end, get_or-append, end-perm, take-slots}
use jega.Heapq.Order.{IsHeap, IsRising}
use jega.Heapq.Sift.{key, Ordered, siftdown_restores}

module _ {ℓ} {A : Type ℓ} (seconds : A → ℕ) where
  -- The slots of `q` are a heap of the timers `xs`, in this order, and the array has `max` slots.
  pub record Holds (q : Heapq A) (xs : List A) : Type ℓ where
    pub rest : List (Option A)
    pub laid : q.heap ≡ slots xs rest
    pub sized : q.size ≡ length xs
    pub roomy : length q.heap ≡ q.max
    pub small : q.max ≤ 2 ^ 31
    pub ordered : (d : A) → IsHeap (length xs) (key seconds d xs)

  -- `q` is a heap of the timers `xs`, in any order.
  abbrev pub Contains : Heapq A → List A → Type ℓ
  Contains q xs = (ys : List A) × Holds q ys × Perm ys xs

  key-default :
      (xs : List A) (d e : A) (i : ℕ) → i < length xs → key seconds d xs i ≡ key seconds e xs i
  key-default [] d e i h = absurd (omega arith)
  key-default (x ∷ xs) d e zero h = refl
  key-default (x ∷ xs) d e (suc i) h = key-default xs d e i (omega arith)

  IsHeap-default :
      (xs : List A) (d e : A)
      → IsHeap (length xs) (key seconds d xs)
      → IsHeap (length xs) (key seconds e xs)
  IsHeap-default xs d e h c p q =
      ground (arith, h c, key-default xs d e c q, key-default xs d e (parent c))

  -- What Ordered slots make of the heap record.
  pub Ordered-Holds :
      (d : A) (xs : List A) (rest : List (Option A)) (max : ℕ) (p : List (Option A))
      → Ordered seconds d xs rest p
      → length xs + length rest ≡ max
      → max ≤ 2 ^ 31
      → Contains (record { heap = p; size = length xs; max = max }) xs
  Ordered-Holds d xs rest max p (ys, e, h, same, count) room small = (
    ys,
    record {
      rest = rest;
      laid = e;
      sized = sym count;
      roomy = ap length e ∙ length-slots ys rest ∙ omega (arith, count);
      small = small;
      ordered = λ d'. IsHeap-default ys d d' h;
    },
    same,
  )

  end-IsRising :
      (ys : List A) (val d : A)
      → IsHeap (length ys) (key seconds d ys)
      → IsRising (length (ys ++ val ∷ [])) (key seconds d (ys ++ val ∷ [])) (length ys)
  end-IsRising ys val d h =
      let size = length-append ys (val ∷ []) in
      record {
        edges = λ c p q r. ground (
          arith,
          size,
          h c,
          ap seconds (get_or-append ys (val ∷ []) c d (omega (arith, size))),
          ap seconds (get_or-append ys (val ∷ []) (parent c) d (omega (arith, size))),
        );
        bridged = λ c p q r s. absurd (omega (arith, size));
      }

  push_slot-laid :
      (q : Heapq A) (ys : List A) (rest : List (Option A)) (val : A)
      → q.heap ≡ slots ys rest
      → q.size ≡ length ys
      → length ys + length rest ≡ q.max
      → q.size < q.max
      → q.max ≤ 2 ^ 31
      → IsHeap (length ys) (key seconds val ys)
      → Ends
          (λ r. (s : Heapq A) × (r ≡ some s) × Contains s (ys ++ val ∷ []) × (s.max ≡ q.max))
          (push_slot seconds q val)
  unfolding push_slot
  push_slot-laid q ys [] val laid sized total room small h = absurd (omega arith)
  push_slot-laid q ys (r ∷ rest) val laid sized total room small h =
      let size = length-append ys (val ∷ []) in
      let count : u32 (length ys + 1) ≡ length (ys ++ val ∷ []) = omega (arith, size) in
      let last : length (ys ++ val ∷ []) - 1 ≡ length ys = omega (arith, size) in
      rw (laid, sized, store-end ys r rest val, count, last)
        (Ends-then
          (siftdown_restores seconds val (ys ++ val ∷ []) rest (length ys) (omega (arith, size))
            (end-IsRising ys val val h))
          λ p o. ends (
            record { heap = p; size = length (ys ++ val ∷ []); max = q.max },
            refl,
            Ordered-Holds val (ys ++ val ∷ []) rest q.max p o (omega (arith, size)) small,
            refl,
          ))

  -- The new timer is stored behind the others and rises to its place.
  push_slot-Contains :
      (q : Heapq A) (xs : List A) (val : A)
      → Contains q xs
      → q.size < q.max
      → Ends
          (λ r. (s : Heapq A) × (r ≡ some s) × Contains s (val ∷ xs) × (s.max ≡ q.max))
          (push_slot seconds q val)
  push_slot-Contains q xs val (ys, h, same) room =
      let total : length ys + length h.rest ≡ q.max =
        omega (arith, length-slots ys h.rest, ap length h.laid, h.roomy) in
      Ends-weaken (push_slot-laid q ys h.rest val h.laid h.sized total room h.small (h.ordered val))
        λ r (s, e, (zs, g, same'), m).
          (s, e, (zs, g, Perm.trans same' (Perm.trans (end-perm ys val) (Perm.cons val same))), m)

  -- While there is a free slot the heap gains the timer and keeps its capacity.
  pub heappush-room :
      (c_mem : ℕ → Bool) (q : Heapq A) (xs : List A) (val : A)
      → Contains q xs
      → q.size < q.max
      → Ends
          (λ r. (s : Heapq A) × (r ≡ some s) × Contains s (val ∷ xs) × (s.max ≡ q.max))
          (heappush seconds c_mem q val)
  unfolding heappush
  heappush-room c_mem q xs val c room =
      let spare : leb q.max q.size ≡ false = ground arith in
      rw spare (push_slot-Contains q xs val c room)

  resize-slots :
      (xs : List A) (rest : List (Option A)) (n : ℕ)
      → length xs + length rest ≤ n
      → (more : List (Option A)) × (resize (slots xs rest) n ≡ slots xs more)
        × (length xs + length more ≡ n)
  unfolding resize
  resize-slots xs rest n fits =
      take-slots xs rest (replicate n none) n (omega arith)
        (omega (arith, length-replicate {A = Option A} n none))

  -- A full heap whose array can be extended doubles its capacity and gains the timer.
  pub heappush-full :
      (c_mem : ℕ → Bool) (q : Heapq A) (xs : List A) (val : A)
      → Contains q xs
      → q.size ≡ q.max
      → 0 < q.max
      → q.max ≤ 2 ^ 30
      → c_mem (ptr_size * (q.max * 2)) ≡ true
      → Ends
          (λ r. (s : Heapq A) × (r ≡ some s) × Contains s (val ∷ xs) × (s.max ≡ q.max * 2))
          (heappush seconds c_mem q val)
  unfolding heappush
  heappush-full c_mem q xs val (ys, h, same) full pos small granted =
      let doubled : u32 (q.max * 2) ≡ q.max * 2 = omega arith in
      let needed : leb q.max q.size ≡ true = ground arith in
      let (more, e, size) =
        resize-slots ys h.rest (q.max * 2)
          (omega (arith, length-slots ys h.rest, ap length h.laid, h.roomy)) in
      let grown : Heapq A = record {
        heap = resize q.heap (q.max * 2);
        size = q.size;
        max = q.max * 2;
      } in
      let g : Holds grown ys = record {
        rest = more;
        laid = ap (λ p. resize p (q.max * 2)) h.laid ∙ e;
        sized = h.sized;
        roomy =
            ap (λ p. length (resize p (q.max * 2))) h.laid
            ∙ ap length e
            ∙ length-slots ys more
            ∙ size;
        small = omega arith;
        ordered = h.ordered;
      } in
      rw (needed, doubled, granted) (push_slot-Contains grown xs val (ys, g, same) (omega arith))

  -- A full heap that cannot be extended stays as it was, and the push fails.
  pub heappush-refused :
      (c_mem : ℕ → Bool) (q : Heapq A) (val : A)
      → q.size ≡ q.max
      → q.max ≤ 2 ^ 30
      → c_mem (ptr_size * (q.max * 2)) ≡ false
      → heappush seconds c_mem q val ≡ ok none
  unfolding heappush
  heappush-refused c_mem q val full small refused =
      let doubled : u32 (q.max * 2) ≡ q.max * 2 = omega arith in
      let needed : leb q.max q.size ≡ true = ground arith in rw (needed, doubled, refused)

  -- While the allocator grants every request and there are fewer than 2 ^ 30 timers, a push
  -- succeeds.
  pub heappush-granted :
      (c_mem : ℕ → Bool) (q : Heapq A) (xs : List A) (val : A)
      → ((n : ℕ) → c_mem n ≡ true)
      → Contains q xs
      → 0 < q.max
      → length xs < 2 ^ 30
      → (s : Heapq A) × (heappush seconds c_mem q val ≡ ok (some s)) × Contains s (val ∷ xs)
  heappush-granted c_mem q xs val grants c pos small =
      let count : q.size ≡ length xs = c.1.sized ∙ length-perm c.2 in
      let within : q.size ≤ q.max =
        omega (arith, c.1.sized, c.1.roomy, ap length c.1.laid, length-slots c.0 c.1.rest) in
      elim (dec_lt q.size q.max) [
        | yes room ↦
            let (r, e, (s, f, g, m)) = Ends-value (heappush-room c_mem q xs val c room) in
            (s, e ∙ ap ok f, g)
        | no over ↦
            let (r, e, (s, f, g, m)) =
              Ends-value
                (heappush-full c_mem q xs val c (omega arith) pos (omega arith) (grants _)) in
            (s, e ∙ ap ok f, g)
      ]
