-- ===== src/Heapq/Sift.antt =====
-- _siftdown and _siftup of src/heapq.c restore the heap order. Both hold the entry that moves aside
-- and shift others into the hole that it leaves.
use mathlib.Core.List.Perm
use jega.Base.{
  ltb, ◌==◌, if◌then◌else◌, length, set, get_or, length-set, Ends, ends, Ends-weaken, Ends-then,
  Ends-branch, ℕ, zero, suc, ◌+◌, ◌<◌, ◌≡◌, refl, sym, ◌∙◌, Option, List, Perm, arith,
}
use jega.Heapq.{parent, siftdown_loop, siftdown}
use jega.Heapq.Slots.{slots, load-slots, store-slots, get_or-set, hole-perm, set-get_or}
use jega.Heapq.Order.{IsHeap, IsRising, IsRising-move, IsRising-settled}

module _ {ℓ} {A : Type ℓ} (seconds : A → ℕ) (d : A) where
  -- The time at a place.
  abbrev pub key : List A → ℕ → ℕ
  key xs i = seconds (get_or xs i d)

  -- The slots hold a heap of the timers of `xs`.
  abbrev pub Ordered : List A → List (Option A) → List (Option A) → Type ℓ
  Ordered xs rest p =
      (ys : List A) × (p ≡ slots ys rest)
      × IsHeap (length ys) (key ys)
      × Perm ys xs
      × (length ys ≡ length xs)

  -- The same once `item` is put into the hole where the loop stopped.
  abbrev Stopped : A → List A → List (Option A) → List (Option A) × ℕ → Type ℓ
  Stopped item xs rest (p, pos) =
      (ys : List A) × (p ≡ slots ys rest)
      × (pos < length ys)
      × IsHeap (length ys) (key (set ys pos item))
      × Perm (set ys pos item) xs
      × (length ys ≡ length xs)

  pub key-set :
      (xs : List A) (i j : ℕ) (v : A)
      → i < length xs
      → key (set xs i v) j ≡ (if i == j then seconds v else key xs j)
  key-set xs i j v h = rw (get_or-set xs i j v d h) (ground arith)

  climb-IsRising :
      (xs : List A) (item : A) (pos : ℕ)
      → pos < length xs
      → 0 < pos
      → seconds item < key xs (parent pos)
      → IsRising (length xs) (key (set xs pos item)) pos
      → let xs' = set xs pos (get_or xs (parent pos) d) in
        IsRising (length xs') (key (set xs' (parent pos) item)) (parent pos)
  climb-IsRising xs item pos inside inner below u =
      let above = get_or xs (parent pos) d in
      let xs' = set xs pos above in
      let size : length xs' ≡ length xs = length-set xs pos above in
      let higher : parent pos < length xs' = omega arith in
      let at = λ (i : ℕ). key-set xs pos i item inside in
      rw size (
        IsRising-move (length xs) (key (set xs pos item)) (key (set xs' (parent pos) item)) pos u
          inner inside (ground (arith, at pos, at (parent pos)))
          λ i. ground (
            arith,
            at pos,
            at (parent pos),
            at i,
            key-set xs' (parent pos) i item higher,
            key-set xs pos i above inside,
          ))

  siftdown_loop_restores :
      (fuel : ℕ) (xs : List A) (rest : List (Option A)) (item : A) (pos : ℕ)
      → pos < length xs
      → pos < fuel
      → IsRising (length xs) (key (set xs pos item)) pos
      → Ends
          (Stopped item (set xs pos item) rest)
          (siftdown_loop seconds fuel (slots xs rest) 0 item pos)
  unfolding siftdown_loop
  siftdown_loop_restores zero xs rest item pos inside f u = absurd (omega arith)
  siftdown_loop_restores (suc fuel) xs rest item pos inside f u =
      let at = λ (i : ℕ). key-set xs pos i item inside in
      let settled = IsRising-settled (length xs) (key (set xs pos item)) pos u in
      let higher : parent pos < length xs = omega arith in
      Ends-branch (ltb 0 pos)
        (λ inner. rw (load-slots xs rest (parent pos) d higher) (
          Ends-branch (ltb (seconds item) (key xs (parent pos)))
            (λ below.
              let xs' = set xs pos (get_or xs (parent pos) d) in
              let size : length xs' ≡ length xs = length-set xs pos _ in
              let positive : 0 < pos = ground arith in
              rw (store-slots xs rest pos (get_or xs (parent pos) d) inside) (
                Ends-weaken
                  (siftdown_loop_restores fuel xs' rest item (parent pos) (rw size higher)
                    (ground arith)
                    (climb-IsRising xs item pos inside (ground arith) (ground arith) u))
                  λ (p, i) (ys, e, b, h, same, count). (
                    ys,
                    e,
                    b,
                    h,
                    Perm.trans same
                        (hole-perm xs pos (parent pos) item d inside higher (omega arith)),
                    count ∙ length-set xs' (parent pos) item ∙ size ∙ sym (length-set xs pos item),
                  )))
            (λ late. ends (
              xs,
              refl,
              inside,
              settled (λ _. ground (arith, at pos, at (parent pos))),
              Perm.rfl,
              sym (length-set xs pos item),
            ))))
        (λ root. ends (
          xs,
          refl,
          inside,
          settled (λ inner. absurd (ground arith)),
          Perm.rfl,
          sym (length-set xs pos item),
        ))

  -- _siftdown makes a heap of slots in which only the entry at `pos` may be too early.
  pub siftdown_restores :
      (xs : List A) (rest : List (Option A)) (pos : ℕ)
      → pos < length xs
      → IsRising (length xs) (key xs) pos
      → Ends (Ordered xs rest) (siftdown seconds (slots xs rest) 0 pos)
  unfolding siftdown
  siftdown_restores xs rest pos inside u =
      let item = get_or xs pos d in
      rw (load-slots xs rest pos d inside) (
        Ends-then
          (siftdown_loop_restores (pos + 1) xs rest item pos inside (omega arith) (rw set-get_or u))
          λ (p, i) (ys, e, b, h, same, count).
            rw (e, store-slots ys rest i item b)
              (ends (
                set ys i item,
                refl,
                rw length-set h,
                rw set-get_or at same,
                length-set ys i item ∙ count ∙ length-set xs pos item,
              )))
