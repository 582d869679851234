-- ===== src/Heapq/Sink.antt =====
-- _siftup of src/heapq.c: the earlier child moves up until the hole is at a leaf, and the entry
-- that is put there rises again to its place.
use mathlib.Core.List.Perm
use jega.Base.{
  ltb, Bool-cases, length, set, get_or, length-set, Ends, ends, Ends-weaken, Ends-then, Ends-branch,
  u32, ℕ, zero, suc, ◌+◌, ◌-◌, ◌*◌, ◌^◌, ◌≤◌, ◌<◌, ◌≡◌, refl, sym, ap, ◌∙◌, ◌⊎◌, inl, inr, Option,
  List, Perm, arith,
}
use jega.Heapq.{parent, left_child, earlier_child, siftup_loop, siftup}
use jega.Heapq.Order.{IsRising, HasHole, HasHole-move, HasHole-fill}
use jega.Heapq.Slots.{slots, load-slots, store-slots, hole-perm, set-get_or}
use jega.Heapq.Sift.{key, Ordered, key-set, siftdown_restores}

child-cases : (c pos : ℕ) → 0 < c → parent c ≡ pos → (c ≡ 2 * pos + 1) ⊎ (c ≡ 2 * pos + 2)
child-cases c pos p e = grind arith

le_rfl : {n : ℕ} → n ≤ n
le_rfl = omega arith

module _ {ℓ} {A : Type ℓ} (seconds : A → ℕ) (d : A) where
  -- `m` is the child of `pos` that moves up, and `child` stands there.
  record IsEarlier (xs : List A) (pos : ℕ) (m : ℕ) (child : A) : Type ℓ where
    below : pos < m
    inside : m < length xs
    under : parent m ≡ pos
    stands : child ≡ get_or xs m d
    least :
        (c : ℕ) → 0 < c → c < length xs → parent c ≡ pos → key seconds d xs m ≤ key seconds d xs c

  left-IsEarlier :
      (xs : List A) (pos : ℕ)
      → 2 * pos + 1 < length xs
      → (2 * pos + 2 < length xs → key seconds d xs (2 * pos + 1) ≤ key seconds d xs (2 * pos + 2))
      → IsEarlier xs pos (2 * pos + 1) (get_or xs (2 * pos + 1) d)
  left-IsEarlier xs pos inside no_later = record {
    below = omega arith;
    inside = inside;
    under = omega arith;
    stands = refl;
    least = λ c p q r. elim (child-cases c pos p r) [
      | inl e ↦ rw e le_rfl
      | inr e ↦ rw e (no_later (omega arith))
    ];
  }

  right-IsEarlier :
      (xs : List A) (pos : ℕ)
      → 2 * pos + 2 < length xs
      → key seconds d xs (2 * pos + 2) ≤ key seconds d xs (2 * pos + 1)
      → IsEarlier xs pos (2 * pos + 2) (get_or xs (2 * pos + 2) d)
  right-IsEarlier xs pos inside earlier = record {
    below = omega arith;
    inside = inside;
    under = omega arith;
    stands = refl;
    least = λ c p q r. elim (child-cases c pos p r) [ inl e ↦ rw e earlier | inr e ↦ rw e le_rfl ];
  }

  earlier_child-IsEarlier :
      (xs : List A) (rest : List (Option A)) (pos : ℕ)
      → 2 * pos + 1 < length xs
      → length xs ≤ 2 ^ 31
      → Ends
          (λ (m, child). IsEarlier xs pos m child)
          (earlier_child seconds (slots xs rest) (length xs) (2 * pos + 1))
  unfolding earlier_child
  earlier_child-IsEarlier xs rest pos inside small =
      let right : u32 (2 * pos + 1 + 1) ≡ 2 * pos + 2 = omega arith in
      rw (load-slots xs rest (2 * pos + 1) d inside, right)
        (Ends-branch (ltb (2 * pos + 2) (length xs))
          (λ both.
            let there : 2 * pos + 2 < length xs = ground arith in
            rw (load-slots xs rest (2 * pos + 2) d there)
              (elim (Bool-cases
                (ltb (key seconds d xs (2 * pos + 2)) (key seconds d xs (2 * pos + 1)))) [
                  | inl e ↦ rw e (ends (right-IsEarlier xs pos there (ground arith)))
                  | inr e ↦ rw e (ends (left-IsEarlier xs pos inside (λ _. ground arith)))
                ]))
          (λ alone. ends (left-IsEarlier xs pos inside (λ h. absurd (ground arith)))))

  -- The hole reaches a leaf; with `item` in it, only that entry may be too early.
  abbrev Sunk : A → List A → List (Option A) → List (Option A) × ℕ → Type ℓ
  Sunk item xs rest (p, pos) =
      (ys : List A) × (p ≡ slots ys rest)
      × (pos < length ys)
      × IsRising (length ys) (key seconds d (set ys pos item)) pos
      × Perm (set ys pos item) xs
      × (length ys ≡ length xs)

  sink-HasHole :
      (xs : List A) (pos m : ℕ) (child : A)
      → pos < length xs
      → IsEarlier xs pos m child
      → HasHole (length xs) (key seconds d xs) pos
      → HasHole (length (set xs pos child)) (key seconds d (set xs pos child)) m
  sink-HasHole xs pos m child inside s u = rw length-set (
      HasHole-move (length xs) (key seconds d xs) (key seconds d (set xs pos child)) pos m u s.below
        s.inside s.under s.least
        λ i. ground (arith, key-set seconds d xs pos i child inside, ap seconds s.stands))

  siftup_loop_restores :
      (fuel : ℕ) (xs : List A) (rest : List (Option A)) (item : A) (pos : ℕ)
      → pos < length xs
      → length xs ≤ 2 ^ 31
      → length xs - pos < fuel
      → HasHole (length xs) (key seconds d xs) pos
      → Ends
          (Sunk item (set xs pos item) rest)
          (siftup_loop seconds fuel (slots xs rest) (length xs) pos)
  unfolding siftup_loop
  siftup_loop_restores zero xs rest item pos inside small f u = absurd (omega arith)
  siftup_loop_restores (suc fuel) xs rest item pos inside small f u =
      let left : left_child pos ≡ 2 * pos + 1 = omega arith in
      rw left (
        Ends-branch (ltb (2 * pos + 1) (length xs))
          (λ inner.
            Ends-then (earlier_child-IsEarlier xs rest pos (ground arith) small) λ (m, child) s.
              let xs' = set xs pos child in
              let size : length xs' ≡ length xs = length-set xs pos child in
              rw (store-slots xs rest pos child inside) (
                Ends-weaken
                  (rw size at (
                    siftup_loop_restores fuel xs' rest item m (rw size s.inside) (rw size small)
                      (omega (arith, s.below, s.inside)) (sink-HasHole xs pos m child inside s u)))
                  λ (p, i) (ys, e, b, h, same, count). (
                    ys,
                    e,
                    b,
                    h,
                    Perm.trans same (
                        rw s.stands
                          (hole-perm xs pos m item d inside s.inside (omega (arith, s.below)))),
                    count ∙ length-set xs' m item ∙ size ∙ sym (length-set xs pos item),
                  )))
          (λ leaf. ends (
            xs,
            refl,
            inside,
            HasHole-fill (length xs) (key seconds d xs) (key seconds d (set xs pos item)) pos u
                (ground arith) (λ i ne. ground (arith, key-set seconds d xs pos i item inside)),
            Perm.rfl,
            sym (length-set xs pos item),
          )))

  -- _siftup makes a heap of slots in which the entry at `pos` may be anything.
  pub siftup_restores :
      (xs : List A) (rest : List (Option A))
      → 0 < length xs
      → length xs ≤ 2 ^ 31
      → HasHole (length xs) (key seconds d xs) 0
      → Ends (Ordered seconds d xs rest) (siftup seconds (slots xs rest) (length xs) 0)
  unfolding siftup
  siftup_restores xs rest some_left small u =
      let item = get_or xs 0 d in
      rw (load-slots xs rest 0 d some_left) (
        Ends-then
          (siftup_loop_restores (length xs + 1) xs rest item 0 some_left small (omega arith) u)
          λ (p, i) (ys, e, b, rising, same, count).
            rw (e, store-slots ys rest i item b)
              (Ends-weaken
                (siftdown_restores seconds d (set ys i item) rest i (rw length-set b)
                  (rw length-set rising))
                λ p' (zs, e', h, same', count'). (
                  zs,
                  e',
                  h,
                  Perm.trans same' (rw set-get_or at same),
                  count' ∙ length-set ys i item ∙ count ∙ length-set xs 0 item,
                )))
