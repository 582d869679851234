-- ===== src/Heapq/Drain.antt =====
-- destroy_heapqueue of src/heapq.c: popping until the heap is empty, and init_heapqueue.
use mathlib.Core.List.{Pairwise, mem-cons_of_mem}
use mathlib.Core.List.Perm
use jega.Base.{
  ltb, length, replicate, length-replicate, length-perm, Ends, ends, Ends-then, Ends-branch,
  ptr_size, ℕ, zero, suc, ◌+◌, ◌*◌, ◌≤◌, ◌<◌, ◌≡◌, refl, Bool, true, Option, none, some, List, [],
  ◌∷◌, Perm, arith,
}
use jega.Heapq.{Heapq, heapq_bytes, init_heapqueue, destroy_loop, destroy_heapqueue}
use jega.Heapq.Timers.{Contains}
use jega.Heapq.Pop.{heappop-Popped}

module _ {ℓ} {A : Type ℓ} (seconds : A → ℕ) where
  abbrev pub IsSorted : List A → Type ℓ
  IsSorted = Pairwise (λ s t. seconds s ≤ seconds t)

  none-perm : (ys xs : List A) → length ys ≡ 0 → Perm ys xs → Perm [] xs
  none-perm [] xs h p = p
  none-perm (y ∷ ys) xs h p = absurd (omega arith)

  destroy_loop-sorts :
      (fuel : ℕ) (q : Heapq A) (xs : List A)
      → Contains seconds q xs
      → q.size < fuel
      → Ends (λ out. IsSorted out × Perm out xs) (destroy_loop seconds fuel q)
  unfolding destroy_loop
  destroy_loop-sorts zero q xs c f = absurd (omega arith)
  destroy_loop-sorts (suc fuel) q xs c f =
      Ends-branch (ltb 0 q.size)
        (λ more.
          Ends-then (heappop-Popped seconds q xs c (ground arith))
            λ (r, s) (t, others, e, root, c', all, earliest, m). rw e (
              Ends-then
                (destroy_loop-sorts fuel s others c' (
                  omega (
                    arith,
                    c.1.sized,
                    c'.1.sized,
                    length-perm c.2,
                    length-perm c'.2,
                    length-perm all,
                  )))
                λ out (sorted, same). ends (
                  Pairwise.cons
                      (λ u i.
                        earliest u
                          ((Perm.mem_iff all).0 (mem-cons_of_mem t ((Perm.mem_iff same).0 i))))
                      sorted,
                  Perm.trans (Perm.cons t same) all,
                )))
        (λ none_left. ends (Pairwise.nil, none-perm c.0 xs (ground (arith, c.1.sized)) c.2))

  -- destroy_heapqueue lets go of every timer of the heap exactly once, the earlier ones first.
  pub destroy-sorts :
      (q : Heapq A) (xs : List A)
      → Contains seconds q xs
      → Ends (λ out. IsSorted out × Perm out xs) (destroy_heapqueue seconds q)
  unfolding destroy_heapqueue
  destroy-sorts q xs c = destroy_loop-sorts (q.size + 1) q xs c (omega arith)

  -- A heap that init_heapqueue makes is empty and has 1024 slots.
  pub init-Contains :
      (py_mem c_mem : ℕ → Bool)
      → py_mem heapq_bytes ≡ true
      → c_mem (ptr_size * 1024) ≡ true
      → (q : Heapq A) × (init_heapqueue py_mem c_mem ≡ some q)
        × Contains seconds q []
        × (q.max ≡ 1024)
  unfolding init_heapqueue
  init-Contains py_mem c_mem granted c_granted = (
    record { heap = replicate 1024 none; size = 0; max = 1024 },
    rw (granted, c_granted),
    (
      [],
      record {
        rest = replicate 1024 none;
        laid = refl;
        sized = refl;
        roomy = length-replicate {A = Option A} 1024 none;
        small = omega arith;
        ordered = λ d c p b. absurd (omega arith);
      },
      Perm.refl [],
    ),
    refl,
  )
