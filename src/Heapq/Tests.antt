-- ===== src/Heapq/Tests.antt =====
-- Runs of heapq.c on small heaps, and the theorems at concrete inputs. A timer is its own time.
use mathlib.Core.List.Perm
use jega.Base.{
  ok, Ends, load, store, ℕ, zero, suc, ◌≤◌, ◌<◌, ◌≡◌, refl, Bool, true, false, none, some, List, [],
  ◌∷◌, Perm, arith,
}
use jega.Heapq.{
  Heapq, init_heapqueue, parent, siftdown_loop, siftdown, earlier_child, siftup_loop, siftup,
  heappop, heappush, destroy_loop, destroy_heapqueue,
}
use jega.Heapq.Timers.{Contains, heappush-room, heappush-full}
use jega.Heapq.Pop.{Popped, heappop-Popped}
use jega.Heapq.Drain.{IsSorted, destroy-sorts, init-Contains}
use jega.Heapq.Slots.{slots}
use jega.Heapq.Sift.{key}
use jega.Heapq.Refine.{push, pop, performs, ServesAs, performs-Serves}

abbrev plenty : ℕ → Bool
plenty n = true

abbrev never : ℕ → Bool
never n = false

abbrev itself : ℕ → ℕ
itself n = n

abbrev times : List ℕ
times = 2 ∷ 5 ∷ 3 ∷ 9 ∷ []

-- Four timers in an array of five slots.
abbrev sample : Heapq ℕ
sample = record { heap = slots times (none ∷ []); size = 4; max = 5 }

-- The same timers in an array that is full.
abbrev packed : Heapq ℕ
packed = record { heap = slots times []; size = 4; max = 4 }

times-IsHeap : (d c : ℕ) → 0 < c → c < 4 → key itself d times (parent c) ≤ key itself d times c
times-IsHeap d zero p h = absurd (omega arith)
times-IsHeap d (suc zero) p h = omega arith
times-IsHeap d (suc (suc zero)) p h = omega arith
times-IsHeap d (suc (suc (suc zero))) p h = omega arith
times-IsHeap d (suc (suc (suc (suc c)))) p h = absurd (omega arith)

sample-Contains : Contains itself sample times
sample-Contains = (
  times,
  record {
    rest = none ∷ [];
    laid = refl;
    sized = refl;
    roomy = refl;
    small = omega arith;
    ordered = times-IsHeap;
  },
  Perm.refl times,
)

packed-Contains : Contains itself packed times
packed-Contains = (
  times,
  record {
    rest = [];
    laid = refl;
    sized = refl;
    roomy = refl;
    small = omega arith;
    ordered = times-IsHeap;
  },
  Perm.refl times,
)

-- The root leaves, the last timer takes its place and sinks.
abbrev popped_sample : Heapq ℕ
popped_sample = record { heap = some 3 ∷ some 5 ∷ some 9 ∷ none ∷ none ∷ []; size = 3; max = 5 }

pop_earliest : heappop itself sample ≡ ok (some 2, popped_sample)
unfolding heappop siftup siftup_loop earlier_child siftdown siftdown_loop load store
pop_earliest = refl

drained : destroy_heapqueue itself sample ≡ ok (2 ∷ 3 ∷ 5 ∷ 9 ∷ [])
unfolding destroy_heapqueue destroy_loop heappop siftup siftup_loop earlier_child siftdown
    siftdown_loop load store
drained = refl

pop_of_sample : Ends (Popped itself sample times) (heappop itself sample)
pop_of_sample = heappop-Popped itself sample times sample-Contains (omega arith)

one_more :
    Ends
      (λ r. (s : Heapq ℕ) × (r ≡ some s) × Contains itself s (1 ∷ times) × (s.max ≡ 5))
      (heappush itself plenty sample 1)
one_more = heappush-room itself plenty sample times 1 sample-Contains (omega arith)

one_too_many :
    Ends
      (λ r. (s : Heapq ℕ) × (r ≡ some s) × Contains itself s (1 ∷ times) × (s.max ≡ 8))
      (heappush itself plenty packed 1)
one_too_many =
    heappush-full itself plenty packed times 1 packed-Contains refl (omega arith) (omega arith) refl

sample_sorts : Ends (λ out. IsSorted itself out × Perm out times) (destroy_heapqueue itself sample)
sample_sorts = destroy-sorts itself sample times sample-Contains

heap_of_1024 :
    (q : Heapq ℕ) × (init_heapqueue plenty plenty ≡ some q) × Contains itself q [] × (q.max ≡ 1024)
heap_of_1024 = init-Contains itself plenty plenty refl refl

performs-Serves_example :
    Ends
      (ServesAs itself times (push 1 ∷ pop ∷ pop ∷ []))
      (performs itself plenty (push 1 ∷ pop ∷ pop ∷ []) sample)
performs-Serves_example =
    performs-Serves itself plenty (push 1 ∷ pop ∷ pop ∷ []) sample times (λ n. refl) sample-Contains
      (omega arith) (omega arith)
