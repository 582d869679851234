-- ===== src/Heapq/Agree.antt =====
-- The heap of src/heapq.c reads the times of the timers that it holds, and no others.
use mathlib.Core.List.{mem-cons_of_mem, mem-cons_self}
use mathlib.Core.List.Perm
use jega.Base.{length, ℕ, zero, suc, ◌<◌, ◌≡◌, List, [], ◌∷◌, Mem, arith}
use jega.Heapq.{Heapq, parent}
use jega.Heapq.Sift.{key}
use jega.Heapq.Timers.{Contains}

module _ {ℓ} {A : Type ℓ} (seconds seconds' : A → ℕ) where
  abbrev pub Agrees : List A → Type ℓ
  Agrees xs = (a : A) → Mem a xs → seconds a ≡ seconds' a

  key-agree :
      (xs : List A) (d : A) (i : ℕ)
      → Agrees xs
      → i < length xs
      → key seconds d xs i ≡ key seconds' d xs i
  key-agree [] d i same h = absurd (omega arith)
  key-agree (x ∷ xs) d zero same h = same x mem-cons_self
  key-agree (x ∷ xs) d (suc i) same h =
      key-agree xs d i (λ a m. same a (mem-cons_of_mem x m)) (omega arith)

  -- Clocks that agree on the timers of a heap order it alike.
  pub Contains-agree :
      (q : Heapq A) (xs : List A) → Agrees xs → Contains seconds q xs → Contains seconds' q xs
  Contains-agree q xs same (ys, h, p) =
      let held : Agrees ys = λ a m. same a ((Perm.mem_iff p).0 m) in
      (
        ys,
        record {
          rest = h.rest;
          laid = h.laid;
          sized = h.sized;
          roomy = h.roomy;
          small = h.small;
          ordered = λ d c pos inside. ground (
            arith,
            h.ordered d c pos inside,
            key-agree ys d c held inside,
            key-agree ys d (parent c) held,
          );
        },
        p,
      )
