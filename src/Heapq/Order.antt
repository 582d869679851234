-- ===== src/Heapq/Order.antt =====
-- The heap order, stated of the times `f i` at the places below `n`.
use jega.Base.{◌==◌, if◌then◌else◌, ℕ, zero, suc, ◌+◌, ◌*◌, ◌≤◌, ◌<◌, ◌≡◌, ◌≢◌, arith}
use jega.Heapq.{parent}

abbrev pub IsHeap : ℕ → (ℕ → ℕ) → Type 0
IsHeap n f = (c : ℕ) → 0 < c → c < n → f (parent c) ≤ f c

-- The children of `pos` are no earlier than its parent.
abbrev pub IsBridged : ℕ → (ℕ → ℕ) → ℕ → Type 0
IsBridged n f pos = (c : ℕ) → 0 < c → c < n → parent c ≡ pos → 0 < pos → f (parent pos) ≤ f c

-- Only the entry at `pos` may be earlier than its parent.
pub record IsRising (n : ℕ) (f : ℕ → ℕ) (pos : ℕ) : Type 0 where
  pub edges : (c : ℕ) → 0 < c → c < n → c ≢ pos → f (parent c) ≤ f c
  pub bridged : IsBridged n f pos

-- The order holds but for the entry at `pos`, which is not looked at.
pub record HasHole (n : ℕ) (f : ℕ → ℕ) (pos : ℕ) : Type 0 where
  pub edges : (c : ℕ) → 0 < c → c < n → c ≢ pos → parent c ≢ pos → f (parent c) ≤ f c
  pub bridged : IsBridged n f pos

-- A rising entry changes places with its parent.
pub IsRising-move :
    (n : ℕ) (f g : ℕ → ℕ) (pos : ℕ)
    → IsRising n f pos
    → 0 < pos
    → pos < n
    → f pos < f (parent pos)
    → ((i : ℕ)
        → g i ≡ (if i == parent pos then f pos else if i == pos then f (parent pos) else f i))
    → IsRising n g (parent pos)
IsRising-move n f g pos u pos_pos inside below same = record {
  edges = λ c p q r. ground (arith, same c, same (parent c), u.edges c, u.bridged c);
  bridged = λ c p q r s.
      ground (arith, same c, same (parent (parent pos)), u.edges c, u.edges (parent pos));
}

pub IsRising-settled :
    (n : ℕ) (f : ℕ → ℕ) (pos : ℕ)
    → IsRising n f pos
    → (0 < pos → f (parent pos) ≤ f pos)
    → IsHeap n f
IsRising-settled n f pos u settled c p q = ground (arith, u.edges c)

-- The earlier child moves up into the hole.
pub HasHole-move :
    (n : ℕ) (f g : ℕ → ℕ) (pos m : ℕ)
    → HasHole n f pos
    → pos < m
    → m < n
    → parent m ≡ pos
    → ((c : ℕ) → 0 < c → c < n → parent c ≡ pos → f m ≤ f c)
    → ((i : ℕ) → g i ≡ (if i == pos then f m else f i))
    → HasHole n g m
HasHole-move n f g pos m u below inside child least same = record {
  edges = λ c p q r s. ground (arith, same c, same (parent c), u.edges c, u.bridged m, least c);
  bridged = λ c p q r s. ground (arith, same c, same (parent m), u.edges c);
}

-- A hole without children is filled with an entry that may have to rise.
pub HasHole-fill :
    (n : ℕ) (f g : ℕ → ℕ) (pos : ℕ)
    → HasHole n f pos
    → n ≤ 2 * pos + 1
    → ((i : ℕ) → i ≢ pos → g i ≡ f i)
    → IsRising n g pos
HasHole-fill n f g pos u leaf same = record {
  edges = λ c p q r. ground (arith, same c, same (parent c), u.edges c);
  bridged = λ c p q r s. absurd (omega arith);
}

root_least_below : (k n : ℕ) (f : ℕ → ℕ) (i : ℕ) → IsHeap n f → i < k → i < n → f 0 ≤ f i
root_least_below zero n f i h b inside = absurd (omega arith)
root_least_below (suc k) n f i h b inside = ground (arith, h i, root_least_below k n f (parent i) h)

-- No place has an earlier time than the root.
pub root_least : (n : ℕ) (f : ℕ → ℕ) (i : ℕ) → IsHeap n f → i < n → f 0 ≤ f i
root_least n f i h inside = root_least_below (suc i) n f i h (omega arith) inside
