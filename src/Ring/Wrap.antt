-- ===== src/Ring/Wrap.antt =====
-- Indices that run round the ring: the `%` of queue.c, for an index at most one past the end.
use native.Mathlib.Nat.{mod-eq_of_lt, mod_self}
use jega.Base.{
  ltb, ◌==◌, if◌then◌else◌, ok, u32_mod, u32, ℕ, ◌+◌, ◌-◌, ◌%◌, ◌≤◌, ◌<◌, ◌≡◌, ◌∙◌, ◌≢◌, false,
  arith, dec_lt,
}
use jega.Ring.{next_index}

-- `k`, which is below `2 * max`, taken round.
abbrev pub wrap : ℕ → ℕ → ℕ
wrap max k = if ltb k max then k else k - max

word-wrap : (i max : ℕ) → i < max → max < u32_mod → u32 (i + 1) % max ≡ wrap max (i + 1)
word-wrap i max h b =
    let small : u32 (i + 1) ≡ i + 1 = omega arith in
    rw small (elim (dec_lt (i + 1) max) [
      | yes below ↦ mod-eq_of_lt below ∙ ground arith
      | no top ↦ at_top (omega arith)
    ])
  where
    at_top : i + 1 ≡ max → (i + 1) % max ≡ wrap max (i + 1)
    at_top e = rw e (mod_self max ∙ ground arith)

pub next_index-wrap :
    (i max : ℕ) → i < max → max < u32_mod → next_index i max ≡ ok (wrap max (i + 1))
unfolding next_index
next_index-wrap i max h b = ground (arith, word-wrap i max h b)

pub wrap-lt : (max first i : ℕ) → first < max → i < max → wrap max (first + i) < max
wrap-lt max first i h k = ground arith

-- Within one turn the entries lie in different slots.
pub wrap-ne :
    (max first i j : ℕ)
    → first < max
    → i ≢ j
    → i < max
    → j < max
    → (wrap max (first + i) == wrap max (first + j)) ≡ false
wrap-ne max first i j h n k l = ground arith

pub wrap-next :
    (max first i : ℕ)
    → first < max
    → i < max
    → wrap max (wrap max (first + i) + 1) ≡ wrap max (first + (i + 1))
wrap-next max first i h k = ground arith

pub wrap-shift :
    (max first i : ℕ)
    → first < max
    → i + 1 ≤ max
    → wrap max (wrap max (first + 1) + i) ≡ wrap max (first + (i + 1))
wrap-shift max first i h k = ground arith
