-- ===== src/Events/Counted.antt =====
-- The socket events of src/loop.c: ioactivecnt is the number of the active descriptors.
use jega.Base.{
  ◌==◌, if◌then◌else◌, ℕ, zero, suc, ◌+◌, ◌≤◌, ◌<◌, ◌≡◌, refl, ap, Bool, true, false, arith,
  ℕ_discrete,
}

abbrev pub one_if : Bool → ℕ
one_if true = 1
one_if false = 0

-- How many of the first `n` descriptors are active.
abbrev pub active_below : (ℕ → Bool) → ℕ → ℕ
active_below a zero = 0
active_below a (suc n) = active_below a n + one_if (a n)

-- `b` is `a` but for the descriptor `fd`.
abbrev Differs : (ℕ → Bool) → (ℕ → Bool) → ℕ → Bool → Type 0
Differs a b fd v = (j : ℕ) → b j ≡ (if j == fd then v else a j)

active_below-outside :
    (a b : ℕ → Bool) (fd : ℕ) (v : Bool) (n : ℕ)
    → Differs a b fd v
    → n ≤ fd
    → active_below b n ≡ active_below a n
active_below-outside a b fd v zero h out = refl
active_below-outside a b fd v (suc n) h out =
    ground (arith, h n, active_below-outside a b fd v n h (omega arith))

pub active_below-Differs :
    (a b : ℕ → Bool) (fd : ℕ) (v : Bool) (n : ℕ)
    → Differs a b fd v
    → fd < n
    → active_below b n + one_if (a fd) ≡ active_below a n + one_if v
active_below-Differs a b fd v zero h inside = absurd (omega arith)
active_below-Differs a b fd v (suc n) h inside = elim (ℕ_discrete n fd) [
  | yes e ↦
      let b_n : b n ≡ v = ground (arith, h n, e) in
      let a_n : one_if (a n) ≡ one_if (a fd) = ap (λ k. one_if (a k)) e in
      omega (arith, ap one_if b_n, a_n, active_below-outside a b fd v n h (omega (arith, e)))
  | no ne ↦
      let b_n : b n ≡ a n = ground (arith, h n, ne) in
      omega (arith, ap one_if b_n, active_below-Differs a b fd v n h (omega (arith, ne)))
]

pub active_below-same :
    (a b : ℕ → Bool) (n : ℕ) → ((j : ℕ) → b j ≡ a j) → active_below b n ≡ active_below a n
active_below-same a b zero h = refl
active_below-same a b (suc n) h = ground (arith, h n, active_below-same a b n h)

pub active_below-le : (a : ℕ → Bool) (n : ℕ) → active_below a n ≤ n
active_below-le a zero = omega arith
active_below-le a (suc n) = ground (arith, active_below-le a n)

pub active_below-some : (a : ℕ → Bool) (fd n : ℕ) → fd < n → a fd ≡ true → 0 < active_below a n
active_below-some a fd zero h e = absurd (omega arith)
active_below-some a fd (suc n) h e = elim (ℕ_discrete n fd) [
  | yes same ↦ rw (same, e) (omega arith)
  | no ne ↦ omega (arith, active_below-some a fd n (omega arith) e)
]
