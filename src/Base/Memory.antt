-- ===== src/Base/Memory.antt =====
-- Arrays of pointers and the machine's 32-bit unsigned numbers. A slot is `none` while nothing has
-- been stored in it, or NULL; reading such a slot, or any index outside the array, is a fault.
use Prim.Native.Nat.{ℕ, ◌%◌, ◌^◌, ◌<◌}
use mathlib.Core.Path.{◌≡◌}
use mathlib.Core.Option.{Option, none, some}
use mathlib.Core.List.{List}
use native.Mathlib.Omega.{arith}
use jega.Base.Tests.{ltb, if◌then◌else◌}
use jega.Base.Lists.{length, get_elem?, set}
use jega.Base.Calls.{Run, fault, ok}

abbrev pub u32_mod : ℕ
u32_mod = 2 ^ 32

-- The value kept by an assignment to a `uint32_t`.
abbrev pub u32 : ℕ → ℕ
u32 n = n % u32_mod

-- `sizeof(void*)`
abbrev pub ptr_size : ℕ
ptr_size = 8

module _ {ℓ} {A : Type ℓ} where
  abbrev pub as_read : Option (Option A) → Run A
  as_read none = fault
  as_read (some none) = fault
  as_read (some (some x)) = ok x

  unfoldable pub load : List (Option A) → ℕ → Run A
  load p i = as_read (get_elem? p i)

  unfoldable pub store : List (Option A) → ℕ → Option A → Run (List (Option A))
  store p i v = if ltb i (length p) then ok (set p i v) else fault

  pub load-ok :
      (p : List (Option A)) (i : ℕ) (x : A) → get_elem? p i ≡ some (some x) → load p i ≡ ok x
  unfolding load
  load-ok p i x e = rw e

  pub store-ok :
      (p : List (Option A)) (i : ℕ) (v : Option A) → i < length p → store p i v ≡ ok (set p i v)
  unfolding store
  store-ok p i v h = ground arith
