-- ===== src/Heapq.antt =====
-- src/heapq.c and src/heapq.h: the binary heap of the loop's timers, the earliest first. A timer is
-- a value of `A`, of which the heap reads `seconds` alone. The array `heap` has `max` slots, of
-- which the first `size` hold timers. The allocators, of Python and of C, are the parameters
-- `py_mem` and `c_mem`: they say whether a request of so many bytes succeeds.
pub mod Slots
pub mod Order
pub mod Sift
pub mod Sink
pub mod Timers
pub mod Pop
pub mod Drain
pub mod Refine
pub mod Agree
mod Tests
use jega.Base.{
  ltb, leb, ◌==◌, if◌then◌else◌, take, replicate, Run, out_of_fuel, ok, ◌>>=◌, u32, ptr_size, load,
  store, ℕ, zero, suc, ◌+◌, ◌-◌, ◌*◌, ◌/◌, Bool, Option, none, some, List, [], ◌∷◌, ◌++◌,
}

pub record Heapq {ℓ} (A : Type ℓ) : Type ℓ where
  pub heap : List (Option A)
  pub size : ℕ
  pub max : ℕ

-- `sizeof(heapq_t)`
abbrev pub heapq_bytes : ℕ
heapq_bytes = 16

-- `none` is NULL.
pub init_heapqueue {ℓ} : {A : Type ℓ} → (ℕ → Bool) → (ℕ → Bool) → Option (Heapq A)
init_heapqueue py_mem c_mem =
    if py_mem heapq_bytes
    then if c_mem (ptr_size * 1024)
      then some (record { heap = replicate 1024 none; size = 0; max = 1024 })
      else none
    else none

-- `(pos - 1) >> 1`
abbrev pub parent : ℕ → ℕ
parent pos = (pos - 1) / 2

-- `(pos << 1) + 1`
abbrev pub left_child : ℕ → ℕ
left_child pos = u32 (u32 (pos * 2) + 1)

-- `realloc`: the slots that fit in `n` are kept, new ones are not written yet.
pub resize {ℓ} : {A : Type ℓ} → List (Option A) → ℕ → List (Option A)
resize p n = take n (p ++ replicate n none)

module _ {ℓ} {A : Type ℓ} (seconds : A → ℕ) where
  -- The loop of _siftdown: the slots and the final `pos`.
  pub siftdown_loop : ℕ → List (Option A) → ℕ → A → ℕ → Run (List (Option A) × ℕ)
  siftdown_loop zero p startpos newitem pos = out_of_fuel
  siftdown_loop (suc fuel) p startpos newitem pos =
      let move = λ (above : A).
        store p pos (some above) >>= λ p'. siftdown_loop fuel p' startpos newitem (parent pos) in
      let climb = load p (parent pos) >>= λ above.
      if ltb (seconds newitem) (seconds above) then move above else ok (p, pos) in
      if ltb startpos pos then climb else ok (p, pos)

  pub siftdown : List (Option A) → ℕ → ℕ → Run (List (Option A))
  siftdown p startpos pos = do
    newitem ← load p pos
    (p', pos') ← siftdown_loop (pos + 1) p startpos newitem pos
    store p' pos' (some newitem)

  -- The child that moves up: the right one only if it is earlier than the left one.
  pub earlier_child : List (Option A) → ℕ → ℕ → Run (ℕ × A)
  earlier_child p size childpos = do
    let rightpos = u32 (childpos + 1)
    left ← load p childpos
    let compared = load p rightpos >>= λ right.
        ok (if ltb (seconds right) (seconds left) then (rightpos, right) else (childpos, left))
    if ltb rightpos size then compared else ok (childpos, left)

  -- The loop of _siftup: the slots and the final `pos`.
  pub siftup_loop : ℕ → List (Option A) → ℕ → ℕ → Run (List (Option A) × ℕ)
  siftup_loop zero p size pos = out_of_fuel
  siftup_loop (suc fuel) p size pos =
      let sink = earlier_child p size (left_child pos) >>= λ (childpos, child).
      store p pos (some child) >>= λ p'. siftup_loop fuel p' size childpos in
      if ltb (left_child pos) size then sink else ok (p, pos)

  pub siftup : List (Option A) → ℕ → ℕ → Run (List (Option A))
  siftup p size pos = do
    newitem ← load p pos
    (p', pos') ← siftup_loop (size + 1) p size pos
    p'' ← store p' pos' (some newitem)
    siftdown p'' pos pos'

  -- `none` is NULL, which an empty heap gives.
  pub heappop : Heapq A → Run (Option A × Heapq A)
  heappop q = if q.size == 0 then ok (none, q) else do
    let size = q.size - 1
    last ← load q.heap size
    p ← store q.heap size none
    let refilled = load p 0 >>= λ retitem. store p 0 (some last) >>= λ p'.
        siftup p' size 0 >>= λ p''. ok (some retitem, record q { heap = p''; size = size })
    if ltb 0 size then refilled else ok (some last, record q { heap = p; size = size })

  pub push_slot : Heapq A → A → Run (Option (Heapq A))
  push_slot q val = do
    p ← store q.heap q.size (some val)
    let size = u32 (q.size + 1)
    p' ← siftdown p 0 (size - 1)
    ok (some (record q { heap = p'; size = size }))

  -- `none` is the result -1, with the heap as it was.
  pub heappush : (ℕ → Bool) → Heapq A → A → Run (Option (Heapq A))
  heappush c_mem q val =
      let max = u32 (q.max * 2) in
      if leb q.max q.size
      then if c_mem (ptr_size * max)
        then push_slot (record q { heap = resize q.heap max; max = max }) val
        else ok none
      else push_slot q val

  -- The timers that destroy_heapqueue lets go of, in the order of the pops.
  pub destroy_loop : ℕ → Heapq A → Run (List A)
  destroy_loop zero q = out_of_fuel
  destroy_loop (suc fuel) q =
      let release = heappop q >>= λ (obj, q').
      destroy_loop fuel q' >>= λ rest. ok (elim obj [ none ↦ rest | some t ↦ t ∷ rest ]) in
      if ltb 0 q.size then release else ok []

  pub destroy_heapqueue : Heapq A → Run (List A)
  destroy_heapqueue q = destroy_loop (q.size + 1) q
