-- ===== src/Ring.antt =====
-- src/queue.c and src/queue.h: the growable ring buffer behind the loop's pending calls, the
-- executor's work items and a channel's messages. A pointer to an object is a value of `A`; the
-- array `q` has its unwritten slots at `none`. The allocator of Python is the parameter `mem`: it
-- says whether a request of so many bytes succeeds.
pub mod Wrap
pub mod Contents
pub mod Shift
pub mod Grow
pub mod Push
pub mod Fifo
mod Tests
use jega.Base.{
  leb, ◌==◌, if◌then◌else◌, length, take, replicate, Run, fault, out_of_fuel, ok, ◌>>=◌, u32_mod,
  u32, ptr_size, load, store, ℕ, zero, suc, ◌+◌, ◌-◌, ◌*◌, ◌%◌, Bool, Option, none, some, List,
  ◌++◌,
}

pub record Ring {ℓ} (A : Type ℓ) : Type ℓ where
  pub q : List (Option A)
  pub first : ℕ
  pub last : ℕ
  pub size : ℕ
  pub max : ℕ

-- `sizeof(queue_t)`
abbrev pub ring_bytes : ℕ
ring_bytes = 24

-- `(i + 1) % max`; a division by zero is a fault.
unfoldable pub next_index : ℕ → ℕ → Run ℕ
next_index i max = if max == 0 then fault else ok (u32 (i + 1) % max)

module _ {ℓ} {A : Type ℓ} where
  -- `none` is NULL.
  pub init_queue : (ℕ → Bool) → ℕ → Option (Ring A)
  init_queue mem maxsize =
      if mem ring_bytes
      then if mem (ptr_size * u32 (maxsize + 1))
        then some (record {
          q = replicate (u32 (maxsize + 1)) none;
          first = 0;
          last = u32 (maxsize + u32_mod - 1);
          size = 0;
          max = maxsize;
        })
        else none
      else none

  -- `q->last = (q->last + 1) % q->max; q->q[q->last] = o;`
  pub put : Ring A → A → Run (Ring A)
  put r o = do
    last ← next_index r.last r.max
    q ← store r.q last (some o)
    ok (record r { q = q; last = last })

  -- The `while` loop, and the copy of the entry at `old_last` that follows it.
  pub reindex_loop : ℕ → List (Option A) → ℕ → ℕ → ℕ → Ring A → Run (Ring A)
  reindex_loop zero old i old_last old_max r = out_of_fuel
  reindex_loop (suc fuel) old i old_last old_max r =
      let round = load old i >>= λ x.
      next_index i old_max >>= λ j. put r x >>= λ r'. reindex_loop fuel old j old_last old_max r' in
      if i == old_last then load old i >>= put r else round

  -- `memcpy` of the first `old_size` entries.
  pub copy_out : List (Option A) → ℕ → Run (List (Option A))
  copy_out p n = if leb n (length p) then ok (take n p) else fault

  pub reindex_queue : Ring A → ℕ → ℕ → ℕ → ℕ → Run (Ring A)
  reindex_queue r old_first old_last old_max old_size = do
    old ← copy_out r.q old_size
    reindex_loop old_size old old_first old_last old_max r

  -- `realloc`: the entries that fit in `n` are kept, new ones are not written yet.
  pub resize : List (Option A) → ℕ → List (Option A)
  resize p n = take n (p ++ replicate n none)

  -- `none` is the result -1, with the queue as it was.
  pub realloc_queue : (ℕ → Bool) → Ring A → Run (Option (Ring A))
  realloc_queue mem r =
      let maxsize = u32 (r.max * 2) in
      let fresh = record r {
        q = resize r.q (u32 (maxsize + 1));
        first = 0;
        last = u32 (maxsize + u32_mod - 1);
        max = maxsize;
      } in
      let grown = reindex_queue fresh r.first r.last r.max r.size >>= λ r'. ok (some r') in
      if leb r.max r.size
      then if mem (ptr_size * u32 (maxsize + 1)) then grown else ok none
      else ok (some r)

  -- The store and the count that the two pushes share.
  pub append : Ring A → A → Run (Option (Ring A))
  append r o = do r' ← put r o; ok (some (record r' { size = u32 (r'.size + 1) }))

  pub queue_push : (ℕ → Bool) → Ring A → A → Run (Option (Ring A))
  queue_push mem r o = do
    grown ← realloc_queue mem r
    elim grown [ none ↦ ok none | some r' ↦ append r' o ]

  pub queue_push_noext : Ring A → A → Run (Option (Ring A))
  queue_push_noext r o = if leb r.max r.size then ok none else append r o

  -- `none` is NULL, which an empty queue gives.
  pub queue_shift : Ring A → Run (Option A × Ring A)
  queue_shift r = if r.size == 0 then ok (none, r) else do
    o ← load r.q r.first
    first ← next_index r.first r.max
    ok (some o, record r { first = first; size = r.size - 1 })
