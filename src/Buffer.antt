-- ===== src/Buffer.antt =====
-- src/buffer.c and src/buffer.h: a growing byte buffer with a limit. Sizes are size_t, 64 bits wide.
-- The bytes are of any type `A`. PyMem_Realloc is `mem`, which says for each size whether it is
-- granted; the kept part of a block is written out in `realloc`.
mod Bytes
pub mod Contents
pub mod Limit
pub mod Failure
pub mod Reading
mod Tests
use jega.Base.{
  ltb, leb, ◌==◌, if◌then◌else◌, length, take, drop, replicate, Run, fault, ok, ◌>>=◌, ℕ, ◌+◌, ◌-◌,
  ◌*◌, ◌%◌, ◌^◌, Bool, true, false, not, ◌&&◌, Option, none, some, List, ◌++◌, map,
}

pub data BufferResult : Type 0 where
  write_ok memory_error limit_over : BufferResult

pub record Buffer {ℓ} (A : Type ℓ) : Type ℓ where
  pub buf : List (Option A)
  pub buf_size : ℕ
  pub len : ℕ
  pub limit : ℕ

abbrev pub size_mod : ℕ
size_mod = 2 ^ 64

abbrev pub size_t : ℕ → ℕ
size_t n = n % size_mod

-- The conversion of a size_t to int and back, which extends the sign.
abbrev pub through_int : ℕ → ℕ
through_int n = let low = n % 2 ^ 32 in if ltb low (2 ^ 31) then low else low + (size_mod - 2 ^ 32)

abbrev pub limit_max : ℕ
limit_max = 1024 * 1024 * 1024

-- The size that extend_buffer and write2buf give a buffer of size `size` that has to hold more than
-- `newl` bytes.
pub grown_size : ℕ → ℕ → ℕ → ℕ
grown_size size newl limit =
    let doubled = size_t (size * 2) in
    let roomy = if leb doubled newl then through_int (size_t (doubled + newl + 1)) else doubled in
    if ltb limit roomy then size_t (limit + 1) else roomy

module _ {ℓ} {A : Type ℓ} where
  pub realloc : List (Option A) → ℕ → List (Option A)
  realloc p n = take n (p ++ replicate n none)

  -- memcpy of `n` bytes of `c` to the place `at` of `p`.
  pub copy_in : List (Option A) → ℕ → List A → ℕ → Run (List (Option A))
  copy_in p at c n =
      if leb n (length c) && leb (at + n) (length p)
      then ok (take at p ++ map some (take n c) ++ drop (at + n) p)
      else fault

  -- The two blocks of new_buffer. The memset of a block that was refused is a fault.
  pub new_buffer : Bool → (ℕ → Bool) → ℕ → ℕ → Run (Option (Buffer A))
  new_buffer struct_mem mem buf_size limit =
      if not struct_mem
      then fault
      else if not (mem buf_size)
      then ok none
      else ok (
          some (record {
            buf = replicate buf_size none;
            buf_size = buf_size;
            len = 0;
            limit = if limit == 0 then limit_max else limit;
          }))

  -- The growth that extend_buffer and write2buf begin with. `false` is a realloc that was refused:
  -- the size is the new one, the block the old one.
  pub grow : (ℕ → Bool) → Buffer A → ℕ → Bool × Buffer A
  grow mem b newl =
      let size = grown_size b.buf_size newl b.limit in
      if ltb newl b.buf_size
      then (true, b)
      else if mem size
      then (true, record b { buf = realloc b.buf size; buf_size = size })
      else (false, record b { buf_size = size })

  abbrev extended : ℕ → Bool × Buffer A → BufferResult × Buffer A
  extended newl (false, b) = (memory_error, b)
  extended newl (true, b) = (if leb b.buf_size newl then limit_over else write_ok, b)

  pub extend_buffer : (ℕ → Bool) → Buffer A → ℕ → BufferResult × Buffer A
  extend_buffer mem b l = let newl = size_t (b.len + l) in extended newl (grow mem b newl)

  -- The `l` bytes go behind the others.
  pub put_bytes : Buffer A → List A → ℕ → BufferResult → Run (BufferResult × Buffer A)
  put_bytes b c l result = copy_in b.buf b.len c l >>= λ p.
      ok (result, record b { buf = p; len = size_t (b.len + through_int l) })

  abbrev pub written : List A → ℕ → ℕ → Bool × Buffer A → Run (BufferResult × Buffer A)
  written c l newl (false, b) = ok (memory_error, b)
  written c l newl (true, b) =
      if leb b.buf_size newl
      then put_bytes b c (size_t (b.buf_size + size_mod + size_mod - b.len - 1)) limit_over
      else put_bytes b c l write_ok

  pub write2buf : (ℕ → Bool) → Buffer A → List A → ℕ → Run (BufferResult × Buffer A)
  write2buf mem b c l = let newl = size_t (b.len + l) in written c l newl (grow mem b newl)
