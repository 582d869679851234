-- ===== src/Buffer/Failure.antt =====
-- write2buf of src/buffer.c after an allocation that was refused.
use jega.Base.{
  ltb, leb, length, fault, ok, ℕ, ◌+◌, ◌≤◌, ◌<◌, ◌≡◌, refl, Bool, true, false, ◌&&◌, List, arith,
}
use jega.Buffer.{
  memory_error, Buffer, size_mod, size_t, grown_size, copy_in, grow, put_bytes, write2buf,
}
use jega.Buffer.Contents.{Holds}

module _ {ℓ} {A : Type ℓ} where
  write2buf-outside :
      (mem : ℕ → Bool) (s : Buffer A) (d : List A)
      → s.len + length d < s.buf_size
      → s.len + length d < size_mod
      → length s.buf < s.len + length d
      → write2buf mem s d (length d) ≡ fault
  unfolding write2buf grow put_bytes copy_in
  write2buf-outside mem s d fits word outside =
      let word_d : size_t (s.len + length d) ≡ s.len + length d = ground arith in
      let room : ltb (s.len + length d) s.buf_size ≡ true = ground arith in
      let in_size : leb s.buf_size (s.len + length d) ≡ false = ground arith in
      let past : (leb (length d) (length d) && leb (s.len + length d) (length s.buf)) ≡ false =
        ground arith in
      rw (word_d, room, in_size, past) refl

  -- When the growth for a write `c` is refused, the write says so, but the buffer takes the new size
  -- for the size of its old block: a later write that fits the new size and not the old one goes
  -- outside the block.
  pub write2buf-overruns :
      (mem later : ℕ → Bool) (b : Buffer A) (xs c d : List A)
      → Holds b xs
      → b.buf_size ≤ b.len + length c
      → b.len + length c < size_mod
      → mem (grown_size b.buf_size (b.len + length c) b.limit) ≡ false
      → b.buf_size < b.len + length d
      → b.len + length d < grown_size b.buf_size (b.len + length c) b.limit
      → b.len + length d < size_mod
      → (s : Buffer A) × (write2buf mem b c (length c) ≡ ok (memory_error, s))
        × (write2buf later s d (length d) ≡ fault)
  unfolding write2buf grow
  write2buf-overruns mem later b xs c d h full word refused over fits small =
      let s : Buffer A = record b { buf_size = grown_size b.buf_size (b.len + length c) b.limit } in
      let no_room : ltb (b.len + length c) b.buf_size ≡ false = ground arith in
      let word_c : size_t (b.len + length c) ≡ b.len + length c = ground arith in
      (
        s,
        rw (word_c, no_room, refused) refl,
        write2buf-outside later s d fits small (omega (arith, h.roomy, over)),
      )
