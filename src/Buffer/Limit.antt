-- ===== src/Buffer/Limit.antt =====
-- write2buf of src/buffer.c keeps what it is given, up to the limit.
use jega.Base.{
  ltb, leb, ◌==◌, if◌then◌else◌, length, take, replicate, length-append, length-replicate, Run, ok,
  ℕ, ◌+◌, ◌-◌, ◌*◌, ◌^◌, ◌≤◌, ◌<◌, ◌≡◌, refl, sym, ap, ◌∙◌, subst, Bool, true, false, none, some,
  List, [], ◌++◌, arith, dec_lt,
}
use jega.Buffer.{
  BufferResult, write_ok, limit_over, Buffer, size_mod, size_t, limit_max, new_buffer, grow,
  written, write2buf,
}
use jega.Buffer.Contents.{Holds, grow-Holds, put_bytes-Holds}
use jega.Buffer.Bytes.{take-full, take-past}

module _ {ℓ} {A : Type ℓ} where
  -- new_buffer makes an empty buffer of the size asked for, with the default limit for the limit 0. It
  -- needs a size that is not 0 and at most one above the limit, and that the blocks are granted.
  pub new_buffer-Holds :
      (mem : ℕ → Bool) (n limit : ℕ)
      → mem n ≡ true
      → 0 < n
      → n ≤ (if limit == 0 then limit_max else limit) + 1
      → (b : Buffer A) × (new_buffer true mem n limit ≡ ok (some b))
        × Holds b []
        × (b.limit ≡ (if limit == 0 then limit_max else limit))
  unfolding new_buffer
  new_buffer-Holds mem n limit grants pos fits =
      let b : Buffer A = record {
        buf = replicate n none;
        buf_size = n;
        len = 0;
        limit = if limit == 0 then limit_max else limit;
      } in
      let new : Holds b [] = record {
        rest = replicate n none;
        laid = refl;
        roomy = length-replicate n none;
        counted = refl;
        spare = pos;
        within = fits;
      } in
      (b, rw grants refl, new, refl)

  write2buf-grown :
      (mem : ℕ → Bool) (b g : Buffer A) (c : List A) (l : ℕ)
      → size_t (b.len + l) ≡ b.len + l
      → grow mem b (b.len + l) ≡ (true, g)
      → write2buf mem b c l ≡ written c l (b.len + l) (true, g)
  unfolding write2buf
  write2buf-grown mem b g c l small e = rw (small, e) refl

  -- What is left to do when the buffer has grown as far as it does.
  Keeps : Buffer A → List A → List A → Run (BufferResult × Buffer A) → Type ℓ
  Keeps g xs c call =
      (s : Buffer A) × (call
        ≡ ok (if ltb g.limit (length xs + length c) then limit_over else write_ok, s))
      × Holds s (take g.limit (xs ++ c))
      × (s.limit ≡ g.limit)

  written-fits :
      (g : Buffer A) (xs c : List A)
      → Holds g xs
      → g.len + length c < g.buf_size
      → g.buf_size < 2 ^ 31
      → Keeps g xs c (written c (length c) (g.len + length c) (true, g))
  unfolding Keeps
  written-fits g xs c h fits small =
      let (s, put, hs, kept) =
        put_bytes-Holds g xs c (length c) write_ok h (omega arith) fits small in
      let in_size : leb g.buf_size (g.len + length c) ≡ false = ground arith in
      let in_limit : ltb g.limit (length xs + length c) ≡ false =
        ground (arith, h.counted, h.within) in
      let all : xs ++ take (length c) c ≡ take g.limit (xs ++ c) =
        ap (λ ys. xs ++ ys) (take-full (length c) c (omega arith))
        ∙ sym (
            take-full g.limit (xs ++ c) (omega (arith, length-append xs c, h.counted, h.within))) in
      (s, rw (in_size, in_limit) put, subst (Holds s) all hs, kept)

  written-cut :
      (g : Buffer A) (xs c : List A)
      → Holds g xs
      → g.buf_size ≡ g.limit + 1
      → g.buf_size ≤ g.len + length c
      → g.buf_size < 2 ^ 31
      → Keeps g xs c (written c (length c) (g.len + length c) (true, g))
  unfolding Keeps
  written-cut g xs c h top over small =
      let n = g.limit - length xs in
      let (s, put, hs, kept) =
        put_bytes-Holds g xs c n limit_over h (omega (arith, h.counted))
          (omega (arith, h.spare, h.counted)) small in
      let full : leb g.buf_size (g.len + length c) ≡ true = ground arith in
      let past_limit : ltb g.limit (length xs + length c) ≡ true = ground (arith, h.counted) in
      let left : size_t (g.buf_size + size_mod + size_mod - g.len - 1) ≡ n =
        ground (arith, h.spare, h.counted) in
      let cut = take-past g.limit n xs c (omega (arith, h.spare, h.counted)) in
      (s, rw (full, past_limit, left) put, subst (Holds s) (sym cut) hs, kept)

  -- write2buf keeps the bytes written before and as many of the new ones, in order, as the limit
  -- allows, and says so when it had to leave some out. It needs a buffer that is well-formed and no
  -- larger than its limit and one byte, an allocator that grants every
  -- request, and sizes so small that no conversion to int loses any: the default limit of 2 ^ 30 and
  -- writes below it are.
  pub write2buf-keeps :
      (mem : ℕ → Bool) (b : Buffer A) (xs c : List A)
      → ((n : ℕ) → mem n ≡ true)
      → Holds b xs
      → b.limit * 3 + length c + 5 < 2 ^ 32
      → (s : Buffer A) × (write2buf mem b c (length c)
          ≡ ok (if ltb b.limit (length xs + length c) then limit_over else write_ok, s))
        × Holds s (take b.limit (xs ++ c))
        × (s.limit ≡ b.limit)
  unfolding Keeps
  write2buf-keeps mem b xs c grants h small =
      let l = length c in
      let (g, e, hg, same, enough) =
        grow-Holds mem b xs (b.len + l) grants h (omega (arith, h.spare, h.within)) in
      let len_kept : b.len ≡ g.len = h.counted ∙ sym hg.counted in
      let (s, call, hs, kept) : Keeps g xs c (written c l (g.len + l) (true, g)) =
        elim (dec_lt (g.len + l) g.buf_size) [
          | yes fits ↦ written-fits g xs c hg fits (omega (arith, hg.within, same))
          | no over ↦
              written-cut g xs c hg (ground (arith, over, enough)) (omega (arith, over))
                (omega (arith, hg.within, same))
        ] in
      let begun = write2buf-grown mem b g c l (ground (arith, h.spare, h.within)) e in
      (
        s,
        begun
            ∙ ap (λ n. written c l (n + l) (true, g)) len_kept
            ∙ call
            ∙ ap (λ n. ok (if ltb n (length xs + l) then limit_over else write_ok, s)) same,
        subst (λ n. Holds s (take n (xs ++ c))) same hs,
        kept ∙ same,
      )
