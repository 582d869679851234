-- ===== src/Buffer/Contents.antt =====
-- A buffer of src/buffer.c and its bytes: what a growth and a copy do to them.
use mathlib.Core.List.{append_assoc}
use jega.Base.{
  ltb, leb, length, take, drop, replicate, length-append, length-replicate, length-take, ok, ℕ, ◌+◌,
  ◌-◌, ◌*◌, ◌^◌, ◌≤◌, ◌<◌, ◌≡◌, refl, ap, ◌∙◌, ◌⊎◌, inl, Bool, true, false, ◌&&◌, Option, none,
  some, List, ◌++◌, map, arith, dec_lt,
}
use jega.Buffer.{
  BufferResult, Buffer, size_t, through_int, grown_size, realloc, copy_in, grow, put_bytes,
}
use jega.Buffer.Bytes.{
  length-map-some, take-past, take-front, drop-past, map-some-append, length-drop,
}

-- The bytes written so far are `xs`, and the block has the size that the buffer says.
pub record Holds {ℓ} {A : Type ℓ} (b : Buffer A) (xs : List A) : Type ℓ where
  pub rest : List (Option A)
  pub laid : b.buf ≡ map some xs ++ rest
  pub roomy : length b.buf ≡ b.buf_size
  pub counted : b.len ≡ length xs
  pub spare : b.len < b.buf_size
  pub within : b.buf_size ≤ b.limit + 1

grown_size-enough :
    (size newl limit : ℕ)
    → 0 < size
    → size ≤ newl
    → size ≤ limit + 1
    → limit * 2 + newl + 4 < 2 ^ 32
    → ((newl < grown_size size newl limit) ⊎ (grown_size size newl limit ≡ limit + 1))
      × (grown_size size newl limit ≤ limit + 1)
      × (size ≤ grown_size size newl limit)
unfolding grown_size
grown_size-enough size newl limit pos full within small = ground arith

module _ {ℓ} {A : Type ℓ} where
  length-realloc : (p : List (Option A)) (n : ℕ) → length (realloc p n) ≡ n
  unfolding realloc
  length-realloc p n =
      length-take n (p ++ replicate n none)
        (omega (arith, length-append p (replicate n none), length-replicate {A = Option A} n none))

  -- A block that grows keeps what it holds.
  realloc-laid :
      (xs : List A) (rest : List (Option A)) (n : ℕ)
      → length xs ≤ n
      → (more : List (Option A)) × (realloc (map some xs ++ rest) n ≡ map some xs ++ more)
  unfolding realloc
  realloc-laid xs rest n fits = (
    take (n - length xs) (rest ++ replicate n none),
    ap (take n) (append_assoc (map some xs) rest (replicate n none))
        ∙ take-past n (n - length xs) (map some xs) (rest ++ replicate n none)
            (omega (arith, length-map-some xs)),
  )

  copy_in-laid :
      (xs c : List A) (rest : List (Option A)) (n : ℕ)
      → n ≤ length c
      → n ≤ length rest
      → copy_in (map some xs ++ rest) (length xs) c n
        ≡ ok (map some (xs ++ take n c) ++ drop n rest)
  unfolding copy_in
  copy_in-laid xs c rest n given free =
      let front = take-front (length xs) (map some xs) rest (omega (arith, length-map-some xs)) in
      let back =
        drop-past (length xs + n) n (map some xs) rest (omega (arith, length-map-some xs)) in
      let inside : (leb n (length c) && leb (length xs + n) (length (map some xs ++ rest))) ≡ true =
        ground (arith, length-append (map some xs) rest, length-map-some xs) in
      rw (inside, front, back, map-some-append xs (take n c)) refl

  -- A growth that is granted keeps the bytes, and makes room for what is to come, or for the limit.
  pub grow-Holds :
      (mem : ℕ → Bool) (b : Buffer A) (xs : List A) (newl : ℕ)
      → ((n : ℕ) → mem n ≡ true)
      → Holds b xs
      → b.limit * 2 + newl + 4 < 2 ^ 32
      → (s : Buffer A) × (grow mem b newl ≡ (true, s))
        × Holds s xs
        × (s.limit ≡ b.limit)
        × ((newl < s.buf_size) ⊎ (s.buf_size ≡ b.limit + 1))
  unfolding grow
  grow-Holds mem b xs newl grants h small = elim (dec_lt newl b.buf_size) [
    | yes fits ↦ (b, ground (arith, fits), h, refl, inl fits)
    | no full ↦
        let size = grown_size b.buf_size newl b.limit in
        let (enough, bounded, more) =
          grown_size-enough b.buf_size newl b.limit (omega (arith, h.spare)) (omega arith) h.within
            small in
        let (rest, kept) = realloc-laid xs h.rest size (omega (arith, h.spare, h.counted)) in
        let s = record b { buf = realloc b.buf size; buf_size = size } in
        let new : Holds s xs = record {
          rest = rest;
          laid = ap (λ p. realloc p size) h.laid ∙ kept;
          roomy = length-realloc b.buf size;
          counted = h.counted;
          spare = omega (arith, h.spare, more);
          within = bounded;
        } in
        let test : ltb newl b.buf_size ≡ false = ground arith in
        (s, rw (test, grants (grown_size b.buf_size newl b.limit)) refl, new, refl, enough)
  ]

  pub put_bytes-Holds :
      (b : Buffer A) (xs c : List A) (l : ℕ) (result : BufferResult)
      → Holds b xs
      → l ≤ length c
      → b.len + l < b.buf_size
      → b.buf_size < 2 ^ 31
      → (s : Buffer A) × (put_bytes b c l result ≡ ok (result, s))
        × Holds s (xs ++ take l c)
        × (s.limit ≡ b.limit)
  unfolding put_bytes
  put_bytes-Holds b xs c l result h given fits small =
      let rest = h.rest in
      let whole = ap length h.laid ∙ length-append (map some xs) rest in
      let free : l ≤ length rest = omega (arith, whole, h.roomy, h.counted, length-map-some xs) in
      let now = xs ++ take l c in
      let copied : copy_in b.buf b.len c l ≡ ok (map some now ++ drop l rest) =
        rw (h.laid, h.counted) (copy_in-laid xs c rest l given free) in
      let counted : size_t (b.len + through_int l) ≡ b.len + l = ground arith in
      let s = record b { buf = map some now ++ drop l rest; len = b.len + l } in
      let length_now =
        length-append xs (take l c) ∙ ap (λ n. length xs + n) (length-take l c given) in
      let new : Holds s now = record {
        rest = drop l rest;
        laid = refl;
        roomy = omega (
          arith,
          whole,
          h.roomy,
          length-append (map some now) (drop l rest),
          length-map-some now,
          length_now,
          length-map-some xs,
          length-drop l rest free,
        );
        counted = omega (arith, h.counted, length_now);
        spare = fits;
        within = h.within;
      } in
      (s, rw (copied, counted) refl, new, refl)
