-- ===== src/Buffer/Reading.antt =====
-- src/buffer.c: getPyString, getPyStringAndDecode, getString and copy_buffer_t, and what they give for
-- the bytes that were written.
use jega.Base.{
  ltb, if◌then◌else◌, length, take, length-append, Run, fault, ok, ◌>>=◌, store, ℕ, zero, suc, ◌+◌,
  ◌*◌, ◌%◌, ◌^◌, ◌<◌, ◌≡◌, refl, ap, ◌∙◌, Bool, true, false, Option, none, some, List, [], ◌∷◌,
  ◌++◌, map, arith,
}
use jega.Buffer.{BufferResult, write_ok, memory_error, limit_over, Buffer, write2buf}
use jega.Buffer.Contents.{Holds}
use jega.Buffer.Limit.{write2buf-keeps}
use jega.Buffer.Bytes.{length-map-some}
use jega.Decode.{urldecode}
use jega.Decode.Place.{decode, bytes, urldecode-decodes}

-- PyBytes_FromStringAndSize: the first `n` bytes of a block.
unfoldable pub get_bytes {ℓ} : {A : Type ℓ} → List (Option A) → ℕ → Run (List A)
get_bytes p zero = ok []
get_bytes [] (suc n) = fault
get_bytes (none ∷ p) (suc n) = fault
get_bytes (some x ∷ p) (suc n) = get_bytes p n >>= λ xs. ok (x ∷ xs)

unfoldable pub get_py_string {ℓ} : {A : Type ℓ} → Buffer A → Run (List A)
get_py_string b = get_bytes b.buf b.len

-- A length that is negative as an int is none to urldecode, as 0 is.
abbrev pub as_length : ℕ → ℕ
as_length n = let low = n % 2 ^ 32 in if ltb low (2 ^ 31) then low else 0

-- The buffer is freed at the end.
pub get_py_string_and_decode : Buffer ℕ → Run (List ℕ)
get_py_string_and_decode b = urldecode b.buf (as_length b.len) >>= λ (p, l). get_bytes p l

-- The text behind the pointer that is returned, with its terminator; an empty buffer gives a constant.
unfoldable pub get_string : Buffer ℕ → Run (Buffer ℕ × List ℕ)
get_string b =
    let ended = store b.buf b.len (some 0) >>= λ p.
    get_bytes p (b.len + 1) >>= λ text. ok (record b { buf = p }, text) in
    if ltb 0 b.len then ended else ok (b, 0 ∷ [])

-- `false` is the result -1.
abbrev pub copied {ℓ} : {A : Type ℓ} → BufferResult × Buffer A → Bool × Buffer A
copied (write_ok, d) = (true, d)
copied (memory_error, d) = (false, d)
copied (limit_over, d) = (true, d)

unfoldable pub copy_buffer {ℓ} :
    {A : Type ℓ} → (ℕ → Bool) → Buffer A → Buffer A → Run (Bool × Buffer A)
copy_buffer mem src dest =
    get_bytes src.buf src.len >>= λ c. write2buf mem dest c src.len >>= λ r. ok (copied r)

get_bytes-append {ℓ} :
    {A : Type ℓ} (xs : List A) (rest : List (Option A)) (n : ℕ)
    → n ≡ length xs
    → get_bytes (map some xs ++ rest) n ≡ ok xs
unfolding get_bytes
get_bytes-append [] rest n e = rw e refl
get_bytes-append (x ∷ xs) rest zero e = absurd (omega arith)
get_bytes-append (x ∷ xs) rest (suc n) e = rw (get_bytes-append xs rest n (omega arith)) refl

get_bytes-Holds {ℓ} :
    {A : Type ℓ} (b : Buffer A) (xs : List A) → Holds b xs → get_bytes b.buf b.len ≡ ok xs
get_bytes-Holds b xs h =
    ap (λ p. get_bytes p b.len) h.laid ∙ get_bytes-append xs h.rest b.len h.counted

copied-true {ℓ} :
    {A : Type ℓ} (over : Bool) (s : Buffer A)
    → copied (if over then limit_over else write_ok, s) ≡ (true, s)
copied-true true s = refl
copied-true false s = refl

-- A buffer gives back the bytes that it holds.
get_py_string-Holds {ℓ} :
    {A : Type ℓ} (b : Buffer A) (xs : List A) → Holds b xs → get_py_string b ≡ ok xs
unfolding get_py_string
get_py_string-Holds b xs h = get_bytes-Holds b xs h

-- A source is written behind what a destination holds, up to its limit. It needs an allocator that
-- grants every request, and sizes so small that no conversion to int loses any.
pub copy_buffer-Holds {ℓ} :
    {A : Type ℓ} (mem : ℕ → Bool) (src dest : Buffer A) (xs ys : List A)
    → ((n : ℕ) → mem n ≡ true)
    → Holds src xs
    → Holds dest ys
    → dest.limit * 3 + length xs + 5 < 2 ^ 32
    → (s : Buffer A) × (copy_buffer mem src dest ≡ ok (true, s))
      × Holds s (take dest.limit (ys ++ xs))
unfolding copy_buffer
copy_buffer-Holds {A = A} mem src dest xs ys grants h k small =
    let (s, runs, held, same) = write2buf-keeps mem dest ys xs grants k small in
    let over = ltb dest.limit (length ys + length xs) in
    let write = λ (c : List A). write2buf mem dest c src.len >>= λ r. ok (copied r) in
    (
      s,
      ap (λ r. r >>= write) (get_bytes-Holds src xs h)
          ∙ ap (λ n. write2buf mem dest xs n >>= λ r. ok (copied r)) h.counted
          ∙ ap (λ r. r >>= λ r'. ok (copied r')) runs
          ∙ ap ok (copied-true over s),
      held,
    )

get_py_string_and_decode-Holds :
    (b : Buffer ℕ) (xs : List ℕ)
    → Holds b xs
    → b.len < 2 ^ 31
    → get_py_string_and_decode b ≡ ok (decode xs)
unfolding get_py_string_and_decode
get_py_string_and_decode-Holds b xs h small =
    let room : 0 < length h.rest = omega (
      arith,
      h.roomy,
      h.spare,
      h.counted,
      ap length h.laid,
      length-append (bytes xs) h.rest,
      length-map-some xs,
    ) in
    let size : as_length b.len ≡ length xs = ground (arith, h.counted) in
    let (q, runs) = urldecode-decodes xs h.rest room in
    let read = λ (r : List (Option ℕ) × ℕ). get_bytes {A = ℕ} r.0 r.1 in
    ap (λ p. urldecode p (as_length b.len) >>= read) h.laid
    ∙ ap (λ n. urldecode (bytes xs ++ h.rest) n >>= read) size
    ∙ ap (λ r. r >>= read) runs
    ∙ get_bytes-append (decode xs) (some 0 ∷ q) (length (decode xs)) refl

-- The bytes that a buffer holds once more bytes were written, up to its limit, are given decoded.
-- It needs an allocator that grants every request, and sizes so small that no conversion to int loses
-- any.
pub write2buf-decoded :
    (mem : ℕ → Bool) (b : Buffer ℕ) (xs c : List ℕ)
    → ((n : ℕ) → mem n ≡ true)
    → Holds b xs
    → b.limit * 3 + length c + 5 < 2 ^ 32
    → (write2buf mem b c (length c) >>= λ (result, s). get_py_string_and_decode s)
      ≡ ok (decode (take b.limit (xs ++ c)))
write2buf-decoded mem b xs c grants h small =
    let (s, runs, held, same) = write2buf-keeps mem b xs c grants h small in
    ap (λ r. r >>= λ (result, s). get_py_string_and_decode s) runs
    ∙ get_py_string_and_decode-Holds s (take b.limit (xs ++ c)) held
        (omega (arith, held.spare, held.within, same))
