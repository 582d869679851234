-- ===== src/Buffer/Tests.antt =====
-- Runs of write2buf on a small buffer, and the theorems at concrete inputs.
use jega.Base.{fault, ok, ◌>>=◌, store, ℕ, ◌≡◌, refl, Bool, true, false, none, some, [], ◌∷◌, arith}
use jega.Buffer.{
  memory_error, limit_over, Buffer, grown_size, realloc, copy_in, new_buffer, grow, put_bytes,
  write2buf,
}
use jega.Buffer.Contents.{Holds}
use jega.Buffer.Limit.{new_buffer-Holds, write2buf-keeps}
use jega.Buffer.Failure.{write2buf-overruns}
use jega.Buffer.Reading.{
  get_bytes, get_py_string_and_decode, get_string, copy_buffer, copy_buffer-Holds,
  write2buf-decoded,
}

abbrev plenty : ℕ → Bool
plenty n = true

abbrev never : ℕ → Bool
never n = false

-- Two bytes in a block of four, with a limit of six.
abbrev short : Buffer ℕ
short = record { buf = some 1 ∷ some 2 ∷ none ∷ none ∷ []; buf_size = 4; len = 2; limit = 6 }

short-Holds : Holds short (1 ∷ 2 ∷ [])
short-Holds = record {
  rest = none ∷ none ∷ [];
  laid = refl;
  roomy = refl;
  counted = refl;
  spare = omega arith;
  within = omega arith;
}

-- Five bytes more are one too many.
cut_off :
    write2buf plenty short (3 ∷ 4 ∷ 5 ∷ 6 ∷ 7 ∷ []) 5
    ≡ ok (
      limit_over,
      record {
        buf = some 1 ∷ some 2 ∷ some 3 ∷ some 4 ∷ some 5 ∷ some 6 ∷ none ∷ [];
        buf_size = 7;
        len = 6;
        limit = 6;
      },
    )
unfolding write2buf grow grown_size realloc put_bytes copy_in
cut_off = refl

write2buf-keeps_example :
    (s : Buffer ℕ) × (write2buf plenty short (3 ∷ 4 ∷ 5 ∷ 6 ∷ 7 ∷ []) 5 ≡ ok (limit_over, s))
    × Holds s (1 ∷ 2 ∷ 3 ∷ 4 ∷ 5 ∷ 6 ∷ [])
    × (s.limit ≡ 6)
write2buf-keeps_example =
    write2buf-keeps plenty short (1 ∷ 2 ∷ []) (3 ∷ 4 ∷ 5 ∷ 6 ∷ 7 ∷ []) (λ n. refl) short-Holds
      (omega arith)

write2buf-overruns_example :
    (s : Buffer ℕ) × (write2buf never short (3 ∷ 4 ∷ 5 ∷ []) 3 ≡ ok (memory_error, s))
    × (write2buf plenty s (3 ∷ 4 ∷ 5 ∷ []) 3 ≡ fault)
unfolding grown_size
write2buf-overruns_example =
    write2buf-overruns never plenty short (1 ∷ 2 ∷ []) (3 ∷ 4 ∷ 5 ∷ []) (3 ∷ 4 ∷ 5 ∷ []) short-Holds
      (omega arith) (omega arith) refl (omega arith) (omega arith) (omega arith)

buffer_of_four :
    (b : Buffer ℕ) × (new_buffer true plenty 4 6 ≡ ok (some b)) × Holds b [] × (b.limit ≡ 6)
buffer_of_four = new_buffer-Holds plenty 4 6 refl (omega arith) (omega arith)

-- A buffer of one byte is ended behind it, and an empty one is left alone.
ended :
    get_string short
    ≡ ok (record short { buf = some 1 ∷ some 2 ∷ some 0 ∷ none ∷ [] }, 1 ∷ 2 ∷ 0 ∷ [])
unfolding get_string get_bytes store
ended = refl

not_ended : get_string (record short { len = 0 }) ≡ ok (record short { len = 0 }, 0 ∷ [])
unfolding get_string
not_ended = refl

refused_copy : copy_buffer never short short ≡ ok (false, record short { buf_size = 7 })
unfolding copy_buffer get_bytes write2buf grow grown_size
refused_copy = refl

doubled :
    (s : Buffer ℕ) × (copy_buffer plenty short short ≡ ok (true, s)) × Holds s (1 ∷ 2 ∷ 1 ∷ 2 ∷ [])
doubled =
    copy_buffer-Holds plenty short short (1 ∷ 2 ∷ []) (1 ∷ 2 ∷ []) (λ n. refl) short-Holds
      short-Holds (omega arith)

-- The escape %4a is written behind two bytes, and one more % is one too many.
write2buf-decoded_example :
    (write2buf plenty short (37 ∷ 52 ∷ 97 ∷ 37 ∷ 37 ∷ []) 5 >>= λ (result, s).
    get_py_string_and_decode s)
    ≡ ok (1 ∷ 2 ∷ 74 ∷ 37 ∷ [])
write2buf-decoded_example =
    write2buf-decoded plenty short (1 ∷ 2 ∷ []) (37 ∷ 52 ∷ 97 ∷ 37 ∷ 37 ∷ []) (λ n. refl)
      short-Holds (omega arith)
