-- ===== src/Decode.antt =====
-- urldecode of src/util.c, which decodes a buffer in place. A byte is a number below 256, and a char that
-- is negative in the source is the one that is 256 larger; toupper is the one of the C locale.
pub mod Place
mod Tests
use jega.Base.{
  ltb, leb, ◌==◌, if◌then◌else◌, Run, out_of_fuel, ok, ◌>>=◌, load, store, ℕ, zero, suc, ◌+◌, ◌-◌,
  ◌*◌, ◌%◌, ◌&&◌, Option, some, List,
}

abbrev pub to_upper : ℕ → ℕ
to_upper c = if leb 97 c && leb c 122 then c - 32 else c

-- What is kept of it in a char. A char that is no digit has a value as well.
unfoldable pub hex2int : ℕ → ℕ
hex2int c = let i = to_upper c in if ltb 57 i && ltb i 128 then i - 55 else (i + 208) % 256

abbrev pub unescaped : ℕ → ℕ → ℕ
unescaped a b = (hex2int a * 16 + hex2int b) % 256

-- `from` is the place that is read, and `to` the place that is written next.
pub urldecode_loop : ℕ → List (Option ℕ) → ℕ → ℕ → ℕ → Run (List (Option ℕ) × ℕ)
urldecode_loop zero p from to len = out_of_fuel
urldecode_loop (suc fuel) p from to len =
    let write = λ (c from' len' : ℕ).
      store p to (some c) >>= λ p'. urldecode_loop fuel p' from' (to + 1) len' in
    let escape = load p (from + 1) >>= λ a.
    load p (from + 2) >>= λ b. write (unescaped a b) (from + 3) (len - 3) in
    let step =
      load p from >>= λ c. if c == 37 && ltb 2 len then escape else write c (from + 1) (len - 1) in
    if len == 0 then ok (p, to) else step

-- The memory and the new length, behind which there is a 0.
pub urldecode : List (Option ℕ) → ℕ → Run (List (Option ℕ) × ℕ)
urldecode p len =
    urldecode_loop (len + 1) p 0 0 len >>= λ (p', to). store p' to (some 0) >>= λ p''. ok (p'', to)
