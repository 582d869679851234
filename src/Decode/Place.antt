-- ===== src/Decode/Place.antt =====
-- urldecode of src/util.c against a decoding of lists.
use mathlib.Core.List.{append_assoc}
use jega.Base.{
  ltb, leb, ◌==◌, if◌then◌else◌, Bool-cases, length, set, length-append, Run, ok, ◌>>=◌, load,
  store, store-ok, ℕ, zero, suc, ◌+◌, ◌-◌, ◌*◌, ◌%◌, ◌≤◌, ◌<◌, ◌≡◌, refl, sym, ap, ◌∙◌, subst, inl,
  inr, Bool, true, false, ◌&&◌, Option, some, List, [], ◌∷◌, ◌++◌, map, arith,
}
use jega.Decode.{hex2int, unescaped, urldecode_loop, urldecode}

-- The value of a hexadecimal digit, upper or lower case. What stands for other characters is what
-- hex2int makes of them.
abbrev pub digit_value : ℕ → ℕ
digit_value c =
    if leb 48 c && leb c 57
    then c - 48
    else if leb 65 c && leb c 70
    then c - 55
    else if leb 97 c && leb c 102
    then c - 87
    else hex2int c

hex2int-digit_value : (c : ℕ) → hex2int c ≡ digit_value c
unfolding hex2int
hex2int-digit_value c = ground arith

-- The byte that two digits stand for.
abbrev pub byte_of : ℕ → ℕ → ℕ
byte_of a b = (digit_value a * 16 + digit_value b) % 256

unescaped-byte_of : (a b : ℕ) → unescaped a b ≡ byte_of a b
unescaped-byte_of a b =
    ap (λ x. (x * 16 + hex2int b) % 256) (hex2int-digit_value a)
    ∙ ap (λ y. (digit_value a * 16 + y) % 256) (hex2int-digit_value b)

-- What the bytes stand for: `%` and two more bytes for one byte, any other byte for itself.
abbrev pub decode : List ℕ → List ℕ
decode [] = []
decode (c ∷ []) = c ∷ []
decode (c ∷ a ∷ []) = c ∷ a ∷ []
decode (c ∷ a ∷ b ∷ rest) = if c == 37 then byte_of a b ∷ decode rest else c ∷ decode (a ∷ b ∷ rest)

abbrev pub bytes : List ℕ → List (Option ℕ)
bytes xs = map some xs

load-append : (p q : List (Option ℕ)) (c n : ℕ) → n ≡ length p → load (p ++ (some c ∷ q)) n ≡ ok c
unfolding load
load-append [] q c n e = rw e refl
load-append (o ∷ p) q c zero e = absurd (omega (arith, e))
load-append (o ∷ p) q c (suc n) e = load-append p q c n (omega (arith, e))

set-append :
    (p q : List (Option ℕ)) (o v : Option ℕ) → set (p ++ (o ∷ q)) (length p) v ≡ p ++ (v ∷ q)
set-append [] q o v = refl
set-append (x ∷ p) q o v = ap (λ xs. x ∷ xs) (set-append p q o v)

store-append :
    (p q : List (Option ℕ)) (o v : Option ℕ) (n : ℕ)
    → n ≡ length p
    → store (p ++ (o ∷ q)) n v ≡ ok (p ++ (v ∷ q))
store-append p q o v n e = rw e (
    store-ok (p ++ (o ∷ q)) (length p) v (omega (arith, length-append p (o ∷ q)))
    ∙ ap ok (set-append p q o v))

-- The first slot of those between the two places, or the byte that was read last, is written next.
first_off :
    (gap : List (Option ℕ)) (o : Option ℕ) (ys : List (Option ℕ))
    → (f : Option ℕ) × (g : List (Option ℕ)) × (gap ++ (o ∷ ys) ≡ f ∷ (g ++ ys))
      × (length g ≡ length gap)
first_off [] o ys = (o, [], refl, refl)
first_off (x ∷ gap) o ys = (
  x,
  gap ++ o ∷ [],
  ap (λ xs. x ∷ xs) (sym (append_assoc gap (o ∷ []) ys)),
  omega (arith, length-append gap (o ∷ [])),
)

-- The memory and the place after the bytes `xs`.
abbrev Gives : List (Option ℕ) → List ℕ → ℕ → Run (List (Option ℕ) × ℕ) → Type 0
Gives out xs room r =
    (q : List (Option ℕ)) × (r ≡ ok (out ++ (bytes xs ++ q), length out + length xs))
    × (room ≤ length q)

Gives-extend :
    (out : List (Option ℕ)) (v : ℕ) (xs : List ℕ) (room : ℕ) (r : Run (List (Option ℕ) × ℕ))
    → Gives (out ++ some v ∷ []) xs room r
    → Gives out (v ∷ xs) room r
Gives-extend out v xs room r (q, e, h) = (
  q,
  e
      ∙ ap (λ p. ok (p, length (out ++ some v ∷ []) + length xs))
          (append_assoc out (some v ∷ []) (bytes xs ++ q))
      ∙ ap (λ n. ok (out ++ (some v ∷ (bytes xs ++ q)), n))
          (omega (arith, length-append out (some v ∷ []))),
  h,
)

abbrev write : ℕ → List (Option ℕ) → ℕ → ℕ → ℕ → ℕ → Run (List (Option ℕ) × ℕ)
write fuel p to c from len = store p to (some c) >>= λ p'. urldecode_loop fuel p' from (to + 1) len

write-moves :
    (fuel : ℕ) (out gap ys : List (Option ℕ)) (o : Option ℕ) (v from to len : ℕ)
    → to ≡ length out
    → (g : List (Option ℕ)) × (length g ≡ length gap)
      × (write fuel (out ++ (gap ++ (o ∷ ys))) to v from len
          ≡ urldecode_loop fuel ((out ++ some v ∷ []) ++ (g ++ ys)) from (to + 1) len)
write-moves fuel out gap ys o v from to len e =
    let (f, g, off, same) = first_off gap o ys in
    let next = λ (p' : List (Option ℕ)). urldecode_loop fuel p' from (to + 1) len in
    (
      g,
      same,
      ap (λ xs. store (out ++ xs) to (some v) >>= next) off
          ∙ ap (λ c. c >>= next) (store-append out (g ++ ys) f (some v) to e)
          ∙ ap next (sym (append_assoc out (some v ∷ []) (g ++ ys))),
    )

load-at :
    (out gap ys : List (Option ℕ)) (c n : ℕ)
    → n ≡ length out + length gap
    → load (out ++ (gap ++ (some c ∷ ys))) n ≡ ok c
load-at out gap ys c n e =
    ap (λ p. load p n) (sym (append_assoc out gap (some c ∷ ys)))
    ∙ load-append (out ++ gap) ys c n (omega (arith, e, length-append out gap))

abbrev escape : ℕ → List (Option ℕ) → ℕ → ℕ → ℕ → Run (List (Option ℕ) × ℕ)
escape fuel p from to len = load p (from + 1) >>= λ a.
    load p (from + 2) >>= λ b. write fuel p to (unescaped a b) (from + 3) (len - 3)

urldecode_loop-reads :
    (fuel : ℕ) (p : List (Option ℕ)) (from to len c : ℕ) (b : Bool)
    → 0 < len
    → load p from ≡ ok c
    → (c == 37 && ltb 2 len) ≡ b
    → urldecode_loop (suc fuel) p from to len
      ≡ (if b then escape fuel p from to len else write fuel p to c (from + 1) (len - 1))
unfolding urldecode_loop
urldecode_loop-reads fuel p from to len c b pos read test =
    let tested = λ (c : ℕ).
      (if c == 37 && ltb 2 len
        then escape fuel p from to len
        else write fuel p to c (from + 1) (len - 1)) in
    let more : (len == 0) ≡ false = ground (arith, pos) in
    ap (λ z. if z then ok (p, to) else (load p from >>= tested)) more
    ∙ ap (λ r. r >>= tested) read
    ∙ ap (λ z. if z then escape fuel p from to len else write fuel p to c (from + 1) (len - 1)) test

-- What the loop does from these places on.
abbrev Loops : ℕ → List ℕ → Type 0
Loops fuel xs =
    (out gap rest : List (Option ℕ)) (from to : ℕ)
    → to ≡ length out
    → from ≡ length out + length gap
    → Gives out (decode xs) (length rest)
        (urldecode_loop fuel (out ++ (gap ++ (bytes xs ++ rest))) from to (length xs))

Loops-plain :
    (fuel c : ℕ) (xs : List ℕ)
    → (c == 37 && ltb 2 (suc (length xs))) ≡ false
    → decode (c ∷ xs) ≡ c ∷ decode xs
    → Loops fuel xs
    → Loops (suc fuel) (c ∷ xs)
Loops-plain fuel c xs plain same loops out gap rest from to at read =
    let p = out ++ (gap ++ (some c ∷ (bytes xs ++ rest))) in
    let (g, wide, writes) =
      write-moves fuel out gap (bytes xs ++ rest) (some c) c (from + 1) to (length xs) at in
    let reads =
      urldecode_loop-reads fuel p from to (suc (length xs)) c false (omega arith)
        (load-at out gap (bytes xs ++ rest) c from read) plain in
    let size : suc (length xs) - 1 ≡ length xs = omega arith in
    let (q, runs, room) = Gives-extend out c (decode xs) (length rest) _ (
      loops (out ++ some c ∷ []) g rest (from + 1) (to + 1)
        (omega (arith, at, length-append out (some c ∷ [])))
        (omega (arith, read, wide, length-append out (some c ∷ [])))) in
    subst (λ ys. Gives out ys (length rest) (urldecode_loop (suc fuel) p from to (suc (length xs))))
      (sym same) (q, reads ∙ ap (write fuel p to c (from + 1)) size ∙ writes ∙ runs, room)

Loops-escape :
    (fuel c a b : ℕ) (xs : List ℕ)
    → (c == 37) ≡ true
    → Loops fuel xs
    → Loops (suc fuel) (c ∷ a ∷ b ∷ xs)
Loops-escape fuel c a b xs percent loops out gap rest from to at read =
    let ys = bytes xs ++ rest in
    let p = out ++ (gap ++ (some c ∷ some a ∷ some b ∷ ys)) in
    let v = unescaped a b in
    let gap' = gap ++ some c ∷ some a ∷ [] in
    let by_one : p ≡ out ++ ((gap ++ some c ∷ []) ++ (some a ∷ some b ∷ ys)) =
      ap (λ z. out ++ z) (sym (append_assoc gap (some c ∷ []) (some a ∷ some b ∷ ys))) in
    let by_two : p ≡ out ++ (gap' ++ (some b ∷ ys)) =
      ap (λ z. out ++ z) (sym (append_assoc gap (some c ∷ some a ∷ []) (some b ∷ ys))) in
    let second : load p (from + 1) ≡ ok a =
      ap (λ m. load m (from + 1)) by_one
      ∙ load-at out (gap ++ some c ∷ []) (some b ∷ ys) a (from + 1)
          (omega (arith, read, length-append gap (some c ∷ []))) in
    let third : load p (from + 2) ≡ ok b =
      ap (λ m. load m (from + 2)) by_two
      ∙ load-at out gap' ys b (from + 2)
          (omega (arith, read, length-append gap (some c ∷ some a ∷ []))) in
    let len = suc (suc (suc (length xs))) in
    let (g, wide, writes) = write-moves fuel out gap' ys (some b) v (from + 3) to (length xs) at in
    let reads =
      urldecode_loop-reads fuel p from to len c true (omega arith)
        (load-at out gap (some a ∷ some b ∷ ys) c from read) (ground (arith, percent)) in
    let size : len - 3 ≡ length xs = omega arith in
    let (q, runs, room) = Gives-extend out v (decode xs) (length rest) _ (
      loops (out ++ some v ∷ []) g rest (from + 3) (to + 1)
        (omega (arith, at, length-append out (some v ∷ [])))
        (omega (
          arith,
          read,
          wide,
          length-append out (some v ∷ []),
          length-append gap (some c ∷ some a ∷ []),
        ))) in
    let decoded : decode (c ∷ a ∷ b ∷ xs) ≡ v ∷ decode xs =
      ap (λ z. if z then byte_of a b ∷ decode xs else c ∷ decode (a ∷ b ∷ xs)) percent
      ∙ ap (λ z. z ∷ decode xs) (sym (unescaped-byte_of a b)) in
    subst (λ zs. Gives out zs (length rest) (urldecode_loop (suc fuel) p from to len)) (sym decoded)
      (
        q,
        reads
            ∙ ap
                (λ r. r >>= λ a.
                  load p (from + 2) >>= λ b. write fuel p to (unescaped a b) (from + 3) (len - 3))
                second
            ∙ ap (λ r. r >>= λ b. write fuel p to (unescaped a b) (from + 3) (len - 3)) third
            ∙ ap (write fuel p to v (from + 3)) size
            ∙ ap (λ m. write fuel m to v (from + 3) (length xs)) by_two
            ∙ writes
            ∙ runs,
        room,
      )

urldecode_loop-empty : (fuel : ℕ) → Loops (suc fuel) []
unfolding urldecode_loop
urldecode_loop-empty fuel out gap rest from to at read = (
  gap ++ rest,
  ap (λ n. ok (out ++ (gap ++ rest), n)) (omega (arith, at)),
  omega (arith, length-append gap rest),
)

all-Loops : (fuel : ℕ) (xs : List ℕ) → length xs < fuel → Loops fuel xs
all-Loops zero xs enough = absurd (omega arith)
all-Loops (suc fuel) [] enough = urldecode_loop-empty fuel
all-Loops (suc fuel) (c ∷ []) enough =
    Loops-plain fuel c [] (ground arith) refl (all-Loops fuel [] (omega arith))
all-Loops (suc fuel) (c ∷ a ∷ []) enough =
    Loops-plain fuel c (a ∷ []) (ground arith) refl (all-Loops fuel (a ∷ []) (omega arith))
all-Loops (suc fuel) (c ∷ a ∷ b ∷ xs) enough = elim (Bool-cases (c == 37)) [
  | inl percent ↦ Loops-escape fuel c a b xs percent (all-Loops fuel xs (omega arith))
  | inr plain ↦
      Loops-plain fuel c (a ∷ b ∷ xs) (ground (arith, plain))
        (ap (λ z. if z then byte_of a b ∷ decode xs else c ∷ decode (a ∷ b ∷ xs)) plain)
        (all-Loops fuel (a ∷ b ∷ xs) (omega arith))
]

length-bytes : (xs : List ℕ) → length (bytes xs) ≡ length xs
length-bytes [] = refl
length-bytes (x ∷ xs) = ap suc (length-bytes xs)

store-terminator :
    (xs : List ℕ) (q : List (Option ℕ)) (n : ℕ)
    → n ≡ length xs
    → 0 < length q
    → (q' : List (Option ℕ)) × (store (bytes xs ++ q) n (some 0) ≡ ok (bytes xs ++ (some 0 ∷ q')))
store-terminator xs [] n e room = absurd (omega arith)
store-terminator xs (z ∷ q) n e room =
    (q, store-append (bytes xs) q z (some 0) n (omega (arith, e, length-bytes xs)))

-- Decoding in place ends and gives the decoded bytes at the start of the buffer, a 0 behind them, and
-- their number; `%` and two hexadecimal digits are decoded to the byte that the digits stand for. The buffer has room for one byte more than there are.
pub urldecode-decodes :
    (xs : List ℕ) (rest : List (Option ℕ))
    → 0 < length rest
    → (q : List (Option ℕ)) × (urldecode (bytes xs ++ rest) (length xs)
        ≡ ok (bytes (decode xs) ++ (some 0 ∷ q), length (decode xs)))
unfolding urldecode
urldecode-decodes xs rest room =
    let (q, runs, left) = all-Loops (length xs + 1) xs (omega arith) [] [] rest 0 0 refl refl in
    let n = 0 + length (decode xs) in
    let (q', closed) = store-terminator (decode xs) q n (omega arith) (omega (arith, left, room)) in
    (
      q',
      ap (λ r. r >>= λ (p', to). store p' to (some 0) >>= λ p''. ok (p'', to)) runs
          ∙ ap (λ r. r >>= λ p''. ok (p'', n)) closed
          ∙ ap (λ k. ok (bytes (decode xs) ++ (some 0 ∷ q'), k)) (omega arith),
    )
