-- ===== src/Ring/Contents.antt =====
-- The queue that a ring stands for: the list of its entries, oldest first.
use jega.Base.{
  length, get_elem?, set, length-append, length-set, get_elem?-set, get_elem?-append,
  get_elem?-append_length, ok, u32_mod, u32, store-ok, ℕ, ◌+◌, ◌≤◌, ◌<◌, ◌≡◌, refl, ap, subst, some,
  List, [], ◌∷◌, ◌++◌, arith, ℕ_discrete,
}
use jega.Ring.{Ring, put, append}
use jega.Ring.Wrap.{wrap, next_index-wrap, wrap-lt, wrap-ne, wrap-next}

pub record Holds {ℓ} {A : Type ℓ} (r : Ring A) (xs : List A) : Type ℓ where
  pub roomy : r.max < length r.q
  pub sized : r.size ≡ length xs
  pub bounded : r.size ≤ r.max
  pub word : r.max < u32_mod
  pub first_in : r.first < r.max
  pub last_in : r.last < r.max
  pub joined : wrap r.max (r.last + 1) ≡ wrap r.max (r.first + r.size)
  pub entries :
      (i : ℕ) → i < length xs → get_elem? r.q (wrap r.max (r.first + i)) ≡ some (get_elem? xs i)

module _ {ℓ} {A : Type ℓ} where
  -- What `put` makes of a ring that has room.
  unfoldable pub placed : Ring A → A → Ring A
  placed r o =
      let last = wrap r.max (r.last + 1) in record r { q = set r.q last (some o); last = last }

  pub put-placed :
      (r : Ring A) (o : A)
      → r.max < length r.q
      → r.max < u32_mod
      → r.last < r.max
      → put r o ≡ ok (placed r o)
  unfolding put placed
  put-placed r o roomy word last_in = rw (
    next_index-wrap r.last r.max last_in word,
    store-ok r.q (wrap r.max (r.last + 1)) (some o) (ground arith),
  )

  placed-entries :
      (r : Ring A) (xs : List A) (o : A)
      → Holds (record r { size = length xs }) xs
      → length xs < r.max
      → (i : ℕ) → i < length (xs ++ o ∷ [])
      → get_elem? (placed r o).q (wrap r.max (r.first + i)) ≡ some (get_elem? (xs ++ o ∷ []) i)
  unfolding placed
  placed-entries r xs o h room i b =
      let new = wrap r.max (r.first + length xs) in
      let at = wrap r.max (r.first + i) in
      let new_in : new < length r.q = ground (arith, wrap-lt r.max r.first (length xs)) in
      rw (h.joined, get_elem?-set r.q new at (some o) new_in)
        (elim (ℕ_discrete i (length xs)) [
          | yes e ↦ rw e (ground (arith, get_elem?-append_length xs o []))
          | no n ↦ ground (
            arith,
            length-append xs (o ∷ []),
            wrap-ne r.max r.first (length xs) i,
            h.entries i,
            get_elem?-append xs (o ∷ []) i,
          )
        ])

  -- One more entry goes behind the others, if there is room.
  pub put-Holds :
      (r : Ring A) (xs : List A) (o : A)
      → Holds (record r { size = length xs }) xs
      → length xs < r.max
      → Holds (record (placed r o) { size = length (xs ++ o ∷ []) }) (xs ++ o ∷ [])
  unfolding placed
  put-Holds r xs o h room =
      let more = length-append xs (o ∷ []) in
      record {
        roomy = rw length-set h.roomy;
        sized = refl;
        bounded = omega (arith, more);
        word = h.word;
        first_in = h.first_in;
        last_in = ground (arith, h.last_in);
        joined = ground (arith, more, h.joined, wrap-next r.max r.first (length xs));
        entries = placed-entries r xs o h room;
      }

  pub append-Holds :
      (r : Ring A) (xs : List A) (o : A)
      → Holds r xs
      → r.size < r.max
      → (s : Ring A) × (append r o ≡ ok (some s)) × Holds s (xs ++ o ∷ []) × (s.max ≡ r.max)
  unfolding append placed
  append-Holds r xs o h room =
      let s = record (placed r o) { size = length (xs ++ o ∷ []) } in
      let count : u32 (r.size + 1) ≡ length (xs ++ o ∷ []) =
        omega (arith, length-append xs (o ∷ []), h.word, h.sized) in
      let resized : Holds (record r { size = length xs }) xs =
        subst (λ n. Holds (record r { size = n }) xs) h.sized h in
      (
        s,
        rw (put-placed r o h.roomy h.word h.last_in)
            (ap (λ n. ok (some (record (placed r o) { size = n }))) count),
        put-Holds r xs o resized (omega (arith, h.sized)),
        refl,
      )
