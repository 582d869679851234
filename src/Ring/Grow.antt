-- ===== src/Ring/Grow.antt =====
-- realloc_queue and reindex_queue of src/queue.c: the entries move to a ring twice as large.
use mathlib.Core.List.{append_assoc}
use jega.Base.{
  leb, ◌==◌, length, get_elem?, take, replicate, length-append, length-replicate, length-take,
  get_elem?-append, get_elem?-append_length, get_elem?-take, ok, ◌>>=◌, u32_mod, u32, ptr_size,
  load, load-ok, ℕ, zero, suc, ◌+◌, ◌-◌, ◌*◌, ◌^◌, ◌≤◌, ◌<◌, ◌≡◌, refl, sym, ap, ◌∙◌, subst, Bool,
  true, false, Option, none, some, List, [], ◌∷◌, ◌++◌, arith,
}
use jega.Ring.{Ring, next_index, put, reindex_loop, copy_out, reindex_queue, resize, realloc_queue}
use jega.Ring.Wrap.{wrap, next_index-wrap, wrap-lt, wrap-ne, wrap-next}
use jega.Ring.Contents.{Holds, placed, put-placed, put-Holds}

module _ {ℓ} {A : Type ℓ} (old : List (Option A)) (old_max first : ℕ) where
  -- The entries of the full ring `old`, from `first` on.
  abbrev Lined : List A → Type ℓ
  Lined ys =
      (j : ℕ) → j < length ys → get_elem? old (wrap old_max (first + j)) ≡ some (get_elem? ys j)

  -- Reaching the last entry ends the loop.
  reindex_loop-last :
      (fuel i : ℕ) (r : Ring A) (x : A)
      → load old i ≡ ok x
      → put r x ≡ ok (placed r x)
      → reindex_loop (suc fuel) old i i old_max r ≡ ok (placed r x)
  unfolding reindex_loop
  reindex_loop-last fuel i r x e p = ground (arith, e, p)

  -- Any other entry is followed by the next round.
  reindex_loop-next :
      (fuel i last j : ℕ) (r : Ring A) (x : A)
      → (i == last) ≡ false
      → load old i ≡ ok x
      → next_index i old_max ≡ ok j
      → put r x ≡ ok (placed r x)
      → reindex_loop (suc fuel) old i last old_max r
        ≡ reindex_loop fuel old j last old_max (placed r x)
  unfolding reindex_loop
  reindex_loop-next fuel i last j r x n e k p = rw (n, e, k, p)

  load-Lined :
      (done : List A) (x : A) (rest : List A)
      → Lined (done ++ x ∷ rest)
      → load old (wrap old_max (first + length done)) ≡ ok x
  load-Lined done x rest lined = load-ok old _ x (
      lined (length done) (omega (arith, length-append done (x ∷ rest)))
      ∙ ap some (get_elem?-append_length done x rest))

  -- The loop moves the entries of the old ring, in order, behind those that are there.
  pub reindex_loop_copies :
      (fuel : ℕ) (r : Ring A) (done : List A) (x : A) (rest : List A)
      → length rest < fuel
      → first < old_max
      → old_max < u32_mod
      → length done + length rest < old_max
      → length done + length rest < r.max
      → Lined (done ++ x ∷ rest)
      → Holds (record r { size = length done }) done
      → (s : Ring A) × (reindex_loop fuel old
            (wrap old_max (first + length done))
            (wrap old_max (first + (length done + length rest)))
            old_max
            r
          ≡ ok s)
        × Holds (record s { size = length (done ++ x ∷ rest) }) (done ++ x ∷ rest)
        × (s.size ≡ r.size)
        × (s.max ≡ r.max)
  unfolding placed
  reindex_loop_copies zero r done x rest f w1 w2 w3 w4 lined h = absurd (omega arith)
  reindex_loop_copies (suc fuel) r done x [] f w1 w2 w3 w4 lined h =
      let here : length done + 0 ≡ length done = omega arith in
      (
        placed r x,
        rw here (
            reindex_loop-last fuel (wrap old_max (first + length done)) r x
              (load-Lined done x [] lined) (put-placed r x h.roomy h.word h.last_in)),
        put-Holds r done x h (omega arith),
        refl,
        refl,
      )
  reindex_loop_copies (suc fuel) r done x (y ∷ rest) f w1 w2 w3 w4 lined h =
      let regroup = append_assoc done (x ∷ []) (y ∷ rest) in
      let more = length-append done (x ∷ []) in
      let (s, e, g, z, m) =
        reindex_loop_copies fuel (placed r x) (done ++ x ∷ []) y rest (omega arith) w1 w2
          (omega (arith, more)) (omega (arith, more)) (subst Lined (sym regroup) lined)
          (put-Holds r done x h (omega arith)) in
      let at = λ (n : ℕ). wrap old_max (first + n) in
      let same_last : at (length done + suc (length rest))
          ≡ at (length (done ++ x ∷ []) + length rest) =
        ap at (omega (arith, more)) in
      let not_last : (at (length done) == at (length (done ++ x ∷ []) + length rest)) ≡ false =
        wrap-ne old_max first (length done) _ w1 (omega (arith, more)) (omega arith)
          (omega (arith, more)) in
      let step : next_index (at (length done)) old_max ≡ ok (at (length (done ++ x ∷ []))) =
        next_index-wrap _ old_max (wrap-lt old_max first (length done) w1 (omega arith)) w2
        ∙ ap ok (wrap-next old_max first (length done) w1 (omega arith) ∙ ap at (sym more)) in
      (
        s,
        rw same_last (
            reindex_loop-next fuel _ _ _ r x not_last (load-Lined done x (y ∷ rest) lined) step
              (put-placed r x h.roomy h.word h.last_in)
            ∙ e),
        subst (λ zs. Holds (record s { size = length zs }) zs) regroup g,
        z,
        m,
      )

module _ {ℓ} {A : Type ℓ} where
  length-resize : (p : List (Option A)) (n : ℕ) → length (resize p n) ≡ n
  unfolding resize
  length-resize p n =
      length-take n _
        (omega (arith, length-append p (replicate n none), length-replicate {A = Option A} n none))

  -- The ring that realloc_queue hands to reindex_queue.
  fresh : Ring A → Ring A
  fresh r = record r {
    q = resize r.q (r.max * 2 + 1);
    first = 0;
    last = r.max * 2 - 1;
    max = r.max * 2;
  }

  realloc-fresh :
      (mem : ℕ → Bool) (r : Ring A)
      → r.size ≡ r.max
      → 0 < r.max
      → r.max < 2 ^ 31
      → mem (ptr_size * (r.max * 2 + 1)) ≡ true
      → realloc_queue mem r
        ≡ (reindex_queue (fresh r) r.first r.last r.max r.size >>= λ s. ok (some s))
  unfolding realloc_queue fresh
  realloc-fresh mem r full pos small granted =
      let doubled : u32 (r.max * 2) ≡ r.max * 2 = omega arith in
      let one_more : u32 (r.max * 2 + 1) ≡ r.max * 2 + 1 = omega arith in
      let one_less : u32 (r.max * 2 + u32_mod - 1) ≡ r.max * 2 - 1 = omega arith in
      let needed : leb r.max r.size ≡ true = ground arith in
      rw (doubled, one_more, one_less, needed, granted)

  old-entries :
      (r : Ring A) (xs : List A)
      → Holds r xs
      → r.size ≡ r.max
      → Lined (take r.size (fresh r).q) r.max r.first xs
  unfolding fresh resize
  old-entries r xs h full j b =
      let at = wrap r.max (r.first + j) in
      let below : at < r.max = wrap-lt r.max r.first j h.first_in (omega (arith, h.sized)) in
      get_elem?-take r.size _ at (omega arith)
      ∙ get_elem?-take (r.max * 2 + 1) _ at (omega arith)
      ∙ get_elem?-append r.q _ at (omega (arith, h.roomy))
      ∙ h.entries j b

  fresh-Holds :
      (r : Ring A) (xs : List A)
      → Holds r xs
      → r.max < 2 ^ 31
      → Holds (record (fresh r) { size = 0 }) []
  unfolding fresh
  fresh-Holds r xs h small = record {
    roomy = omega (arith, length-resize r.q (r.max * 2 + 1));
    sized = refl;
    bounded = omega arith;
    word = omega arith;
    first_in = omega (arith, h.first_in);
    last_in = omega (arith, h.first_in);
    joined = ground (arith, h.first_in);
    entries = λ i b. absurd (omega arith);
  }

  reindex_queue-loop :
      (r : Ring A) (old_first old_last old_max old_size : ℕ)
      → old_size ≤ length r.q
      → reindex_queue r old_first old_last old_max old_size
        ≡ reindex_loop old_size (take old_size r.q) old_first old_last old_max r
  unfolding reindex_queue copy_out
  reindex_queue-loop r old_first old_last old_max old_size b =
      let fits : leb old_size (length r.q) ≡ true = ground arith in rw fits

  -- In a full ring the last entry stands right before the first.
  last-place :
      (r : Ring A) (x : A) (rest : List A)
      → Holds r (x ∷ rest)
      → r.size ≡ r.max
      → wrap r.max (r.first + length rest) ≡ r.last
  last-place r x rest h full = ground (arith, h.joined, h.sized, h.first_in, h.last_in)

  reindex-full :
      (r : Ring A) (x : A) (rest : List A)
      → Holds r (x ∷ rest)
      → r.size ≡ r.max
      → r.max < 2 ^ 31
      → (s : Ring A) × (reindex_queue (fresh r) r.first r.last r.max r.size ≡ ok s)
        × Holds s (x ∷ rest)
        × (s.max ≡ r.max * 2)
  unfolding fresh
  reindex-full r x rest h full small =
      let old = take r.size (fresh r).q in
      let (s, e, g, z, m) =
        reindex_loop_copies old r.max r.first r.size (fresh r) [] x rest (omega (arith, h.sized))
          h.first_in h.word (omega (arith, h.sized)) (omega (arith, h.sized))
          (old-entries r (x ∷ rest) h full) (fresh-Holds r (x ∷ rest) h small) in
      let at_first : wrap r.max (r.first + 0) ≡ r.first = ground (arith, h.first_in) in
      let at_last : wrap r.max (r.first + (0 + length rest)) ≡ r.last =
        ap (λ n. wrap r.max (r.first + n)) (omega arith) ∙ last-place r x rest h full in
      let counted : s.size ≡ suc (length rest) = z ∙ h.sized in
      (
        s,
        reindex_queue-loop (fresh r) r.first r.last r.max r.size
              (omega (arith, h.bounded, length-resize r.q (r.max * 2 + 1)))
            ∙ rw (at_first, at_last) at e,
        subst (λ n. Holds (record s { size = n }) (x ∷ rest)) (sym counted) g,
        m,
      )

  -- A full ring moves whole into one twice as large.
  pub realloc-full :
      (mem : ℕ → Bool) (r : Ring A) (xs : List A)
      → Holds r xs
      → r.size ≡ r.max
      → r.max < 2 ^ 31
      → mem (ptr_size * (r.max * 2 + 1)) ≡ true
      → (s : Ring A) × (realloc_queue mem r ≡ ok (some s)) × Holds s xs × (s.max ≡ r.max * 2)
  realloc-full mem r [] h full small granted = absurd (omega (arith, h.sized, h.first_in))
  realloc-full mem r (x ∷ rest) h full small granted =
      let (s, e, g, m) = reindex-full r x rest h full small in
      (
        s,
        realloc-fresh mem r full (omega (arith, h.first_in)) small granted
            ∙ ap (λ c. c >>= λ t. ok (some t)) e,
        g,
        m,
      )
