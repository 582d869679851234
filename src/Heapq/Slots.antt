-- ===== src/Heapq/Slots.antt =====
-- The array of src/heapq.c as a list of timers followed by slots that hold none.
use mathlib.Core.List.Perm
use jega.Base.{
  ◌==◌, if◌then◌else◌, length, get_elem?, set, get_or, take, length-append, length-set, length-take,
  ok, load, store, load-ok, store-ok, ℕ, zero, suc, ◌+◌, ◌≤◌, ◌<◌, ◌≡◌, refl, ap, ◌∙◌, ◌≢◌, Option,
  none, some, List, [], ◌∷◌, ◌++◌, map, Perm, arith,
}

module _ {ℓ} {A : Type ℓ} where
  abbrev pub slots : List A → List (Option A) → List (Option A)
  slots xs rest = map some xs ++ rest

  get_elem?-slots :
      (xs : List A) (rest : List (Option A)) (i : ℕ) (d : A)
      → i < length xs
      → get_elem? (slots xs rest) i ≡ some (some (get_or xs i d))
  get_elem?-slots [] rest i d h = absurd (omega arith)
  get_elem?-slots (x ∷ xs) rest zero d h = refl
  get_elem?-slots (x ∷ xs) rest (suc i) d h = get_elem?-slots xs rest i d (omega arith)

  pub load-slots :
      (xs : List A) (rest : List (Option A)) (i : ℕ) (d : A)
      → i < length xs
      → load (slots xs rest) i ≡ ok (get_or xs i d)
  load-slots xs rest i d h =
      load-ok (slots xs rest) i (get_or xs i d) (get_elem?-slots xs rest i d h)

  set-slots :
      (xs : List A) (rest : List (Option A)) (i : ℕ) (v : A)
      → i < length xs
      → set (slots xs rest) i (some v) ≡ slots (set xs i v) rest
  set-slots [] rest i v h = absurd (omega arith)
  set-slots (x ∷ xs) rest zero v h = refl
  set-slots (x ∷ xs) rest (suc i) v h = ap (◌∷◌ (some x)) (set-slots xs rest i v (omega arith))

  pub length-slots :
      (xs : List A) (rest : List (Option A)) → length (slots xs rest) ≡ length xs + length rest
  length-slots [] rest = omega arith
  length-slots (x ∷ xs) rest = omega (arith, length-slots xs rest)

  pub store-slots :
      (xs : List A) (rest : List (Option A)) (i : ℕ) (v : A)
      → i < length xs
      → store (slots xs rest) i (some v) ≡ ok (slots (set xs i v) rest)
  store-slots xs rest i v h =
      store-ok (slots xs rest) i (some v) (omega (arith, length-slots xs rest))
      ∙ ap ok (set-slots xs rest i v h)

  pub get_or-set :
      (xs : List A) (i j : ℕ) (v d : A)
      → i < length xs
      → get_or (set xs i v) j d ≡ (if i == j then v else get_or xs j d)
  get_or-set [] i j v d h = absurd (omega arith)
  get_or-set (x ∷ xs) zero zero v d h = refl
  get_or-set (x ∷ xs) (suc i) (suc j) v d h = ground (arith, get_or-set xs i j v d)
  get_or-set (x ∷ xs) i j v d h = ground arith

  -- A write trades the entry that was there for the new one.
  pub set-perm :
      (xs : List A) (i : ℕ) (v d : A) → i < length xs → Perm (get_or xs i d ∷ set xs i v) (v ∷ xs)
  set-perm [] i v d h = absurd (omega arith)
  set-perm (x ∷ xs) zero v d h = Perm.swap v x xs
  set-perm (x ∷ xs) (suc i) v d h =
      Perm.trans (Perm.swap x (get_or xs i d) (set xs i v))
        (Perm.trans (Perm.cons x (set-perm xs i v d (omega arith))) (Perm.swap v x xs))

  -- Moving the entry at `j` into the hole at `i`, and the hole to `j`, keeps the entries.
  pub hole-perm :
      (xs : List A) (i j : ℕ) (v d : A)
      → i < length xs
      → j < length xs
      → i ≢ j
      → Perm (set (set xs i (get_or xs j d)) j v) (set xs i v)
  hole-perm xs i j v d hi hj ne =
      let moved = set xs i (get_or xs j d) in
      let kept : get_or moved j d ≡ get_or xs j d =
        ground (arith, get_or-set xs i j (get_or xs j d) d) in
      let old = get_or xs i d in
      let up = get_or xs j d in
      let rest = set moved j v in
      let second : Perm (up ∷ rest) (v ∷ moved) =
        rw kept at (set-perm moved j v d (rw length-set hj)) in
      let traded : Perm (old ∷ up ∷ rest) (v ∷ up ∷ xs) =
        Perm.trans (Perm.cons old second)
          (Perm.trans (Perm.swap v old moved) (Perm.cons v (set-perm xs i up d hi))) in
      let whole : Perm (v ∷ up ∷ xs) (old ∷ up ∷ set xs i v) = Perm.trans (Perm.swap up v xs) (
        Perm.trans (Perm.cons up (Perm.symm (set-perm xs i v d hi)))
          (Perm.swap old up (set xs i v))) in
      Perm.cons_inv (Perm.cons_inv (Perm.trans traded whole))

  pub set-get_or : (xs : List A) (i : ℕ) (d : A) → set xs i (get_or xs i d) ≡ xs
  set-get_or [] i d = refl
  set-get_or (x ∷ xs) zero d = refl
  set-get_or (x ∷ xs) (suc i) d = ap (◌∷◌ x) (set-get_or xs i d)

  set-end :
      (xs : List A) (r : Option A) (rest : List (Option A)) (v : A)
      → set (slots xs (r ∷ rest)) (length xs) (some v) ≡ slots (xs ++ v ∷ []) rest
  set-end [] r rest v = refl
  set-end (x ∷ xs) r rest v = ap (◌∷◌ (some x)) (set-end xs r rest v)

  -- A store into the first free slot.
  pub store-end :
      (xs : List A) (r : Option A) (rest : List (Option A)) (v : A)
      → store (slots xs (r ∷ rest)) (length xs) (some v) ≡ ok (slots (xs ++ v ∷ []) rest)
  store-end xs r rest v =
      store-ok (slots xs (r ∷ rest)) (length xs) (some v)
        (omega (arith, length-slots xs (r ∷ rest)))
      ∙ ap ok (set-end xs r rest v)

  set-last :
      (n : ℕ) (xs : List A) (rest : List (Option A))
      → length xs ≡ suc n
      → set (slots xs rest) n none ≡ slots (take n xs) (none ∷ rest)
  set-last n [] rest h = absurd (omega arith)
  set-last zero (x ∷ []) rest h = refl
  set-last zero (x ∷ y ∷ xs) rest h = absurd (omega arith)
  set-last (suc n) (x ∷ xs) rest h = ap (◌∷◌ (some x)) (set-last n xs rest (omega arith))

  -- NULL in place of the last timer.
  pub store-last :
      (n : ℕ) (xs : List A) (rest : List (Option A))
      → length xs ≡ suc n
      → store (slots xs rest) n none ≡ ok (slots (take n xs) (none ∷ rest))
  store-last n xs rest h =
      store-ok (slots xs rest) n none (omega (arith, length-slots xs rest))
      ∙ ap ok (set-last n xs rest h)

  pub get_or-append :
      (xs ys : List A) (i : ℕ) (d : A) → i < length xs → get_or (xs ++ ys) i d ≡ get_or xs i d
  get_or-append [] ys i d h = absurd (omega arith)
  get_or-append (x ∷ xs) ys zero d h = refl
  get_or-append (x ∷ xs) ys (suc i) d h = get_or-append xs ys i d (omega arith)

  pub get_or-take :
      (n : ℕ) (xs : List A) (i : ℕ) (d : A) → i < n → get_or (take n xs) i d ≡ get_or xs i d
  get_or-take zero xs i d h = absurd (omega arith)
  get_or-take (suc n) [] i d h = refl
  get_or-take (suc n) (x ∷ xs) zero d h = refl
  get_or-take (suc n) (x ∷ xs) (suc i) d h = get_or-take n xs i d (omega arith)

  pub end-perm : (xs : List A) (v : A) → Perm (xs ++ v ∷ []) (v ∷ xs)
  end-perm [] v = Perm.refl (v ∷ [])
  end-perm (x ∷ xs) v = Perm.trans (Perm.cons x (end-perm xs v)) (Perm.swap v x xs)

  -- Taking the last timer off keeps the timers.
  pub last-perm :
      (n : ℕ) (xs : List A) (d : A) → length xs ≡ suc n → Perm (get_or xs n d ∷ take n xs) xs
  last-perm n [] d h = absurd (omega arith)
  last-perm zero (x ∷ []) d h = Perm.refl (x ∷ [])
  last-perm zero (x ∷ y ∷ xs) d h = absurd (omega arith)
  last-perm (suc n) (x ∷ xs) d h =
      Perm.trans (Perm.swap x (get_or xs n d) (take n xs))
        (Perm.cons x (last-perm n xs d (omega arith)))

  -- The first `n` of more slots keep the timers.
  pub take-slots :
      (xs : List A) (rest extra : List (Option A)) (n : ℕ)
      → length xs ≤ n
      → n ≤ length xs + length rest + length extra
      → (more : List (Option A)) × (take n (slots xs rest ++ extra) ≡ slots xs more)
        × (length xs + length more ≡ n)
  take-slots [] rest extra n h b = (
    take n (rest ++ extra),
    refl,
    omega (arith, length-take n (rest ++ extra), length-append rest extra),
  )
  take-slots (x ∷ xs) rest extra zero h b = absurd (omega arith)
  take-slots (x ∷ xs) rest extra (suc n) h b =
      let (more, e, size) = take-slots xs rest extra n (omega arith) (omega arith) in
      (more, ap (◌∷◌ (some x)) e, omega arith)
