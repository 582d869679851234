-- ===== src/Futures/Removal.antt =====
-- remove_done_callback of src/futures.c against a filter.
use jega.Base.{
  if◌then◌else◌, Bool-cases, length, Run, ok, ℕ, zero, suc, ◌+◌, ◌<◌, ◌≡◌, refl, sym, ap, ◌∙◌, inl,
  inr, Bool, false, Option, none, some, List, [], ◌∷◌, arith,
}
use jega.Futures.{Tasks, set_future, index_of, del_item, remove_loop, remove_done_callback}

module _ (same : ℕ → ℕ → Bool) (cb : ℕ) where
  -- The callbacks that are not equal to `cb`.
  abbrev pub without : List ℕ → List ℕ
  without [] = []
  without (x ∷ xs) = if same x cb then without xs else x ∷ without xs

  abbrev Finds : List ℕ → Option ℕ → Type 0
  Finds xs none = without xs ≡ xs
  Finds xs (some i) =
      (without (del_item xs i) ≡ without xs) × (length (del_item xs i) + 1 ≡ length xs)

  Finds-later :
      (x : ℕ) (xs : List ℕ) (o : Option ℕ)
      → same x cb ≡ false
      → Finds xs o
      → Finds (x ∷ xs) (elim o [ none ↦ none | some i ↦ some (suc i) ])
  Finds-later x xs none other h = rw (other, h) refl
  Finds-later x xs (some i) other (kept, shorter) = (rw (other, kept) refl, omega (arith, shorter))

  index_of-Finds : (xs : List ℕ) → Finds xs (index_of same cb xs)
  index_of-Finds [] = refl
  index_of-Finds (x ∷ xs) = elim (Bool-cases (same x cb)) [
    | inl hit ↦
        let skipped : without (x ∷ xs) ≡ without xs =
          ap (λ b. if b then without xs else x ∷ without xs) hit in
        rw hit (sym skipped, omega arith)
    | inr other ↦ rw other (Finds-later x xs (index_of same cb xs) other (index_of-Finds xs))
  ]

  abbrev next_round : ℕ → List ℕ → Option ℕ → Run (List ℕ)
  next_round fuel xs none = ok xs
  next_round fuel xs (some i) = remove_loop fuel same cb (del_item xs i)

  remove_loop-step :
      (fuel : ℕ) (xs : List ℕ) (o : Option ℕ)
      → index_of same cb xs ≡ o
      → Finds xs o
      → length xs < suc fuel
      → ((ys : List ℕ) → length ys < fuel → remove_loop fuel same cb ys ≡ ok (without ys))
      → remove_loop (suc fuel) same cb xs ≡ ok (without xs)
  unfolding remove_loop
  remove_loop-step fuel xs none e h enough rest = ap (next_round fuel xs) e ∙ ap ok (sym h)
  remove_loop-step fuel xs (some i) e (kept, shorter) enough rest =
      ap (next_round fuel xs) e ∙ rest (del_item xs i) (omega (arith, shorter, enough)) ∙ ap ok kept

  remove_loop-filters :
      (fuel : ℕ) (xs : List ℕ) → length xs < fuel → remove_loop fuel same cb xs ≡ ok (without xs)
  remove_loop-filters zero xs enough = absurd (omega arith)
  remove_loop-filters (suc fuel) xs enough =
      remove_loop-step fuel xs (index_of same cb xs) refl (index_of-Finds xs) enough
        (remove_loop-filters fuel)

  -- Deleting the first equal callback until there is none ends, and it is the same as one pass that
  -- keeps the callbacks that are not equal to `cb`, in their order. All else stays.
  pub remove_done_callback-filters :
      (s : Tasks) (self : ℕ)
      → remove_done_callback same s self cb
        ≡ ok (
            set_future s self
              (record (s.futures self) { callbacks = without (s.futures self).callbacks }))
  unfolding remove_done_callback
  remove_done_callback-filters s self =
      rw
        (remove_loop-filters (length (s.futures self).callbacks + 1) (s.futures self).callbacks
          (omega arith))
        refl
