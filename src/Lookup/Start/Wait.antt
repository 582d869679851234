-- ===== src/Lookup/Start/Wait.antt =====
-- wait_lookup of src/lookup.c: what it returns, and what is left of the context.
use jega.Base.{
  if◌then◌else◌, ==_iff, fault, ok, ℕ, zero, suc, ◌<◌, ◌≡◌, refl, ap, ◌∙◌, Bool, true, false, ◌||◌,
  Option, none, some, List, arith,
}
use jega.Lookup.{HostEntry, Context, World, Status, is_ended, dealloc_ctx, gethostbyname_ex_cb}
use jega.Lookup.Start.{wait_loop, wait_lookup}

module _ {Rest : Type 0} (loop_switch : World Rest → Bool × World Rest) (p : ℕ) where
  -- `n` switches in a row come back without an error, each from a world in which nothing has called
  -- back and no exception is set.
  pub data Waits : ℕ → World Rest → World Rest → Type 0 where
    arrived : {w : World Rest} → Waits 0 w w
    switched :
        {n m : ℕ} {w v t : World Rest} {c : Context}
        → w.contexts p ≡ some c
        → c.called ≡ false
        → w.error ≡ false
        → loop_switch w ≡ (true, v)
        → Waits n v t
        → m ≡ suc n
        → Waits m w t

  wait_loop-arrives :
      (fuel n : ℕ) (w t : World Rest) (c : Context)
      → Waits n w t
      → t.contexts p ≡ some c
      → (c.called || t.error) ≡ true
      → n < fuel
      → wait_loop loop_switch fuel w p ≡ ok t
  unfolding wait_loop
  wait_loop-arrives zero n w t c waits at over enough = absurd (omega arith)
  wait_loop-arrives (suc fuel) n w t c arrived at over enough = ground (arith, at, over)
  wait_loop-arrives (suc fuel) n w t c (switched {n = k} {v = v} here early calm back rest more) at
        over enough =
      ground
        (arith, here, early, calm, back, wait_loop-arrives fuel k v t c rest at over (omega arith))

  -- A lookup that switches to the loop until its callback has been called, or an exception is set,
  -- returns what its context holds then, and its context is freed; all else is as it was then. It needs
  -- switches that come back without an error, and fuel for them and one more round.
  pub wait_lookup-answers :
      (fuel n : ℕ) (w t : World Rest) (c : Context)
      → Waits n w t
      → t.contexts p ≡ some c
      → (c.called || t.error) ≡ true
      → n < fuel
      → wait_lookup loop_switch fuel w p ≡ ok (c.result, dealloc_ctx t p)
  unfolding wait_lookup
  wait_lookup-answers fuel n w t c waits at over enough =
      let runs = wait_loop-arrives fuel n w t c waits at over enough in
      rw runs (ground (arith, at, over))

  module _ (switch : Option ℕ → World Rest → World Rest) (ntop : ℕ → List ℕ → Option (List ℕ)) where
    freed : (u : World Rest) (q : ℕ) → (dealloc_ctx u q).contexts q ≡ none
    freed u q = ap (λ b. if b then none else u.contexts q) ((==_iff q q).1 refl)

    -- When the switch fails, with an exception set, before the callback has been called, the context is
    -- freed all the same, and when c-ares calls the callback of gethostbyname_ex afterwards, with any
    -- outcome but the end of its channel, the callback uses a block that is not allocated, whatever
    -- happened in between, as long as the block was not allocated again.
    pub wait_lookup-dangles :
        (fuel : ℕ) (w v : World Rest) (c d : Context) (later : World Rest → World Rest)
        (status : Status) (host : Option HostEntry) (utf8 : List ℕ → Bool)
        → w.contexts p ≡ some c
        → c.called ≡ false
        → w.error ≡ false
        → loop_switch w ≡ (false, v)
        → v.contexts p ≡ some d
        → v.error ≡ true
        → ((u : World Rest) → (later u).contexts p ≡ u.contexts p)
        → is_ended status ≡ false
        → (wait_lookup loop_switch (suc fuel) w p ≡ ok (d.result, dealloc_ctx v p))
          × (gethostbyname_ex_cb switch ntop utf8 (later (dealloc_ctx v p)) p status host ≡ fault)
    unfolding wait_lookup wait_loop gethostbyname_ex_cb
    wait_lookup-dangles fuel w v c d later status host utf8 at early calm back then_at fails same
          ended =
        let free : (later (dealloc_ctx v p)).contexts p ≡ none =
          same (dealloc_ctx v p) ∙ freed v p in
        (ground (arith, at, early, calm, back, then_at, fails), ground (arith, free, ended))
