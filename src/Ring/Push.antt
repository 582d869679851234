-- ===== src/Ring/Push.antt =====
-- queue_push and queue_push_noext of src/queue.c against the list of entries.
use jega.Base.{
  leb, length, take, replicate, length-append, length-take, fault, ok, u32, ptr_size, ℕ, ◌+◌, ◌*◌,
  ◌^◌, ◌≤◌, ◌<◌, ◌≡◌, ◌∙◌, Bool, true, false, Option, none, some, List, [], ◌∷◌, ◌++◌, arith,
  dec_lt,
}
use jega.Ring.{Ring, copy_out, reindex_queue, resize, realloc_queue, queue_push, queue_push_noext}
use jega.Ring.Contents.{Holds, append-Holds}
use jega.Ring.Grow.{realloc-full}

module _ {ℓ} {A : Type ℓ} where
  -- While there is room the ring is not replaced.
  realloc-room : (mem : ℕ → Bool) (r : Ring A) → r.size < r.max → realloc_queue mem r ≡ ok (some r)
  unfolding realloc_queue
  realloc-room mem r room = let spare : leb r.max r.size ≡ false = ground arith in rw spare

  -- queue_push puts the entry behind the others, and keeps the capacity, while there is room.
  pub push-room :
      (mem : ℕ → Bool) (r : Ring A) (xs : List A) (o : A)
      → Holds r xs
      → r.size < r.max
      → (s : Ring A) × (queue_push mem r o ≡ ok (some s)) × Holds s (xs ++ o ∷ []) × (s.max ≡ r.max)
  unfolding queue_push
  push-room mem r xs o h room = rw (realloc-room mem r room) (append-Holds r xs o h room)

  -- queue_push doubles the capacity of a full queue, and then puts the entry behind the others.
  pub push-full :
      (mem : ℕ → Bool) (r : Ring A) (xs : List A) (o : A)
      → Holds r xs
      → r.size ≡ r.max
      → r.max < 2 ^ 31
      → mem (ptr_size * (r.max * 2 + 1)) ≡ true
      → (s : Ring A) × (queue_push mem r o ≡ ok (some s))
        × Holds s (xs ++ o ∷ [])
        × (s.max ≡ r.max * 2)
  unfolding queue_push
  push-full mem r xs o h full small granted =
      let (g, e, held, doubled) = realloc-full mem r xs h full small granted in
      let (s, f, holds, kept) =
        append-Holds g xs o held (omega (arith, held.sized, h.sized, h.first_in)) in
      (s, rw e f, holds, kept ∙ doubled)

  -- A full queue that the allocator refuses to extend stays as it was, and the push fails.
  pub push-refused :
      (mem : ℕ → Bool) (r : Ring A) (o : A)
      → r.size ≡ r.max
      → r.max < 2 ^ 31
      → mem (ptr_size * (r.max * 2 + 1)) ≡ false
      → queue_push mem r o ≡ ok none
  unfolding queue_push realloc_queue
  push-refused mem r o full small refused =
      let one_more : u32 (u32 (r.max * 2) + 1) ≡ r.max * 2 + 1 = omega arith in
      let needed : leb r.max r.size ≡ true = ground arith in rw (needed, one_more, refused)

  -- At 2 ^ 31 entries the doubled capacity wraps to 0, and the copy reads outside the new array.
  pub push-overflow :
      (mem : ℕ → Bool) (r : Ring A) (o : A)
      → r.size ≡ r.max
      → r.max ≡ 2 ^ 31
      → mem ptr_size ≡ true
      → queue_push mem r o ≡ fault
  unfolding queue_push realloc_queue reindex_queue copy_out resize
  push-overflow mem r o full top granted =
      let wrapped : u32 (r.max * 2) ≡ 0 = omega arith in
      let needed : leb r.max r.size ≡ true = ground arith in
      let cut =
        length-take 1 (r.q ++ replicate {A = Option A} 1 none)
          (omega (arith, length-append r.q (replicate {A = Option A} 1 none))) in
      let outside : leb r.size (length (take 1 (r.q ++ replicate {A = Option A} 1 none))) ≡ false =
        rw cut (ground arith) in
      rw (needed, wrapped, granted, outside)

  -- queue_push_noext accepts an entry exactly when there is room, and never extends the queue.
  pub noext-room :
      (r : Ring A) (xs : List A) (o : A)
      → Holds r xs
      → r.size < r.max
      → (s : Ring A) × (queue_push_noext r o ≡ ok (some s))
        × Holds s (xs ++ o ∷ [])
        × (s.max ≡ r.max)
  unfolding queue_push_noext
  noext-room r xs o h room =
      let spare : leb r.max r.size ≡ false = ground arith in rw spare (append-Holds r xs o h room)

  pub noext-full : (r : Ring A) (o : A) → r.max ≤ r.size → queue_push_noext r o ≡ ok none
  unfolding queue_push_noext
  noext-full r o full = let over : leb r.max r.size ≡ true = ground arith in rw over

  -- While the allocator grants every request and there are fewer than 2 ^ 31 entries, a push
  -- succeeds.
  pub push-granted :
      (mem : ℕ → Bool) (r : Ring A) (xs : List A) (o : A)
      → ((n : ℕ) → mem n ≡ true)
      → Holds r xs
      → length xs < 2 ^ 31
      → (s : Ring A) × (queue_push mem r o ≡ ok (some s)) × Holds s (xs ++ o ∷ [])
  push-granted mem r xs o grants h small = elim (dec_lt r.size r.max) [
    | yes room ↦ let (s, e, g, m) = push-room mem r xs o h room in (s, e, g)
    | no over ↦
        let full : r.size ≡ r.max = omega (arith, h.bounded) in
        let (s, e, g, m) = push-full mem r xs o h full (omega (arith, h.sized)) (grants _) in
        (s, e, g)
  ]
