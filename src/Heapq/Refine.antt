-- ===== src/Heapq/Refine.antt =====
-- Any sequence of pushes and pops of src/heapq.c on a heap of timers, against a bag of them.
use jega.Base.{
  length, length-perm, Run, ok, ◌>>=◌, Ends, ends, Ends-then, Ends-value, ℕ, ◌+◌, ◌^◌, ◌≤◌, ◌<◌,
  ◌≡◌, refl, ap, ◌∙◌, Bool, true, Option, none, some, List, [], ◌∷◌, Perm, arith, dec_lt,
}
use jega.Heapq.{Heapq, heappop, heappush}
use jega.Heapq.Pop.{IsEarliest, heappop-Popped, heappop-empty}
use jega.Heapq.Timers.{Contains, heappush-granted}
use jega.Heapq.Slots.{length-slots}

pub data HeapCall {ℓ} (A : Type ℓ) : Type ℓ where
  push : A → HeapCall A
  pop : HeapCall A

pub data Reply {ℓ} (A : Type ℓ) : Type ℓ where
  pushed refused : Reply A
  popped : Option A → Reply A

module _ {ℓ} {A : Type ℓ} (seconds : A → ℕ) where
  -- A push that is refused leaves the heap as it was.
  abbrev pub after_push : Heapq A → Option (Heapq A) → Reply A × Heapq A
  after_push q none = (refused, q)
  after_push q (some s) = (pushed, s)

  abbrev pub perform : (ℕ → Bool) → HeapCall A → Heapq A → Run (Reply A × Heapq A)
  perform mem (push v) q = heappush seconds mem q v >>= λ r. ok (after_push q r)
  perform mem pop q = heappop seconds q >>= λ (r, s). ok (popped r, s)

  pub performs : (ℕ → Bool) → List (HeapCall A) → Heapq A → Run (List (Reply A) × Heapq A)
  performs mem [] q = ok ([], q)
  performs mem (call ∷ calls) q =
      perform mem call q >>= λ (r, s). performs mem calls s >>= λ (rs, t). ok (r ∷ rs, t)

  -- A bag of timers may answer the calls so: a push adds the timer, and a pop takes one that none in the
  -- bag is earlier than, or none from an empty bag.
  pub data Serves : List A → List (HeapCall A) → List (Reply A) → List A → Type ℓ where
    served : {xs : List A} → Serves xs [] [] xs
    added :
        {xs zs : List A} {calls : List (HeapCall A)} {rs : List (Reply A)} (v : A)
        → Serves (v ∷ xs) calls rs zs
        → Serves xs (push v ∷ calls) (pushed ∷ rs) zs
    taken :
        {xs ys zs : List A} {calls : List (HeapCall A)} {rs : List (Reply A)} (t : A)
        → Perm (t ∷ ys) xs
        → IsEarliest seconds t xs
        → Serves ys calls rs zs
        → Serves xs (pop ∷ calls) (popped (some t) ∷ rs) zs
    dry :
        {xs zs : List A} {calls : List (HeapCall A)} {rs : List (Reply A)}
        → xs ≡ []
        → Serves xs calls rs zs
        → Serves xs (pop ∷ calls) (popped none ∷ rs) zs

  abbrev pub ServesAs : List A → List (HeapCall A) → List (Reply A) × Heapq A → Type ℓ
  ServesAs xs calls (rs, s) = (zs : List A) × Serves xs calls rs zs × Contains seconds s zs

  size-Contains :
      (q : Heapq A) (xs : List A) → Contains seconds q xs → (q.size ≡ length xs) × (q.size ≤ q.max)
  size-Contains q xs c = (
    c.1.sized ∙ length-perm c.2,
    omega (arith, c.1.sized, c.1.roomy, ap length c.1.laid, length-slots c.0 c.1.rest),
  )

  empty_of_length : (xs : List A) → length xs ≡ 0 → xs ≡ []
  empty_of_length [] e = refl
  empty_of_length (x ∷ xs) e = absurd (omega arith)

  -- While memory is granted and there are fewer than 2^30 timers and calls together, any sequence of
  -- pushes and pops on a heap comes to an end, answers as a bag of its timers may, with every push done
  -- and every pop giving an earliest timer, and leaves a heap of the timers that the bag has left.
  pub performs-Serves :
      (mem : ℕ → Bool) (calls : List (HeapCall A)) (q : Heapq A) (xs : List A)
      → ((n : ℕ) → mem n ≡ true)
      → Contains seconds q xs
      → 0 < q.max
      → length xs + length calls < 2 ^ 30
      → Ends (ServesAs xs calls) (performs mem calls q)
  unfolding performs
  performs-Serves mem [] q xs grants c pos few = ends (xs, served, c)
  performs-Serves mem (push v ∷ calls) q xs grants c pos few =
      let (s, runs, held) = heappush-granted seconds mem q xs v grants c pos (omega arith) in
      let (sized, within) = size-Contains s (v ∷ xs) held in
      rw runs (
        Ends-then
          (performs-Serves mem calls s (v ∷ xs) grants held (omega (arith, sized, within))
            (omega arith))
          (λ (rs, t) (zs, serves, kept). ends (zs, added v serves, kept)))
  performs-Serves mem (pop ∷ calls) q xs grants c pos few =
      let (sized, within) = size-Contains q xs c in
      elim (dec_lt 0 q.size) [
        | no none_left ↦ rw (heappop-empty seconds q (omega arith)) (
            Ends-then (performs-Serves mem calls q xs grants c pos (omega arith))
              (λ (rs, t) (zs, serves, kept).
                ends (zs, dry (empty_of_length xs (omega (arith, sized))) serves, kept)))
        | yes some_left ↦
            let ((r, s), runs, (t, others, e, root, held, all, earliest, m)) =
              Ends-value (heappop-Popped seconds q xs c some_left) in
            rw (runs, e)
              (Ends-then
                (performs-Serves mem calls s others grants held (omega (arith, m))
                  (omega (arith, length-perm all)))
                (λ (rs, u) (zs, serves, kept). ends (zs, taken t all earliest serves, kept)))
      ]
