-- ===== src/Ring/Fifo.antt =====
-- The contract of queue.c: a first-in first-out queue with a capacity. A client's calls on the ring
-- give what the same calls give on this queue.
use jega.Base.{
  ltb, if◌then◌else◌, lt→ltb, Bool-cases, length, length-append, Run, ok, ◌>>=◌, ptr_size, ℕ, ◌+◌,
  ◌*◌, ◌^◌, ◌≤◌, ◌<◌, ◌≡◌, refl, ap, ◌∙◌, inl, inr, Bool, false, Option, none, some, List, [], ◌∷◌,
  ◌++◌, arith, dec_lt,
}
use jega.Ring.{Ring, queue_push, queue_push_noext, queue_shift}
use jega.Ring.Contents.{Holds}
use jega.Ring.Shift.{shift-cons, shift-nil}
use jega.Ring.Push.{push-room, push-full, push-refused, noext-room, noext-full}

pub record Fifo {ℓ} (A : Type ℓ) : Type ℓ where
  pub items : List A
  pub capacity : ℕ

pub data Call {ℓ} (A : Type ℓ) : Type ℓ where
  push push_noext : A → Call A
  shift : Call A

-- What a call returns: 1 or -1 for a push, an entry or NULL for a shift.
pub data Reply {ℓ} (A : Type ℓ) : Type ℓ where
  accepted refused : Reply A
  shifted : Option A → Reply A

module _ {ℓ} {A : Type ℓ} where
  abbrev pub added : Fifo A → A → Fifo A
  added f o = record f { items = f.items ++ o ∷ [] }

  -- One call on the abstract queue.
  unfoldable pub answer : (ℕ → Bool) → Call A → Fifo A → Reply A × Fifo A
  answer mem (push o) f =
      if ltb (length f.items) f.capacity
      then (accepted, added f o)
      else if mem (ptr_size * (f.capacity * 2 + 1))
      then (accepted, record (added f o) { capacity = f.capacity * 2 })
      else (refused, f)
  answer mem (push_noext o) f =
      if ltb (length f.items) f.capacity then (accepted, added f o) else (refused, f)
  answer mem shift f = elim f.items [
    | [] ↦ (shifted none, f)
    | x ∷ xs ↦ (shifted (some x), record f { items = xs })
  ]

  abbrev pub answers : (ℕ → Bool) → List (Call A) → Fifo A → List (Reply A) × Fifo A
  answers mem [] f = ([], f)
  answers mem (c ∷ cs) f =
      let (x, g) = answer mem c f in let (xs, h) = answers mem cs g in (x ∷ xs, h)

  abbrev replied : Ring A → Option (Ring A) → Run (Reply A × Ring A)
  replied r none = ok (refused, r)
  replied r (some s) = ok (accepted, s)

  -- One call on the ring.
  pub perform : (ℕ → Bool) → Call A → Ring A → Run (Reply A × Ring A)
  perform mem (push o) r = queue_push mem r o >>= replied r
  perform mem (push_noext o) r = queue_push_noext r o >>= replied r
  perform mem shift r = queue_shift r >>= λ (x, s). ok (shifted x, s)

  pub performs : (ℕ → Bool) → List (Call A) → Ring A → Run (List (Reply A) × Ring A)
  performs mem [] r = ok ([], r)
  performs mem (c ∷ cs) r =
      perform mem c r >>= λ (x, s). performs mem cs s >>= λ (xs, t). ok (x ∷ xs, t)

  -- The ring stands for the abstract queue.
  abbrev pub Implements : Ring A → Fifo A → Type ℓ
  Implements r f = Holds r f.items × (r.max ≡ f.capacity)

  abbrev pub Agrees : Reply A × Fifo A → Run (Reply A × Ring A) → Type ℓ
  Agrees (x, f) m = (s : Ring A) × (m ≡ ok (x, s)) × Implements s f

  push-Agrees :
      (mem : ℕ → Bool) (o : A) (r : Ring A) (f : Fifo A)
      → Implements r f
      → length f.items < 2 ^ 31
      → Agrees (answer mem (push o) f) (perform mem (push o) r)
  unfolding answer perform
  push-Agrees mem o r f (h, m) small = elim (dec_lt (length f.items) f.capacity) [
    | yes below ↦
        let (s, e, g, k) = push-room mem r f.items o h (omega (arith, h.sized)) in
        rw (lt→ltb _ _ below, e) (s, refl, (g, k ∙ m))
    | no above ↦
        let spent : ltb (length f.items) f.capacity ≡ false = ground arith in
        let full : r.size ≡ r.max = omega (arith, h.sized, h.bounded) in
        elim (Bool-cases (mem (ptr_size * (f.capacity * 2 + 1)))) [
          | inl granted ↦
              let (s, e, g, k) =
                push-full mem r f.items o h full (omega (arith, h.sized))
                  (ap (λ n. mem (ptr_size * (n * 2 + 1))) m ∙ granted) in
              rw (spent, granted, e) (s, refl, (g, k ∙ ap (λ n. n * 2) m))
          | inr denied ↦
              let e =
                push-refused mem r o full (omega (arith, h.sized))
                  (ap (λ n. mem (ptr_size * (n * 2 + 1))) m ∙ denied) in
              rw (spent, denied, e) (r, refl, (h, m))
        ]
  ]

  push_noext-Agrees :
      (mem : ℕ → Bool) (o : A) (r : Ring A) (f : Fifo A)
      → Implements r f
      → Agrees (answer mem (push_noext o) f) (perform mem (push_noext o) r)
  unfolding answer perform
  push_noext-Agrees mem o r f (h, m) = elim (dec_lt (length f.items) f.capacity) [
    | yes below ↦
        let (s, e, g, k) = noext-room r f.items o h (omega (arith, h.sized)) in
        rw (lt→ltb _ _ below, e) (s, refl, (g, k ∙ m))
    | no above ↦
        let spent : ltb (length f.items) f.capacity ≡ false = ground arith in
        rw (spent, noext-full r o (omega (arith, h.sized))) (r, refl, (h, m))
  ]

  shift-Agrees :
      (mem : ℕ → Bool) (r : Ring A) (items : List A) (capacity : ℕ)
      → Holds r items
      → r.max ≡ capacity
      → Agrees
          (answer mem shift (record { items = items; capacity = capacity }))
          (perform mem shift r)
  unfolding answer perform
  shift-Agrees mem r [] capacity h m = rw (shift-nil r h) (r, refl, (h, m))
  shift-Agrees mem r (x ∷ xs) capacity h m =
      let (s, e, g, k) = shift-cons r x xs h in rw e (s, refl, (g, k ∙ m))

  -- Each call on the ring answers as the abstract queue does, and leaves a ring that stands for what
  -- the abstract queue has become, as long as there are fewer than 2 ^ 31 entries.
  pub perform-Agrees :
      (mem : ℕ → Bool) (c : Call A) (r : Ring A) (f : Fifo A)
      → Implements r f
      → length f.items < 2 ^ 31
      → Agrees (answer mem c f) (perform mem c r)
  perform-Agrees mem (push o) r f i small = push-Agrees mem o r f i small
  perform-Agrees mem (push_noext o) r f i small = push_noext-Agrees mem o r f i
  perform-Agrees mem shift r f i small = shift-Agrees mem r f.items f.capacity i.0 i.1

  length-answer :
      (mem : ℕ → Bool) (c : Call A) (f : Fifo A)
      → length (answer mem c f).1.items ≤ length f.items + 1
  unfolding answer
  length-answer mem (push o) f = ground (arith, length-append f.items (o ∷ []))
  length-answer mem (push_noext o) f = ground (arith, length-append f.items (o ∷ []))
  length-answer mem shift f = ground arith

  -- Any sequence of calls on a ring returns, without a fault, the answers of the abstract queue, and
  -- leaves a ring that stands for its final state. Fewer than 2 ^ 31 entries must ever be possible.
  pub performs-refines :
      (mem : ℕ → Bool) (cs : List (Call A)) (r : Ring A) (f : Fifo A)
      → Implements r f
      → length f.items + length cs < 2 ^ 31
      → (s : Ring A) × (performs mem cs r ≡ ok ((answers mem cs f).0, s))
        × Implements s (answers mem cs f).1
  unfolding performs
  performs-refines mem [] r f i small = (r, refl, i)
  performs-refines mem (c ∷ cs) r f i small =
      let (s, e, j) = perform-Agrees mem c r f i (omega arith) in
      let (t, d, k) =
        performs-refines mem cs s (answer mem c f).1 j (omega (arith, length-answer mem c f)) in
      (t, rw (e, d), k)
