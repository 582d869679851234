-- ===== src/Ring/Tests.antt =====
-- Runs of queue.c on small queues, and the theorems at concrete inputs.
use jega.Base.{
  get_elem?, fault, ok, ◌>>=◌, load, store, ℕ, zero, suc, ◌+◌, ◌-◌, ◌^◌, ◌<◌, ◌≡◌, refl, Bool, true,
  none, some, List, [], ◌∷◌, arith,
}
use jega.Ring.{
  Ring, next_index, init_queue, put, reindex_loop, copy_out, reindex_queue, resize, realloc_queue,
  append, queue_push, queue_shift,
}
use jega.Ring.Contents.{Holds}
use jega.Ring.Grow.{realloc-full}
use jega.Ring.Push.{push-overflow}
use jega.Ring.Shift.{init-Holds}
use jega.Ring.Fifo.{
  Fifo, Call, push, push_noext, shift, accepted, shifted, answer, answers, performs, Implements,
  performs-refines,
}
use jega.Ring.Wrap.{wrap}

abbrev plenty : ℕ → Bool
plenty n = true

-- A queue of two slots, the third one spare, full of 7 and 8, the older entry in slot 1.
abbrev full_ring : Ring ℕ
full_ring = record { q = some 8 ∷ some 7 ∷ none ∷ []; first = 1; last = 0; size = 2; max = 2 }

full_entries :
    (i : ℕ) → i < 2 → get_elem? full_ring.q (wrap 2 (1 + i)) ≡ some (get_elem? (7 ∷ 8 ∷ []) i)
full_entries zero h = refl
full_entries (suc zero) h = refl
full_entries (suc (suc i)) h = absurd (omega arith)

full_ring-Holds : Holds full_ring (7 ∷ 8 ∷ [])
full_ring-Holds = record {
  roomy = omega arith;
  sized = refl;
  bounded = omega arith;
  word = omega arith;
  first_in = omega arith;
  last_in = omega arith;
  joined = refl;
  entries = full_entries;
}

grown_ring : Ring ℕ
grown_ring = record {
  q = some 7 ∷ some 8 ∷ some 9 ∷ none ∷ none ∷ [];
  first = 0;
  last = 2;
  size = 3;
  max = 4;
}

-- A push on the full queue moves the entries into order and doubles the capacity.
push_grows : queue_push plenty full_ring 9 ≡ ok (some grown_ring)
unfolding queue_push realloc_queue reindex_queue reindex_loop copy_out put append next_index resize
    load store grown_ring
push_grows = refl

shift_oldest : (queue_shift full_ring >>= λ (x, r). ok x) ≡ ok (some 7)
unfolding queue_shift next_index load
shift_oldest = refl

abbrev calls : List (Call ℕ)
calls = push 9 ∷ shift ∷ push_noext 4 ∷ shift ∷ []

abbrev full_fifo : Fifo ℕ
full_fifo = record { items = 7 ∷ 8 ∷ []; capacity = 2 }

answers_in_order :
    (answers plenty calls full_fifo).0
    ≡ accepted ∷ shifted (some 7) ∷ accepted ∷ shifted (some 8) ∷ []
unfolding answer
answers_in_order = refl

performs-refines_example :
    (s : Ring ℕ) × (performs plenty calls full_ring ≡ ok ((answers plenty calls full_fifo).0, s))
    × Implements s (answers plenty calls full_fifo).1
performs-refines_example =
    performs-refines plenty calls full_ring full_fifo (full_ring-Holds, refl) (omega arith)

full_doubles :
    (s : Ring ℕ) × (realloc_queue plenty full_ring ≡ ok (some s))
    × Holds s (7 ∷ 8 ∷ [])
    × (s.max ≡ 4)
full_doubles = realloc-full plenty full_ring (7 ∷ 8 ∷ []) full_ring-Holds refl (omega arith) refl

queue_of_32 : (r : Ring ℕ) × (init_queue plenty 32 ≡ some r) × Holds r [] × (r.max ≡ 32)
queue_of_32 = init-Holds plenty 32 (omega arith) (omega arith) refl refl

-- The array plays no part: the copy reads outside what is left of it.
abbrev huge_ring : Ring ℕ
huge_ring = record { q = []; first = 0; last = 2 ^ 31 - 1; size = 2 ^ 31; max = 2 ^ 31 }

push-overflow_example : queue_push plenty huge_ring 5 ≡ fault
push-overflow_example = push-overflow plenty huge_ring 5 refl refl refl
