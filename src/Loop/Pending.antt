-- ===== src/Loop/Pending.antt =====
-- fire_pendings of src/loop.c: the pending calls run in the order in which they were scheduled.
use mathlib.Core.List.{mem-cons_of_mem, mem-cons_self}
use jega.Base.{
  length, ok, u32_mod, ℕ, zero, suc, ◌+◌, ◌≤◌, ◌<◌, ◌≡◌, refl, ap, ◌∙◌, Bool, true, false, none,
  some, List, [], ◌∷◌, Mem, arith,
}
use jega.Ring
use jega.Ring.Shift.{shift-cons, shift-nil}
use jega.Timer.{handle, Object, check_handle_obj}
use jega.Loop.{
  running, no_signal, Loop, World, is_running, less_one, check_stop_signal, call_object,
  fire_handle, fire_item, fire_pendings,
}
use jega.Ring.{Ring, queue_shift}

-- A handle that is to be called.
abbrev pub IsFresh : Object → Type 0
IsFresh o =
    (o.kind ≡ handle) × (o.cancelled ≡ false) × (o.called ≡ false) × (o.has_greenlet ≡ false)

-- Callbacks that leave the loop alone, but for the time that they take.
abbrev pub takes : (ℕ → ℕ → ℕ) → World
takes time = record { run = λ i l. record l { clock = time i l.clock }; dead = λ i l. false }

abbrev pub in_turn : (ℕ → ℕ → ℕ) → List ℕ → ℕ → ℕ
in_turn time [] clock = clock
in_turn time (i ∷ is) clock = in_turn time is (time i clock)

pub check_stop_signal-calm :
    (l : Loop) → l.state ≡ running → l.catch_signal ≡ no_signal → check_stop_signal l ≡ (false, l)
unfolding check_stop_signal
check_stop_signal-calm l on quiet = rw (on, quiet) refl

module _ (py_mem c_mem : ℕ → Bool) (time : ℕ → ℕ → ℕ) where
  fire_item-fresh :
      (i : ℕ) (l : Loop)
      → IsFresh (l.objs i)
      → fire_item py_mem c_mem (takes time) i l ≡ ok (record l { clock = time i l.clock })
  unfolding fire_item fire_handle call_object check_handle_obj
  fire_item-fresh i l (is_h, live, new, plain) = rw (is_h, live, new, plain) refl

  abbrev called : ℕ → Loop → Ring ℕ → Loop
  called i l r = record l { pendings = r; clock = time i l.clock; activecnt = less_one l.activecnt }

  fire_pendings-step :
      (fuel i : ℕ) (l : Loop) (r : Ring ℕ)
      → l.state ≡ running
      → l.raised ≡ false
      → l.catch_signal ≡ no_signal
      → queue_shift l.pendings ≡ ok (some i, r)
      → IsFresh (l.objs i)
      → fire_pendings py_mem c_mem (suc fuel) (takes time) l
        ≡ fire_pendings py_mem c_mem fuel (takes time) (called i l r)
  unfolding fire_pendings
  fire_pendings-step fuel i l r on clear quiet shifted fresh =
      let goes : is_running l.state ≡ true = ap is_running on in
      rw
        (
          goes,
          shifted,
          fire_item-fresh i (record l { pendings = r }) fresh,
          check_stop_signal-calm (called i l r) on quiet,
          clear,
        )
        refl

  fire_pendings-end :
      (fuel : ℕ) (l : Loop)
      → l.state ≡ running
      → queue_shift l.pendings ≡ ok (none, l.pendings)
      → fire_pendings py_mem c_mem (suc fuel) (takes time) l ≡ ok (true, l)
  unfolding fire_pendings
  fire_pendings-end fuel l on shifted = rw (ap is_running on, shifted) refl

  -- Pending handles that are to be called are called each once, in the order in which they were
  -- scheduled, and count no more: with callbacks that only take time, and no signal or exception
  -- pending, and fuel for one round more than
  -- there are handles, the clock shows all their times in turn, the queue is empty, and the loop
  -- still runs.
  pub fire_pendings-in_turn :
      (fuel : ℕ) (is : List ℕ) (l : Loop)
      → length is < fuel
      → Ring.Contents.Holds l.pendings is
      → ((i : ℕ) → Mem i is → IsFresh (l.objs i))
      → l.state ≡ running
      → l.raised ≡ false
      → l.catch_signal ≡ no_signal
      → length is ≤ l.activecnt
      → l.activecnt < u32_mod
      → (m : Loop) × (fire_pendings py_mem c_mem fuel (takes time) l ≡ ok (true, m))
        × (m.clock ≡ in_turn time is l.clock)
        × Ring.Contents.Holds m.pendings []
        × (m.activecnt + length is ≡ l.activecnt)
        × (m.objs ≡ l.objs)
        × (m.scheduled ≡ l.scheduled)
        × (m.state ≡ running)
        × (m.raised ≡ false)
        × (m.catch_signal ≡ no_signal)
  fire_pendings-in_turn zero is l enough p fresh on clear quiet counts word = absurd (omega arith)
  fire_pendings-in_turn (suc fuel) [] l enough p fresh on clear quiet counts word = (
    l,
    fire_pendings-end fuel l on (shift-nil l.pendings p),
    refl,
    p,
    omega arith,
    refl,
    refl,
    on,
    clear,
    quiet,
  )
  fire_pendings-in_turn (suc fuel) (i ∷ is) l enough p fresh on clear quiet counts word =
      let (r, shifted, q, same) = shift-cons l.pendings i is p in
      let (m, e, clock, empty, count, objs, heap, still, no_error, no_stop) =
        fire_pendings-in_turn fuel is (called i l r) (omega arith) q
          (λ j m. fresh j (mem-cons_of_mem i m)) on clear quiet (omega (arith, counts, word))
          (omega (arith, counts, word)) in
      (
        m,
        fire_pendings-step fuel i l r on clear quiet shifted (fresh i mem-cons_self) ∙ e,
        clock,
        empty,
        omega (arith, count, counts, word),
        objs,
        heap,
        still,
        no_error,
        no_stop,
      )
