-- ===== src/Events/Tests.antt =====
-- Callbacks of two descriptors, and the theorems at them.
use jega.Base.{ok, Ends, ℕ, ◌≤◌, ◌≡◌, refl, Bool, true, false, Option, none, some, [], ◌∷◌, arith}
use jega.Events.{
  fd_callback, Io, set_carg, reader, writer, make_callback_arg, remove_reader, remove_writer,
  del_event, internal_io_trampoline, call_fork_loop, register_fd_callback, add_reader, add_writer,
}
use jega.Loop.{stop}
use jega.Events.Sample.{Arrays, put, arrays, put_elsewhere, arrays-IsLawful, none_active, idle}
use jega.Events.Counted.{active_below}
use jega.Events.Table.{
  with_reader, with_writer, without_reader, without_writer, table, Tidy, IsFresh, Updates,
}
use jega.Events.Watched.{
  remove_reader-watches, remove_writer-watches, add_reader-watches, add_writer-watches,
}
use jega.Events.Waits.{internal_io_trampoline-balances}
use jega.Events.Session.{read_with, write_with, end_read, apply_calls, performs, performs-applies}
use jega.Events.Dispatch.{run_fd_callback, KeepsEvents}
use jega.Events.Dispatch.Safe.{chosen, performs-dispatches}
use jega.Events.Dispatch.Armed.{Armed}

idle-Tidy : Tidy arrays arrays-IsLawful 4 idle
idle-Tidy = record {
  counts = refl;
  callbacks = λ fd on. absurd (ground (arith, on));
  apart = λ i j p on. absurd (ground (arith, on));
  unforked = refl;
}

-- The descriptor 3 has a callback for reading, at the block 9.
abbrev reading : Io Arrays
reading = record {
  main_loop = record {
    active = put none_active 3 true;
    target_of = λ fd. fd_callback 9;
    events_of = λ fd. 1;
  };
  cargs = λ p. reader (some 70) none;
  ioactivecnt = 1;
  postfork = false;
  error_set = false;
  state = stop;
}

only_three : (j : ℕ) → put none_active 3 true j ≡ true → j ≡ 3
only_three j on = ground (arith, on)

reading-Tidy : Tidy arrays arrays-IsLawful 4 reading
reading-Tidy = record {
  counts = refl;
  callbacks = λ fd on. (9, refl);
  apart = λ i j p on also x y. ground (arith, only_three i on, only_three j also);
  unforked = refl;
}

reading-IsFresh : IsFresh arrays arrays-IsLawful 4 reading 8
reading-IsFresh = λ j on e. absurd (ground (arith, e))

abbrev no_reset : Io Arrays → Bool × Io Arrays
no_reset l = (true, l)

writer_joins :
    Ends
      (λ r.
        (r.0 ≡ true)
        × Updates arrays arrays-IsLawful 4 reading 3
            (some (with_writer 71 none (table arrays arrays-IsLawful 4 reading 3)))
            r.1)
      (add_writer arrays no_reset reading (some 8) 3 71 none)
writer_joins =
    add_writer-watches arrays arrays-IsLawful 4 (omega arith) no_reset (λ s fd e m t. refl)
      (λ s fd e. refl) reading 3 8 71 none reading-Tidy reading-IsFresh (omega arith)

reader_alone :
    Ends
      (λ r.
        (r.0 ≡ true)
        × Updates arrays arrays-IsLawful 4 reading 2
            (some (with_reader 72 (some 5) (table arrays arrays-IsLawful 4 reading 2)))
            r.1)
      (add_reader arrays no_reset reading (some 8) 2 72 (some 5))
reader_alone =
    add_reader-watches arrays arrays-IsLawful 4 (omega arith) no_reset (λ s fd e m t. refl)
      (λ s fd e. refl) reading 2 8 72 (some 5) reading-Tidy reading-IsFresh (omega arith)

reader_leaves :
    Ends
      (Updates arrays arrays-IsLawful 4 reading 3
        (without_reader (table arrays arrays-IsLawful 4 reading 3)))
      (remove_reader arrays reading 3)
reader_leaves =
    remove_reader-watches arrays arrays-IsLawful 4 (omega arith) reading 3 reading-Tidy
      (omega arith)

no_writer_leaves :
    Ends
      (Updates arrays arrays-IsLawful 4 reading 3
        (without_writer (table arrays arrays-IsLawful 4 reading 3)))
      (remove_writer arrays reading 3)
no_writer_leaves =
    remove_writer-watches arrays arrays-IsLawful 4 (omega arith) reading 3 reading-Tidy
      (omega arith)

internal_io_trampoline-balances_example :
    (let r = internal_io_trampoline arrays true no_reset idle 5 2 1 0 none in
      (r.1.ioactivecnt ≡ active_below (arrays.is_active r.1.main_loop) 4)
      × (arrays.is_active r.1.main_loop 2 ≡ false))
internal_io_trampoline-balances_example =
    internal_io_trampoline-balances arrays arrays-IsLawful 4 (omega arith) no_reset idle 5 2 1 0
      none refl (omega arith) refl refl (λ m c on. (c, on))

-- The descriptor is deleted while the greenlet waits: the count of no descriptors wraps around.
abbrev deletes : Io Arrays → Bool × Io Arrays
deletes m = (true, del_event arrays m 2)

deleted_while_waiting :
    (internal_io_trampoline arrays true deletes idle 5 2 1 0 none).1.ioactivecnt ≡ 4294967295
unfolding internal_io_trampoline del_event
deleted_while_waiting = refl

-- The block 20 and those behind it are free.
free_blocks : (p : ℕ) → 20 ≤ p → IsFresh arrays arrays-IsLawful 4 reading p
free_blocks p le j on e = let block : ◌≡◌ {A = ℕ} 9 p = cc in absurd (omega arith)

performs-applies_example :
    Ends
      (λ (done, m).
        (done ≡ true)
        × Tidy arrays arrays-IsLawful 4 m
        × (table arrays arrays-IsLawful 4 m
            ≡ apply_calls
                (write_with 3 71 none ∷ end_read 3 ∷ read_with 2 72 (some 5) ∷ [])
                (table arrays arrays-IsLawful 4 reading)))
      (performs arrays no_reset 20
        (write_with 3 71 none ∷ end_read 3 ∷ read_with 2 72 (some 5) ∷ [])
        reading)
performs-applies_example =
    performs-applies arrays no_reset arrays-IsLawful 4 (omega arith) (λ s fd e m t. refl)
      (λ s fd e. refl) (write_with 3 71 none ∷ end_read 3 ∷ read_with 2 72 (some 5) ∷ []) 20 reading
      reading-Tidy free_blocks (omega arith, (omega arith, (omega arith, tt)))

arrays-KeepsEvents : KeepsEvents arrays
arrays-KeepsEvents = record {
  add-events_other = λ s fd event timeout j t ne. put_elsewhere s.events_of fd j event ne;
  set_events-events_other = λ s fd event j ne. put_elsewhere s.events_of fd j event ne;
  del-events_other = λ s fd j ne. refl;
}

reading-Armed : Armed arrays arrays-IsLawful arrays-KeepsEvents 4 reading
reading-Armed j q on at = (refl, omega arith)

-- The descriptor 3 has a callback for writing too.
abbrev both_ways : Io Arrays
both_ways = record reading {
  main_loop = record reading.main_loop { events_of = put (λ fd. 1) 3 3 };
  cargs = set_carg (set_carg reading.cargs 20 (writer (some 71) none)) 9 (record {
    read_callback = some 70;
    read_args = none;
    write_callback = some 71;
    write_args = none;
  });
}

writer_added :
    performs arrays no_reset 20 (write_with 3 71 none ∷ []) reading ≡ ok (true, both_ways)
unfolding performs add_writer make_callback_arg register_fd_callback call_fork_loop
writer_added = refl

-- A callback leaves its number in the count.
abbrev leaves_number : ℕ → Option ℕ → Io Arrays → Io Arrays
leaves_number cb args l = record l { ioactivecnt = cb }

performs-dispatches_example :
    (cb : ℕ) × ((chosen 2 (both_ways.cargs 9)).0 ≡ some cb)
    × (run_fd_callback arrays leaves_number both_ways 3 2 9 ≡ ok (leaves_number cb none both_ways))
performs-dispatches_example =
    performs-dispatches arrays arrays-IsLawful arrays-KeepsEvents 4 (omega arith) no_reset
      (λ s fd e m t. refl) (λ s fd e. refl) leaves_number (write_with 3 71 none ∷ []) 20 reading
      both_ways 3 9 2 reading-Tidy reading-Armed free_blocks (omega arith, tt) writer_added refl
      refl (omega arith, omega arith, omega arith, omega arith)
