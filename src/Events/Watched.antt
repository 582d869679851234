-- ===== src/Events/Watched.antt =====
-- The socket events of src/loop.c: add_reader, add_writer, remove_reader and remove_writer change the
-- table of callbacks at their descriptor, and nowhere else.
use jega.Base.{
  if◌then◌else◌, Bool-cases, ok, ◌>>=◌, Ends, ends, u32_mod, ℕ, ◌<◌, ◌≡◌, refl, sym, ap, ◌∙◌, subst,
  inl, inr, Bool, true, false, Option, none, some,
}
use jega.Events.{
  Target, fd_callback, Picoev, IsLawful, CallbackArg, Io, read_event, write_event, is_some, reader,
  writer, make_callback_arg, carg_of, kept, reader_removed, writer_removed, remove_reader,
  remove_writer, register_fd_callback, add_reader, add_writer,
}
use jega.Events.Table.{
  with_reader, with_writer, without_reader, without_writer, table, Tidy, IsFresh, Updates,
  dropped-Updates, repaint-Updates,
}
use jega.Events.Register.{
  with_reader-merged, with_writer-merged, entry_kept, stored, Registers, register-Registers,
}

module _ (P : Picoev) (lawful : IsLawful P) (max : ℕ) (word : max < u32_mod) where
  -- The entry of a descriptor from which one of two callbacks is taken.
  kept-Updates :
      (l : Io P.State) (fd event p : ℕ) (a : CallbackArg)
      → Tidy P lawful max l
      → P.is_active l.main_loop fd ≡ true
      → P.target l.main_loop fd ≡ fd_callback p
      → Updates P lawful max l fd (some a) (kept P l fd event p a)
  kept-Updates l fd event p a t on at =
      repaint-Updates P lawful max l fd p a (P.set_events l.main_loop fd event).1 t on at
        (lawful.set_events-active l.main_loop fd event)
        (lawful.set_events-target l.main_loop fd event)

  entry_off :
      (l : Io P.State) (fd : ℕ)
      → P.is_active l.main_loop fd ≡ false
      → table P lawful max l fd ≡ none
  entry_off l fd off = rw off refl

  -- Nothing is changed where nothing is registered.
  idle-Updates :
      (l : Io P.State) (fd : ℕ)
      → Tidy P lawful max l
      → P.is_active l.main_loop fd ≡ false
      → Updates P lawful max l fd none l
  idle-Updates l fd t off = (t, entry_kept (table P lawful max l) fd none (entry_off l fd off))

  entry_at :
      (l : Io P.State) (fd p : ℕ)
      → P.is_active l.main_loop fd ≡ true
      → P.target l.main_loop fd ≡ fd_callback p
      → table P lawful max l fd ≡ some (l.cargs p)
  entry_at l fd p on at = rw (on, at) refl

  reader_removed-Updates :
      (l : Io P.State) (fd p : ℕ)
      → Tidy P lawful max l
      → fd < max
      → P.is_active l.main_loop fd ≡ true
      → P.target l.main_loop fd ≡ fd_callback p
      → Updates P lawful max l fd (without_reader (some (l.cargs p))) (reader_removed P l fd p)
  reader_removed-Updates l fd p t inside on at =
      elim (Bool-cases (is_some (l.cargs p).write_callback)) [
        | inl both ↦ rw both (kept-Updates l fd write_event p _ t on at)
        | inr last ↦ rw last (dropped-Updates P lawful max l fd t inside word on)
      ]

  writer_removed-Updates :
      (l : Io P.State) (fd p : ℕ)
      → Tidy P lawful max l
      → fd < max
      → P.is_active l.main_loop fd ≡ true
      → P.target l.main_loop fd ≡ fd_callback p
      → Updates P lawful max l fd (without_writer (some (l.cargs p))) (writer_removed P l fd p)
  writer_removed-Updates l fd p t inside on at =
      elim (Bool-cases (is_some (l.cargs p).read_callback)) [
        | inl both ↦ rw both (kept-Updates l fd read_event p _ t on at)
        | inr last ↦ rw last (dropped-Updates P lawful max l fd t inside word on)
      ]

  -- When a reader is removed, the callback for reading goes from the entry of the descriptor, and the
  -- descriptor from the event library when no callback is left. A descriptor without callbacks is left
  -- alone, and so is every other one. The count of the active descriptors stays right.
  pub remove_reader-watches :
      (l : Io P.State) (fd : ℕ)
      → Tidy P lawful max l
      → fd < max
      → Ends
          (Updates P lawful max l fd (without_reader (table P lawful max l fd)))
          (remove_reader P l fd)
  unfolding remove_reader
  remove_reader-watches l fd t inside =
      let Goal = λ (e : Option CallbackArg). Ends (Updates P lawful max l fd (without_reader e)) in
      let branch = λ (b : Bool).
        if b
        then (carg_of (P.target l.main_loop fd) >>= λ p. ok (reader_removed P l fd p))
        else ok l in
      elim (Bool-cases (P.is_active l.main_loop fd)) [
        | inl on ↦
            let (p, at) = t.callbacks fd on in
            let runs =
              ap branch on ∙ ap (λ c. carg_of c >>= λ p. ok (reader_removed P l fd p)) at in
            subst (λ e. Goal e (remove_reader P l fd)) (sym (entry_at l fd p on at))
              (subst (Goal (some (l.cargs p))) (sym runs)
                (ends (reader_removed-Updates l fd p t inside on at)))
        | inr off ↦
            subst (λ e. Goal e (remove_reader P l fd)) (sym (entry_off l fd off))
              (subst (Goal none) (sym (ap branch off)) (ends (idle-Updates l fd t off)))
      ]

  -- When writer is removed, the callback for writing goes from the entry of the descriptor, and the
  -- descriptor from the event library when no callback is left. A descriptor without callbacks is left
  -- alone, and so is every other one. The count of the active descriptors stays right.
  pub remove_writer-watches :
      (l : Io P.State) (fd : ℕ)
      → Tidy P lawful max l
      → fd < max
      → Ends
          (Updates P lawful max l fd (without_writer (table P lawful max l fd)))
          (remove_writer P l fd)
  unfolding remove_writer
  remove_writer-watches l fd t inside =
      let Goal = λ (e : Option CallbackArg). Ends (Updates P lawful max l fd (without_writer e)) in
      let branch = λ (b : Bool).
        if b
        then (carg_of (P.target l.main_loop fd) >>= λ p. ok (writer_removed P l fd p))
        else ok l in
      elim (Bool-cases (P.is_active l.main_loop fd)) [
        | inl on ↦
            let (p, at) = t.callbacks fd on in
            let runs =
              ap branch on ∙ ap (λ c. carg_of c >>= λ p. ok (writer_removed P l fd p)) at in
            subst (λ e. Goal e (remove_writer P l fd)) (sym (entry_at l fd p on at))
              (subst (Goal (some (l.cargs p))) (sym runs)
                (ends (writer_removed-Updates l fd p t inside on at)))
        | inr off ↦
            subst (λ e. Goal e (remove_writer P l fd)) (sym (entry_off l fd off))
              (subst (Goal none) (sym (ap branch off)) (ends (idle-Updates l fd t off)))
      ]

  module _ (reset : Io P.State → Bool × Io P.State)
      (adds : (s : P.State) (fd event timeout : ℕ) (t : Target)
        → (P.add s fd event timeout t).0 ≡ true)
      (sets : (s : P.State) (fd event : ℕ) → (P.set_events s fd event).0 ≡ true) where
    -- When the event library takes every descriptor, add_reader at a new block puts the callback for
    -- reading into the entry of the descriptor, beside one of the other kind that is there, and
    -- returns success. A callback of the same kind that is there stays, and success is returned all
    -- the same. Every other descriptor is left alone, and the count of the active descriptors is right.
    pub add_reader-watches :
        (l : Io P.State) (fd p cb : ℕ) (args : Option ℕ)
        → Tidy P lawful max l
        → IsFresh P lawful max l p
        → fd < max
        → Ends
            (λ r.
              (r.0 ≡ true)
              × Updates P lawful max l fd
                  (some (with_reader cb args (table P lawful max l fd)))
                  r.1)
            (add_reader P reset l (some p) fd cb args)
    unfolding add_reader stored Registers make_callback_arg register_fd_callback
    add_reader-watches l fd p cb args t fresh inside =
        let carg = reader (some cb) args in
        subst
          (λ a.
            Ends (λ r. (r.0 ≡ true) × Updates P lawful max l fd (some a) r.1)
              (add_reader P reset l (some p) fd cb args))
          (with_reader-merged cb args (table P lawful max l fd))
          (register-Registers P lawful max word reset adds sets l fd p read_event carg t fresh
            inside)

    -- When the event library takes every descriptor, add_writer at a new block puts the callback for
    -- writing into the entry of the descriptor, beside one of the other kind that is there, and
    -- returns success. A callback of the same kind that is there stays, and success is returned all
    -- the same. Every other descriptor is left alone, and the count of the active descriptors is right.
    pub add_writer-watches :
        (l : Io P.State) (fd p cb : ℕ) (args : Option ℕ)
        → Tidy P lawful max l
        → IsFresh P lawful max l p
        → fd < max
        → Ends
            (λ r.
              (r.0 ≡ true)
              × Updates P lawful max l fd
                  (some (with_writer cb args (table P lawful max l fd)))
                  r.1)
            (add_writer P reset l (some p) fd cb args)
    unfolding add_writer stored Registers make_callback_arg register_fd_callback
    add_writer-watches l fd p cb args t fresh inside =
        let carg = writer (some cb) args in
        subst
          (λ a.
            Ends (λ r. (r.0 ≡ true) × Updates P lawful max l fd (some a) r.1)
              (add_writer P reset l (some p) fd cb args))
          (with_writer-merged cb args (table P lawful max l fd))
          (register-Registers P lawful max word reset adds sets l fd p write_event carg t fresh
            inside)
