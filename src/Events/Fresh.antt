-- ===== src/Events/Fresh.antt =====
-- The socket events of src/loop.c: the blocks that the event library is given are those of the callers.
use jega.Base.{
  if◌then◌else◌, Bool-cases, ok, ◌>>=◌, Ends, ends, ℕ, ◌≡◌, refl, sym, ap, ◌∙◌, subst, ◌≢◌, ◌⊎◌,
  inl, inr, Bool, true, false, Option, none, some, arith,
}
use jega.Events.{
  Target, fd_callback, Picoev, IsLawful, CallbackArg, Io, read_event, write_event, readwrite_event,
  is_some, set_carg, reader, writer, make_callback_arg, merged, carg_of, merge_result, merge_into,
  added, registered, reader_removed, writer_removed, remove_reader, remove_writer, call_fork_loop,
  register_fd_callback, add_reader, add_writer,
}
use jega.Events.Table.{Tidy, IsFresh}

module _ (P : Picoev) (lawful : IsLawful P) (max : ℕ) where
  -- Another state of the event library uses no block but those in use before, and the one at `p`.
  abbrev pub UsesFrom : P.State → ℕ → P.State → Type 0
  UsesFrom s p t =
      (j : ℕ)
      → P.is_active t j ≡ true
      → (P.target t j ≡ fd_callback p) ⊎ ((P.is_active s j ≡ true) × (P.target t j ≡ P.target s j))

  other_block : (p q : ℕ) (t : Target) → p ≢ q → t ≡ fd_callback p → t ≢ fd_callback q
  other_block p q t ne e f = ne (cc (e, f))

  pub UsesFrom-IsFresh :
      (l m : Io P.State) (p q : ℕ)
      → UsesFrom l.main_loop p m.main_loop
      → p ≢ q
      → IsFresh P lawful max l q
      → IsFresh P lawful max m q
  UsesFrom-IsFresh l m p q uses ne fresh j on = elim (uses j on) [
    | inl new ↦ other_block p q (P.target m.main_loop j) ne new
    | inr (was, same) ↦ λ at. fresh j was (sym same ∙ at)
  ]

  deleted-UsesFrom : (s : P.State) (fd p : ℕ) → UsesFrom s p (P.del s fd)
  deleted-UsesFrom s fd p j on =
      ground (arith, on, lawful.del-active s fd j, lawful.del-target s fd j)

  set-UsesFrom : (s : P.State) (fd event p : ℕ) → UsesFrom s p (P.set_events s fd event).1
  set-UsesFrom s fd event p j on =
      inr (sym (lawful.set_events-active s fd event j) ∙ on, lawful.set_events-target s fd event j)

  add-UsesFrom :
      (s : P.State) (fd event p : ℕ)
      → P.is_active s fd ≡ false
      → UsesFrom s p (P.add s fd event 0 (fd_callback p)).1
  add-UsesFrom s fd event p off j on = ground (
    arith,
    on,
    lawful.add-active s fd event 0 j (fd_callback p) off,
    lawful.add-target s fd event 0 j (fd_callback p) off,
  )

  same-UsesFrom : (s : P.State) (p : ℕ) → UsesFrom s p s
  same-UsesFrom s p j on = inr (on, refl)

  -- What is done at the block of a descriptor, if it is active.
  pub at_block :
      (l : Io P.State) (fd : ℕ) (f : ℕ → Io P.State) (Q : Io P.State → Type 0)
      → Tidy P lawful max l
      → ((p : ℕ)
          → P.is_active l.main_loop fd ≡ true
          → P.target l.main_loop fd ≡ fd_callback p
          → Q (f p))
      → Q l
      → Ends Q (
          if P.is_active l.main_loop fd
          then (carg_of (P.target l.main_loop fd) >>= λ p. ok (f p))
          else ok l)
  at_block l fd f Q t done still = elim (Bool-cases (P.is_active l.main_loop fd)) [
    | inl on ↦ let (p, at) = t.callbacks fd on in rw (on, at) (ends (done p on at))
    | inr off ↦ rw off (ends still)
  ]

  reader_removed-UsesFrom :
      (l : Io P.State) (fd p q : ℕ) → UsesFrom l.main_loop q (reader_removed P l fd p).main_loop
  reader_removed-UsesFrom l fd p q = elim (Bool-cases (is_some (l.cargs p).write_callback)) [
    | inl both ↦ rw both (set-UsesFrom l.main_loop fd write_event q)
    | inr last ↦ rw last (deleted-UsesFrom l.main_loop fd q)
  ]

  writer_removed-UsesFrom :
      (l : Io P.State) (fd p q : ℕ) → UsesFrom l.main_loop q (writer_removed P l fd p).main_loop
  writer_removed-UsesFrom l fd p q = elim (Bool-cases (is_some (l.cargs p).read_callback)) [
    | inl both ↦ rw both (set-UsesFrom l.main_loop fd read_event q)
    | inr last ↦ rw last (deleted-UsesFrom l.main_loop fd q)
  ]

  abbrev pub Uses : Io P.State → ℕ → Io P.State → Type 0
  Uses l p m = UsesFrom l.main_loop p m.main_loop

  pub remove_reader-Uses :
      (l : Io P.State) (fd q : ℕ) → Tidy P lawful max l → Ends (Uses l q) (remove_reader P l fd)
  unfolding remove_reader
  remove_reader-Uses l fd q t =
      at_block l fd (reader_removed P l fd) (Uses l q) t
        (λ p on at. reader_removed-UsesFrom l fd p q) (same-UsesFrom l.main_loop q)

  pub remove_writer-Uses :
      (l : Io P.State) (fd q : ℕ) → Tidy P lawful max l → Ends (Uses l q) (remove_writer P l fd)
  unfolding remove_writer
  remove_writer-Uses l fd q t =
      at_block l fd (writer_removed P l fd) (Uses l q) t
        (λ p on at. writer_removed-UsesFrom l fd p q) (same-UsesFrom l.main_loop q)

  merge_result-Uses :
      (l : Io P.State) (fd p q : ℕ) (o : Option CallbackArg) → Uses l p (merge_result P l fd q o).1
  merge_result-Uses l fd p q none = same-UsesFrom l.main_loop p
  merge_result-Uses l fd p q (some a) = set-UsesFrom l.main_loop fd readwrite_event p

  module _ (reset : Io P.State → Bool × Io P.State) where
    register-Uses :
        (l : Io P.State) (fd p event : ℕ)
        → Tidy P lawful max l
        → Ends (λ r. Uses l p r.1) (register_fd_callback P reset l fd event p 0)
    unfolding register_fd_callback call_fork_loop
    register-Uses l fd p event t =
        let forked = λ (b : Bool). if b then reset (record l { postfork = false }) else (true, l) in
        let next = λ (r : Bool × Io P.State). if r.0 then registered P r.1 fd event p 0 else ok r in
        subst (Ends (λ r. Uses l p r.1)) (sym (ap (λ b. next (forked b)) t.unforked))
          (elim (Bool-cases (P.is_active l.main_loop fd)) [
            | inl on ↦
                let (q, at) = t.callbacks fd on in
                rw (on, at)
                  (ends {value = merge_into P l fd (l.cargs p) q}
                    (merge_result-Uses l fd p q (merged (l.cargs q) (l.cargs p))))
            | inr off ↦ rw off (
                ends {value = added P l (P.add l.main_loop fd event 0 (fd_callback p))}
                  (add-UsesFrom l.main_loop fd event p off))
          ])

    pub stored-Tidy :
        (l : Io P.State) (p : ℕ) (a : CallbackArg)
        → Tidy P lawful max l
        → Tidy P lawful max (record l { cargs = set_carg l.cargs p a })
    stored-Tidy l p a t = record {
      counts = t.counts;
      callbacks = t.callbacks;
      apart = t.apart;
      unforked = t.unforked;
    }

    pub add_reader-Uses :
        (l : Io P.State) (fd p cb : ℕ) (args : Option ℕ)
        → Tidy P lawful max l
        → Ends (λ r. Uses l p r.1) (add_reader P reset l (some p) fd cb args)
    unfolding add_reader make_callback_arg
    add_reader-Uses l fd p cb args t =
        register-Uses (record l { cargs = set_carg l.cargs p (reader (some cb) args) }) fd p
          read_event (stored-Tidy l p (reader (some cb) args) t)

    pub add_writer-Uses :
        (l : Io P.State) (fd p cb : ℕ) (args : Option ℕ)
        → Tidy P lawful max l
        → Ends (λ r. Uses l p r.1) (add_writer P reset l (some p) fd cb args)
    unfolding add_writer make_callback_arg
    add_writer-Uses l fd p cb args t =
        register-Uses (record l { cargs = set_carg l.cargs p (writer (some cb) args) }) fd p
          write_event (stored-Tidy l p (writer (some cb) args) t)
