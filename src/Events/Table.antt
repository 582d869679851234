-- ===== src/Events/Table.antt =====
-- The socket events of src/loop.c as a table of callbacks: what a change of one descriptor does to it.
use jega.Base.{
  ◌==◌, if◌then◌else◌, ==_iff, Bool-cases, u32_mod, ℕ, ◌<◌, ◌≡◌, refl, sym, ap, ◌∙◌, ◌≢◌, inl, inr,
  Bool, true, false, Option, none, some, arith, ℕ_discrete,
}
use jega.Events.{
  Target, fd_callback, switch_to, handler, Picoev, IsLawful, CallbackArg, Io, is_some, set_carg,
  reader, writer, dropped,
}
use jega.Events.Counted.{active_below, active_below-Differs, active_below-same, active_below-le}

-- The table: the callbacks of the descriptors that have any.
abbrev pub carg_at : (ℕ → CallbackArg) → Target → Option CallbackArg
carg_at cargs (fd_callback p) = some (cargs p)
carg_at cargs (switch_to g exc) = none
carg_at cargs (handler f d) = none

-- A first callback is put in; another of its kind is not.
abbrev pub with_reader : ℕ → Option ℕ → Option CallbackArg → CallbackArg
with_reader cb args none = reader (some cb) args
with_reader cb args (some a) =
    if is_some a.read_callback then a else record a { read_callback = some cb; read_args = args }

abbrev pub with_writer : ℕ → Option ℕ → Option CallbackArg → CallbackArg
with_writer cb args none = writer (some cb) args
with_writer cb args (some a) =
    if is_some a.write_callback then a else record a { write_callback = some cb; write_args = args }

-- A descriptor whose last callback goes is in the table no more.
abbrev pub without_reader : Option CallbackArg → Option CallbackArg
without_reader none = none
without_reader (some a) =
    if is_some a.write_callback
    then some (record a { read_callback = none; read_args = none })
    else none

abbrev pub without_writer : Option CallbackArg → Option CallbackArg
without_writer none = none
without_writer (some a) =
    if is_some a.read_callback
    then some (record a { write_callback = none; write_args = none })
    else none

still_active : (t a b : Bool) → b ≡ (if t then false else a) → b ≡ true → a ≡ true
still_active true a b e h = absurd (ground (arith, e, h))
still_active false a b e h = sym e ∙ h

module _ (P : Picoev) (lawful : IsLawful P) (max : ℕ) where
  abbrev pub table : Io P.State → ℕ → Option CallbackArg
  table l fd =
      if P.is_active l.main_loop fd then carg_at l.cargs (P.target l.main_loop fd) else none

  -- The active descriptors are below `max` and all counted; each has a callback_arg_t of its own.
  pub record Tidy (l : Io P.State) : Type 0 where
    pub counts : l.ioactivecnt ≡ active_below (P.is_active l.main_loop) max
    pub callbacks :
        (fd : ℕ)
        → P.is_active l.main_loop fd ≡ true
        → (p : ℕ) × (P.target l.main_loop fd ≡ fd_callback p)
    pub apart :
        (i j p : ℕ)
        → P.is_active l.main_loop i ≡ true
        → P.is_active l.main_loop j ≡ true
        → P.target l.main_loop i ≡ fd_callback p
        → P.target l.main_loop j ≡ fd_callback p
        → i ≡ j
    pub unforked : l.postfork ≡ false

  -- No active descriptor uses the block at `p`.
  abbrev pub IsFresh : Io P.State → ℕ → Type 0
  IsFresh l p = (j : ℕ) → P.is_active l.main_loop j ≡ true → P.target l.main_loop j ≢ fd_callback p

  -- `m` is `l` with `a` as the entry of `fd`.
  abbrev pub Updates : Io P.State → ℕ → Option CallbackArg → Io P.State → Type 0
  Updates l fd a m = Tidy m × ((j : ℕ) → table m j ≡ (if j == fd then a else table l j))

  pub dropped-Updates :
      (l : Io P.State) (fd : ℕ)
      → Tidy l
      → fd < max
      → max < u32_mod
      → P.is_active l.main_loop fd ≡ true
      → Updates l fd none (dropped P l fd)
  dropped-Updates l fd t inside word active =
      let gone = lawful.del-active l.main_loop fd in
      let same = lawful.del-target l.main_loop fd in
      let fewer =
        active_below-Differs (P.is_active l.main_loop) (P.is_active (P.del l.main_loop fd)) fd false
          max gone inside in
      let was = λ (j : ℕ) (a : P.is_active (P.del l.main_loop fd) j ≡ true).
        still_active (j == fd) (P.is_active l.main_loop j) _ (gone j) a in
      (
        record {
          counts =
              ground
                (arith, fewer, active, t.counts, active_below-le (P.is_active l.main_loop) max);
          callbacks = λ j a. let (p, e) = t.callbacks j (was j a) in (p, same j ∙ e);
          apart = λ i j p a b x y.
              t.apart i j p (was i a) (was j b) (sym (same i) ∙ x) (sym (same j) ∙ y);
          unforked = t.unforked;
        },
        λ j. ground (arith, gone j, same j),
      )

  other_entry :
      (l : Io P.State) (fd p : ℕ) (a : CallbackArg) (j : ℕ)
      → Tidy l
      → P.is_active l.main_loop fd ≡ true
      → P.target l.main_loop fd ≡ fd_callback p
      → j ≢ fd
      → table (record l { cargs = set_carg l.cargs p a }) j ≡ table l j
  other_entry l fd p a j t active pointed ne = elim (Bool-cases (P.is_active l.main_loop j)) [
    | inr off ↦ rw off refl
    | inl on ↦
        let (q, e) = t.callbacks j on in
        let apart : (q == p) ≡ false = ground (
          arith,
          λ (same : q ≡ p). ne (t.apart j fd p on active (e ∙ ap fd_callback same) pointed),
        ) in
        rw (on, e) (rw apart refl)
  ]

  -- The callback_arg_t of `fd` is overwritten, and the event library keeps what it has.
  pub repaint-Updates :
      (l : Io P.State) (fd p : ℕ) (a : CallbackArg) (s : P.State)
      → Tidy l
      → P.is_active l.main_loop fd ≡ true
      → P.target l.main_loop fd ≡ fd_callback p
      → ((j : ℕ) → P.is_active s j ≡ P.is_active l.main_loop j)
      → ((j : ℕ) → P.target s j ≡ P.target l.main_loop j)
      → Updates l fd (some a) (record l { main_loop = s; cargs = set_carg l.cargs p a })
  repaint-Updates l fd p a s t active pointed same_active same_target = (
    record {
      counts =
          t.counts
          ∙ sym (active_below-same (P.is_active l.main_loop) (P.is_active s) max same_active);
      callbacks =
          λ j b. let (q, e) = t.callbacks j (sym (same_active j) ∙ b) in (q, same_target j ∙ e);
      apart = λ i j q b c x y.
          t.apart i j q (sym (same_active i) ∙ b) (sym (same_active j) ∙ c)
            (sym (same_target i) ∙ x) (sym (same_target j) ∙ y);
      unforked = t.unforked;
    },
    λ j. elim (ℕ_discrete j fd) [
      | yes e ↦
          let here : carg_at (set_carg l.cargs p a) (P.target s j) ≡ some a =
            rw (same_target j, e, pointed) (rw ((==_iff p p).1 refl) refl) in
          let is_fd : (j == fd) ≡ true = ground (arith, e) in
          let on : P.is_active s j ≡ true =
            same_active j ∙ ap (P.is_active l.main_loop) e ∙ active in
          rw (is_fd, on) here
      | no ne ↦
          let is_other : (j == fd) ≡ false = ground (arith, ne) in
          rw (is_other, same_active j, same_target j) (other_entry l fd p a j t active pointed ne)
    ],
  )
