-- ===== src/Events/Dispatch/Armed.antt =====
-- The socket events of src/loop.c: a descriptor is armed for exactly the events that it has a callback
-- for, so that fd_callback finds one.
use jega.Base.{
  ◌==◌, if◌then◌else◌, ==_iff, Bool-cases, ok, Ends, ends, Ends-then, ℕ, ◌<◌, ◌≡◌, refl, sym, ap,
  ◌∙◌, subst, ◌≢◌, inl, inr, Bool, true, false, Option, none, some, arith, ℕ_discrete,
}
use jega.Events.{
  Target, fd_callback, Picoev, IsLawful, CallbackArg, Io, read_event, write_event, readwrite_event,
  is_some, set_carg, reader, writer, make_callback_arg, merged, merge_result, merge_into, added,
  registered, dropped, reader_removed, writer_removed, remove_reader, remove_writer, call_fork_loop,
  register_fd_callback, add_reader, add_writer,
}
use jega.Events.Dispatch.{bit_if, mask, KeepsEvents}
use jega.Events.Table.{Tidy, IsFresh}
use jega.Events.Fresh.{at_block, stored-Tidy}
use jega.Events.Session.{IoCall, read_with, write_with, end_read, end_write, perform}

bit_of_some : (bit : ℕ) (o : Option ℕ) → is_some o ≡ true → bit_if bit o ≡ bit
bit_of_some bit none e = cc
bit_of_some bit (some cb) e = refl

-- What a callback argument of one kind does to another one that it is merged into.
abbrev Joins : CallbackArg → Type 0
Joins carg = (orig b : CallbackArg) → merged orig carg ≡ some b → 0 < mask orig → mask b ≡ 3

reader-Joins : (cb : ℕ) (args : Option ℕ) → Joins (reader (some cb) args)
reader-Joins cb args orig b e some_bit = ground (arith, e)

writer-Joins : (cb : ℕ) (args : Option ℕ) → Joins (writer (some cb) args)
writer-Joins cb args orig b e some_bit = ground (arith, e)

module _ (P : Picoev) (lawful : IsLawful P) (keeps : KeepsEvents P) (max : ℕ) where
  -- The events of each active descriptor are those of its callbacks, of which there is one.
  abbrev pub Armed : Io P.State → Type 0
  Armed l =
      (j q : ℕ)
      → P.is_active l.main_loop j ≡ true
      → P.target l.main_loop j ≡ fd_callback q
      → (P.events l.main_loop j ≡ mask (l.cargs q)) × (0 < mask (l.cargs q))

  -- Another descriptor than `fd` is as it was, with its events and its callbacks.
  abbrev Elsewhere : Io P.State → ℕ → Io P.State → Type 0
  Elsewhere l fd m =
      (j q : ℕ)
      → j ≢ fd
      → P.is_active m.main_loop j ≡ true
      → P.target m.main_loop j ≡ fd_callback q
      → (P.is_active l.main_loop j ≡ true)
        × (P.target l.main_loop j ≡ fd_callback q)
        × (P.events m.main_loop j ≡ P.events l.main_loop j)
        × (m.cargs q ≡ l.cargs q)

  abbrev Here : Io P.State → ℕ → Type 0
  Here m fd =
      (q : ℕ)
      → P.is_active m.main_loop fd ≡ true
      → P.target m.main_loop fd ≡ fd_callback q
      → (P.events m.main_loop fd ≡ mask (m.cargs q)) × (0 < mask (m.cargs q))

  changed-Armed : (l m : Io P.State) (fd : ℕ) → Armed l → Elsewhere l fd m → Here m fd → Armed m
  changed-Armed l m fd armed others here j q on at = elim (ℕ_discrete j fd) [
    | yes e ↦
        subst (λ (i : ℕ). (P.events m.main_loop i ≡ mask (m.cargs q)) × (0 < mask (m.cargs q)))
          (sym e)
          (here q (subst (λ (i : ℕ). P.is_active m.main_loop i ≡ true) e on)
            (subst (λ (i : ℕ). P.target m.main_loop i ≡ fd_callback q) e at))
    | no ne ↦
        let (was, tgt, events, cargs) = others j q ne on at in
        let (armed_for, some_bit) = armed j q was tgt in
        (
          events ∙ armed_for ∙ ap mask (sym cargs),
          subst (λ (a : CallbackArg). 0 < mask a) (sym cargs) some_bit,
        )
  ]

  block_of : (p q : ℕ) (t : Target) → t ≡ fd_callback p → t ≡ fd_callback q → p ≡ q
  block_of p q t e f = cc (e, f)

  dropped-Armed : (l : Io P.State) (fd : ℕ) → Armed l → Armed (dropped P l fd)
  dropped-Armed l fd armed =
      let gone = lawful.del-active l.main_loop fd in
      changed-Armed l (dropped P l fd) fd armed
        (λ j q ne on at. (
          ground (arith, gone j, on, ne),
          sym (lawful.del-target l.main_loop fd j) ∙ at,
          keeps.del-events_other l.main_loop fd j ne,
          refl,
        ))
        (λ q on at. absurd (ground (arith, gone fd, on)))

  -- The events and the callbacks of an active descriptor are set anew.
  set-Armed :
      (l : Io P.State) (fd event p : ℕ) (a : CallbackArg)
      → Tidy P lawful max l
      → Armed l
      → P.is_active l.main_loop fd ≡ true
      → P.target l.main_loop fd ≡ fd_callback p
      → (P.set_events l.main_loop fd event).0 ≡ true
      → event ≡ mask a
      → 0 < mask a
      → Armed (record l {
        main_loop = (P.set_events l.main_loop fd event).1;
        cargs = set_carg l.cargs p a;
      })
  set-Armed l fd event p a t armed active pointed done e some_bit =
      let m = record l {
        main_loop = (P.set_events l.main_loop fd event).1;
        cargs = set_carg l.cargs p a;
      } in
      let still = lawful.set_events-active l.main_loop fd event in
      let same = lawful.set_events-target l.main_loop fd event in
      changed-Armed l m fd armed
        (λ j q ne on at.
          let was = sym (still j) ∙ on in
          let tgt = sym (same j) ∙ at in
          let apart : (q == p) ≡ false = ground (
            arith,
            λ (e : q ≡ p). ne (t.apart j fd p was active (tgt ∙ ap fd_callback e) pointed),
          ) in
          (
            was,
            tgt,
            keeps.set_events-events_other l.main_loop fd event j ne,
            ap (λ b. if b then a else l.cargs q) apart,
          ))
        (λ q on at.
          let block = block_of p q (P.target l.main_loop fd) pointed (sym (same fd) ∙ at) in
          let now : set_carg l.cargs p a q ≡ a =
            ap (λ b. if b then a else l.cargs q) ((==_iff q p).1 (sym block)) in
          (
            lawful.set_events-events l.main_loop fd event done ∙ e ∙ ap mask (sym now),
            subst (λ (c : CallbackArg). 0 < mask c) (sym now) some_bit,
          ))

  -- A new block that nothing uses is written.
  stored-Armed :
      (l : Io P.State) (p : ℕ) (a : CallbackArg)
      → IsFresh P lawful max l p
      → Armed l
      → Armed (record l { cargs = set_carg l.cargs p a })
  stored-Armed l p a fresh armed j q on at =
      let apart : (q == p) ≡ false =
        ground (arith, λ (e : q ≡ p). fresh j on (at ∙ ap fd_callback e)) in
      let same : set_carg l.cargs p a q ≡ l.cargs q = ap (λ b. if b then a else l.cargs q) apart in
      let (events, some_bit) = armed j q on at in
      (events ∙ ap mask (sym same), subst (λ (c : CallbackArg). 0 < mask c) (sym same) some_bit)

  added-Armed :
      (l : Io P.State) (fd event p : ℕ)
      → Armed l
      → P.is_active l.main_loop fd ≡ false
      → (P.add l.main_loop fd event 0 (fd_callback p)).0 ≡ true
      → event ≡ mask (l.cargs p)
      → 0 < mask (l.cargs p)
      → Armed (added P l (P.add l.main_loop fd event 0 (fd_callback p))).1
  added-Armed l fd event p armed off done e some_bit =
      let m = (added P l (P.add l.main_loop fd event 0 (fd_callback p))).1 in
      let on_now = λ (j : ℕ). lawful.add-active l.main_loop fd event 0 j (fd_callback p) off in
      let at_now = λ (j : ℕ). lawful.add-target l.main_loop fd event 0 j (fd_callback p) off in
      changed-Armed l m fd armed
        (λ j q ne on at. (
          ground (arith, on_now j, on, ne),
          ground (arith, at_now j, at, ne),
          keeps.add-events_other l.main_loop fd event 0 j (fd_callback p) ne,
          refl,
        ))
        (λ q on at.
          let new : P.target m.main_loop fd ≡ fd_callback p = ground (arith, at_now fd) in
          let block = block_of p q (P.target m.main_loop fd) new at in
          (
            lawful.add-events l.main_loop fd event 0 (fd_callback p) off done
                ∙ e
                ∙ ap (λ i. mask (l.cargs i)) block,
            subst (λ (i : ℕ). 0 < mask (l.cargs i)) block some_bit,
          ))

  module _ (sets : (s : P.State) (fd event : ℕ) → (P.set_events s fd event).0 ≡ true) where
    reader_removed-Armed :
        (l : Io P.State) (fd p : ℕ)
        → Tidy P lawful max l
        → Armed l
        → P.is_active l.main_loop fd ≡ true
        → P.target l.main_loop fd ≡ fd_callback p
        → Armed (reader_removed P l fd p)
    reader_removed-Armed l fd p t armed on at =
        elim (Bool-cases (is_some (l.cargs p).write_callback)) [
          | inl both ↦
              let bit = bit_of_some 2 (l.cargs p).write_callback both in
              let a = record (l.cargs p) { read_callback = none; read_args = none } in
              rw both (
                set-Armed l fd write_event p a t armed on at (sets l.main_loop fd write_event)
                  (omega (arith, bit)) (omega (arith, bit)))
          | inr last ↦ rw last (dropped-Armed l fd armed)
        ]

    writer_removed-Armed :
        (l : Io P.State) (fd p : ℕ)
        → Tidy P lawful max l
        → Armed l
        → P.is_active l.main_loop fd ≡ true
        → P.target l.main_loop fd ≡ fd_callback p
        → Armed (writer_removed P l fd p)
    writer_removed-Armed l fd p t armed on at =
        elim (Bool-cases (is_some (l.cargs p).read_callback)) [
          | inl both ↦
              let bit = bit_of_some 1 (l.cargs p).read_callback both in
              let a = record (l.cargs p) { write_callback = none; write_args = none } in
              rw both (
                set-Armed l fd read_event p a t armed on at (sets l.main_loop fd read_event)
                  (omega (arith, bit)) (omega (arith, bit)))
          | inr last ↦ rw last (dropped-Armed l fd armed)
        ]

    merge_result-Armed :
        (l : Io P.State) (fd q : ℕ) (o : Option CallbackArg)
        → Tidy P lawful max l
        → Armed l
        → P.is_active l.main_loop fd ≡ true
        → P.target l.main_loop fd ≡ fd_callback q
        → ((b : CallbackArg) → o ≡ some b → mask b ≡ 3)
        → Armed (merge_result P l fd q o).1
    merge_result-Armed l fd q none t armed on at full = armed
    merge_result-Armed l fd q (some b) t armed on at full =
        set-Armed l fd readwrite_event q b t armed on at (sets l.main_loop fd readwrite_event)
          (sym (full b refl)) (omega (arith, full b refl))

    module _ (reset : Io P.State → Bool × Io P.State)
        (adds : (s : P.State) (fd event timeout : ℕ) (t : Target)
          → (P.add s fd event timeout t).0 ≡ true) where
      register-Armed :
          (l : Io P.State) (fd p event : ℕ)
          → Tidy P lawful max l
          → Armed l
          → Joins (l.cargs p)
          → event ≡ mask (l.cargs p)
          → 0 < event
          → Ends (λ r. Armed r.1) (register_fd_callback P reset l fd event p 0)
      unfolding register_fd_callback call_fork_loop
      register-Armed l fd p event t armed joins e some_bit =
          let forked =
            λ (b : Bool). if b then reset (record l { postfork = false }) else (true, l) in
          let next =
            λ (r : Bool × Io P.State). if r.0 then registered P r.1 fd event p 0 else ok r in
          subst (Ends (λ r. Armed r.1)) (sym (ap (λ b. next (forked b)) t.unforked))
            (elim (Bool-cases (P.is_active l.main_loop fd)) [
              | inl on ↦
                  let (q, at) = t.callbacks fd on in
                  rw (on, at)
                    (ends {value = merge_into P l fd (l.cargs p) q} (
                      merge_result-Armed l fd q (merged (l.cargs q) (l.cargs p)) t armed on at
                        (λ b m. joins (l.cargs q) b m (armed fd q on at).1)))
              | inr off ↦ rw off (
                  ends {value = added P l (P.add l.main_loop fd event 0 (fd_callback p))} (
                    added-Armed l fd event p armed off (adds l.main_loop fd event 0 (fd_callback p))
                      e (omega (arith, e, some_bit))))
            ])

      -- The callbacks of a new block are registered.
      new-Armed :
          (l : Io P.State) (fd p event : ℕ) (carg : CallbackArg)
          → Tidy P lawful max l
          → IsFresh P lawful max l p
          → Armed l
          → Joins carg
          → event ≡ mask carg
          → 0 < event
          → Ends
              (λ r. Armed r.1)
              (register_fd_callback P reset
                (record l { cargs = set_carg l.cargs p carg })
                fd
                event
                p
                0)
      new-Armed l fd p event carg t fresh armed joins e some_bit =
          let here : carg ≡ set_carg l.cargs p carg p =
            sym (ap (λ b. if b then carg else l.cargs p) ((==_iff p p).1 refl)) in
          register-Armed (record l { cargs = set_carg l.cargs p carg }) fd p event
            (stored-Tidy P lawful max reset l p carg t) (stored-Armed l p carg fresh armed)
            (subst Joins here joins) (e ∙ ap mask here) some_bit

      pub perform-Armed :
          (l : Io P.State) (p : ℕ) (call : IoCall)
          → Tidy P lawful max l
          → IsFresh P lawful max l p
          → Armed l
          → Ends (λ r. Armed r.1) (perform P reset p call l)
      unfolding add_reader add_writer make_callback_arg remove_reader remove_writer
      perform-Armed l p (read_with fd cb args) t fresh armed =
          new-Armed l fd p read_event (reader (some cb) args) t fresh armed (reader-Joins cb args)
            refl (omega arith)
      perform-Armed l p (write_with fd cb args) t fresh armed =
          new-Armed l fd p write_event (writer (some cb) args) t fresh armed (writer-Joins cb args)
            refl (omega arith)
      perform-Armed l p (end_read fd) t fresh armed =
          Ends-then
            (at_block P lawful max l fd (reader_removed P l fd) Armed t
              (λ q on at. reader_removed-Armed l fd q t armed on at) armed)
            (λ m h. ends h)
      perform-Armed l p (end_write fd) t fresh armed =
          Ends-then
            (at_block P lawful max l fd (writer_removed P l fd) Armed t
              (λ q on at. writer_removed-Armed l fd q t armed on at) armed)
            (λ m h. ends h)
