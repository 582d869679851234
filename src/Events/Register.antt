-- ===== src/Events/Register.antt =====
-- register_fd_callback of src/loop.c on the table of callbacks: a first callback is added to the event
-- library, a further one is merged with the entry that is there.
use jega.Base.{
  ◌==◌, if◌then◌else◌, ==_iff, Bool-cases, ok, ◌>>=◌, Ends, ends, u32_mod, u32, ℕ, ◌+◌, ◌<◌, ◌≡◌,
  refl, sym, ap, ◌∙◌, subst, ◌⊎◌, inl, inr, Bool, true, false, Option, none, some, arith,
  ℕ_discrete,
}
use jega.Events.{
  Target, fd_callback, Picoev, IsLawful, CallbackArg, Io, readwrite_event, set_carg, reader, writer,
  merged, carg_of, merge_result, merge_into, added, registered, call_fork_loop,
  register_fd_callback,
}
use jega.Events.Counted.{active_below-Differs, active_below-le}
use jega.Events.Table.{with_reader, with_writer, table, Tidy, IsFresh, Updates, repaint-Updates}

abbrev pub merged_or : CallbackArg → Option CallbackArg → CallbackArg
merged_or a none = a
merged_or a (some b) = b

-- What a registration makes of the entry.
abbrev pub merged_with : CallbackArg → Option CallbackArg → CallbackArg
merged_with carg none = carg
merged_with carg (some a) = merged_or a (merged a carg)

pub with_reader-merged :
    (cb : ℕ) (args : Option ℕ) (e : Option CallbackArg)
    → merged_with (reader (some cb) args) e ≡ with_reader cb args e
with_reader-merged cb args none = refl
with_reader-merged cb args (some a) = ground arith

pub with_writer-merged :
    (cb : ℕ) (args : Option ℕ) (e : Option CallbackArg)
    → merged_with (writer (some cb) args) e ≡ with_writer cb args e
with_writer-merged cb args none = refl
with_writer-merged cb args (some a) = ground arith

pub entry_kept :
    (f : ℕ → Option CallbackArg) (fd : ℕ) (e : Option CallbackArg)
    → f fd ≡ e
    → (j : ℕ) → f j ≡ (if j == fd then e else f j)
entry_kept f fd e h j = elim (ℕ_discrete j fd) [
  | yes same ↦ let is_fd : (j == fd) ≡ true = ground (arith, same) in rw is_fd (ap f same ∙ h)
  | no ne ↦ let other : (j == fd) ≡ false = ground (arith, ne) in rw other refl
]

module _ (P : Picoev) (lawful : IsLawful P) (max : ℕ) (word : max < u32_mod) where
  unfoldable pub stored : Io P.State → ℕ → CallbackArg → Io P.State
  stored l p a = record l { cargs = set_carg l.cargs p a }

  stored-table :
      (l : Io P.State) (p : ℕ) (a : CallbackArg) (j : ℕ)
      → Tidy P lawful max l
      → IsFresh P lawful max l p
      → table P lawful max (stored l p a) j ≡ table P lawful max l j
  unfolding stored
  stored-table l p a j t fresh = elim (Bool-cases (P.is_active l.main_loop j)) [
    | inr off ↦ rw off refl
    | inl on ↦
        let (q, e) = t.callbacks j on in
        let apart : (q == p) ≡ false =
          ground (arith, λ (same : q ≡ p). fresh j on (e ∙ ap fd_callback same)) in
        rw (on, e) (rw apart refl)
  ]

  stored-Tidy :
      (l : Io P.State) (p : ℕ) (a : CallbackArg)
      → Tidy P lawful max l
      → Tidy P lawful max (stored l p a)
  unfolding stored
  stored-Tidy l p a t = record {
    counts = t.counts;
    callbacks = t.callbacks;
    apart = t.apart;
    unforked = t.unforked;
  }

  opened-cases :
      (l : Io P.State) (fd p j : ℕ) (s : P.State)
      → P.is_active s j ≡ (if j == fd then true else P.is_active l.main_loop j)
      → P.target s j ≡ (if j == fd then fd_callback p else P.target l.main_loop j)
      → P.is_active s j ≡ true
      → ((j ≡ fd) × (P.target s j ≡ fd_callback p))
        ⊎ ((P.is_active l.main_loop j ≡ true) × (P.target s j ≡ P.target l.main_loop j))
  opened-cases l fd p j s on_now target_now on = elim (ℕ_discrete j fd) [
    | yes e ↦
        let is_fd : (j == fd) ≡ true = ground (arith, e) in
        inl (e, target_now ∙ ap (λ b. if b then fd_callback p else P.target l.main_loop j) is_fd)
    | no ne ↦
        let other : (j == fd) ≡ false = ground (arith, ne) in
        inr (
          ap (λ b. if b then true else P.is_active l.main_loop j) (sym other) ∙ sym on_now ∙ on,
          target_now ∙ ap (λ b. if b then fd_callback p else P.target l.main_loop j) other,
        )
  ]

  -- A descriptor that was not active has been added.
  opened-Updates :
      (l : Io P.State) (fd p : ℕ) (s : P.State)
      → Tidy P lawful max l
      → IsFresh P lawful max l p
      → fd < max
      → P.is_active l.main_loop fd ≡ false
      → ((j : ℕ) → P.is_active s j ≡ (if j == fd then true else P.is_active l.main_loop j))
      → ((j : ℕ) → P.target s j ≡ (if j == fd then fd_callback p else P.target l.main_loop j))
      → Updates P lawful max l fd
          (some (l.cargs p))
          (record l { main_loop = s; ioactivecnt = u32 (l.ioactivecnt + 1) })
  opened-Updates l fd p s t fresh inside off on_now target_now =
      let more =
        active_below-Differs (P.is_active l.main_loop) (P.is_active s) fd true max on_now inside in
      (
        record {
          counts = ground (arith, more, off, t.counts, word, active_below-le (P.is_active s) max);
          callbacks = λ j a. elim (opened-cases l fd p j s (on_now j) (target_now j) a) [
            | inl (e, tgt) ↦ (p, tgt)
            | inr (on, tgt) ↦ let (q, at) = t.callbacks j on in (q, tgt ∙ at)
          ];
          apart = λ i j q a b x y. elim (opened-cases l fd p i s (on_now i) (target_now i) a) [
            | inl (ei, ti) ↦ elim (opened-cases l fd p j s (on_now j) (target_now j) b) [
              | inl (ej, tj) ↦ ei ∙ sym ej
              | inr (on, tj) ↦ absurd (fresh j on (sym tj ∙ y ∙ sym x ∙ ti))
            ]
            | inr (oni, ti) ↦ elim (opened-cases l fd p j s (on_now j) (target_now j) b) [
              | inl (ej, tj) ↦ absurd (fresh i oni (sym ti ∙ x ∙ sym y ∙ tj))
              | inr (onj, tj) ↦ t.apart i j q oni onj (sym ti ∙ x) (sym tj ∙ y)
            ]
          ];
          unforked = t.unforked;
        },
        λ j. ground (arith, on_now j, target_now j),
      )

  module _ (reset : Io P.State → Bool × Io P.State)
      (adds : (s : P.State) (fd event timeout : ℕ) (t : Target)
        → (P.add s fd event timeout t).0 ≡ true)
      (sets : (s : P.State) (fd event : ℕ) → (P.set_events s fd event).0 ≡ true) where
    unfoldable pub Registers : Io P.State → ℕ → CallbackArg → Bool × Io P.State → Type 0
    Registers l fd carg (done, m) =
        (done ≡ true)
        × Updates P lawful max l fd (some (merged_with carg (table P lawful max l fd))) m

    merge_result-Registers :
        (l : Io P.State) (fd p q : ℕ) (carg : CallbackArg) (o : Option CallbackArg)
        → Tidy P lawful max l
        → IsFresh P lawful max l p
        → P.is_active l.main_loop fd ≡ true
        → P.target l.main_loop fd ≡ fd_callback q
        → merged (l.cargs q) carg ≡ o
        → Registers l fd carg (merge_result P (stored l p carg) fd q o)
    unfolding Registers stored
    merge_result-Registers l fd p q carg none t fresh on at e =
        let entry : table P lawful max l fd ≡ some (l.cargs q) = rw (on, at) refl in
        let same : merged_with carg (table P lawful max l fd) ≡ l.cargs q =
          ap (merged_with carg) entry ∙ ap (merged_or (l.cargs q)) e in
        (
          refl,
          (
            stored-Tidy l p carg t,
            λ j.
                stored-table l p carg j t fresh
                ∙ entry_kept (table P lawful max l) fd _ (entry ∙ ap some (sym same)) j,
          ),
        )
    merge_result-Registers l fd p q carg (some b) t fresh on at e =
        let entry : table P lawful max l fd ≡ some (l.cargs q) = rw (on, at) refl in
        let new : merged_with carg (table P lawful max l fd) ≡ b =
          ap (merged_with carg) entry ∙ ap (merged_or (l.cargs q)) e in
        let m = stored l p carg in
        let s = (P.set_events l.main_loop fd readwrite_event).1 in
        let (tidy, shows) =
          repaint-Updates P lawful max m fd q b s (stored-Tidy l p carg t) on at
            (lawful.set_events-active l.main_loop fd readwrite_event)
            (lawful.set_events-target l.main_loop fd readwrite_event) in
        (
          sets l.main_loop fd readwrite_event,
          (
            tidy,
            λ j.
                shows j
                ∙ ap (λ e. if j == fd then some b else e) (stored-table l p carg j t fresh)
                ∙ ap (λ a. if j == fd then some a else table P lawful max l j) (sym new),
          ),
        )

    merge-Registers :
        (l : Io P.State) (fd p q : ℕ) (carg : CallbackArg)
        → Tidy P lawful max l
        → IsFresh P lawful max l p
        → P.is_active l.main_loop fd ≡ true
        → P.target l.main_loop fd ≡ fd_callback q
        → Registers l fd carg (merge_into P (stored l p carg) fd carg q)
    unfolding Registers stored
    merge-Registers l fd p q carg t fresh on at =
        let apart : (q == p) ≡ false =
          ground (arith, λ (same : q ≡ p). fresh fd on (at ∙ ap fd_callback same)) in
        let orig : set_carg l.cargs p carg q ≡ l.cargs q = rw apart refl in
        merge_result-Registers l fd p q carg (merged (set_carg l.cargs p carg q) carg) t fresh on at
          (ap (λ a. merged a carg) (sym orig))

    open-Registers :
        (l : Io P.State) (fd p event : ℕ) (carg : CallbackArg)
        → Tidy P lawful max l
        → IsFresh P lawful max l p
        → fd < max
        → P.is_active l.main_loop fd ≡ false
        → Registers l fd carg
            (added P (stored l p carg) (P.add l.main_loop fd event 0 (fd_callback p)))
    unfolding Registers stored
    open-Registers l fd p event carg t fresh inside off =
        let r = P.add l.main_loop fd event 0 (fd_callback p) in
        let done : r.0 ≡ true = adds l.main_loop fd event 0 (fd_callback p) in
        let m = stored l p carg in
        let (tidy, shows) =
          opened-Updates m fd p r.1 (stored-Tidy l p carg t) fresh inside off
            (λ j.
              lawful.add-active l.main_loop fd event 0 j (fd_callback p) off
              ∙ ap (λ b. if j == fd then b else P.is_active l.main_loop j) done)
            (λ j. lawful.add-target l.main_loop fd event 0 j (fd_callback p) off) in
        let entry : table P lawful max l fd ≡ none = rw off refl in
        let here : set_carg l.cargs p carg p ≡ carg = rw ((==_iff p p).1 refl) refl in
        rw done (
          refl,
          (
            tidy,
            λ j.
                shows j
                ∙ ap (λ e. if j == fd then some (set_carg l.cargs p carg p) else e)
                    (stored-table l p carg j t fresh)
                ∙ ap (λ a. if j == fd then some a else table P lawful max l j)
                    (here ∙ ap (merged_with carg) (sym entry)),
          ),
        )

    call_fork-calm : (l : Io P.State) → l.postfork ≡ false → call_fork_loop P reset l ≡ (true, l)
    unfolding call_fork_loop
    call_fork-calm l h = ap (λ b. if b then reset (record l { postfork = false }) else (true, l)) h

    pub register-calm :
        (l : Io P.State) (fd event p : ℕ)
        → l.postfork ≡ false
        → register_fd_callback P reset l fd event p 0 ≡ registered P l fd event p 0
    unfolding register_fd_callback
    register-calm l fd event p h =
        ap (λ r. if r.0 then registered P r.1 fd event p 0 else ok r) (call_fork-calm l h)

    pub registered-open :
        (l : Io P.State) (fd event p : ℕ)
        → P.is_active l.main_loop fd ≡ false
        → registered P l fd event p 0
          ≡ ok (added P l (P.add l.main_loop fd event 0 (fd_callback p)))
    registered-open l fd event p off =
        ap
          (λ b.
            if b
            then (carg_of (P.target l.main_loop fd) >>= λ q. ok (merge_into P l fd (l.cargs p) q))
            else ok (added P l (P.add l.main_loop fd event 0 (fd_callback p))))
          off

    pub registered-merge :
        (l : Io P.State) (fd event p q : ℕ)
        → P.is_active l.main_loop fd ≡ true
        → P.target l.main_loop fd ≡ fd_callback q
        → registered P l fd event p 0 ≡ ok (merge_into P l fd (l.cargs p) q)
    registered-merge l fd event p q on at =
        ap
          (λ b.
            if b
            then (carg_of (P.target l.main_loop fd) >>= λ q. ok (merge_into P l fd (l.cargs p) q))
            else ok (added P l (P.add l.main_loop fd event 0 (fd_callback p))))
          on
        ∙ ap (λ t. carg_of t >>= λ q. ok (merge_into P l fd (l.cargs p) q)) at

    -- registers at a new pointer
    pub register-Registers :
        (l : Io P.State) (fd p event : ℕ) (carg : CallbackArg)
        → Tidy P lawful max l
        → IsFresh P lawful max l p
        → fd < max
        → Ends (Registers l fd carg) (register_fd_callback P reset (stored l p carg) fd event p 0)
    unfolding stored
    register-Registers l fd p event carg t fresh inside =
        let m = stored l p carg in
        let here : set_carg l.cargs p carg p ≡ carg = rw ((==_iff p p).1 refl) refl in
        let calm = register-calm m fd event p t.unforked in
        elim (Bool-cases (P.is_active l.main_loop fd)) [
          | inl on ↦
              let (q, at) = t.callbacks fd on in
              let e =
                calm
                ∙ registered-merge m fd event p q on at
                ∙ ap (λ a. ok (merge_into P m fd a q)) here in
              subst (Ends (Registers l fd carg)) (sym e)
                (ends (merge-Registers l fd p q carg t fresh on at))
          | inr off ↦
              subst (Ends (Registers l fd carg)) (sym (calm ∙ registered-open m fd event p off))
                (ends (open-Registers l fd p event carg t fresh inside off))
        ]
