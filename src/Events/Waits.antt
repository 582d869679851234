-- ===== src/Events/Waits.antt =====
-- The socket events of src/loop.c: the count of the active descriptors over a greenlet's wait.
use jega.Base.{
  if◌then◌else◌, ==_iff, u32_mod, u32, ℕ, ◌+◌, ◌≤◌, ◌<◌, ◌≡◌, refl, ap, ◌∙◌, Bool, true, false, not,
  ◌&&◌, Option, arith,
}
use jega.Events.{
  Target, switch_to, Picoev, IsLawful, Io, added, dropped, counted, internal_io_trampoline,
}
use jega.Loop.{running}
use jega.Events.Counted.{one_if, active_below, active_below-Differs, active_below-le}

one_more :
    (n : ℕ) (done active : Bool) (before after max : ℕ)
    → n ≡ before
    → active ≡ false
    → after + one_if active ≡ before + one_if done
    → after ≤ max
    → max < u32_mod
    → (if done && true then u32 (n + 1) else n) ≡ after
one_more n true true before after max c off more le word = ground (arith, off)
one_more n true false before after max c off more le word = omega (arith, c, more, le, word)
one_more n false true before after max c off more le word = ground (arith, off)
one_more n false false before after max c off more le word = omega (arith, c, more)

module _ (P : Picoev) (lawful : IsLawful P) (max : ℕ) (word : max < u32_mod) where
  -- The active descriptors below `max` are counted.
  abbrev Counts : Io P.State → Type 0
  Counts l = l.ioactivecnt ≡ active_below (P.is_active l.main_loop) max

  counted-Counts :
      (l : Io P.State) (fd event timeout : ℕ) (t : Target)
      → Counts l
      → fd < max
      → P.is_active l.main_loop fd ≡ false
      → Counts (counted P l (P.is_active l.main_loop fd) (P.add l.main_loop fd event timeout t))
  counted-Counts l fd event timeout t c inside off =
      let r = P.add l.main_loop fd event timeout t in
      let more =
        active_below-Differs (P.is_active l.main_loop) (P.is_active r.1) fd r.0 max
          (λ j. lawful.add-active l.main_loop fd event timeout j t off) inside in
      let now = λ (active done : Bool).
        (if done && not active then u32 (l.ioactivecnt + 1) else l.ioactivecnt) in
      ap (λ b. now b r.0) off
      ∙ one_more l.ioactivecnt r.0 (P.is_active l.main_loop fd) _ _ max c off more
          (active_below-le (P.is_active r.1) max) word

  dropped-Counts :
      (l : Io P.State) (fd : ℕ)
      → Counts l
      → fd < max
      → P.is_active l.main_loop fd ≡ true
      → Counts (dropped P l fd) × (P.is_active (dropped P l fd).main_loop fd ≡ false)
  dropped-Counts l fd c inside on =
      let fewer =
        active_below-Differs (P.is_active l.main_loop) (P.is_active (P.del l.main_loop fd)) fd false
          max (lawful.del-active l.main_loop fd) inside in
      (
        ground (arith, fewer, on, c, active_below-le (P.is_active l.main_loop) max),
        lawful.del-active l.main_loop fd fd
            ∙ ap (λ b. if b then false else P.is_active l.main_loop fd) ((==_iff fd fd).1 refl),
      )

  -- A greenlet waits for a descriptor that nothing else waits for,
  -- it is given its memory, and the event library takes the descriptor. When the switch away from it comes
  -- back with the descriptor still active and the active descriptors counted, they are counted on
  -- return as well, the descriptor is free again, and the result is that of the switch.
  pub internal_io_trampoline-balances :
      (switch : Io P.State → Bool × Io P.State) (l : Io P.State) (current fd event timeout : ℕ)
      (exc : Option ℕ)
      → Counts l
      → fd < max
      → P.is_active l.main_loop fd ≡ false
      → (P.add l.main_loop fd event timeout (switch_to current exc)).0 ≡ true
      → ((m : Io P.State)
          → Counts m
          → P.is_active m.main_loop fd ≡ true
          → Counts (switch m).1 × (P.is_active (switch m).1.main_loop fd ≡ true))
      → (let r = internal_io_trampoline P true switch l current fd event timeout exc in
          Counts r.1 × (P.is_active r.1.main_loop fd ≡ false))
  unfolding internal_io_trampoline
  internal_io_trampoline-balances switch l current fd event timeout exc c inside off added back =
      let t = switch_to current exc in
      let waiting =
        record (counted P l (P.is_active l.main_loop fd) (P.add l.main_loop fd event timeout t)) {
          state = running;
        } in
      let on : P.is_active waiting.main_loop fd ≡ true =
        lawful.add-active l.main_loop fd event timeout fd t off
        ∙ ap
            (λ b.
              if b then (P.add l.main_loop fd event timeout t).0 else P.is_active l.main_loop fd)
            ((==_iff fd fd).1 refl)
        ∙ added in
      let (c2, still) = back waiting (counted-Counts l fd event timeout t c inside off) on in
      dropped-Counts (switch waiting).1 fd c2 inside still
