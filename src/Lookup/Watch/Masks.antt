-- ===== src/Lookup/Watch/Masks.antt =====
-- src/lookup.c: which events of a socket of c-ares are watched.
use jega.Base.{
  if◌then◌else◌, fault, ok, ℕ, ◌≡◌, refl, ap, ◌∙◌, Bool, true, false, none, List, [], ◌∷◌,
}
use jega.Events.{Picoev, Io, add_event, del_event}
use jega.Lookup.Watch.{
  Resolving, Ares, check_interval, event_of, Seen, state_cb, opened, init_channel, process_callback,
}
use jega.Calls.{set_timeout}

-- What c-ares asks for: to read, to write, or both.
pub data Wish : Type 0 where
  to_read to_write to_both : Wish

abbrev pub reads : Wish → Bool
reads to_read = true
reads to_write = false
reads to_both = true

abbrev pub writes : Wish → Bool
writes to_read = false
writes to_write = true
writes to_both = true

module _ (P : Picoev) (ready : Io P.State → Bool × Io P.State) where
  unfoldable pub wishes : List Wish → ℕ → Io P.State → Io P.State
  wishes [] fd l = l
  wishes (w ∷ ws) fd l = wishes ws fd (state_cb P ready l fd (reads w) (writes w))

  abbrev started : Io P.State → ℕ → Wish → Io P.State
  started l fd w = (add_event P ready l fd (event_of (reads w) (writes w)) check_interval 0 0).1

opened-channel :
    (P : Picoev) (a : Ares P) (set_timeout : P.State → ℕ → ℕ → P.State) (r : Bool × Resolving P)
    → r.0 ≡ false
    → (opened P a set_timeout r).1.channel ≡ r.1.channel
opened-channel P a set_timeout (true, s) e = absurd (cc e)
opened-channel P a set_timeout (false, s) e = refl

-- When an error is reported and no new channel can be made, the destroyed one is used.
pub process_callback-dangles :
    (P : Picoev) (a : Ares P) (set_timeout : P.State → ℕ → ℕ → P.State) (fd : ℕ) (events : Seen)
    (s : Resolving P)
    → events.is_err ≡ true
    → ((t : Resolving P) → (a.init_options t).0 ≡ false)
    → ((t : Resolving P) → (a.init_options t).1.channel ≡ t.channel)
    → process_callback P a set_timeout fd events s ≡ fault
unfolding process_callback init_channel
process_callback-dangles P a set_timeout fd events s err fails same =
    let lost = record s { io = del_event P s.io fd; raised = true } in
    let closed = record (a.destroy lost) { channel = false } in
    let gone : (init_channel P a set_timeout closed).1.channel ≡ false =
      opened-channel P a set_timeout (a.init_options closed) (fails closed) ∙ same closed in
    rw err (
      ap
        (λ b.
          if b then ok (a.process_fd none none (init_channel P a set_timeout closed).1) else fault)
        gone)
