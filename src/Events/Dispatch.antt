-- ===== src/Events/Dispatch.antt =====
-- fd_callback of src/loop.c, which the event library calls for a descriptor with callbacks, and the
-- events that a descriptor is armed for.
pub mod Armed
pub mod Safe
use jega.Base.{
  ◌==◌, if◌then◌else◌, Run, fault, ok, ℕ, ◌+◌, ◌/◌, ◌%◌, ◌≡◌, ◌≢◌, Bool, true, not, Option, none,
  some,
}
use jega.Events.{Target, Picoev, CallbackArg, Io, dropped}

-- PICOEV_READ, PICOEV_WRITE and PICOEV_TIMEOUT are the bits 1, 2 and 4.
abbrev pub has_read : ℕ → Bool
has_read events = not (events % 2 == 0)

abbrev pub has_write : ℕ → Bool
has_write events = not (events / 2 % 2 == 0)

abbrev pub has_timeout : ℕ → Bool
has_timeout events = not (events / 4 % 2 == 0)

-- `call` is what a callback does with its arguments. A call of NULL is a fault.
abbrev pub call_one : {S : Type 0} → (ℕ → Option ℕ → S → S) → Option ℕ → Option ℕ → S → Run S
call_one call none args l = fault
call_one call (some cb) args l = ok (call cb args l)

-- The block at `p` goes with an invalid descriptor; a block is never given twice, so that its release
-- is left out. get_event_loop gives this loop.
pub run_fd_callback :
    (P : Picoev)
    → (ℕ → Option ℕ → Io P.State → Io P.State)
    → Io P.State
    → ℕ
    → ℕ
    → ℕ
    → Run (Io P.State)
run_fd_callback P call l fd events p =
    let carg = l.cargs p in
    if has_timeout events
    then ok l
    else if has_read events
    then call_one call carg.read_callback carg.read_args l
    else if has_write events
    then call_one call carg.write_callback carg.write_args l
    else ok (record (dropped P l fd) { error_set = true })

-- The events of the callbacks that are there.
abbrev pub bit_if : ℕ → Option ℕ → ℕ
bit_if bit none = 0
bit_if bit (some cb) = bit

abbrev pub mask : CallbackArg → ℕ
mask a = bit_if 1 a.read_callback + bit_if 2 a.write_callback

-- What picoev.h says of the events of the other descriptors.
pub record KeepsEvents (P : Picoev) : Type 0 where
  pub add-events_other :
      (s : P.State) (fd event timeout j : ℕ) (t : Target)
      → j ≢ fd
      → P.events (P.add s fd event timeout t).1 j ≡ P.events s j
  pub set_events-events_other :
      (s : P.State) (fd event j : ℕ)
      → j ≢ fd
      → P.events (P.set_events s fd event).1 j ≡ P.events s j
  pub del-events_other : (s : P.State) (fd j : ℕ) → j ≢ fd → P.events (P.del s fd) j ≡ P.events s j
