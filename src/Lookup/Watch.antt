-- ===== src/Lookup/Watch.antt =====
-- src/lookup.c: the sockets of c-ares in the event library, and its channel. `set_timeout` is
-- picoev_set_timeout, and `ready` the test of the loop (ready_trampoline) that add_event makes.
pub mod Masks
mod Tests
use jega.Base.{if◌then◌else◌, Run, fault, ok, ℕ, Bool, true, false, ◌||◌, Option, none, some}
use jega.Events.{
  Picoev, Io, read_event, write_event, readwrite_event, is_active_event, add_event, del_event,
}
use jega.Calls.{set_timeout}

-- `channel` says that loop->channel is not destroyed, and `raised` that an exception is set.
pub record Resolving (P : Picoev) : Type 0 where
  pub io : Io P.State
  pub channel : Bool
  pub raised : Bool

-- What the code calls of c-ares; each call may call state_cb, and the callbacks of lookups. `true` is
-- ARES_SUCCESS, and `none` is ARES_SOCKET_BAD.
pub record Ares (P : Picoev) : Type 0 where
  pub library_init : Resolving P → Bool × Resolving P
  pub library_cleanup : Resolving P → Resolving P
  pub init_options : Resolving P → Bool × Resolving P
  pub destroy : Resolving P → Resolving P
  pub process_fd : Option ℕ → Option ℕ → Resolving P → Resolving P

abbrev pub check_interval : ℕ
check_interval = 1

-- The bits of `event`: 0, PICOEV_READ, PICOEV_WRITE, or both.
abbrev pub event_of : Bool → Bool → ℕ
event_of true true = readwrite_event
event_of true false = read_event
event_of false true = write_event
event_of false false = 0

-- An event as process_callback looks at it.
pub record Seen : Type 0 where
  pub is_err : Bool
  pub is_read : Bool
  pub is_write : Bool

module _ (P : Picoev) where
  -- The handler is process_callback, with the loop.
  unfoldable pub state_cb :
      (Io P.State → Bool × Io P.State) → Io P.State → ℕ → Bool → Bool → Io P.State
  state_cb ready l fd read write =
      let watched = (add_event P ready l fd (event_of read write) check_interval 0 0).1 in
      if read || write then if is_active_event P l fd then l else watched else del_event P l fd

  module _ (a : Ares P) (set_timeout : P.State → ℕ → ℕ → P.State) where
    abbrev pub opened : Bool × Resolving P → Bool × Resolving P
    opened (true, s) = (true, record s { channel = true })
    opened (false, s) = (false, record s { raised = true })

    -- `false` is the result -1. A channel that is not made leaves the pointer as it was.
    unfoldable pub init_channel : Resolving P → Bool × Resolving P
    init_channel s = opened (a.init_options s)

    abbrev pub cleaned : Bool × Resolving P → Bool × Resolving P
    cleaned (true, s) = (true, s)
    cleaned (false, s) = (false, a.library_cleanup s)

    abbrev pub with_library : Bool × Resolving P → Bool × Resolving P
    with_library (true, s) = cleaned (init_channel s)
    with_library (false, s) = (false, record s { raised = true })

    pub init_lookup : Resolving P → Bool × Resolving P
    init_lookup s = with_library (a.library_init s)

    pub reset_channel : Resolving P → Bool × Resolving P
    reset_channel s = init_lookup (a.library_cleanup s)

    abbrev pub process : Option ℕ → Option ℕ → Resolving P → Run (Resolving P)
    process readfd writefd s = if s.channel then ok (a.process_fd readfd writefd s) else fault

    -- What init_channel answers is not looked at.
    unfoldable pub process_callback : ℕ → Seen → Resolving P → Run (Resolving P)
    process_callback fd events s =
        let lost = record s { io = del_event P s.io fd; raised = true } in
        let closed = record (a.destroy lost) { channel = false } in
        let waits = record s {
          io = record s.io { main_loop = set_timeout s.io.main_loop fd check_interval };
        } in
        if events.is_err
        then process none none (init_channel closed).1
        else process (if events.is_read then some fd else none)
            (if events.is_write then some fd else none) waits
