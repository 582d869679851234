-- ===== src/Events.antt =====
-- The socket events of src/loop.c: callbacks on descriptors and greenlets that wait for one. The
-- event library is the parameter `Picoev`, over an unknown state. The callback arguments are a store
-- from their pointers. The loop's state is the part that these functions use; its pointer to the
-- event library is never NULL between LoopObject_init and LoopObject_clear, and a fork resets it.
-- A block is never given twice, so that its release is left out.
pub mod Counted
pub mod Table
pub mod Register
pub mod Watched
pub mod Fresh
pub mod Session
pub mod Dispatch
pub mod Waits
pub mod Sample
mod Tests
use jega.Base.{
  ◌==◌, if◌then◌else◌, Run, fault, ok, ◌>>=◌, u32, ℕ, ◌+◌, ◌≡◌, Bool, true, false, not, ◌&&◌,
  Option, none, some,
}
use jega.Loop.{LoopState, running, less_one}

-- What the event library calls for a descriptor: fd_callback with a callback_arg_t,
-- trampoline_switch_callback with the greenlet and the exception of a switch_arg_t,
-- where `none` is TimeoutException, or a handler of another file.
pub data Target : Type 0 where
  fd_callback : ℕ → Target
  switch_to : ℕ → Option ℕ → Target
  handler : ℕ → ℕ → Target

-- `true` is the result 0 of a function that may fail.
pub record Picoev : Type 1 where
  pub State : Type 0
  pub is_active : State → ℕ → Bool
  pub target : State → ℕ → Target
  pub events : State → ℕ → ℕ
  pub add : State → ℕ → ℕ → ℕ → Target → Bool × State
  pub del : State → ℕ → State
  pub set_events : State → ℕ → ℕ → Bool × State

-- What picoev.h says of it. A descriptor is added only when it is not active.
pub record IsLawful (P : Picoev) : Type 0 where
  pub add-active :
      (s : P.State) (fd event timeout j : ℕ) (t : Target)
      → P.is_active s fd ≡ false
      → P.is_active (P.add s fd event timeout t).1 j
        ≡ (if j == fd then (P.add s fd event timeout t).0 else P.is_active s j)
  pub add-target :
      (s : P.State) (fd event timeout j : ℕ) (t : Target)
      → P.is_active s fd ≡ false
      → P.target (P.add s fd event timeout t).1 j ≡ (if j == fd then t else P.target s j)
  pub add-events :
      (s : P.State) (fd event timeout : ℕ) (t : Target)
      → P.is_active s fd ≡ false
      → (P.add s fd event timeout t).0 ≡ true
      → P.events (P.add s fd event timeout t).1 fd ≡ event
  pub del-target : (s : P.State) (fd j : ℕ) → P.target (P.del s fd) j ≡ P.target s j
  pub del-active :
      (s : P.State) (fd j : ℕ)
      → P.is_active (P.del s fd) j ≡ (if j == fd then false else P.is_active s j)
  pub set_events-active :
      (s : P.State) (fd event j : ℕ) → P.is_active (P.set_events s fd event).1 j ≡ P.is_active s j
  pub set_events-target :
      (s : P.State) (fd event j : ℕ) → P.target (P.set_events s fd event).1 j ≡ P.target s j
  pub set_events-events :
      (s : P.State) (fd event : ℕ)
      → (P.set_events s fd event).0 ≡ true
      → P.events (P.set_events s fd event).1 fd ≡ event

-- A callback and its arguments.
pub record CallbackArg : Type 0 where
  pub read_callback : Option ℕ
  pub read_args : Option ℕ
  pub write_callback : Option ℕ
  pub write_args : Option ℕ

pub record Io (S : Type 0) : Type 0 where
  pub main_loop : S
  pub cargs : ℕ → CallbackArg
  pub ioactivecnt : ℕ
  pub postfork : Bool
  -- An exception that fd_callback has set.
  pub error_set : Bool
  pub state : LoopState

abbrev pub read_event : ℕ
read_event = 1

abbrev pub write_event : ℕ
write_event = 2

abbrev pub readwrite_event : ℕ
readwrite_event = 3

abbrev pub is_some {ℓ} : {A : Type ℓ} → Option A → Bool
is_some none = false
is_some (some a) = true

abbrev pub set_carg : (ℕ → CallbackArg) → ℕ → CallbackArg → ℕ → CallbackArg
set_carg cargs p a q = if q == p then a else cargs q

abbrev pub reader : Option ℕ → Option ℕ → CallbackArg
reader cb args = record {
  read_callback = cb;
  read_args = args;
  write_callback = none;
  write_args = none;
}

abbrev pub writer : Option ℕ → Option ℕ → CallbackArg
writer cb args = record {
  read_callback = none;
  read_args = none;
  write_callback = cb;
  write_args = args;
}

-- `none` is NULL. The events are of one kind: the callers ask for no other.
pub make_callback_arg : Bool → ℕ → Option ℕ → Option ℕ → Option ℕ → Option ℕ → Option CallbackArg
make_callback_arg granted event read_callback read_args write_callback write_args =
    if not granted
    then none
    else if event == read_event
    then (if is_some read_callback then some (reader read_callback read_args) else none)
    else if is_some write_callback
    then some (writer write_callback write_args)
    else none

-- The two halves of the merge; `none` is the result -1.
abbrev pub merged : CallbackArg → CallbackArg → Option CallbackArg
merged orig carg =
    if is_some carg.read_callback
    then (if is_some orig.read_callback
        then none
        else some (record orig { read_callback = carg.read_callback; read_args = carg.read_args }))
    else if is_some carg.write_callback
    then (if is_some orig.write_callback
        then none
        else some
            (record orig { write_callback = carg.write_callback; write_args = carg.write_args }))
    else none

-- The pointer that picoev_get_callback gives is taken for one to a callback_arg_t.
abbrev pub carg_of : Target → Run ℕ
carg_of (fd_callback p) = ok p
carg_of (switch_to g exc) = fault
carg_of (handler f d) = fault

module _ (P : Picoev) where
  abbrev pub merge_result : Io P.State → ℕ → ℕ → Option CallbackArg → Bool × Io P.State
  merge_result l fd p none = (true, l)
  merge_result l fd p (some a) =
      let r = P.set_events l.main_loop fd readwrite_event in
      (r.0, record l { main_loop = r.1; cargs = set_carg l.cargs p a })

  -- A merge that fails changes nothing, and its result is not looked at.
  abbrev pub merge_into : Io P.State → ℕ → CallbackArg → ℕ → Bool × Io P.State
  merge_into l fd carg p = merge_result l fd p (merged (l.cargs p) carg)

  abbrev pub added : Io P.State → Bool × P.State → Bool × Io P.State
  added l (done, s) = (
    done,
    record l {
      main_loop = s;
      ioactivecnt = if done then u32 (l.ioactivecnt + 1) else l.ioactivecnt;
    },
  )

  abbrev pub registered : Io P.State → ℕ → ℕ → ℕ → ℕ → Run (Bool × Io P.State)
  registered l fd event p timeout =
      if P.is_active l.main_loop fd
      then (carg_of (P.target l.main_loop fd) >>= λ q. ok (merge_into l fd (l.cargs p) q))
      else ok (added l (P.add l.main_loop fd event timeout (fd_callback p)))

  abbrev pub dropped : Io P.State → ℕ → Io P.State
  dropped l fd = record l { main_loop = P.del l.main_loop fd; ioactivecnt = less_one l.ioactivecnt }

  -- The result of picoev_set_events is not looked at.
  abbrev pub kept : Io P.State → ℕ → ℕ → ℕ → CallbackArg → Io P.State
  kept l fd event p a = record l {
    main_loop = (P.set_events l.main_loop fd event).1;
    cargs = set_carg l.cargs p a;
  }

  abbrev pub reader_removed : Io P.State → ℕ → ℕ → Io P.State
  reader_removed l fd p =
      if is_some (l.cargs p).write_callback
      then kept l fd write_event p (record (l.cargs p) { read_callback = none; read_args = none })
      else dropped l fd

  abbrev pub writer_removed : Io P.State → ℕ → ℕ → Io P.State
  writer_removed l fd p =
      if is_some (l.cargs p).read_callback
      then kept l fd read_event p (record (l.cargs p) { write_callback = none; write_args = none })
      else dropped l fd

  pub remove_reader : Io P.State → ℕ → Run (Io P.State)
  remove_reader l fd =
      if P.is_active l.main_loop fd
      then (carg_of (P.target l.main_loop fd) >>= λ p. ok (reader_removed l fd p))
      else ok l

  pub remove_writer : Io P.State → ℕ → Run (Io P.State)
  remove_writer l fd =
      if P.is_active l.main_loop fd
      then (carg_of (P.target l.main_loop fd) >>= λ p. ok (writer_removed l fd p))
      else ok l

  unfoldable pub is_active_event : Io P.State → ℕ → Bool
  is_active_event l fd = P.is_active l.main_loop fd

  -- A descriptor that was active, or one that picoev_add refuses, counts no more than before.
  abbrev pub counted : Io P.State → Bool → Bool × P.State → Io P.State
  counted l active (done, s) = record l {
    main_loop = s;
    ioactivecnt = if done && not active then u32 (l.ioactivecnt + 1) else l.ioactivecnt;
  }

  -- `ready` is ready_trampoline, which may run the loop. `false` is the result -1.
  unfoldable pub add_event :
      (Io P.State → Bool × Io P.State) → Io P.State → ℕ → ℕ → ℕ → ℕ → ℕ → Bool × Io P.State
  add_event ready l fd event timeout cb user_data =
      let r = ready l in
      if r.0
      then (
        true,
        counted r.1 (P.is_active r.1.main_loop fd)
            (P.add r.1.main_loop fd event timeout (handler cb user_data)),
      )
      else r

  unfoldable pub del_event : Io P.State → ℕ → Io P.State
  del_event l fd = if P.is_active l.main_loop fd then dropped l fd else l

  -- `granted` is PyMem_Malloc for the switch_arg_t. `switch` is what happens until the greenlet
  -- `current` is switched back to; its result is the value or the exception of the switch. A negative
  -- timeout is none, 0.
  pub internal_io_trampoline :
      Bool
      → (Io P.State → Bool × Io P.State)
      → Io P.State
      → ℕ
      → ℕ
      → ℕ
      → ℕ
      → Option ℕ
      → Bool × Io P.State
  internal_io_trampoline granted switch l current fd event timeout exc =
      let waiting =
        counted l (P.is_active l.main_loop fd)
          (P.add l.main_loop fd event timeout (switch_to current exc)) in
      let r = switch (record waiting { state = running }) in
      if granted then (r.0, dropped r.1 fd) else (false, l)

module _ (P : Picoev) (reset : Io P.State → Bool × Io P.State) where
  -- `reset` is reset_loop. `false` is the result -1.
  pub call_fork_loop : Io P.State → Bool × Io P.State
  call_fork_loop l = if l.postfork then reset (record l { postfork = false }) else (true, l)

  -- The new callback_arg_t is at the pointer `p`.
  pub register_fd_callback : Io P.State → ℕ → ℕ → ℕ → ℕ → Run (Bool × Io P.State)
  register_fd_callback l fd event p timeout =
      let r = call_fork_loop l in if r.0 then registered P r.1 fd event p timeout else ok r

  abbrev pub with_carg : Io P.State → ℕ → ℕ → ℕ → Option CallbackArg → Run (Bool × Io P.State)
  with_carg l fd event p none = ok (false, l)
  with_carg l fd event p (some a) =
      register_fd_callback (record l { cargs = set_carg l.cargs p a }) fd event p 0

  -- `fresh` is the pointer that PyMem_Malloc gives, or none.
  pub add_reader : Io P.State → Option ℕ → ℕ → ℕ → Option ℕ → Run (Bool × Io P.State)
  add_reader l fresh fd cb args = elim fresh [
    | none ↦ ok (false, l)
    | some p ↦
        with_carg l fd read_event p (make_callback_arg true read_event (some cb) args none none)
  ]

  pub add_writer : Io P.State → Option ℕ → ℕ → ℕ → Option ℕ → Run (Bool × Io P.State)
  add_writer l fresh fd cb args = elim fresh [
    | none ↦ ok (false, l)
    | some p ↦
        with_carg l fd write_event p (make_callback_arg true write_event none none (some cb) args)
  ]
