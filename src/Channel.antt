-- ===== src/Channel.antt =====
-- src/channel.c and src/channel.h: channels of messages. A message is its data and the
-- greenlet that sent it. `called` gives the field of that name of the loop's handles; `slot` is the
-- number of the handle that loop_schedule_call makes, or none when it fails.
pub mod Send
pub mod Deliver
mod Tests
use jega.Base.{
  ltb, leb, ◌==◌, if◌then◌else◌, length, Run, fault, out_of_fuel, ok, ◌>>=◌, ℕ, zero, suc, ◌+◌,
  Bool, true, false, ◌&&◌, Option, none, some, List, [], ◌∷◌,
}
use jega.Ring.{Ring, init_queue, queue_push_noext, queue_shift}
use jega.Futures.{insert}

pub record Message : Type 0 where
  pub data_args : ℕ
  pub caller : ℕ

-- `notifies` counts the calls of the notify function that have been scheduled.
pub record Channel : Type 0 where
  pub pendings : Ring Message
  pub waiters : List ℕ
  pub bufsize : ℕ
  pub handle : Option ℕ
  pub notifies : ℕ

-- `set_mem` says whether the set of waiters could be made.
pub create_channel : (ℕ → Bool) → Bool → ℕ → Option Channel
create_channel mem set_mem bufsize =
    elim (init_queue {A = Message} mem (if bufsize == 0 then 1 else bufsize)) [
      | none ↦ none
      | some r ↦
          if set_mem
          then some (record {
            pendings = r;
            waiters = [];
            bufsize = bufsize;
            handle = none;
            notifies = 0;
          })
          else none
    ]

-- A failure has lost the handle that was there.
abbrev schedule_notify : Option ℕ → Channel → Bool × Channel
schedule_notify none c = (false, c)
schedule_notify (some h) c = (true, record c { handle = some h; notifies = c.notifies + 1 })

abbrev pub notify_handle : (ℕ → Bool) → Option ℕ → Channel → Option ℕ → Bool × Channel
notify_handle called slot c none = schedule_notify slot c
notify_handle called slot c (some h) =
    if called h then schedule_notify slot (record c { handle = none }) else (true, c)

-- `false` is the result 0.
pub notify_to_loop : (ℕ → Bool) → Option ℕ → Channel → Bool × Channel
notify_to_loop called slot c = notify_handle called slot c c.handle

-- An exception; None at once; or a switch to the loop before it.
pub data Sent : Type 0 where
  failed returned switched : Sent

abbrev pub notified : Bool × Channel → Sent × Channel
notified (false, c) = (failed, c)
notified (true, c) = (if leb c.bufsize c.pendings.size then switched else returned, c)

abbrev queued : (ℕ → Bool) → Option ℕ → Channel → Option (Ring Message) → Run (Sent × Channel)
queued called slot c none = ok (failed, c)
queued called slot c (some r) =
    let pushed = record c { pendings = r } in
    ok (notified (if ltb 0 r.size then notify_to_loop called slot pushed else (true, pushed)))

pub send : (ℕ → Bool) → Option ℕ → Message → Channel → Run (Sent × Channel)
send called slot msg c = queue_push_noext c.pendings msg >>= queued called slot c

-- What is outside of the channel is `S`. A switch to a greenlet, with the errors that it ends in
-- handled, may change both.
pub record Greenlets (S : Type 0) : Type 0 where
  pub hand : ℕ → ℕ → Channel × S → Channel × S
  pub back : ℕ → Channel × S → Channel × S

module _ {S : Type 0} (around : Greenlets S) where
  -- A waiter gets the message, and then its sender goes on.
  abbrev pub deliver : ℕ → Message → Channel × S → Channel × S
  deliver g msg w = around.back msg.caller (around.hand g msg.data_args w)

  -- The `while` loop of the notify function, over the waiters in the order in which PySet_Pop gives
  -- them. `false` is the ValueError; a message that is not there is NULL.
  pub notify_loop : ℕ → Channel × S → Run (Bool × Channel × S)
  notify_loop zero w = out_of_fuel
  notify_loop (suc fuel) (c, s) =
      let received : ℕ → Channel → Option Message → Run (Bool × Channel × S) = λ g c' item.
        elim item [ none ↦ fault | some msg ↦ notify_loop fuel (deliver g msg (c', s)) ] in
      let handed : Run (Bool × Channel × S) = elim c.waiters [
        | [] ↦ ok (true, c, s)
        | g ∷ gs ↦ queue_shift c.pendings >>= λ (item, r).
            received g (record c { pendings = r; waiters = gs }) item
      ] in
      if c.pendings.size == 0 && ltb 0 (length c.waiters) then ok (false, c, s) else handed

  pub notify : ℕ → Channel × S → Run (Bool × Channel × S)
  notify fuel (c, s) =
      let rounds = notify_loop fuel (c, s) in
      if c.pendings.size == 0 then ok (true, c, s) else rounds

  -- `start_loop` and `loop_switch` may run anything; `false` is NULL.
  pub recv :
      (Channel × S → Bool × Channel × S)
      → (Channel × S → Bool × Channel × S)
      → ℕ
      → Channel × S
      → Bool × Channel × S
  recv start_loop loop_switch current (c, s) =
      let (started, c', s') = start_loop (record c { waiters = insert current c.waiters }, s) in
      if started then loop_switch (c', s') else (false, c', s')
