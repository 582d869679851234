-- ===== src/Transfer.antt =====
-- src/jega.c: internal_recv and internal_send, which call a method of a socket again as long as it would
-- block, and wait for the descriptor in between. The method and io_trampoline (src/loop.c), which switches
-- to other greenlets, act on a world of the caller's choice.
pub mod Retry
mod Tests
use jega.Base.{if◌then◌else◌, Run, fault, out_of_fuel, ok, ℕ, zero, suc, Bool, Option, none, some}

-- What a call of the method gives: a value, or an error number.
pub data Tried (Value : Type 0) : Type 0 where
  value : Value → Tried Value
  would_block : Tried Value
  error : ℕ → Tried Value

pub data Direction : Type 0 where
  reading writing : Direction

-- `call` is a call of recv or send with the arguments that were given, and `wait` is io_trampoline,
-- whose -1 is false.
pub record Peer (W Value : Type 0) : Type 0 where
  pub call : W → Tried Value × W
  pub wait : Direction → W → Bool × W

-- The tuple of arguments: whether the socket has a `_sock`, this has a descriptor and the method, and
-- whether more arguments than the socket and the loop were given.
pub record Args : Type 0 where
  pub has_sock : Bool
  pub has_descriptor : Bool
  pub has_method : Bool
  pub has_more : Bool

module _ {W Value : Type 0} (p : Peer W Value) where
  -- The result is `none` for NULL, with an exception set.
  pub retry_loop : ℕ → Direction → W → Run (Option Value × W)
  retry_loop zero way w = out_of_fuel
  retry_loop (suc fuel) way w =
      let (tried, w') = p.call w in
      let (waited, w'') = p.wait way w' in
      let again = retry_loop fuel way w'' in
      elim tried [
        | value v ↦ ok (some v, w')
        | would_block ↦ if waited then again else ok (none, w'')
        | error errno ↦ ok (none, w')
      ]

  -- Without further arguments the method is called with NULL for its tuple of arguments, which is also
  -- released at the end.
  abbrev pub prepared : Args → W → Run (Option Value × W) → Run (Option Value × W)
  prepared args w run =
      if args.has_sock
      then if args.has_descriptor
        then if args.has_method then if args.has_more then run else fault else ok (none, w)
        else ok (none, w)
      else ok (none, w)

  pub internal_send : ℕ → Args → W → Run (Option Value × W)
  internal_send fuel args w = prepared args w (retry_loop fuel writing w)

  -- A wait that fails before the first call returns `tmp`, which was never set.
  pub internal_recv : ℕ → Args → W → Run (Option Value × W)
  internal_recv fuel args w =
      let (waited, w') = p.wait reading w in
      let tried = retry_loop fuel reading w' in prepared args w (if waited then tried else fault)
