-- ===== src/Transfer/Retry.antt =====
-- internal_recv and internal_send of src/jega.c end with the first call that does not block.
use jega.Base.{ok, ℕ, zero, suc, ◌<◌, ◌≡◌, true, Option, none, some, arith}
use jega.Transfer.{
  Tried, value, would_block, error, Direction, reading, writing, Peer, Args, retry_loop,
  internal_send, internal_recv,
}

module _ {W Value : Type 0} (p : Peer W Value) where
  -- `n` calls in a row would block, and each wait after one succeeds.
  pub data Blocked (way : Direction) : ℕ → W → W → Type 0 where
    ready : {w : W} → Blocked way 0 w w
    blocked :
        {n m : ℕ} {w v u t : W}
        → p.call w ≡ (would_block, v)
        → p.wait way v ≡ (true, u)
        → Blocked way n u t
        → m ≡ suc n
        → Blocked way m w t

  -- The answer of a call that does not block: its value, or none for an error.
  pub data Final : Tried Value → Option Value → Type 0 where
    gave : (v : Value) → Final (value v) (some v)
    failed : (errno : ℕ) → Final (error errno) none

  abbrev pub Complete : Args → Type 0
  Complete a =
      (a.has_sock ≡ true) × (a.has_descriptor ≡ true) × (a.has_method ≡ true) × (a.has_more ≡ true)

  retry_loop-once :
      (way : Direction) (w u : W) (fuel : ℕ) {r : Tried Value} {o : Option Value}
      → p.call w ≡ (r, u)
      → Final r o
      → retry_loop p (suc fuel) way w ≡ ok (o, u)
  unfolding retry_loop
  retry_loop-once way w u fuel e (gave v) = ground (arith, e)
  retry_loop-once way w u fuel e (failed errno) = ground (arith, e)

  retry_loop-Final :
      (way : Direction) (n : ℕ) (w t u : W) (fuel : ℕ) (r : Tried Value) (o : Option Value)
      → Blocked way n w t
      → p.call t ≡ (r, u)
      → Final r o
      → n < fuel
      → retry_loop p fuel way w ≡ ok (o, u)
  unfolding retry_loop
  retry_loop-Final way n w t u zero r o b e f h = absurd (omega arith)
  retry_loop-Final way n w t u (suc fuel) r o ready e f h = retry_loop-once way w u fuel e f
  retry_loop-Final way n w t u (suc fuel) r o (blocked {n = k} {v = v} {u = x} b waits rest more) e
        f h =
      ground (arith, b, waits, retry_loop-Final way k x t u fuel r o rest e f (omega arith))

  -- internal_send calls the method until a call does not block, waits for the descriptor after each call
  -- that does, and returns the value of that last call, or NULL for its error. It needs the arguments to
  -- be there, waits that succeed, and fuel for the calls that block and one more.
  pub internal_send-answers :
      (args : Args) (n : ℕ) (w t u : W) (fuel : ℕ) (r : Tried Value) (o : Option Value)
      → Complete args
      → Blocked writing n w t
      → p.call t ≡ (r, u)
      → Final r o
      → n < fuel
      → internal_send p fuel args w ≡ ok (o, u)
  unfolding internal_send
  internal_send-answers args n w t u fuel r o (a, b, c, d) blocks e f h =
      rw (a, b, c, d) (retry_loop-Final writing n w t u fuel r o blocks e f h)

  -- internal_recv waits for the descriptor first, and then calls the method until a call does not block,
  -- waits for the descriptor after each call that does, and returns the value of that last call, or NULL
  -- for its error. It needs the arguments to be there, waits that succeed, and fuel for the calls that
  -- block and one more.
  pub internal_recv-answers :
      (args : Args) (n : ℕ) (w v t u : W) (fuel : ℕ) (r : Tried Value) (o : Option Value)
      → Complete args
      → p.wait reading w ≡ (true, v)
      → Blocked reading n v t
      → p.call t ≡ (r, u)
      → Final r o
      → n < fuel
      → internal_recv p fuel args w ≡ ok (o, u)
  unfolding internal_recv
  internal_recv-answers args n w v t u fuel r o (a, b, c, d) waits blocks e f h =
      rw (a, b, c, d, waits) (retry_loop-Final reading n v t u fuel r o blocks e f h)
