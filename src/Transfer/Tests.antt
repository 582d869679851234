-- ===== src/Transfer/Tests.antt =====
-- A socket that would block twice and then takes seven bytes. A world counts the calls and the waits.
use jega.Base.{◌==◌, if◌then◌else◌, ok, ℕ, ◌+◌, ◌≡◌, refl, true, some, arith}
use jega.Transfer.{
  value, would_block, Direction, reading, writing, Peer, Args, internal_send, internal_recv,
}
use jega.Transfer.Retry.{
  Blocked, ready, blocked, gave, internal_send-answers, internal_recv-answers,
}

abbrev slow : Peer (ℕ × ℕ) ℕ
slow = record {
  call = λ (calls, waits).
      if calls == 2 then (value 7, (calls + 1, waits)) else (would_block, (calls + 1, waits));
  wait = λ way (calls, waits). (true, (calls, waits + 1));
}

abbrev complete : Args
complete = record { has_sock = true; has_descriptor = true; has_method = true; has_more = true }

abbrev TwiceBlocked : (way : Direction) (waits : ℕ) → Type 0
TwiceBlocked way waits = Blocked slow way 2 (0, waits) (2, waits + 2)

blocks : (way : Direction) → TwiceBlocked way 0
blocks way = blocked {n = 1} refl refl (blocked {n = 0} refl refl ready refl) refl

blocks_later : (way : Direction) → TwiceBlocked way 1
blocks_later way = blocked {n = 1} refl refl (blocked {n = 0} refl refl ready refl) refl

internal_send-answers_example : internal_send slow 3 complete (0, 0) ≡ ok (some 7, (3, 2))
internal_send-answers_example =
    internal_send-answers slow complete 2 (0, 0) (2, 2) (3, 2) 3 (value 7) (some 7)
      (refl, refl, refl, refl) (blocks writing) refl (gave 7) (omega arith)

internal_recv-answers_example : internal_recv slow 3 complete (0, 0) ≡ ok (some 7, (3, 3))
internal_recv-answers_example =
    internal_recv-answers slow complete 2 (0, 0) (0, 1) (2, 3) (3, 3) 3 (value 7) (some 7)
      (refl, refl, refl, refl) refl (blocks_later reading) refl (gave 7) (omega arith)
