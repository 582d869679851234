-- ===== src/Calls/Tests.antt =====
-- Calls that are scheduled in a small loop, and the theorem at concrete inputs.
use jega.Base.{ok, ◌≡◌, refl, [], ◌∷◌}
use jega.Calls.{Calls, negative, callable, raises, call_later}
use jega.Calls.Sample.{plenty, idle_calls}

negative_delay :
    call_later plenty plenty plenty idle_calls (negative 1 ∷ callable 8 ∷ [])
    ≡ ok (raises idle_calls)
unfolding call_later
negative_delay = refl
