-- ===== src/Lookup/Start/Tests.antt =====
-- A lookup whose callback comes in the second switch, one that is interrupted, and the theorems there.
use jega.Base.{
  ltb, ◌==◌, if◌then◌else◌, fault, ok, ℕ, ◌+◌, ◌≡◌, refl, Bool, true, false, ◌&&◌, Option, none,
  some, List, [], ◌∷◌, arith,
}
use jega.Sockets.{af_inet}
use jega.Lookup.{
  HostEntry, name_text, Context, World, success, gethost_data, new_context, put_context,
  dealloc_ctx, gethostbyname_ex_cb,
}
use jega.Lookup.Start.{wait_lookup, convert_nameinfo_flag}
use jega.Lookup.Start.Flags.{convert_nameinfo_flag-bits}
use jega.Lookup.Start.Wait.{arrived, switched, wait_lookup-answers, wait_lookup-dangles}

abbrev waiting_context : Context
waiting_context = new_context 1

-- The rest of the world counts the switches.
abbrev asked_world : World ℕ
asked_world = record {
  contexts = λ p. if p == 5 then some waiting_context else none;
  error = false;
  rest = 0;
}

abbrev answered_context : Context
answered_context = record waiting_context { called = true; result = some (name_text (b'h' ∷ [])) }

abbrev one_switch : World ℕ → Bool × World ℕ
one_switch w = (true, record w { rest = w.rest + 1 })

-- The callback is called in the second switch.
abbrev second_switch : World ℕ → Bool × World ℕ
second_switch w =
    if w.rest == 1
    then (true, record (put_context w 5 (some answered_context)) { rest = 2 })
    else one_switch w

abbrev switched_once : World ℕ
switched_once = record asked_world { rest = 1 }

abbrev answered_world : World ℕ
answered_world = record (put_context switched_once 5 (some answered_context)) { rest = 2 }

wait_lookup-answers_example :
    wait_lookup second_switch 3 asked_world 5
    ≡ ok (some (name_text (b'h' ∷ [])), dealloc_ctx answered_world 5)
wait_lookup-answers_example =
    wait_lookup-answers second_switch 5 3 2 asked_world answered_world answered_context
      (switched {n = 1} {v = switched_once} {c = waiting_context} refl refl refl refl
        (switched {n = 0} {v = answered_world} {c = waiting_context} refl refl refl refl arrived
          refl)
        refl)
      refl refl (omega arith)

-- A timeout is thrown into the greenlet: the switch fails.
abbrev timed_out : World ℕ → Bool × World ℕ
timed_out w = (false, record w { error = true })

abbrev failed_world : World ℕ
failed_world = record asked_world { error = true }

abbrev no_text : ℕ → List ℕ → Option (List ℕ)
no_text family address = none

-- Bytes below 128 are a text.
abbrev ascii : List ℕ → Bool
ascii [] = true
ascii (b ∷ rest) = ltb b 128 && ascii rest

wait_lookup-dangles_example :
    (wait_lookup timed_out 1 asked_world 5 ≡ ok (none, dealloc_ctx failed_world 5))
    × (gethostbyname_ex_cb (λ g w. w) no_text ascii (dealloc_ctx failed_world 5) 5 success none
        ≡ fault)
wait_lookup-dangles_example =
    wait_lookup-dangles timed_out 5 (λ g w. w) no_text 0 asked_world failed_world waiting_context
      waiting_context (λ w. w) success none ascii refl refl refl refl refl refl (λ u. refl) refl

-- The address is its own text.
abbrev as_text : ℕ → List ℕ → Option (List ℕ)
as_text family address = some address

abbrev a_host : HostEntry
a_host = record {
  h_name = b'h' ∷ [];
  h_aliases = some ((b'h' ∷ []) ∷ (b'g' ∷ []) ∷ []);
  h_addrtype = af_inet;
  h_length = 1;
  h_addr_list = (1 ∷ []) ∷ (2 ∷ []) ∷ [];
}

-- An alias that is no text.
no_alias_text :
    gethost_data as_text ascii (record a_host { h_aliases = some ((200 ∷ []) ∷ []) }) ≡ none
unfolding gethost_data
no_alias_text = refl

two_flags : convert_nameinfo_flag 5 ≡ some 771
two_flags = convert_nameinfo_flag-bits 5
