-- ===== src/Channel/Tests.antt =====
-- Sends to small channels, and the theorems at concrete inputs.
use jega.Base.{
  get_elem?, ok, Ends, ℕ, zero, suc, ◌+◌, ◌≤◌, ◌<◌, ◌≡◌, refl, Bool, false, none, some, List, [],
  ◌∷◌, arith,
}
use jega.Ring
use jega.Channel.{Message, Channel, Greenlets, notify}
use jega.Channel.Deliver.{notify-delivers}
use jega.Channel.Send.{send_all, sends-notify_once}

abbrev never : ℕ → Bool
never h = false

abbrev hello : Message
hello = record { data_args = 4; caller = 1 }

-- A channel for two messages, with nothing in it.
abbrev quiet : Channel
quiet = record {
  pendings = record { q = none ∷ none ∷ none ∷ []; first = 0; last = 1; size = 0; max = 2 };
  waiters = 7 ∷ [];
  bufsize = 2;
  handle = none;
  notifies = 0;
}

quiet-Holds : Ring.Contents.Holds quiet.pendings []
quiet-Holds = record {
  roomy = omega arith;
  sized = refl;
  bounded = omega arith;
  word = omega arith;
  first_in = omega arith;
  last_in = omega arith;
  joined = refl;
  entries = λ i h. absurd (omega arith);
}

notified_once :
    Ends (λ d. d.notifies ≤ 1) (send_all never ((5, hello) ∷ (6, hello) ∷ (7, hello) ∷ []) quiet)
notified_once =
    sends-notify_once never (λ h. refl) ((5, hello) ∷ (6, hello) ∷ (7, hello) ∷ []) quiet []
      quiet-Holds refl refl

-- Two messages wait, and three greenlets; the rest of the world keeps who got what.
abbrev crowded : Channel
crowded = record quiet {
  pendings = record {
    q = some hello ∷ some (record { data_args = 9; caller = 2 }) ∷ none ∷ [];
    first = 0;
    last = 1;
    size = 2;
    max = 2;
  };
  waiters = 7 ∷ 8 ∷ 6 ∷ [];
}

two_messages :
    (i : ℕ)
    → i < 2
    → get_elem? crowded.pendings.q (Ring.Wrap.wrap 2 (0 + i))
      ≡ some (get_elem? (hello ∷ record { data_args = 9; caller = 2 } ∷ []) i)
two_messages zero h = refl
two_messages (suc zero) h = refl
two_messages (suc (suc i)) h = absurd (omega arith)

crowded-Holds :
    Ring.Contents.Holds crowded.pendings (hello ∷ record { data_args = 9; caller = 2 } ∷ [])
crowded-Holds = record {
  roomy = omega arith;
  sized = refl;
  bounded = omega arith;
  word = omega arith;
  first_in = omega arith;
  last_in = omega arith;
  joined = refl;
  entries = two_messages;
}

abbrev noted : ℕ → ℕ → List ℕ → List ℕ
noted g d log = d ∷ g ∷ log

abbrev noted_back : ℕ → List ℕ → List ℕ
noted_back g log = g ∷ log

abbrev listeners : Greenlets (List ℕ)
listeners = record {
  hand = λ g d (c, log). (c, noted g d log);
  back = λ g (c, log). (c, noted_back g log);
}

notify-delivers_example :
    (n : Channel) × (notify listeners 4 (crowded, []) ≡ ok (false, n, 2 ∷ 9 ∷ 8 ∷ 1 ∷ 4 ∷ 7 ∷ []))
    × Ring.Contents.Holds n.pendings []
    × (n.waiters ≡ 6 ∷ [])
notify-delivers_example =
    notify-delivers listeners noted noted_back 4 crowded [] (7 ∷ 8 ∷ 6 ∷ [])
      (hello ∷ record { data_args = 9; caller = 2 } ∷ [])
      (record { hands = λ g d c s. refl; backs = λ g c s. refl }) (omega arith) refl crowded-Holds
      (omega arith)
