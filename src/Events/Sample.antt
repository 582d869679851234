-- ===== src/Events/Sample.antt =====
-- An event library over three arrays, for runs.
use jega.Base.{◌==◌, if◌then◌else◌, ==_iff, ℕ, ◌≡◌, refl, ap, ◌≢◌, Bool, true, false, none, arith}
use jega.Events.{Target, handler, Picoev, IsLawful, Io, reader}
use jega.Loop.{stop}

pub record Arrays : Type 0 where
  pub active : ℕ → Bool
  pub target_of : ℕ → Target
  pub events_of : ℕ → ℕ

abbrev pub put {ℓ} : {A : Type ℓ} → (ℕ → A) → ℕ → A → ℕ → A
put f i a j = if j == i then a else f j

abbrev pub arrays : Picoev
arrays = record {
  State = Arrays;
  is_active = λ s fd. s.active fd;
  target = λ s fd. s.target_of fd;
  events = λ s fd. s.events_of fd;
  add = λ s fd event timeout t. (
    true,
    record {
      active = put s.active fd true;
      target_of = put s.target_of fd t;
      events_of = put s.events_of fd event;
    },
  );
  del = λ s fd. record s { active = put s.active fd false };
  set_events = λ s fd event. (true, record s { events_of = put s.events_of fd event });
}

pub put_here {ℓ} : {A : Type ℓ} → (f : ℕ → A) (i : ℕ) (a : A) → put f i a i ≡ a
put_here f i a = ap (λ b. if b then a else f i) ((==_iff i i).1 refl)

pub put_elsewhere {ℓ} : {A : Type ℓ} → (f : ℕ → A) (i j : ℕ) (a : A) → j ≢ i → put f i a j ≡ f j
put_elsewhere f i j a ne =
    let apart : (j == i) ≡ false = ground (arith, ne) in ap (λ b. if b then a else f j) apart

pub arrays-IsLawful : IsLawful arrays
arrays-IsLawful = record {
  add-active = λ s fd event timeout j t off. refl;
  add-target = λ s fd event timeout j t off. refl;
  add-events = λ s fd event timeout t off done. put_here s.events_of fd event;
  del-target = λ s fd j. refl;
  del-active = λ s fd j. refl;
  set_events-active = λ s fd event j. refl;
  set_events-target = λ s fd event j. refl;
  set_events-events = λ s fd event done. put_here s.events_of fd event;
}

abbrev pub none_active : ℕ → Bool
none_active fd = false

-- Nothing is registered.
abbrev pub idle : Io Arrays
idle = record {
  main_loop = record { active = none_active; target_of = λ fd. handler 0 0; events_of = λ fd. 0 };
  cargs = λ p. reader none none;
  ioactivecnt = 0;
  postfork = false;
  error_set = false;
  state = stop;
}
