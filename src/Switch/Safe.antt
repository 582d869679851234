-- ===== src/Switch/Safe.antt =====
-- loop_switch of src/loop.c: it switches to no greenlet that is dead.
use jega.Switch.{
  Main, Greenlets, is_at, in_state, greenlet_dead, greenlet_getparent, switch_or_fault, with_new,
  finished, begun, entered, run_on_main_task, run_loop, enter, loop_switch,
}
use jega.Loop.{stop, running}
use jega.Base.{
  if◌then◌else◌, Bool-cases, Run, ok, ◌>>=◌, ℕ, ◌≡◌, refl, sym, ap, ◌∙◌, subst, inl, inr, Bool,
  true, false, Option, none, some,
}

-- What is relied on: a new greenlet is not dead, a new parent changes nothing of that, and a switch to
-- a greenlet that is not dead comes back.
pub record IsLive {W : Type 0} (lib : Greenlets W) : Type 0 where
  pub new :
      (w : W) (g : ℕ) (w' : W) → lib.make w ≡ (some g, w') → greenlet_dead lib (some g) w' ≡ false
  pub same :
      (c p g : ℕ) (w : W)
      → greenlet_dead lib (some g) (lib.set_parent c p w) ≡ greenlet_dead lib (some g) w
  pub back :
      (g : ℕ) (m : Main W)
      → greenlet_dead lib (some g) m.world ≡ false
      → (r : Bool × Main W) × (lib.switch g m ≡ ok r)

module _ {W : Type 0} (lib : Greenlets W) (live : IsLive lib) where
  abbrev Returns : Run (Bool × Main W) → Type 0
  Returns r = (x : Bool × Main W) × (r ≡ ok x)

  switch_or_fault-Returns :
      (o : Option ℕ) (m : Main W)
      → greenlet_dead lib o m.world ≡ false
      → Returns (switch_or_fault lib o m)
  unfolding greenlet_dead
  switch_or_fault-Returns none m a = absurd (cc a)
  switch_or_fault-Returns (some g) m a = live.back g m a

  enter-Returns :
      (o : Option ℕ) (m : Main W) → greenlet_dead lib o m.world ≡ false → Returns (enter lib o m)
  unfolding greenlet_dead
  enter-Returns none m a = absurd (cc a)
  enter-Returns (some g) m a =
      let current = lib.current m.world in
      let m' = record m { world = lib.set_parent current g m.world } in
      elim (Bool-cases (is_at (lib.parent g m.world) current)) [
        | inl is ↦
            let (x, e) = live.back g m a in
            (x, ap (λ b. if b then lib.switch g m else lib.switch g m') is ∙ e)
        | inr isnt ↦
            let (x, e) = live.back g m' (live.same current g g m.world ∙ a) in
            (x, ap (λ b. if b then lib.switch g m else lib.switch g m') isnt ∙ e)
      ]

  with_new-live :
      (m n : Main W) (r : Option ℕ × W)
      → lib.make m.world ≡ r
      → with_new lib m r ≡ (true, n)
      → greenlet_dead lib n.greenlet n.world ≡ false
  with_new-live m n (none, w) e made = absurd (cc (ap (λ (b : Bool × Main W). b.0) made))
  with_new-live m n (some g, w) e made =
      subst (λ (k : Main W). greenlet_dead lib k.greenlet k.world ≡ false)
        (ap (λ (b : Bool × Main W). b.1) made) (live.new m.world g w e)

  begun-live :
      (m : Main W) (n : Main W)
      → begun lib m ≡ (true, n)
      → greenlet_dead lib n.greenlet n.world ≡ false
  begun-live m n e = elim (Bool-cases (greenlet_dead lib m.greenlet m.world)) [
    | inl dead ↦
        with_new-live m n (lib.make m.world) refl
          (sym (ap (λ b. if b then with_new lib m (lib.make m.world) else (true, m)) dead) ∙ e)
    | inr alive ↦
        let same : m ≡ n =
          ap (λ (r : Bool × Main W). r.1)
            (sym (ap (λ b. if b then with_new lib m (lib.make m.world) else (true, m)) alive)
              ∙ e) in
        subst (λ (k : Main W). greenlet_dead lib k.greenlet k.world ≡ false) same alive
  ]

  -- A run that was entered leaves a loop whose greenlet is dead stopped.
  abbrev Stops : Run (Bool × Main W) → Type 0
  Stops r =
      (x : Bool × Main W) × (r ≡ ok x)
      × ((x.0 ≡ true)
          → greenlet_dead lib x.1.greenlet x.1.world ≡ true
          → x.1.calls.loop.state ≡ stop)

  finished-stops :
      (r : Bool × Main W)
      → greenlet_dead lib (finished lib r).1.greenlet (finished lib r).1.world ≡ true
      → (finished lib r).1.calls.loop.state ≡ stop
  finished-stops (res, m) dead = elim (Bool-cases (greenlet_dead lib m.greenlet m.world)) [
    | inl is ↦ ap (λ b. (if b then in_state stop m else m).calls.loop.state) is
    | inr isnt ↦
        let same : (finished lib (res, m)).1 ≡ m =
          ap (λ b. if b then in_state stop m else m) isnt in
        let alive = ap (λ (k : Main W). greenlet_dead lib k.greenlet k.world) same ∙ isnt in
        absurd (cc (sym alive ∙ dead))
  ]

  entered-Stops :
      (b : Bool × Main W)
      → ((b.0 ≡ true) → greenlet_dead lib b.1.greenlet b.1.world ≡ false)
      → Stops (entered lib b)
  entered-Stops (false, m) live = ((false, m), refl, λ made. absurd (cc made))
  entered-Stops (true, m) live =
      let (x, e) = switch_or_fault-Returns m.greenlet (in_state running m) (live refl) in
      (finished lib x, ap (λ r. r >>= λ y. ok (finished lib y)) e, λ res. finished-stops x)

  -- run_on_main_task returns, whether the loop's greenlet is dead or not. When the result is not NULL
  -- and the loop's greenlet is dead afterwards, the loop has stopped.
  pub run_on_main_task-returns :
      (m : Main W)
      → (x : Bool × Main W) × (run_on_main_task lib true m ≡ ok x)
        × ((x.0 ≡ true)
            → greenlet_dead lib x.1.greenlet x.1.world ≡ true
            → x.1.calls.loop.state ≡ stop)
  unfolding run_on_main_task
  run_on_main_task-returns m =
      entered-Stops (begun lib m)
        (λ made. begun-live m (begun lib m).1 (ap (λ b. (b, (begun lib m).1)) made))

  -- loop_switch returns, from the loop's greenlet, whose parent is not dead, and from any other: it
  -- switches to no greenlet that is dead, and to NULL never.
  pub loop_switch-returns :
      (m : Main W)
      → (is_at m.greenlet (lib.current m.world) ≡ true
          → greenlet_dead lib (greenlet_getparent lib m.greenlet m.world) m.world ≡ false)
      → (x : Bool × Main W) × (loop_switch lib m ≡ ok x)
  unfolding loop_switch
  loop_switch-returns m above =
      let current = lib.current m.world in
      let alone = record m { greenlet = none; suspend_thread = some current } in
      let restart = run_loop lib alone in
      let up = switch_or_fault lib (greenlet_getparent lib m.greenlet m.world) m in
      let down = enter lib m.greenlet m in
      let choice = λ (here dead : Bool). if here then up else if dead then restart else down in
      elim (Bool-cases (is_at m.greenlet current)) [
        | inl here ↦
            let (x, e) =
              switch_or_fault-Returns (greenlet_getparent lib m.greenlet m.world) m (above here) in
            (x, ap (λ b. choice b (greenlet_dead lib m.greenlet m.world)) here ∙ e)
        | inr there ↦ elim (Bool-cases (greenlet_dead lib m.greenlet m.world)) [
          | inl dead ↦ let (x, e, stops) = run_on_main_task-returns alone in (x, rw (there, dead) e)
          | inr alive ↦ let (x, e) = enter-Returns m.greenlet m alive in (x, rw (there, alive) e)
        ]
      ]
