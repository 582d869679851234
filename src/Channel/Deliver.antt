-- ===== src/Channel/Deliver.antt =====
-- The notify function of src/channel.c: which waiter gets which message.
use jega.Base.{
  ltb, leb, ◌==◌, if◌then◌else◌, length, drop, Run, fault, ok, ◌>>=◌, ℕ, zero, suc, ◌<◌, ◌≡◌, refl,
  sym, ap, ◌∙◌, Bool, true, false, ◌&&◌, Option, none, some, List, [], ◌∷◌, arith,
}
use jega.Ring
use jega.Ring.{queue_shift}
use jega.Ring.Shift.{shift-cons}
use jega.Channel.{Message, Channel, Greenlets, deliver, notify_loop, notify}

drop-nil {ℓ} : {A : Type ℓ} → (n : ℕ) → drop {A = A} n [] ≡ []
drop-nil zero = refl
drop-nil (suc n) = refl

module _ {S : Type 0} (around : Greenlets S) (hand : ℕ → ℕ → S → S) (back : ℕ → S → S) where
  -- Switches that leave the channel alone, and do the rest as `hand` and `back` say.
  pub record LeavesChannel : Type 0 where
    pub hands : (g d : ℕ) (c : Channel) (s : S) → around.hand g d (c, s) ≡ (c, hand g d s)
    pub backs : (g : ℕ) (c : Channel) (s : S) → around.back g (c, s) ≡ (c, back g s)

  -- The rest of the world after the deliveries, the first waiter with the first message and so on.
  abbrev pub delivered : List ℕ → List Message → S → S
  delivered [] ms s = s
  delivered (g ∷ gs) [] s = s
  delivered (g ∷ gs) (m ∷ ms) s = delivered gs ms (back m.caller (hand g m.data_args s))

  deliver-leaves :
      LeavesChannel
      → (g : ℕ) (m : Message) (c : Channel) (s : S)
      → deliver around g m (c, s) ≡ (c, back m.caller (hand g m.data_args s))
  deliver-leaves leaves g m c s =
      ap (around.back m.caller) (leaves.hands g m.data_args c s) ∙ leaves.backs m.caller c _

  abbrev Delivers : S → List ℕ → List Message → Run (Bool × Channel × S) → Type 0
  Delivers s gs ms r =
      (n : Channel) × (r ≡ ok (leb (length gs) (length ms), n, delivered gs ms s))
      × Ring.Contents.Holds n.pendings (drop (length gs) ms)
      × (n.waiters ≡ drop (length ms) gs)

  abbrev handed_on : ℕ → S → ℕ → Channel → Option Message → Run (Bool × Channel × S)
  handed_on fuel s g c none = fault
  handed_on fuel s g c (some m) = notify_loop around fuel (deliver around g m (c, s))

  -- The rest of a round, by the waiters that are there.
  abbrev by_waiters : ℕ → Channel → S → List ℕ → Run (Bool × Channel × S)
  by_waiters fuel c s [] = ok (true, c, s)
  by_waiters fuel c s (g ∷ gs) = queue_shift c.pendings >>= λ (item, r).
      handed_on fuel s g (record c { pendings = r; waiters = gs }) item

  abbrev round_of : ℕ → Channel → S → List ℕ → Bool → Run (Bool × Channel × S)
  round_of fuel c s gs b = if b then ok (false, c, s) else by_waiters fuel c s gs

  -- Both kinds of object that a round looks at.
  notify_loop-round :
      (fuel : ℕ) (c : Channel) (s : S) (gs : List ℕ) (b : Bool)
      → c.waiters ≡ gs
      → (c.pendings.size == 0 && ltb 0 (length gs)) ≡ b
      → notify_loop around (suc fuel) (c, s) ≡ round_of fuel c s gs b
  unfolding notify_loop
  notify_loop-round fuel c s gs b e t =
      ap (λ ws. round_of fuel c s ws (c.pendings.size == 0 && ltb 0 (length ws))) e
      ∙ ap (round_of fuel c s gs) t

  notify_loop-Delivers :
      (fuel : ℕ) (c : Channel) (s : S) (gs : List ℕ) (ms : List Message)
      → LeavesChannel
      → length gs < fuel
      → c.waiters ≡ gs
      → Ring.Contents.Holds c.pendings ms
      → Delivers s gs ms (notify_loop around fuel (c, s))
  notify_loop-Delivers zero c s gs ms leaves enough e held = absurd (omega arith)
  notify_loop-Delivers (suc fuel) c s [] ms leaves enough e held = (
    c,
    notify_loop-round fuel c s [] false e (ground arith) ∙ ap (λ b. ok (b, c, s)) (ground arith),
    held,
    e ∙ sym (drop-nil (length ms)),
  )
  notify_loop-Delivers (suc fuel) c s (g ∷ gs) [] leaves enough e held = (
    c,
    notify_loop-round fuel c s (g ∷ gs) true e (ground (arith, held.sized))
        ∙ ap (λ b. ok (b, c, s)) (ground arith),
    held,
    e,
  )
  notify_loop-Delivers (suc fuel) c s (g ∷ gs) (m ∷ ms) leaves enough e held =
      let (r, shifted, rest, max) = shift-cons c.pendings m ms held in
      let c' = record c { pendings = r; waiters = gs } in
      let (n, runs, holds, waits) =
        notify_loop-Delivers fuel c' (back m.caller (hand g m.data_args s)) gs ms leaves
          (omega arith) refl rest in
      (
        n,
        notify_loop-round fuel c s (g ∷ gs) false e (ground (arith, held.sized))
            ∙ ap
                (λ q. q >>= λ (item, r).
                  handed_on fuel s g (record c { pendings = r; waiters = gs }) item)
                shifted
            ∙ ap (notify_loop around fuel) (deliver-leaves leaves g m c' s)
            ∙ runs
            ∙ ap (λ b. ok (b, n, delivered gs ms (back m.caller (hand g m.data_args s))))
                (ground arith),
        holds,
        waits,
      )

  -- The notify function on a channel that holds messages, with switches that leave the channel alone:
  -- the first waiter gets the first message and so on, and after each message its sender is switched
  -- to. It fails exactly if there are more waiters than messages. The messages that are left stay in
  -- order, and so do the waiters that are left. Fuel for one round more than there are waiters is
  -- enough.
  pub notify-delivers :
      (fuel : ℕ) (c : Channel) (s : S) (gs : List ℕ) (ms : List Message)
      → LeavesChannel
      → length gs < fuel
      → c.waiters ≡ gs
      → Ring.Contents.Holds c.pendings ms
      → 0 < length ms
      → (n : Channel) × (notify around fuel (c, s)
          ≡ ok (leb (length gs) (length ms), n, delivered gs ms s))
        × Ring.Contents.Holds n.pendings (drop (length gs) ms)
        × (n.waiters ≡ drop (length ms) gs)
  unfolding notify
  notify-delivers fuel c s gs ms leaves enough e held some_wait =
      let (n, runs, holds, waits) = notify_loop-Delivers fuel c s gs ms leaves enough e held in
      let filled : (c.pendings.size == 0) ≡ false = ground (arith, held.sized, some_wait) in
      (
        n,
        ap (λ b. if b then ok (true, c, s) else notify_loop around fuel (c, s)) filled ∙ runs,
        holds,
        waits,
      )
