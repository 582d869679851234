-- ===== src/Channel/Send.antt =====
-- src/channel.c: what a send leaves in the channel, and when it schedules a notification.
use jega.Base.{
  ltb, leb, if◌then◌else◌, Bool-cases, length, length-append, Run, ok, ◌>>=◌, Ends, ends,
  Ends-weaken, Ends-then, ℕ, ◌+◌, ◌≤◌, ◌<◌, ◌≡◌, refl, sym, ap, ◌∙◌, subst, inl, inr, Bool, true,
  false, not, Option, none, some, List, [], ◌∷◌, ◌++◌, arith, dec_lt,
}
use jega.Ring
use jega.Ring.Push.{noext-room, noext-full}
use jega.Channel.{Message, Channel, notify_handle, notify_to_loop, failed, returned, switched, send}

-- A notification is under way that has not been marked as called.
abbrev pub is_pending : (ℕ → Bool) → Option ℕ → Bool
is_pending called none = false
is_pending called (some h) = not (called h)

-- The channel after a notification that can be scheduled.
abbrev informed : (ℕ → Bool) → ℕ → Channel → Option ℕ → Channel
informed called slot c h = record c {
  handle = if is_pending called h then h else some slot;
  notifies = if is_pending called h then c.notifies else c.notifies + 1;
}

notify_handle-informed :
    (called : ℕ → Bool) (slot : ℕ) (c : Channel) (h : Option ℕ)
    → c.handle ≡ h
    → notify_handle called (some slot) c h ≡ (true, informed called slot c h)
notify_handle-informed called slot c none e = refl
notify_handle-informed called slot c (some h) e = elim (Bool-cases (called h)) [
  | inl was ↦ rw was refl
  | inr not_yet ↦ rw not_yet (ap (λ (k : Option ℕ). (true, record c { handle = k })) e)
]

module _ (called : ℕ → Bool) (slot : ℕ) (msg : Message) (c : Channel) (ps : List Message) where
  pub send-queues :
      Ring.Contents.Holds c.pendings ps
      → length ps < c.pendings.max
      → (d : Channel) × (send called (some slot) msg c
          ≡ ok (if leb c.bufsize (length ps + 1) then switched else returned, d))
        × Ring.Contents.Holds d.pendings (ps ++ msg ∷ [])
        × (d.notifies ≡ (if is_pending called c.handle then c.notifies else c.notifies + 1))
        × (d.handle ≡ (if is_pending called c.handle then c.handle else some slot))
        × (d.waiters ≡ c.waiters)
  unfolding send notify_to_loop
  send-queues p room =
      let (r, pushed, q, same) = noext-room c.pendings ps msg p (omega (arith, p.sized)) in
      let sizes : r.size ≡ length ps + 1 = q.sized ∙ length-append ps (msg ∷ []) in
      let some_left : ltb 0 r.size ≡ true = ground arith in
      let d = informed called slot (record c { pendings = r }) c.handle in
      let tells = notify_handle-informed called slot (record c { pendings = r }) c.handle refl in
      (
        d,
        rw (pushed, some_left, tells)
            (ap (λ n. ok (if leb c.bufsize n then switched else returned, d)) sizes),
        q,
        refl,
        refl,
        refl,
      )

  -- A send to a full channel fails and leaves it as it was.
  pub send-full :
      Ring.Contents.Holds c.pendings ps
      → length ps ≡ c.pendings.max
      → send called (some slot) msg c ≡ ok (failed, c)
  unfolding send
  send-full p full = rw (noext-full c.pendings msg (omega (arith, p.sized))) refl

-- The messages are sent one after the other, each with the handle that the loop has for it.
abbrev pub send_all : (ℕ → Bool) → List (ℕ × Message) → Channel → Run Channel
send_all called [] c = ok c
send_all called ((slot, msg) ∷ rest) c =
    send called (some slot) msg c >>= λ (o, d). send_all called rest d

module _ (called : ℕ → Bool) (never : (h : ℕ) → called h ≡ false) where
  record Once (c : Channel) : Type 0 where
    messages : List Message
    kept : Ring.Contents.Holds c.pendings messages
    once : (if is_pending called c.handle then c.notifies else c.notifies + 1) ≤ 1
    few : c.notifies ≤ 1

  pending_then :
      (slot : ℕ) (h : Option ℕ)
      → is_pending called (if is_pending called h then h else some slot) ≡ true
  pending_then slot none = ap not (never slot)
  pending_then slot (some h) = rw (never h) (ap not (never h))

  send-Once :
      (slot : ℕ) (msg : Message) (c : Channel)
      → Once c
      → Ends (λ r. Once r.1) (send called (some slot) msg c)
  send-Once slot msg c k = elim (dec_lt (length k.messages) c.pendings.max) [
    | yes room ↦
        let (d, e, q, count, h, same) = send-queues called slot msg c k.messages k.kept room in
        let pending : is_pending called d.handle ≡ true =
          ap (is_pending called) h ∙ pending_then slot c.handle in
        subst (Ends (λ r. Once r.1)) (sym e) (
          ends (record {
            messages = k.messages ++ msg ∷ [];
            kept = q;
            once = rw pending (omega (arith, count, k.once));
            few = omega (arith, count, k.once);
          }))
    | no full ↦
        let e =
          send-full called slot msg c k.messages k.kept
            (omega (arith, k.kept.sized, k.kept.bounded, full)) in
        subst (Ends (λ r. Once r.1)) (sym e) (ends k)
  ]

  sends-Once :
      (msgs : List (ℕ × Message)) (c : Channel) → Once c → Ends Once (send_all called msgs c)
  sends-Once [] c k = ends k
  sends-Once ((slot, msg) ∷ rest) c k =
      Ends-then (send-Once slot msg c k) (λ (o, d) kept. sends-Once rest d kept)

  -- While no handle is marked as called, a channel that has not scheduled a notification schedules at
  -- most one, however many messages are sent. It needs that notifications can be scheduled.
  pub sends-notify_once :
      (msgs : List (ℕ × Message)) (c : Channel) (ps : List Message)
      → Ring.Contents.Holds c.pendings ps
      → c.handle ≡ none
      → c.notifies ≡ 0
      → Ends (λ d. d.notifies ≤ 1) (send_all called msgs c)
  sends-notify_once msgs c ps p no_handle silent =
      Ends-weaken
        (sends-Once msgs c (record {
          messages = ps;
          kept = p;
          once = rw no_handle (omega arith);
          few = omega arith;
        }))
        (λ d k. k.few)
