-- ===== src/Events/Dispatch/Safe.antt =====
-- fd_callback of src/loop.c never calls NULL, whatever callbacks were added and removed before.
use jega.Base.{
  if◌then◌else◌, Bool-cases, Run, ok, Ends, ends, Ends-then, u32_mod, ℕ, ◌+◌, ◌/◌, ◌%◌, ◌≤◌, ◌<◌,
  ◌≡◌, refl, ◌∙◌, subst, inl, inr, Bool, true, false, Option, none, some, List, [], ◌∷◌, arith,
}
use jega.Events.{Target, fd_callback, Picoev, IsLawful, CallbackArg, Io, is_some}
use jega.Events.Dispatch.{
  has_read, has_write, has_timeout, call_one, run_fd_callback, mask, KeepsEvents,
}
use jega.Events.Fresh.{UsesFrom-IsFresh}
use jega.Events.Session.{IoCall, Inside, Ends-both, performs, AllFresh, perform-Applied}
use jega.Events.Table.{Tidy}
use jega.Events.Dispatch.Armed.{Armed, perform-Armed}

-- The event library reports a descriptor for some of the events it is armed for.
abbrev pub Reported : ℕ → ℕ → Type 0
Reported events armed =
    (0 < events) × (events < 4) × (events % 2 ≤ armed % 2) × (events / 2 ≤ armed / 2 % 2)

-- The callback that goes with the reported events: reading comes first.
abbrev pub chosen : ℕ → CallbackArg → Option ℕ × Option ℕ
chosen events a =
    if has_read events then (a.read_callback, a.read_args) else (a.write_callback, a.write_args)

Ends-at {ℓ κ} :
    {A : Type ℓ} {F : A → Type κ} {call : Run A} {v : A} → Ends F call → call ≡ ok v → F v
Ends-at {F} (ends held) e = subst F (cc) held

module _ (P : Picoev) (lawful : IsLawful P) (keeps : KeepsEvents P) (max : ℕ) (word : max < u32_mod)
    (reset : Io P.State → Bool × Io P.State)
    (adds : (s : P.State) (fd event timeout : ℕ) (t : Target)
      → (P.add s fd event timeout t).0 ≡ true)
    (sets : (s : P.State) (fd event : ℕ) → (P.set_events s fd event).0 ≡ true) where
  performs-Armed :
      (calls : List IoCall) (p : ℕ) (l : Io P.State)
      → Tidy P lawful max l
      → Armed P lawful keeps max l
      → AllFresh P reset lawful max word adds sets p l
      → Inside max calls
      → Ends (λ r. Armed P lawful keeps max r.1) (performs P reset p calls l)
  unfolding performs
  performs-Armed [] p l t armed fresh inside = ends armed
  performs-Armed (call ∷ calls) p l t armed fresh (here, rest) =
      Ends-then
        (Ends-both
          (perform-Applied P reset lawful max word adds sets l p call t (fresh p (omega arith))
            here)
          (perform-Armed P lawful keeps max sets reset adds l p call t (fresh p (omega arith))
            armed))
        λ (done, m) ((e, (tidy, shows), uses), armed').
          Ends-then
            (performs-Armed calls (p + 1) m tidy armed'
              (λ q le.
                UsesFrom-IsFresh P lawful max l m p q uses (omega arith) (fresh q (omega arith)))
              rest)
            (λ (others, n) h. ends h)

  call_one-some :
      (call : ℕ → Option ℕ → Io P.State → Io P.State) (o args : Option ℕ) (l : Io P.State)
      → is_some o ≡ true
      → (cb : ℕ) × (o ≡ some cb) × (call_one call o args l ≡ ok (call cb args l))
  call_one-some call none args l e = cc
  call_one-some call (some cb) args l e = (cb, refl, refl)

  mask-chosen :
      (a : CallbackArg) (events : ℕ) → Reported events (mask a) → is_some (chosen events a).0 ≡ true
  mask-chosen a events reported = ground arith

  run_fd_callback-chosen :
      (call : ℕ → Option ℕ → Io P.State → Io P.State) (m : Io P.State) (fd events q : ℕ)
      → Reported events (mask (m.cargs q))
      → run_fd_callback P call m fd events q
        ≡ call_one call (chosen events (m.cargs q)).0 (chosen events (m.cargs q)).1 m
  unfolding run_fd_callback
  run_fd_callback-chosen call m fd events q reported =
      let calm : has_timeout events ≡ false = ground arith in
      elim (Bool-cases (has_read events)) [
        | inl r ↦ rw (calm, r) refl
        | inr w ↦ let writes : has_write events ≡ true = ground arith in rw (calm, w, writes) refl
      ]

  -- After any sequence of the four calls, in a state where each active descriptor was armed for its
  -- callbacks, the event library reports an active descriptor for some of the events it is armed for: then
  -- fd_callback calls the callback for reading, if reading is reported, and the one for writing else, with
  -- its arguments, and that callback is there.
  pub performs-dispatches :
      (call : ℕ → Option ℕ → Io P.State → Io P.State) (calls : List IoCall) (p : ℕ)
      (l m : Io P.State) (fd q events : ℕ)
      → Tidy P lawful max l
      → Armed P lawful keeps max l
      → AllFresh P reset lawful max word adds sets p l
      → Inside max calls
      → performs P reset p calls l ≡ ok (true, m)
      → P.is_active m.main_loop fd ≡ true
      → P.target m.main_loop fd ≡ fd_callback q
      → Reported events (P.events m.main_loop fd)
      → (cb : ℕ) × ((chosen events (m.cargs q)).0 ≡ some cb)
        × (run_fd_callback P call m fd events q ≡ ok (call cb (chosen events (m.cargs q)).1 m))
  performs-dispatches call calls p l m fd q events t armed fresh inside runs on at reported =
      let after = Ends-at (performs-Armed calls p l t armed fresh inside) runs in
      let of_mask = subst (Reported events) (after fd q on at).0 reported in
      let (cb, there, calls_it) =
        call_one-some call (chosen events (m.cargs q)).0 (chosen events (m.cargs q)).1 m
          (mask-chosen (m.cargs q) events of_mask) in
      (cb, there, run_fd_callback-chosen call m fd events q of_mask ∙ calls_it)
