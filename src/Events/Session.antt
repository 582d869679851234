-- ===== src/Events/Session.antt =====
-- The socket events of src/loop.c: any sequence of add_reader, add_writer, remove_reader and remove_writer
-- against a table of callbacks.
use mathlib.Core.Path.{fun_ext}
use jega.Base.{
  ◌==◌, if◌then◌else◌, Run, ok, ◌>>=◌, Ends, ends, Ends-weaken, Ends-then, u32_mod, ℕ, ◌+◌, ◌≤◌,
  ◌<◌, ◌≡◌, refl, ap, ◌∙◌, Bool, true, ◌&&◌, Option, some, List, [], ◌∷◌, arith,
}
use jega.Events.{
  Target, Picoev, IsLawful, CallbackArg, Io, remove_reader, remove_writer, add_reader, add_writer,
}
use jega.Events.Fresh.{
  UsesFrom-IsFresh, Uses, remove_reader-Uses, remove_writer-Uses, add_reader-Uses, add_writer-Uses,
}
use jega.Events.Table.{
  with_reader, with_writer, without_reader, without_writer, table, Tidy, IsFresh, Updates,
}
use jega.Events.Watched.{
  remove_reader-watches, remove_writer-watches, add_reader-watches, add_writer-watches,
}

pub data IoCall : Type 0 where
  read_with write_with : (fd cb : ℕ) → Option ℕ → IoCall
  end_read end_write : (fd : ℕ) → IoCall

abbrev pub descriptor : IoCall → ℕ
descriptor (read_with fd cb args) = fd
descriptor (write_with fd cb args) = fd
descriptor (end_read fd) = fd
descriptor (end_write fd) = fd

-- What a call makes of the entry of its descriptor.
abbrev pub new_entry : IoCall → Option CallbackArg → Option CallbackArg
new_entry (read_with fd cb args) entry = some (with_reader cb args entry)
new_entry (write_with fd cb args) entry = some (with_writer cb args entry)
new_entry (end_read fd) entry = without_reader entry
new_entry (end_write fd) entry = without_writer entry

abbrev pub apply_call : IoCall → (ℕ → Option CallbackArg) → ℕ → Option CallbackArg
apply_call call entries j =
    if j == descriptor call then new_entry call (entries (descriptor call)) else entries j

abbrev pub apply_calls : List IoCall → (ℕ → Option CallbackArg) → ℕ → Option CallbackArg
apply_calls [] entries = entries
apply_calls (call ∷ calls) entries = apply_calls calls (apply_call call entries)

abbrev pub Inside : ℕ → List IoCall → Type 0
Inside max [] = Unit {0}
Inside max (call ∷ calls) = (descriptor call < max) × Inside max calls

pub Ends-both {ℓ κ μ} :
    {A : Type ℓ} {F : A → Type κ} {G : A → Type μ} {call : Run A}
    → Ends F call
    → Ends G call
    → Ends (λ v. F v × G v) call
Ends-both (ends p) (ends q) = ends (p, q)

module _ (P : Picoev) (reset : Io P.State → Bool × Io P.State) where
  -- The block `p` is there for a new callback_arg_t; a removal gives no result.
  abbrev pub perform : ℕ → IoCall → Io P.State → Run (Bool × Io P.State)
  perform p (read_with fd cb args) l = add_reader P reset l (some p) fd cb args
  perform p (write_with fd cb args) l = add_writer P reset l (some p) fd cb args
  perform p (end_read fd) l = remove_reader P l fd >>= λ m. ok (true, m)
  perform p (end_write fd) l = remove_writer P l fd >>= λ m. ok (true, m)

  -- Each call has its own block. The answer says whether all calls were successful.
  unfoldable pub performs : ℕ → List IoCall → Io P.State → Run (Bool × Io P.State)
  performs p [] l = ok (true, l)
  performs p (call ∷ calls) l = perform p call l >>= λ (done, m).
      performs (p + 1) calls m >>= λ (rest, n). ok (done && rest, n)

  module _ (lawful : IsLawful P) (max : ℕ) (word : max < u32_mod)
      (adds : (s : P.State) (fd event timeout : ℕ) (t : Target)
        → (P.add s fd event timeout t).0 ≡ true)
      (sets : (s : P.State) (fd event : ℕ) → (P.set_events s fd event).0 ≡ true) where
    abbrev pub AllFresh : ℕ → Io P.State → Type 0
    AllFresh p l = (q : ℕ) → p ≤ q → IsFresh P lawful max l q

    abbrev pub Applied : Io P.State → ℕ → IoCall → Bool × Io P.State → Type 0
    Applied l p call (done, m) =
        (done ≡ true)
        × Updates P lawful max l (descriptor call)
            (new_entry call (table P lawful max l (descriptor call))) m
        × Uses P lawful max l p m

    pub perform-Applied :
        (l : Io P.State) (p : ℕ) (call : IoCall)
        → Tidy P lawful max l
        → IsFresh P lawful max l p
        → descriptor call < max
        → Ends (Applied l p call) (perform p call l)
    perform-Applied l p (read_with fd cb args) t fresh inside =
        Ends-weaken
          (Ends-both
            (add_reader-watches P lawful max word reset adds sets l fd p cb args t fresh inside)
            (add_reader-Uses P lawful max reset l fd p cb args t))
          (λ r (a, b). (a.0, a.1, b))
    perform-Applied l p (write_with fd cb args) t fresh inside =
        Ends-weaken
          (Ends-both
            (add_writer-watches P lawful max word reset adds sets l fd p cb args t fresh inside)
            (add_writer-Uses P lawful max reset l fd p cb args t))
          (λ r (a, b). (a.0, a.1, b))
    perform-Applied l p (end_read fd) t fresh inside =
        Ends-then
          (Ends-both (remove_reader-watches P lawful max word l fd t inside)
            (remove_reader-Uses P lawful max l fd p t))
          (λ m (a, b). ends (refl, a, b))
    perform-Applied l p (end_write fd) t fresh inside =
        Ends-then
          (Ends-both (remove_writer-watches P lawful max word l fd t inside)
            (remove_writer-Uses P lawful max l fd p t))
          (λ m (a, b). ends (refl, a, b))

    -- When every active descriptor is one with callbacks, each with a block of its own, the active
    -- descriptors are counted, there was no fork, and the event library takes every descriptor, any sequence of the four calls at descriptors below
    -- `max`, each with a block that is not in use, ends with success, and leaves the table of callbacks as
    -- the calls change it one after the other, each at its own descriptor alone; the count of the active
    -- descriptors stays right.
    pub performs-applies :
        (calls : List IoCall) (p : ℕ) (l : Io P.State)
        → Tidy P lawful max l
        → AllFresh p l
        → Inside max calls
        → Ends
            (λ (done, m).
              (done ≡ true)
              × Tidy P lawful max m
              × (table P lawful max m ≡ apply_calls calls (table P lawful max l)))
            (performs p calls l)
    unfolding performs
    performs-applies [] p l t fresh inside = ends (refl, t, refl)
    performs-applies (call ∷ calls) p l t fresh (here, rest) =
        Ends-then (perform-Applied l p call t (fresh p (omega arith)) here)
          λ (done, m) (e, (tidy, shows), uses).
            Ends-then
              (performs-applies calls (p + 1) m tidy
                (λ q le.
                  UsesFrom-IsFresh P lawful max l m p q uses (omega arith) (fresh q (omega arith)))
                rest)
              λ (others, n) (f, tidy', all).
                ends (rw (e, f) refl, tidy', all ∙ ap (apply_calls calls) (fun_ext shows))
