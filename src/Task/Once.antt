-- ===== src/Task/Once.antt =====
-- src/task.c: how often a task is switched to.
use jega.Task.{Tasked, as_started, start, cancel}
use jega.Base.{if◌then◌else◌, ◌≡◌, refl, sym, ap, ◌∙◌, Bool, true, false, List, [], ◌∷◌}

pub data Step : Type 0 where
  starts cancels : Step

module _ {W : Type 0} (switch : Tasked W → Bool × Tasked W) where
  unfoldable pub steps : List Step → Tasked W → Tasked W
  steps [] s = s
  steps (starts ∷ rest) s = steps rest (start switch s).1
  steps (cancels ∷ rest) s = steps rest (cancel s)

  steps-started : (xs : List Step) (s : Tasked W) → s.task.started ≡ true → steps xs s ≡ s
  unfolding steps start cancel
  steps-started [] s e = refl
  steps-started (starts ∷ rest) s e =
      let chosen : Bool → Bool × Tasked W =
        λ b. if b then (true, s) else ((switch s).0, as_started (switch s).1) in
      ap (λ b. steps rest (chosen b).1) e ∙ steps-started rest s e
  steps-started (cancels ∷ rest) s e =
      ap (λ b. steps rest (record s { task = record s.task { started = b } })) (sym e)
      ∙ steps-started rest s e

  -- Any sequence of starts and cancels of a task that has not been started, one after the other, is its
  -- first step: a start switches to the task once, even if it fails, and a cancel never does.
  pub steps-once :
      (x : Step) (xs : List Step) (s : Tasked W)
      → s.task.started ≡ false
      → steps (x ∷ xs) s ≡ as_started (elim x [ starts ↦ (switch s).1 | cancels ↦ s ])
  unfolding steps start cancel
  steps-once starts xs s e =
      let chosen : Bool → Bool × Tasked W =
        λ b. if b then (true, s) else ((switch s).0, as_started (switch s).1) in
      ap (λ b. steps xs (chosen b).1) e ∙ steps-started xs (as_started (switch s).1) refl
  steps-once cancels xs s e = steps-started xs (as_started s) refl
