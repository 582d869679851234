-- ===== src/Task/Tests.antt =====
-- A task whose switches are counted, and the theorem there.
use jega.Base.{ℕ, ◌+◌, ◌≡◌, refl, Bool, true, false, none, some, [], ◌∷◌}
use jega.Task.{Task, spawn_task, Tasked, as_started, start}
use jega.Task.Once.{starts, cancels, steps, steps-once}

abbrev task : Task
task = record { args = []; kwargs = none; greenlet = 3; started = false }

spawned : spawn_task true (some 3) none none ≡ some task
unfolding spawn_task
spawned = refl

abbrev waits : Tasked ℕ
waits = record { task = task; world = 0 }

-- A switch that only counts.
abbrev count : Tasked ℕ → Bool × Tasked ℕ
count s = (true, record s { world = s.world + 1 })

one_start :
    steps count (starts ∷ cancels ∷ starts ∷ []) waits ≡ as_started (record waits { world = 1 })
one_start = steps-once count starts (cancels ∷ starts ∷ []) waits refl

-- A task that starts itself while it runs is switched to twice.
twice : start (λ s. start count (count s).1) waits ≡ (true, as_started (record waits { world = 2 }))
unfolding start
twice = refl
