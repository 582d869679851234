-- ===== src/Task.antt =====
-- src/task.c: tasks, which are greenlets that are started by hand. greenlet_new and greenlet_switch are
-- parameters; a switch may change everything, the task as well.
pub mod Once
mod Tests
use jega.Base.{if◌then◌else◌, ℕ, Bool, true, false, not, Option, none, some, List, []}

pub record Task : Type 0 where
  pub args : List ℕ
  pub kwargs : Option ℕ
  pub greenlet : ℕ
  pub started : Bool

abbrev pub args_or_empty : Option (List ℕ) → List ℕ
args_or_empty none = []
args_or_empty (some xs) = xs

abbrev pub is_active_task : Option Task → Bool
is_active_task none = false
is_active_task (some t) = not t.started

-- `none` is NULL: greenlet_new or the allocation of the task has failed.
unfoldable pub spawn_task : Bool → Option ℕ → Option (List ℕ) → Option ℕ → Option Task
spawn_task granted none args kwargs = none
spawn_task granted (some greenlet) args kwargs =
    if granted
    then some (record {
      args = args_or_empty args;
      kwargs = kwargs;
      greenlet = greenlet;
      started = false;
    })
    else none

-- A task and everything else.
pub record Tasked (W : Type 0) : Type 0 where
  pub task : Task
  pub world : W

module _ {W : Type 0} where
  abbrev pub as_started : Tasked W → Tasked W
  as_started s = record s { task = record s.task { started = true } }

  -- `true` is a result that is not NULL.
  unfoldable pub start : (Tasked W → Bool × Tasked W) → Tasked W → Bool × Tasked W
  start switch s = let r = switch s in if s.task.started then (true, s) else (r.0, as_started r.1)

  pub cancel : Tasked W → Tasked W
  cancel s = as_started s
