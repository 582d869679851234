-- ===== src/Local.antt =====
-- src/local.c: attributes that each greenlet has for itself. An object, an attribute's name and a value
-- are numbers; a greenlet has at most one dictionary, under a key of its own. Of the reference counts,
-- those of the values are kept; an object whose count is 0 is freed, and a use of it is a fault.
pub mod Table
mod Tests
use jega.Base.{
  ◌==◌, if◌then◌else◌, set, Run, fault, ok, ◌>>=◌, ℕ, ◌+◌, ◌-◌, Bool, true, false, ◌&&◌, Option,
  none, some,
}
use jega.Calls.{put_at, made}
use jega.Events.{is_some}

abbrev pub Dict : Type 0
Dict = ℕ → Option ℕ

-- `dicts` is each greenlet's dictionary, if it has one, `refs` counts the references to each value, and
-- `raised` says that an exception is set.
pub record Locals : Type 0 where
  pub dicts : ℕ → Option Dict
  pub refs : ℕ → ℕ
  pub raised : Bool

abbrev pub raising : Locals → Locals
raising s = record s { raised = true }

abbrev pub put_dict : ℕ → Dict → Locals → Locals
put_dict g d s = record s { dicts = put_at s.dicts g (some d) }

abbrev pub new_dict : Dict
new_dict a = none

-- `made` says that a new dictionary is granted, and `set` that the greenlet takes it.
abbrev pub held : Bool → Bool → ℕ → Locals → Option Dict → Option Dict × Locals
held made set g s (some d) = (some d, s)
held made set g s none =
    if made && set then (some new_dict, put_dict g new_dict s) else (none, raising s)

-- The result is `none` for NULL.
unfoldable pub get_thread_local : Bool → Bool → ℕ → Locals → Option Dict × Locals
get_thread_local made set current s = held made set current s (s.dicts current)

-- There may be no current greenlet.
unfoldable pub get_local_dict : Bool → Bool → Option ℕ → Locals → Option Dict × Locals
get_local_dict made set none s = (none, s)
get_local_dict made set (some current) s = held made set current s (s.dicts current)

-- Py_INCREF and Py_XDECREF.
abbrev pub give : ℕ → Locals → Locals
give v s = record s { refs = put_at s.refs v (s.refs v + 1) }

abbrev pub drop_ref : Option ℕ → Locals → Run Locals
drop_ref none s = ok s
drop_ref (some v) s =
    if s.refs v == 0 then fault else ok (record s { refs = put_at s.refs v (s.refs v - 1) })

-- The value that is given is borrowed from the dictionary: it is not counted.
abbrev pub borrowed : Option ℕ → Locals → Run (Option ℕ × Locals)
borrowed none s = ok (none, s)
borrowed (some v) s = if s.refs v == 0 then fault else ok (some v, s)

abbrev pub attribute : ℕ → Option Dict × Locals → Run (Option ℕ × Locals)
attribute attr (none, s) = ok (none, s)
attribute attr (some d, s) = borrowed (d attr) s

-- A name that is missing is NULL, with no exception set.
unfoldable pub getattribute : Bool → Bool → Option ℕ → ℕ → ℕ → Locals → Run (Option ℕ × Locals)
getattribute made set current self attr s = attribute attr (get_local_dict made set current s)

-- The dictionary counts the new value and no more the old one.
abbrev pub replaced : ℕ → Option ℕ → Dict → ℕ → Locals → Run (Bool × Locals)
replaced attr v d g s = drop_ref (d attr) s >>= λ s'. ok (true, put_dict g (put_at d attr v) s')

-- `none` for the value deletes, and raises an exception if there is nothing to delete.
abbrev pub changed : ℕ → Option ℕ → Dict → ℕ → Locals → Run (Bool × Locals)
changed attr (some v) d g s = replaced attr (some v) d g (give v s)
changed attr none d g s =
    if is_some (d attr) then replaced attr none d g s else ok (false, raising s)

abbrev pub stored : ℕ → Option ℕ → Option ℕ → Option Dict × Locals → Run (Bool × Locals)
stored attr value (some g) (some d, s) = changed attr value d g s
stored attr value o r = ok (false, r.1)

-- `false` is the result -1.
unfoldable pub setattribute :
    Bool → Bool → Option ℕ → ℕ → ℕ → Option ℕ → Locals → Run (Bool × Locals)
setattribute made set current self attr value s =
    stored attr value current (get_local_dict made set current s)
