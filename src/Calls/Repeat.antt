-- ===== src/Calls/Repeat.antt =====
-- call_repeatedly of src/loop.c: a timer that repeats, or a write outside the object.
use jega.Base.{ℕ, Bool, true}
use jega.Loop.{update}
use jega.Calls.{Calls}

module _ (py_mem c_mem obj_mem : ℕ → Bool) where
  abbrev with_repeat : Calls → ℕ → Calls
  with_repeat s i = record s {
    loop = record s.loop {
      objs = update s.loop.objs i (record (s.loop.objs i) { repeats = true });
    };
  }
