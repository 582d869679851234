-- ===== src/Timer.antt =====
-- src/timer.c and src/timer.h: the objects that the loop runs, handles and timers. Both have the
-- layout of a timer here; a handle does not use the last three fields. What an object calls, its
-- callback or its greenlet with the arguments, is known by the object's number alone, so of the
-- pointers only whether there is a greenlet is kept. The use counter and the reference counts,
-- which no decision reads, are left out. Times are seconds since the epoch.
use jega.Base.{ltb, if◌then◌else◌, ℕ, ◌+◌, ◌^◌, Bool, true, false, not, ◌||◌}

pub data Kind : Type 0 where
  handle timer : Kind

pub record Object : Type 0 where
  pub kind : Kind
  pub has_greenlet : Bool
  pub called : Bool
  pub cancelled : Bool
  pub seconds : ℕ
  pub repeats : Bool
  pub interval : ℕ

abbrev pub is_handle : Kind → Bool
is_handle handle = true
is_handle timer = false

unfoldable pub check_handle_obj : Object → Bool
check_handle_obj o = is_handle o.kind

pub check_timer_obj : Object → Bool
check_timer_obj o = not (is_handle o.kind)

unfoldable pub is_active_timer : Object → Bool
is_active_timer o = not o.called || not o.cancelled

unfoldable pub handle_new : Bool → Object
handle_new has_greenlet = record {
  kind = handle;
  has_greenlet = has_greenlet;
  called = false;
  cancelled = false;
  seconds = 0;
  repeats = false;
  interval = 0;
}

-- A sum in time_t, which is signed and has 64 bits. One that is too large is negative, and so before
-- every clock; 0 stands for it.
abbrev pub time_after : ℕ → ℕ → ℕ
time_after now seconds = let t = now + seconds in if ltb t (2 ^ 63) then t else 0

-- `now` is what `time(NULL)` gives.
unfoldable pub timer_new : ℕ → ℕ → Bool → Object
timer_new now seconds has_greenlet = record {
  kind = timer;
  has_greenlet = has_greenlet;
  called = false;
  cancelled = false;
  seconds = if ltb 0 seconds then time_after now seconds else 0;
  repeats = false;
  interval = seconds;
}

-- Only a positive delay makes a timer. The callers refuse a negative one.
unfoldable pub make_handle : ℕ → ℕ → Bool → Object
unfolding handle_new timer_new
make_handle now seconds has_greenlet =
    if ltb 0 seconds then timer_new now seconds has_greenlet else handle_new has_greenlet

unfoldable pub cancel : Object → Object
cancel o = record o { cancelled = true }
