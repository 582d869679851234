-- ===== src/Lookup/Watch/Tests.antt =====
-- Wishes of c-ares for the descriptor 3, and the theorems there.
use jega.Base.{fault, ◌≡◌, refl, Bool, true, false, [], ◌∷◌}
use jega.Events.{Io, is_active_event, add_event, del_event}
use jega.Events.Sample.{Arrays, arrays, idle}
use jega.Lookup.Watch.{Ares, state_cb, process_callback}
use jega.Lookup.Watch.Masks.{to_read, wishes, process_callback-dangles}

abbrev always : Io Arrays → Bool × Io Arrays
always l = (true, l)

-- Without a wish it is let go.
released :
    arrays.is_active
      (state_cb arrays always (wishes arrays always (to_read ∷ []) 3 idle) 3 false false).main_loop
      3
    ≡ false
unfolding state_cb wishes del_event is_active_event add_event
released = refl

abbrev refuses : Ares arrays
refuses = record {
  library_init = λ s. (true, s);
  library_cleanup = λ s. s;
  init_options = λ s. (false, s);
  destroy = λ s. s;
  process_fd = λ r w s. s;
}

dangles :
    process_callback arrays refuses
      (λ s fd t. s)
      3
      (record { is_err = true; is_read = false; is_write = false })
      (record { io = idle; channel = true; raised = false })
    ≡ fault
dangles =
    process_callback-dangles arrays refuses (λ s fd t. s) 3
      (record { is_err = true; is_read = false; is_write = false })
      (record { io = idle; channel = true; raised = false }) refl (λ t. refl) (λ t. refl)
