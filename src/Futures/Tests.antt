-- ===== src/Futures/Tests.antt =====
-- Small futures, and the theorems at concrete inputs.
use jega.Base.{◌==◌, ok, ℕ, ◌≡◌, refl, inl, true, none, some, [], ◌∷◌, arith}
use jega.Calls.{Calls}
use jega.Calls.Sample.{plenty, idle_calls, idle_calls-Ready}
use jega.Futures.{
  pending, Future, Tasks, set_future, done?, set_result, add_done_callback, remove_done_callback,
}
use jega.Futures.Callbacks.{Scheduled}
use jega.Futures.Waiters.{woken, set_result-settles}
use jega.Futures.Removal.{remove_done_callback-filters}

-- Two callbacks, one of them twice, and two greenlets that wait.
abbrev awaited_future : Future
awaited_future = record {
  result = none;
  exc_info = none;
  callbacks = 7 ∷ 8 ∷ 7 ∷ [];
  waiters = 21 ∷ 22 ∷ [];
  handle = none;
  state = pending;
}

abbrev sample : Tasks
sample = record { calls = idle_calls; futures = λ i. awaited_future }

-- A greenlet that does nothing but to come back.
abbrev comes_back : ℕ → Tasks → Tasks
comes_back g s = s

set_result-settles_example :
    (m : Calls) × Scheduled idle_calls (7 ∷ 8 ∷ 7 ∷ []) (3 ∷ []) [] [] m
    × (let f = record awaited_future { result = some 40; callbacks = [] } in
        let settled =
          woken comes_back 3 (21 ∷ 22 ∷ []) (record (set_future sample 3 f) { calls = m }) in
        (set_result plenty plenty plenty 3 comes_back sample 3 40 ≡ ok (true, settled))
        × ((settled.futures 3).waiters ≡ []))
set_result-settles_example =
    set_result-settles plenty plenty plenty 3 comes_back sample 3 40 [] [] (λ n. refl) (λ n. refl)
      (λ n. refl) idle_calls-Ready (omega arith) (omega arith) (inl refl) (omega arith)
      (λ g s. refl)

remove_done_callback-filters_example :
    remove_done_callback (λ a b. a == b) sample 3 7
    ≡ ok (set_future sample 3 (record awaited_future { callbacks = 8 ∷ [] }))
remove_done_callback-filters_example = remove_done_callback-filters (λ a b. a == b) 7 sample 3

-- A future whose result is set is done, yet a callback that is added then is only kept.
abbrev set_before : Tasks
set_before = set_future sample 3 (record awaited_future { result = some 40; callbacks = [] })

late_callback_kept :
    add_done_callback plenty plenty plenty set_before 3 9
    ≡ ok (
      true,
      set_future set_before 3 (record awaited_future { result = some 40; callbacks = 9 ∷ [] }),
    )
unfolding add_done_callback
late_callback_kept = refl

set_before_done : done? (set_before.futures 3) ≡ true
unfolding done?
set_before_done = refl
