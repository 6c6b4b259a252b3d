-- ===== src/Concurrent/Mpmc/Tests.antt =====
-- Runs of a queue of at most two numbers.
use project_trans.Base.{ℕ, ◌≡◌, refl, arith, List, [], ◌∷◌, ◌++◌, true, false}
use project_trans.Concurrent.Mpmc.{
  Queue, Call, pop, close, push, new, step, take_item, push_section, empty_cv, full_cv,
}
use project_trans.Concurrent.Mpmc.Sched.{run_in, run_out, run, notified}
use project_trans.Concurrent.Mpmc.Fifo.{run-Fifo}
use project_trans.Concurrent.Mpmc.Bounds.{run-IsBounded, is_resize, IsBounded}
use project_trans.Concurrent.Mpmc.Wake.{
  run_closed, StaysClosed, step_wakes_push, step_wakes_pop, Frees, Fills,
}
use project_trans.Concurrent.Mpmc.Wake.{is_batch_pop}
use project_trans.Base.{drop}

abbrev calls : List (Call ℕ)
calls = push 5 ∷ push 6 ∷ push 7 ∷ pop ∷ close ∷ pop ∷ push 8 ∷ pop ∷ []

abbrev full : Queue ℕ
full = record { items = 5 ∷ 6 ∷ []; max_size = 2; is_running = true }

abbrev blank : Queue ℕ
blank = new 2

abbrev shut : Queue ℕ
shut = record { items = 5 ∷ 6 ∷ []; max_size = 2; is_running = false }

run-Fifo_example : [] ++ run_in calls (new 2) ≡ run_out calls (new 2) ++ (run calls (new 2)).items
run-Fifo_example = run-Fifo calls (new 2)

run-IsBounded_example : IsBounded (run calls (new 2))
unfolding is_resize
run-IsBounded_example =
    run-IsBounded calls (new 2) (refl, (refl, (refl, (refl, (refl, (refl, (refl, (refl, tt))))))))
      (omega arith)

run_closed_example :
    ((run calls shut).is_running ≡ false)
    × ((n : ℕ) × ((run calls shut).items ≡ drop n (5 ∷ 6 ∷ [])))
    × StaysClosed (run calls shut).items (push 9) (step (push 9) (run calls shut))
run_closed_example = run_closed calls shut (push 9) refl

step_wakes_push_example : notified full_cv (step pop full).notes ≡ true
step_wakes_push_example = step_wakes_push pop full batch freed
  where
    batch : is_batch_pop {A = ℕ} pop ≡ false
    batch = unfold is_batch_pop in refl

    freed : Frees pop full
    freed = unfold step take_item in (refl, refl)

step_wakes_pop_example : notified empty_cv (step (push 9) blank).notes ≡ true
step_wakes_pop_example = step_wakes_pop (push 9) blank filled
  where
    filled : Fills (push 9) blank
    filled = unfold step push_section in (refl, refl)
