-- ===== src/Concurrent/Timer/Tests.antt =====
-- Tasks at three times, and a task that runs twice.
use project_trans.Base.{ℕ, ◌≡◌, refl, arith, none, List, [], ◌∷◌, replicate}
use project_trans.Concurrent.Timer.{
  Task, once, TimerManager, new, times, insert_task, add_periodic_task, take_due, execute_all,
  timer_round,
}
use project_trans.Concurrent.Timer.Due.{
  IsSorted, insert_task-IsSorted, tasks_until, entries_after, timer_round-IsSorted, Executes,
}
use project_trans.Concurrent.Timer.Periodic.{run, add_periodic_task-run}

abbrev queue : List (ℕ × Task)
queue = insert_task 5 (once 1) (insert_task 9 (once 2) (insert_task 5 (once 3) []))

abbrev three_tasks : TimerManager
three_tasks = record new { timer_callbacks = queue }

queue-IsSorted : IsSorted queue
queue-IsSorted =
    insert_task-IsSorted 5 (once 1) _
      (insert_task-IsSorted 9 (once 2) _ (insert_task-IsSorted 5 (once 3) [] tt))

-- Of two tasks of one time the one that was added first runs first.
in_order : (timer_round 6 (λ k. 6) three_tasks).0 ≡ 3 ∷ 1 ∷ []
unfolding timer_round take_due execute_all insert_task
in_order = refl

timer_round-IsSorted_example :
    let (callbacks, after) = timer_round 6 (λ k. 6) three_tasks in
    Executes
      (λ k. 6)
      (tasks_until 6 queue)
      (record three_tasks { timer_callbacks = entries_after 6 queue })
      callbacks
      after
    × IsSorted after.timer_callbacks
timer_round-IsSorted_example = timer_round-IsSorted 6 (λ k. 6) three_tasks queue-IsSorted

-- Rounds at 10, 21 and 33 of a task that is added at 0 for every 10.
abbrev rounds : List (ℕ × ℕ)
rounds = (10, 10) ∷ (21, 22) ∷ (33, 33) ∷ []

add_periodic_task-run_example :
    let (callbacks, s) = run rounds (add_periodic_task 0 10 7 (times 2) new).1 in
    (callbacks ≡ replicate 2 7) × (s.periodic_tasks 0 ≡ none) × (s.timer_callbacks ≡ [])
add_periodic_task-run_example =
    add_periodic_task-run 0 10 7 2 rounds (omega arith, (omega arith, (omega arith, tt))) refl
