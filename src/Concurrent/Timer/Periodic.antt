-- ===== src/Concurrent/Timer/Periodic.antt =====
-- A periodic task runs as often as it was asked to.
use project_trans.Base.{
  if◌then◌else◌, ℕ, zero, suc, ◌+◌, ◌≤◌, ◌≡◌, refl, ap, arith, ◌==◌, eq→==, le→leb, Option, none,
  some, List, [], ◌∷◌, ◌++◌, length, replicate,
}
use project_trans.Concurrent.Timer.{
  cycle, insert_task, take_due, times, PeriodicTask, TimerManager, new, add_task_for,
  add_task_until, add_periodic_task, cancel_periodic_task, execute_by, execute_periodic_task,
  execute_all, timer_round,
}

-- Rounds of the thread: the time that each finds, and the time at which its task reads the clock.
abbrev pub run : List (ℕ × ℕ) → TimerManager → List ℕ × TimerManager
run [] s = ([], s)
run ((now, clock) ∷ rounds) s =
    let (callbacks, s1) = timer_round now (λ k. clock) s in
    let (more, s2) = run rounds s1 in (callbacks ++ more, s2)

-- No round finds a time before the task is due: each is woken by the deadline of the task.
abbrev pub AreDue : ℕ → ℕ → List (ℕ × ℕ) → Type 0
AreDue time deadline [] = Unit
AreDue time deadline ((now, clock) ∷ rounds) = (deadline ≤ now) × AreDue time (clock + time) rounds

-- A manager with one entry, for the periodic task of an id.
abbrev pub waiting_for : ℕ → ℕ → (ℕ → Option PeriodicTask) → ℕ → TimerManager
waiting_for id deadline tasks next = record {
  cycle_task_id = next;
  periodic_tasks = tasks;
  timer_callbacks = (deadline, cycle id) ∷ [];
}

abbrev pub task_of : ℕ → ℕ → ℕ → PeriodicTask
task_of time callback n = record { time = time; callback = callback; remain_times = times n }

module _ (id time callback next : ℕ) where
  round_last :
      (now clock deadline : ℕ) (tasks : ℕ → Option PeriodicTask)
      → tasks id ≡ some (task_of time callback 0)
      → deadline ≤ now
      → timer_round now (λ k. clock) (waiting_for id deadline tasks next) ≡ (
        [],
        record {
          cycle_task_id = next;
          periodic_tasks = λ k. if k == id then none else tasks k;
          timer_callbacks = [];
        },
      )
  unfolding timer_round take_due execute_all execute_periodic_task execute_by cancel_periodic_task
  round_last now clock deadline tasks e h = rw (le→leb deadline now h, e) refl

  round_next :
      (now clock deadline n : ℕ) (tasks : ℕ → Option PeriodicTask)
      → tasks id ≡ some (task_of time callback (suc n))
      → deadline ≤ now
      → timer_round now (λ k. clock) (waiting_for id deadline tasks next) ≡ (
        callback ∷ [],
        waiting_for id
            (clock + time)
            (λ k. if k == id then some (task_of time callback n) else tasks k)
            next,
      )
  unfolding timer_round take_due execute_all execute_periodic_task execute_by add_task_for
      add_task_until insert_task
  round_next now clock deadline n tasks e h = rw (le→leb deadline now h, e) refl

  run_cycles :
      (n deadline : ℕ) (tasks : ℕ → Option PeriodicTask) (rounds : List (ℕ × ℕ))
      → tasks id ≡ some (task_of time callback n)
      → AreDue time deadline rounds
      → length rounds ≡ suc n
      → let (callbacks, s) = run rounds (waiting_for id deadline tasks next) in
        (callbacks ≡ replicate n callback) × (s.periodic_tasks id ≡ none) × (s.timer_callbacks ≡ [])
  run_cycles n deadline tasks [] e d h = absurd (omega (arith, h))
  run_cycles zero deadline tasks ((now, clock) ∷ []) e (k, d) h =
      let step = round_last now clock deadline tasks e k in
      (rw step refl, rw (step, eq→== id id refl) refl, rw step refl)
  run_cycles zero deadline tasks ((now, clock) ∷ other ∷ rounds) e d h = absurd (omega (arith, h))
  run_cycles (suc n) deadline tasks ((now, clock) ∷ rounds) e (k, d) h =
      let step = round_next now clock deadline n tasks e k in
      let rest =
        run_cycles n (clock + time)
          (λ j. if j == id then some (task_of time callback n) else tasks j) rounds
          (rw (eq→== id id refl) refl) d (omega (arith, h)) in
      (rw step (ap (λ l. callback ∷ l) rest.0), rw step rest.1, rw step rest.2)

-- A periodic task that is added to a new manager with `n` times to run, and whose rounds find it due, runs
-- `n` times in the first n + 1 rounds: the last of them removes the task, and nothing is left in the queue.
pub add_periodic_task-run :
    (now time callback n : ℕ) (rounds : List (ℕ × ℕ))
    → AreDue time (now + time) rounds
    → length rounds ≡ suc n
    → let (callbacks, s) = run rounds (add_periodic_task now time callback (times n) new).1 in
      (callbacks ≡ replicate n callback) × (s.periodic_tasks 0 ≡ none) × (s.timer_callbacks ≡ [])
unfolding add_periodic_task add_task_for add_task_until insert_task
add_periodic_task-run now time callback n rounds d h =
    run_cycles 0 time callback 1 n (now + time)
      (λ k. if k == 0 then some (task_of time callback n) else none) rounds refl d h
