-- ===== src/Concurrent/Timer/Due.antt =====
-- The tasks that are due, in the order of their times.
use project_trans.Base.{
  ℕ, ◌≤◌, ◌<◌, ◌≡◌, refl, sym, ap, ap₂, arith, ltb, leb, if◌then◌else◌, Bool-cases, inl, inr,
  ltb→lt, ltb→le, leb→lt, lt→leb,
}
use project_trans.Base.{List, [], ◌∷◌, All}
use project_trans.Base.{zero, suc, ◌+◌, Option-cases, Option, none, some, subst}
use project_trans.Concurrent.Timer.{
  Task, once, cycle, insert_task, take_due, RemainTimes, forever, times, PeriodicTask, TimerManager,
  add_task_for, add_task_until, cancel_periodic_task, execute_by, execute_periodic_task, execute,
  execute_all, timer_round, log,
}

-- The entries are in the order of their times.
abbrev pub IsSorted : List (ℕ × Task) → Type 0
IsSorted [] = Unit
IsSorted ((t, task) ∷ rest) = All (λ e. t ≤ e.0) rest × IsSorted rest

-- The tasks of the entries up to a time, and the entries behind it.
abbrev pub tasks_until : ℕ → List (ℕ × Task) → List Task
tasks_until now [] = []
tasks_until now ((t, task) ∷ rest) =
    let others = tasks_until now rest in if leb t now then task ∷ others else others

abbrev pub entries_after : ℕ → List (ℕ × Task) → List (ℕ × Task)
entries_after now [] = []
entries_after now ((t, task) ∷ rest) =
    let others = entries_after now rest in if leb t now then others else (t, task) ∷ others

insert_task-All :
    (n time : ℕ) (task : Task) (es : List (ℕ × Task))
    → n ≤ time
    → All (λ e. n ≤ e.0) es
    → All (λ e. n ≤ e.0) (insert_task time task es)
unfolding insert_task
insert_task-All n time task [] h all = (h, tt)
insert_task-All n time task ((t, other) ∷ rest) h (k, all) = elim (Bool-cases (ltb time t)) [
  | inl b ↦ rw b (h, (k, all))
  | inr b ↦ rw b (k, insert_task-All n time task rest h all)
]

All-le : (m n : ℕ) (es : List (ℕ × Task)) → m ≤ n → All (λ e. n ≤ e.0) es → All (λ e. m ≤ e.0) es
All-le m n [] h all = tt
All-le m n (e ∷ es) h (k, all) = (omega (arith, h, k), All-le m n es h all)

pub insert_task-IsSorted :
    (time : ℕ) (task : Task) (es : List (ℕ × Task))
    → IsSorted es
    → IsSorted (insert_task time task es)
unfolding insert_task
insert_task-IsSorted time task [] v = (tt, tt)
insert_task-IsSorted time task ((t, other) ∷ rest) (all, v) = elim (Bool-cases (ltb time t)) [
  | inl b ↦
      let l = ltb→lt time t b in
      rw b ((omega (arith, l), All-le time t rest (omega (arith, l)) all), (all, v))
  | inr b ↦ rw b (
    insert_task-All t time task rest (ltb→le time t b) all,
    insert_task-IsSorted time task rest v,
  )
]

-- Behind an entry that is not due there is none.
none_until :
    (now t : ℕ) (es : List (ℕ × Task))
    → now < t
    → All (λ e. t ≤ e.0) es
    → (tasks_until now es ≡ []) × (entries_after now es ≡ es)
none_until now t [] h all = (refl, refl)
none_until now t ((u, task) ∷ es) h (k, all) =
    let (a, b) = none_until now t es h all in
    let late = lt→leb u now (omega (arith, h, k)) in
    (rw late a, rw late (ap (λ l. (u, task) ∷ l) b))

take_due_sorted :
    (now : ℕ) (es : List (ℕ × Task))
    → IsSorted es
    → take_due now es ≡ (tasks_until now es, entries_after now es)
unfolding take_due
take_due_sorted now [] v = refl
take_due_sorted now ((t, task) ∷ rest) (all, v) = elim (Bool-cases (leb t now)) [
  | inl b ↦ rw (b, take_due_sorted now rest v) refl
  | inr b ↦
      let (p, q) = none_until now t rest (leb→lt t now b) all in
      rw b (ap₂ (λ x y. (x, (t, task) ∷ y)) (sym p) (sym q))
]

entries_after-All :
    (n now : ℕ) (es : List (ℕ × Task))
    → All (λ e. n ≤ e.0) es
    → All (λ e. n ≤ e.0) (entries_after now es)
entries_after-All n now [] all = tt
entries_after-All n now ((t, task) ∷ es) (h, all) = elim (Bool-cases (leb t now)) [
  | inl b ↦ rw b (entries_after-All n now es all)
  | inr b ↦ rw b (h, entries_after-All n now es all)
]

entries_after-IsSorted :
    (now : ℕ) (es : List (ℕ × Task)) → IsSorted es → IsSorted (entries_after now es)
entries_after-IsSorted now [] v = tt
entries_after-IsSorted now ((t, task) ∷ es) (all, v) = elim (Bool-cases (leb t now)) [
  | inl b ↦ rw b (entries_after-IsSorted now es v)
  | inr b ↦ rw b (entries_after-All t now es all, entries_after-IsSorted now es v)
]

-- Executing a task keeps the order.
execute_by-IsSorted :
    (now id : ℕ) (task : PeriodicTask) (remain : RemainTimes) (s : TimerManager)
    → IsSorted s.timer_callbacks
    → IsSorted (execute_by now id task remain s).1.timer_callbacks
unfolding execute_by add_task_for add_task_until cancel_periodic_task
execute_by-IsSorted now id task forever s v =
    insert_task-IsSorted (now + task.time) (cycle id) s.timer_callbacks v
execute_by-IsSorted now id task (times zero) s v = v
execute_by-IsSorted now id task (times (suc n)) s v =
    insert_task-IsSorted (now + task.time) (cycle id) s.timer_callbacks v

execute-IsSorted :
    (now : ℕ) (task : Task) (s : TimerManager)
    → IsSorted s.timer_callbacks
    → IsSorted (execute now task s).1.timer_callbacks
unfolding execute_periodic_task
execute-IsSorted now (once callback) s v = v
execute-IsSorted now (cycle id) s v = elim (Option-cases (s.periodic_tasks id)) [
  | inl e ↦ rw (e, execute_periodic_task) v
  | inr (task, e) ↦
      rw (e, execute_periodic_task) (execute_by-IsSorted now id task task.remain_times s v)
]

execute_all-IsSorted :
    (clock : ℕ → ℕ) (tasks : List Task) (s : TimerManager)
    → IsSorted s.timer_callbacks
    → IsSorted (execute_all clock tasks s).1.timer_callbacks
unfolding execute_all
execute_all-IsSorted clock [] s v = v
execute_all-IsSorted clock (task ∷ tasks) s v =
    execute_all-IsSorted (λ k. clock (suc k)) tasks (execute (clock 0) task s).1
      (execute-IsSorted (clock 0) task s v)

-- The tasks are executed one after the other, each once, in the order of the list. `clock` has the times
-- that they find, and the last two arguments are the callbacks that are run, in their order, and the
-- manager behind the last task. A callback runs and changes nothing; a periodic task takes its turn.
pub data Executes : (ℕ → ℕ) → List Task → TimerManager → List ℕ → TimerManager → Type 0 where
  idle : (clock : ℕ → ℕ) (s : TimerManager) → Executes clock [] s [] s
  runs_once :
      (clock : ℕ → ℕ) (callback : ℕ) (tasks : List Task) (s : TimerManager) (cs : List ℕ)
      (s' : TimerManager)
      → Executes (λ k. clock (suc k)) tasks s cs s'
      → Executes clock (once callback ∷ tasks) s (callback ∷ cs) s'
  runs_cycle :
      (clock : ℕ → ℕ) (id callback : ℕ) (tasks : List Task) (s s1 : TimerManager) (cs : List ℕ)
      (s' : TimerManager)
      → execute_periodic_task (clock 0) id s ≡ (some callback, s1)
      → Executes (λ k. clock (suc k)) tasks s1 cs s'
      → Executes clock (cycle id ∷ tasks) s (callback ∷ cs) s'
  skips_cycle :
      (clock : ℕ → ℕ) (id : ℕ) (tasks : List Task) (s s1 : TimerManager) (cs : List ℕ)
      (s' : TimerManager)
      → execute_periodic_task (clock 0) id s ≡ (none, s1)
      → Executes (λ k. clock (suc k)) tasks s1 cs s'
      → Executes clock (cycle id ∷ tasks) s cs s'

execute_cycle :
    (clock : ℕ → ℕ) (id : ℕ) (tasks : List Task) (s s1 : TimerManager) (callback : Option ℕ)
    (cs : List ℕ) (s' : TimerManager)
    → execute_periodic_task (clock 0) id s ≡ (callback, s1)
    → Executes (λ k. clock (suc k)) tasks s1 cs s'
    → Executes clock (cycle id ∷ tasks) s (log callback cs) s'
execute_cycle clock id tasks s s1 none cs s' e rest = skips_cycle clock id tasks s s1 cs s' e rest
execute_cycle clock id tasks s s1 (some c) cs s' e rest =
    runs_cycle clock id c tasks s s1 cs s' e rest

execute_all-Executes :
    (clock : ℕ → ℕ) (tasks : List Task) (s : TimerManager)
    → Executes clock tasks s (execute_all clock tasks s).0 (execute_all clock tasks s).1
unfolding execute_all
execute_all-Executes clock [] s = idle clock s
execute_all-Executes clock (once callback ∷ tasks) s =
    runs_once clock callback tasks s _ _ (execute_all-Executes (λ k. clock (suc k)) tasks s)
execute_all-Executes clock (cycle id ∷ tasks) s =
    let (callback, s1) = execute_periodic_task (clock 0) id s in
    execute_cycle clock id tasks s s1 callback _ _ refl
      (execute_all-Executes (λ k. clock (suc k)) tasks s1)

-- Where the entries are in the order of their times, a round executes the tasks whose time has come, all
-- of them and in this order, on a manager that keeps the other entries, and leaves the entries in order.
pub timer_round-IsSorted :
    (now : ℕ) (clock : ℕ → ℕ) (s : TimerManager)
    → IsSorted s.timer_callbacks
    → let (callbacks, after) = timer_round now clock s in
      Executes clock
        (tasks_until now s.timer_callbacks)
        (record s { timer_callbacks = entries_after now s.timer_callbacks })
        callbacks
        after
      × IsSorted after.timer_callbacks
unfolding timer_round
timer_round-IsSorted now clock s v =
    let es = s.timer_callbacks in
    let split = take_due_sorted now es v in
    let left : TimerManager = record s { timer_callbacks = entries_after now es } in
    subst
      (λ (p : List Task × List (ℕ × Task)).
        let (callbacks, after) = execute_all clock p.0 (record s { timer_callbacks = p.1 }) in
        Executes clock (tasks_until now es) left callbacks after × IsSorted after.timer_callbacks)
      (sym split)
      (
        execute_all-Executes clock (tasks_until now es) left,
        execute_all-IsSorted clock (tasks_until now es) left (entries_after-IsSorted now es v),
      )
