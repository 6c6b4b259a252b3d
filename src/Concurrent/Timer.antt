-- ===== src/Concurrent/Timer.antt =====
-- `TimerManager` of common/source/danejoe/concurrent/timer/timer_manager.cpp. Times are numbers of the
-- steady clock, which is read where the code reads it; a callback is known by a number.
pub mod Due
pub mod Periodic
mod Tests
use project_trans.Base.{
  ℕ, zero, suc, ◌+◌, ◌%◌, ◌^◌, ltb, leb, ◌==◌, if◌then◌else◌, Bool, true, false, Option, none, some,
}
use project_trans.Base.{List, [], ◌∷◌, ◌++◌}

-- What `remain_times` is: a negative number stands for ever and is never changed.
pub data RemainTimes : Type 0 where
  forever : RemainTimes
  times : ℕ → RemainTimes

pub record PeriodicTask : Type 0 where
  pub time : ℕ
  pub callback : ℕ
  pub remain_times : RemainTimes

-- A task of the queue: a callback, or the lambda that executes a periodic task.
pub data Task : Type 0 where
  once : ℕ → Task
  cycle : ℕ → Task

pub record TimerManager : Type 0 where
  pub cycle_task_id : ℕ
  pub periodic_tasks : ℕ → Option PeriodicTask
  pub timer_callbacks : List (ℕ × Task)

abbrev pub new : TimerManager
new = record { cycle_task_id = 0; periodic_tasks = λ k. none; timer_callbacks = [] }

-- `multimap::insert`: behind the entries whose time is not later.
unfoldable pub insert_task : ℕ → Task → List (ℕ × Task) → List (ℕ × Task)
insert_task time task [] = (time, task) ∷ []
insert_task time task ((t, other) ∷ rest) =
    let behind = insert_task time task rest in
    if ltb time t then (time, task) ∷ (t, other) ∷ rest else (t, other) ∷ behind

unfoldable pub add_task_until : ℕ → Task → TimerManager → TimerManager
add_task_until time task s = record s { timer_callbacks = insert_task time task s.timer_callbacks }

unfoldable pub add_task_for : ℕ → ℕ → Task → TimerManager → TimerManager
add_task_for now time task s = add_task_until (now + time) task s

abbrev pub set_periodic : ℕ → Option PeriodicTask → TimerManager → TimerManager
set_periodic id task s = record s {
  periodic_tasks = λ k. if k == id then task else s.periodic_tasks k;
}

-- `emplace`, which keeps the task that has the id already.
abbrev pub emplace_periodic : ℕ → PeriodicTask → TimerManager → TimerManager
emplace_periodic id task s = elim (s.periodic_tasks id) [
  | none ↦ set_periodic id (some task) s
  | some old ↦ s
]

unfoldable pub add_periodic_task : ℕ → ℕ → ℕ → RemainTimes → TimerManager → ℕ × TimerManager
add_periodic_task now time callback remain s =
    let id = s.cycle_task_id in
    let task : PeriodicTask = record { time = time; callback = callback; remain_times = remain } in
    let s1 = emplace_periodic id task (record s { cycle_task_id = suc id % 2 ^ 64 }) in
    (id, add_task_for now time (cycle id) s1)

unfoldable pub cancel_periodic_task : ℕ → TimerManager → TimerManager
cancel_periodic_task id s = set_periodic id none s

-- The callback that is run, if one is.
unfoldable pub execute_by :
    ℕ → ℕ → PeriodicTask → RemainTimes → TimerManager → Option ℕ × TimerManager
execute_by now id task forever s = (some task.callback, add_task_for now task.time (cycle id) s)
execute_by now id task (times zero) s = (none, cancel_periodic_task id s)
execute_by now id task (times (suc n)) s = (
  some task.callback,
  add_task_for now task.time (cycle id)
      (set_periodic id (some (record task { remain_times = times n })) s),
)

unfoldable pub execute_periodic_task : ℕ → ℕ → TimerManager → Option ℕ × TimerManager
execute_periodic_task now id s = elim (s.periodic_tasks id) [
  | none ↦ (none, s)
  | some task ↦ execute_by now id task task.remain_times s
]

-- The tasks that are due, and the entries that are not.
unfoldable pub take_due : ℕ → List (ℕ × Task) → List Task × List (ℕ × Task)
take_due now [] = ([], [])
take_due now ((t, task) ∷ rest) =
    let (due, later) = take_due now rest in
    if leb t now then (task ∷ due, later) else ([], (t, task) ∷ rest)

abbrev pub execute : ℕ → Task → TimerManager → Option ℕ × TimerManager
execute now (once callback) s = (some callback, s)
execute now (cycle id) s = execute_periodic_task now id s

abbrev pub log : Option ℕ → List ℕ → List ℕ
log none callbacks = callbacks
log (some c) callbacks = c ∷ callbacks

-- The tasks of `m_task_queue`, one after the other; `clock` is the time that each takes as now, from
-- the last one on. A callback that itself adds tasks does so by the functions above.
unfoldable pub execute_all : (ℕ → ℕ) → List Task → TimerManager → List ℕ × TimerManager
execute_all clock [] s = ([], s)
execute_all clock (task ∷ tasks) s =
    let (callback, s1) = execute (clock 0) task s in
    let (callbacks, s2) = execute_all (λ k. clock (suc k)) tasks s1 in (log callback callbacks, s2)

-- One round of the thread that finds the time `now`.
unfoldable pub timer_round : ℕ → (ℕ → ℕ) → TimerManager → List ℕ × TimerManager
timer_round now clock s =
    let (due, later) = take_due now s.timer_callbacks in
    execute_all clock due (record s { timer_callbacks = later })
