-- ===== src/Concurrent/Mpmc/Sched.antt =====
-- Sections of any threads one after the other, and what they move.
use project_trans.Base.{◌-◌, Bool, true, false, none, some, List, [], ◌∷◌, ◌++◌, length, take, drop}
use project_trans.Concurrent.Mpmc.{
  Cv, empty_cv, full_cv, Notify, notify_one, notify_all, Queue, Call, pop, try_pop,
}
use project_trans.Concurrent.Mpmc.{pop_timed, pop_n, try_pop_n, push, push_range}
use project_trans.Concurrent.Mpmc.{item, items_opt, items, pushed, Next, waits, again, returns}
use project_trans.Concurrent.Mpmc.{step}

module _ {ℓ} {A : Type ℓ} where
  -- The items that a section gives to its thread: in the reply, or collected in the call that waits.
  unfoldable pub taken : Call A → Next A → List A
  taken pop (returns (item (some x))) = x ∷ []
  taken try_pop (returns (item (some x))) = x ∷ []
  taken pop_timed (returns (item (some x))) = x ∷ []
  taken (pop_n left result) (waits cv (pop_n left' result')) = drop (length result) result'
  taken (pop_n left result) (returns (items_opt (some all))) = drop (length result) all
  taken (try_pop_n n) (returns (items xs)) = xs
  taken call next = []

  -- The items that a section puts into the queue.
  unfoldable pub put : Call A → Next A → List A
  put (push x) (returns (pushed true)) = x ∷ []
  put (push_range xs is_pushed) (again (push_range ys is_pushed')) = take (length xs - length ys) xs
  put call next = []

  -- `pop(nums)` on a closed queue takes what is left and returns nothing.
  unfoldable pub lost : Call A → Queue A → Next A → List A
  lost (pop_n left result) q (returns (items_opt none)) = q.items
  lost call q next = []

  -- The sections of a schedule, in order: what goes out of the queue, what comes in, and the end.
  unfoldable pub run_out : List (Call A) → Queue A → List A
  run_out [] q = []
  run_out (call ∷ calls) q =
      let o = step call q in (taken call o.next ++ lost call q o.next) ++ run_out calls o.queue

  unfoldable pub run_in : List (Call A) → Queue A → List A
  run_in [] q = []
  run_in (call ∷ calls) q = let o = step call q in put call o.next ++ run_in calls o.queue

  unfoldable pub run : List (Call A) → Queue A → Queue A
  run [] q = q
  run (call ∷ calls) q = run calls (step call q).queue

-- Is the condition variable among the notified?
abbrev pub notified : Cv → List Notify → Bool
notified cv [] = false
notified empty_cv (notify_one empty_cv ∷ ns) = true
notified empty_cv (notify_all empty_cv ∷ ns) = true
notified full_cv (notify_one full_cv ∷ ns) = true
notified full_cv (notify_all full_cv ∷ ns) = true
notified cv (n ∷ ns) = notified cv ns
