-- ===== src/Concurrent/Mpmc.antt =====
-- `MpmcBoundedQueue` of common/include/danejoe/concurrent/container/mpmc_bounded_queue.hpp. A member
-- function is the sequence of the sections that it runs under the mutex: a section ends when the
-- function returns, when it waits on a condition variable (which releases the mutex) or when it
-- unlocks between two rounds. What a waiting or looping thread still has to do is a `Call` again.
pub mod Sched
pub mod Fifo
pub mod Bounds
pub mod Wake
mod Tests
use project_trans.Base.{
  ℕ, zero, suc, ◌-◌, min, ltb, leb, if◌then◌else◌, Bool, true, false, Option, none, some,
}
use project_trans.Base.{List, [], ◌∷◌, ◌++◌, length, take, drop, not, ◌||◌, ◌&&◌}

-- `m_empty_cv` and `m_full_cv`.
pub data Cv : Type 0 where
  empty_cv full_cv : Cv

pub data Notify : Type 0 where
  notify_one notify_all : Cv → Notify

pub record Queue {ℓ} (A : Type ℓ) : Type ℓ where
  pub items : List A
  pub max_size : ℕ
  pub is_running : Bool

-- What a thread is about to do. `pop_n left result` has collected `result` and wants `left` more;
-- `push_range items is_pushed` has the items left. `pop_timed` is `pop_until` or `pop_for` when its
-- wait ends, by a notification or by the timeout.
pub data Call {ℓ} (A : Type ℓ) : Type ℓ where
  pop try_pop pop_timed front close : Call A
  pop_n : ℕ → List A → Call A
  try_pop_n : ℕ → Call A
  push : A → Call A
  push_range : List A → Bool → Call A
  set_max_size : ℕ → Call A

pub data Reply {ℓ} (A : Type ℓ) : Type ℓ where
  item : Option A → Reply A
  items_opt : Option (List A) → Reply A
  items : List A → Reply A
  pushed : Bool → Reply A
  unit : Reply A

-- How a section ends.
pub data Next {ℓ} (A : Type ℓ) : Type ℓ where
  waits : Cv → Call A → Next A
  again : Call A → Next A
  returns : Reply A → Next A

pub record Outcome {ℓ} (A : Type ℓ) : Type ℓ where
  pub queue : Queue A
  pub next : Next A
  pub notes : List Notify

module _ {ℓ} {A : Type ℓ} where
  abbrev pub is_empty : Queue A → Bool
  is_empty q = elim q.items [ [] ↦ true | x ∷ xs ↦ false ]

  abbrev pub is_full : Queue A → Bool
  is_full q = leb q.max_size (length q.items)

  -- The predicates of the two waits.
  abbrev pub can_pop : Queue A → Bool
  can_pop q = not (is_empty q) || not q.is_running

  abbrev pub can_push : Queue A → Bool
  can_push q = ltb (length q.items) q.max_size || not q.is_running

  abbrev pub ends : Queue A → Reply A → List Notify → Outcome A
  ends q reply notes = record { queue = q; next = returns reply; notes = notes }

  abbrev pub blocks : Queue A → Cv → Call A → Outcome A
  blocks q cv call = record { queue = q; next = waits cv call; notes = [] }

  -- The part of `pop`, `try_pop`, `pop_until` and `pop_for` behind the wait.
  unfoldable pub take_item : Queue A → Outcome A
  take_item q = elim q.items [
    | [] ↦ ends q (item none) []
    | x ∷ xs ↦ ends (record q { items = xs }) (item (some x)) (notify_one full_cv ∷ [])
  ]

  -- `pop(nums)` holds the mutex from one round to the next, unless it waits.
  unfoldable pub pop_rounds : ℕ → List A → Queue A → List A → Outcome A
  pop_rounds zero result q xs =
      ends (record q { items = xs }) (items_opt (some result)) (notify_one full_cv ∷ [])
  pop_rounds (suc left) result q [] =
      if q.is_running
      then blocks (record q { items = [] }) empty_cv (pop_n (suc left) result)
      else ends (record q { items = [] }) (items_opt none) []
  pop_rounds (suc left) result q (x ∷ xs) = pop_rounds left (result ++ (x ∷ [])) q xs

  unfoldable pub try_pop_n_section : ℕ → Queue A → Outcome A
  try_pop_n_section n q =
      ends (record q { items = drop n q.items }) (items (take n q.items))
        (if ltb (length q.items) n then [] else notify_all full_cv ∷ [])

  -- A closed queue is seen before the wait as well as behind it.
  unfoldable pub push_section : A → Queue A → Outcome A
  push_section x q =
      if q.is_running
      then (if can_push q
          then ends (record q { items = q.items ++ (x ∷ []) }) (pushed true)
              (notify_one empty_cv ∷ [])
          else blocks q full_cv (push x))
      else ends q (pushed false) []

  -- One round of `push(begin, end)`: as many items as there is room for.
  unfoldable pub push_range_section : List A → Bool → Queue A → Outcome A
  push_range_section [] is_pushed q = ends q (pushed is_pushed) []
  push_range_section (x ∷ xs) is_pushed q =
      if q.is_running
      then (if can_push q
          then (let to_insert = min (length (x ∷ xs)) (q.max_size - length q.items) in
              record {
                queue = record q { items = q.items ++ take to_insert (x ∷ xs) };
                next = again (push_range (drop to_insert (x ∷ xs)) true);
                notes = notify_all empty_cv ∷ [];
              })
          else blocks q full_cv (push_range (x ∷ xs) is_pushed))
      else ends q (pushed false) []

  unfoldable pub front_section : Queue A → Outcome A
  front_section q = elim q.items [
    | [] ↦ if q.is_running then blocks q empty_cv front else ends q (item none) []
    | x ∷ xs ↦ ends q (item (some x)) []
  ]

  abbrev pub pop_section : Queue A → Outcome A
  pop_section q = if can_pop q then take_item q else blocks q empty_cv pop

  -- `pop_until` and `pop_for` behind their waits.
  abbrev pub pop_timed_section : Queue A → Outcome A
  pop_timed_section q = take_item q

  abbrev pub close_section : Queue A → Outcome A
  close_section q =
      ends (record q { is_running = false }) unit (notify_all empty_cv ∷ notify_all full_cv ∷ [])

  abbrev pub set_max_size_section : ℕ → Queue A → Outcome A
  set_max_size_section n q =
      ends (record q { max_size = n }) unit
        (if ltb q.max_size n then notify_all full_cv ∷ [] else [])

  -- The next section of a call.
  unfoldable pub step : Call A → Queue A → Outcome A
  step pop q = pop_section q
  step try_pop q = take_item q
  step pop_timed q = pop_timed_section q
  step front q = front_section q
  step close q = close_section q
  step (pop_n left result) q = pop_rounds left result q q.items
  step (try_pop_n n) q = try_pop_n_section n q
  step (push x) q = push_section x q
  step (push_range xs is_pushed) q = push_range_section xs is_pushed q
  step (set_max_size n) q = set_max_size_section n q

  -- `MpmcBoundedQueue(max_size)`.
  abbrev pub new : ℕ → Queue A
  new max_size = record { items = []; max_size = max_size; is_running = true }

  -- `operator=(MpmcBoundedQueue&&)`, for two queues: the target and the source after it. The moved
  -- `std::queue` is empty.
  unfoldable pub move_assign : Queue A → Queue A → Queue A × Queue A
  move_assign q other = (
    record { items = other.items; max_size = q.max_size; is_running = other.is_running },
    record { items = []; max_size = other.max_size; is_running = false },
  )

  -- The move constructor: `m_max_size` keeps the 0 of its declaration.
  unfoldable pub move_construct : Queue A → Queue A × Queue A
  move_construct other = move_assign (record (new 0) { is_running = true }) other
