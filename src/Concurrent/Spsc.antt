-- ===== src/Concurrent/Spsc.antt =====
-- `SpscRingQueue` of common/include/danejoe/concurrent/container/spsc_ring_queue.hpp. `pop` is cut in
-- two where its atomic operations let the other thread run: `pop_reserve` gives the slot back, and
-- `pop_read` reads it afterwards.
pub mod Refine
mod Tests
use project_trans.Base.{
  ℕ, zero, suc, ◌+◌, ◌-◌, ◌%◌, ◌^◌, ◌==◌, if◌then◌else◌, Bool, true, false, Option, none, some,
}
use project_trans.Base.{List, [], ◌∷◌, ◌++◌, get_or, set, replicate}

-- `m_head_index` and `m_tail_index` are `uint32_t`. `slots` is `m_data`, a vector of
-- default-constructed values.
pub record Ring {ℓ} (A : Type ℓ) : Type ℓ where
  pub head_index : ℕ
  pub tail_index : ℕ
  pub slots : List A
  pub current_size : ℕ
  pub capacity : ℕ

-- `current + 1`, or 0 at the capacity.
unfoldable pub next_index : ℕ → ℕ → ℕ
next_index capacity current =
    let next = (current + 1) % 2 ^ 32 in if next == capacity then 0 else next

module _ {ℓ} {A : Type ℓ} where
  -- The constructor: `d` is the default-constructed value.
  unfoldable pub new : A → ℕ → Ring A
  new d capacity = record {
    head_index = 0;
    tail_index = 0;
    slots = replicate capacity d;
    current_size = 0;
    capacity = capacity;
  }

  unfoldable pub is_empty : Ring A → Bool
  is_empty r = r.current_size == 0

  unfoldable pub is_full : Ring A → Bool
  is_full r = r.current_size == r.capacity

  abbrev pub size : Ring A → ℕ
  size r = r.current_size

  -- `push(data)`, of a reference or of an rvalue.
  unfoldable pub push : A → Ring A → Ring A
  push x r = if is_full r then r else record r {
    slots = set r.slots r.head_index x;
    head_index = next_index r.capacity r.head_index;
    current_size = r.current_size + 1;
  }

  -- `push(datas)`.
  unfoldable pub push_all : List A → Ring A → Ring A
  push_all [] r = r
  push_all (x ∷ xs) r = push_all xs (push x r)

  -- `pop` up to `--m_current_size`: the slot that it will read.
  unfoldable pub pop_reserve : Ring A → Option (ℕ × Ring A)
  pop_reserve r =
      if is_empty r
      then none
      else some (
        r.tail_index,
        record r {
          tail_index = next_index r.capacity r.tail_index;
          current_size = r.current_size - 1;
        },
      )

  -- `return std::move(m_data[current])`.
  unfoldable pub pop_read : A → ℕ → Ring A → A
  pop_read d current r = get_or r.slots current d

  unfoldable pub pop : A → Ring A → Option A × Ring A
  pop d r = elim (pop_reserve r) [
    | none ↦ (none, r)
    | some (current, r') ↦ (some (pop_read d current r'), r')
  ]

  -- `pop(nums)`: what was popped before the queue was empty is dropped.
  unfoldable pub pop_n : A → ℕ → Ring A → Option (List A) × Ring A
  pop_n d zero r = (some [], r)
  pop_n d (suc n) r =
      let (x, r1) = pop d r in
      let (rest, r2) = pop_n d n r1 in
      elim x [
        | none ↦ (none, r1)
        | some a ↦ elim rest [ none ↦ (none, r2) | some xs ↦ (some (a ∷ xs), r2) ]
      ]
