-- ===== src/Client/Schedule/Outcome.antt =====
-- What a response leaves behind, in the controller, the database and the events.
use project_trans.Base.{
  false, ℕ, ◌==◌, ◌≤◌, ◌≡◌, ◌≢◌, refl, if◌then◌else◌, Bool-cases, inl, inr, ◌⊎◌, Option-cases, none,
  some, length, take, true, arith,
}
use project_trans.Client.Block
use project_trans.Client.Block.{BlockEntity}
use project_trans.Client.Schedule.{
  Controller, TaskPending, TaskEntity, BlockResponseTransfer, Store, FileAnswers, DestFile,
  Responded, fail_block, complete_block, complete_task, completed, dest_file_of, open_file,
}
use project_trans.Client.Schedule.Writes.{IsWritten}

==→≡0 : (n : ℕ) → (n == 0) ≡ true → n ≡ 0
==→≡0 n e = ground arith

-- The file that is written to: that of the task if it is open, otherwise the one that `open` finds.
abbrev pub IsFileOf : FileAnswers → TaskPending → DestFile → Type 0
IsFileOf answers t f =
    (((dest_file_of t).is_open ≡ true) × (f ≡ dest_file_of t))
    ⊎ (((dest_file_of t).is_open ≡ false) × (f ≡ open_file answers.opened))

module _ {R : Type 0} (store : Store R) (answers : FileAnswers) (response : BlockResponseTransfer)
    (t : TaskPending) (b : BlockEntity) (c : Controller) (r : R) (res : Responded R) where
  -- The requests are kept, and of the tasks only that of the response changes: it has the file `g`.
  abbrev pub HasFile : DestFile → Type 0
  HasFile g =
      (res.controller.requests ≡ c.requests)
      × ((k : ℕ)
          → res.controller.tasks k
            ≡ (if k == response.task_id then some (record t { dest_file = some g }) else c.tasks k))

  -- The block is stored with the state `failed`, and nothing is emitted.
  abbrev pub IsFailed : Type 0
  IsFailed =
      (g : DestFile) × HasFile g
      × (res.store ≡ store.update_block (record b { state = Block.failed }) r)
      × (res.emitted ≡ none)

  -- The task is stored as completed, if the database has it.
  abbrev pub IsCompletedTask : ℕ → R → Type 0
  IsCompletedTask id r1 =
      ((store.get_by_task_id id r1 ≡ none) × (res.store ≡ r1))
      ⊎ ((task : TaskEntity) × (store.get_by_task_id id r1 ≡ some task)
          × (res.store
              ≡ store.update_task (record task { end_time = answers.now; state = completed }) r1))

  -- Behind the block, which `r1` has: with no block of the task left that waits, the task is completed
  -- and this is emitted, otherwise nothing more happens.
  abbrev pub IsCounted : ℕ → R → Type 0
  IsCounted id r1 =
      ((store.get_count id Block.waiting r1 ≡ 0) × (res.emitted ≡ some id) × IsCompletedTask id r1)
      ⊎ ((store.get_count id Block.waiting r1 ≢ 0) × (res.emitted ≡ none) × (res.store ≡ r1))

  -- The bytes of the block are in the file at its offset, and the block is stored with the state
  -- `completed` and the time.
  abbrev pub IsSaved : Type 0
  IsSaved =
      (f : DestFile) × (g : DestFile) × IsFileOf answers t f
      × HasFile g
      × (response.block_size ≤ length response.bytes)
      × IsWritten response.offset (take response.block_size response.bytes) f.content g.content
      × IsCounted t.task_entity.task_id
          (store.update_block (record b { state = Block.completed; end_time = answers.now }) r)

module _ {R : Type 0} (store : Store R) (answers : FileAnswers) (response : BlockResponseTransfer)
    (t : TaskPending) (b : BlockEntity) (c : Controller) (r : R) where
  pub fail_block-IsFailed :
      (g : DestFile)
      → IsFailed store answers response t b c r (fail_block store answers response t b g c r)
  unfolding fail_block
  fail_block-IsFailed g = (g, (refl, λ k. refl), refl, refl)

  pub complete_block-HasFile :
      (g : DestFile)
      → HasFile store answers response t b c r (complete_block store answers response t b g c r) g
  unfolding complete_block
  complete_block-HasFile g =
      let id = t.task_entity.task_id in
      let r1 =
        store.update_block (record b { state = Block.completed; end_time = answers.now }) r in
      elim (Bool-cases (store.get_count id Block.waiting r1 == 0)) [
        | inl e ↦ rw (e, complete_block) (refl, λ k. refl)
        | inr e ↦ rw (e, complete_block) (refl, λ k. refl)
      ]

  pub complete_block-IsCounted :
      (g : DestFile)
      → IsCounted store answers response t b c r
          (complete_block store answers response t b g c r)
          t.task_entity.task_id
          (store.update_block (record b { state = Block.completed; end_time = answers.now }) r)
  unfolding complete_block complete_task
  complete_block-IsCounted g =
      let id = t.task_entity.task_id in
      let r1 =
        store.update_block (record b { state = Block.completed; end_time = answers.now }) r in
      elim (Bool-cases (store.get_count id Block.waiting r1 == 0)) [
        | inl e ↦ elim (Option-cases (store.get_by_task_id id r1)) [
          | inl n ↦ inl (
            ==→≡0 (store.get_count id Block.waiting r1) e,
            rw (e, complete_block) refl,
            inl (n, rw (e, complete_block, n, complete_task) refl),
          )
          | inr (task, s) ↦ inl (
            ==→≡0 (store.get_count id Block.waiting r1) e,
            rw (e, complete_block) refl,
            inr (task, s, rw (e, complete_block, s, complete_task) refl),
          )
        ]
        | inr e ↦ inr (ground arith, rw (e, complete_block) refl, rw (e, complete_block) refl)
      ]
