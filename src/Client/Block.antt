-- ===== src/Client/Block.antt =====
-- `BlockService::add` of client/source/service/block_service.cpp: the blocks of a file that is to be
-- downloaded. Sizes are not negative.
pub mod Parts
mod Tests
use project_trans.Base.{
  ℕ, zero, suc, ◌+◌, ◌-◌, ltb, leb, if◌then◌else◌, Bool, true, false, Option, none, some,
}

pub data BlockState : Type 0 where
  completed failed in_transfer waiting unknown : BlockState

-- An id of `none` is the -1 that stands for one that the database has not yet given.
pub record BlockEntity : Type 0 where
  pub block_id : Option ℕ
  pub task_id : ℕ
  pub file_id : ℕ
  pub offset : ℕ
  pub block_size : ℕ
  pub state : BlockState
  pub start_time : ℕ
  pub end_time : ℕ

-- The fields of `ClientFileEntity` that the service reads.
pub record ClientFileEntity : Type 0 where
  pub file_id : ℕ
  pub file_size : ℕ

pub record BlockParam : Type 0 where
  pub block_bytes : ℕ

-- The block that starts at `offset`, as the loop makes it.
unfoldable pub next_block : ClientFileEntity → ℕ → BlockParam → ℕ → BlockEntity
next_block file task_id param offset = record {
  block_id = none;
  task_id = task_id;
  file_id = file.file_id;
  offset = offset;
  block_size =
      if leb param.block_bytes (file.file_size - offset)
      then param.block_bytes
      else file.file_size - offset;
  state = waiting;
  start_time = 0;
  end_time = 0;
}

-- The repository is a state that `add_block` changes, with the answer of the insertion.
module _ {R : Type 0} (add_block : BlockEntity → R → Bool × R) where
  -- The `while` loop, on fuel: `none` is a loop that is still running.
  unfoldable pub add_loop : ℕ → ClientFileEntity → ℕ → BlockParam → ℕ → R → Option (Bool × R)
  add_loop zero file task_id param offset r = none
  add_loop (suc fuel) file task_id param offset r =
      let block = next_block file task_id param offset in
      let (is_succeed, r1) = add_block block r in
      let rest = add_loop fuel file task_id param (offset + block.block_size) r1 in
      if ltb offset file.file_size
      then (if is_succeed then rest else some (false, r1))
      else some (true, r)

  -- `add(file_entity, task_id, param)`
  unfoldable pub add : ℕ → ClientFileEntity → ℕ → BlockParam → R → Option (Bool × R)
  add fuel file task_id param r = add_loop fuel file task_id param 0 r
