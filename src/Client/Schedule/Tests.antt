-- ===== src/Client/Schedule/Tests.antt =====
-- A task of two blocks of two bytes.
use project_trans.Base.{
  ℕ, ◌+◌, ◌≡◌, refl, arith, ◌==◌, if◌then◌else◌, Bool, true, false, Option, none, some, List, [],
  ◌∷◌, ◌⊎◌,
}
use project_trans.Base.{inr}
use project_trans.Client.Block
use project_trans.Client.Block.{BlockEntity, BlockState}
use project_trans.Client.Schedule.{
  Controller, TaskPending, TaskEntity, EventContext, NetworkEndpoint, Store, FileAnswers, Responded,
  BlockResponseTransfer, on_block_response, open_and_write, write_block, write_loop, write_bytes,
  fail_block, complete_block, complete_task, waiting,
}
use project_trans.Client.Schedule.Requests.{
  Event, enqueue, cancle, pause, request, run, run-count, count, asked, count_published, cancelled,
}
use project_trans.Client.Schedule.Response.{
  IsIgnored, on_block_response_verdict, on_block_response_saves,
}
use project_trans.Client.Schedule.Outcome.{IsFailed, IsSaved}

abbrev same_state : BlockState → BlockState → Bool
same_state Block.completed Block.completed = true
same_state Block.failed Block.failed = true
same_state Block.in_transfer Block.in_transfer = true
same_state Block.waiting Block.waiting = true
same_state Block.unknown Block.unknown = true
same_state a b = false

abbrev same_id : Option ℕ → Option ℕ → Bool
same_id (some a) (some b) = a == b
same_id a b = false

-- A table of blocks, and one task.
abbrev Database : Type 0
Database = List BlockEntity × TaskEntity

abbrev find_block : Option ℕ → List BlockEntity → Option BlockEntity
find_block id [] = none
find_block id (b ∷ bs) = if same_id b.block_id id then some b else find_block id bs

abbrev replace_block : BlockEntity → List BlockEntity → List BlockEntity
replace_block b [] = []
replace_block b (c ∷ cs) = if same_id c.block_id b.block_id then b ∷ cs else c ∷ replace_block b cs

abbrev count_state : ℕ → BlockState → List BlockEntity → ℕ
count_state id s [] = 0
count_state id s (b ∷ bs) =
    (if b.task_id == id then (if same_state b.state s then 1 else 0) else 0) + count_state id s bs

abbrev database : Store Database
database = record {
  get_by_id = λ id r. find_block id r.0;
  update_block = λ b r. (replace_block b r.0, r.1);
  get_count = λ id s r. count_state id s r.0;
  get_by_task_id = λ id r. if r.1.task_id == id then some r.1 else none;
  update_task = λ t r. (r.0, t);
}

abbrev block_at : ℕ → ℕ → BlockState → BlockEntity
block_at id offset s = record {
  block_id = some id;
  task_id = 1;
  file_id = 7;
  offset = offset;
  block_size = 2;
  state = s;
  start_time = 0;
  end_time = 0;
}

abbrev two_blocks : List BlockEntity
two_blocks = block_at 5 0 Block.waiting ∷ block_at 6 2 Block.waiting ∷ []

abbrev task : TaskEntity
task = record { task_id = 1; file_id = 7; saved_path = []; state = waiting; end_time = 0 }

abbrev source : EventContext
source = record { object_name = [] }

abbrev server : NetworkEndpoint
server = record { ip = []; port = 8080 }

abbrev idle : Controller
idle = record { requests = []; tasks = λ k. none }

abbrev events : List Event
events =
    enqueue two_blocks source server task
    ∷ request
    ∷ pause 1 true
    ∷ request
    ∷ cancle 1
    ∷ request
    ∷ []

run-count_example :
    count (λ x. true) idle.requests + asked (λ x. true) events
    ≡ count_published (λ x. true) (run events idle).1
      + cancelled (λ x. true) events idle
      + count (λ x. true) (run events idle).0.requests
run-count_example = run-count (λ x. true) events idle

abbrev pending : TaskPending
pending = record {
  is_paused = false;
  event_source = source;
  endpoint = server;
  task_entity = task;
  dest_file = none;
}

abbrev started : Controller
started = record { requests = []; tasks = λ k. if k == 1 then some pending else none }

abbrev response_of : ℕ → ℕ → BlockResponseTransfer
response_of id offset = record {
  block_id = some id;
  file_id = 7;
  task_id = 1;
  offset = offset;
  block_size = 2;
  bytes = 8 ∷ 9 ∷ [];
}

abbrev goes_well : FileAnswers
goes_well = record {
  dir_exists = true;
  is_mkdir = false;
  is_open = true;
  opened = λ k. 0;
  is_seeked = true;
  writes = some 1 ∷ some 1 ∷ [];
  now = 100;
}

abbrev no_space : FileAnswers
no_space = record goes_well { writes = none ∷ [] }

abbrev outcome : Option (Responded Database) → Option ℕ
outcome none = none
outcome (some res) = res.emitted

-- The first block fails and the second is saved: the task is said to be completed.
abbrev after_failure : Option (Responded Database) → Option (Responded Database)
after_failure none = none
after_failure (some res) =
    on_block_response database goes_well (response_of 6 2) res.controller res.store

failed_counts_as_done :
    outcome (
      after_failure
        (on_block_response database no_space (response_of 5 0) started (two_blocks, task)))
    ≡ some 1
unfolding on_block_response open_and_write write_block write_loop write_bytes fail_block
    complete_block complete_task
failed_counts_as_done = refl

-- The other way round, no one says so.
abbrev before_failure : Option (Responded Database) → Option (Responded Database)
before_failure none = none
before_failure (some res) =
    on_block_response database no_space (response_of 6 2) res.controller res.store

last_failure_is_silent :
    outcome (
      before_failure
        (on_block_response database goes_well (response_of 5 0) started (two_blocks, task)))
    ≡ none
unfolding on_block_response open_and_write write_block write_loop write_bytes fail_block
    complete_block complete_task
last_failure_is_silent = refl

on_block_response_saves_example :
    (res : Responded Database) × (on_block_response database goes_well
        (response_of 5 0)
        started
        (two_blocks, task)
      ≡ some res)
    × IsSaved database goes_well
        (response_of 5 0)
        pending
        (block_at 5 0 Block.waiting)
        started
        (two_blocks, task)
        res
on_block_response_saves_example =
    on_block_response_saves database goes_well (response_of 5 0) pending
      (block_at 5 0 Block.waiting) started (two_blocks, task) refl refl (inr (refl, refl, refl))
      refl (omega arith) (omega arith, (omega arith, refl))

-- The response whose write fails.
abbrev failed_response : Responded Database
failed_response =
    fail_block database no_space (response_of 5 0) pending (block_at 5 0 Block.waiting)
      (record { is_open = true; position = 0; content = λ k. 0 }) started (two_blocks, task)

failed_run :
    on_block_response database no_space (response_of 5 0) started (two_blocks, task)
    ≡ some failed_response
unfolding on_block_response open_and_write write_block write_loop
failed_run = refl

on_block_response_verdict_example :
    IsIgnored database no_space (response_of 5 0) started (two_blocks, task) failed_response
    ⊎ ((t : TaskPending) × (b : BlockEntity) × (started.tasks 1 ≡ some t)
        × (database.get_by_id (some 5) (two_blocks, task) ≡ some b)
        × (IsFailed database no_space
              (response_of 5 0)
              t
              b
              started
              (two_blocks, task)
              failed_response
            ⊎ IsSaved database no_space
                (response_of 5 0)
                t
                b
                started
                (two_blocks, task)
                failed_response))
on_block_response_verdict_example =
    on_block_response_verdict database no_space (response_of 5 0) started (two_blocks, task)
      failed_response tt failed_run
