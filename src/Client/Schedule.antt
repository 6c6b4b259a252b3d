-- ===== src/Client/Schedule.antt =====
-- `BlockScheduleController` of client/source/controller/block_schedule_controller.cpp: the requests of
-- the tasks under way, and what a response does to the file, the blocks and the task. The services, which
-- keep blocks and tasks in the database, are a `Store`; what the file system answers comes with the call.
pub mod Requests
pub mod Writes
pub mod Outcome
pub mod Response
mod Tests
use project_trans.Base.{
  ℕ, zero, suc, ◌+◌, ◌-◌, ltb, leb, ◌==◌, if◌then◌else◌, Bool, true, false, not, ◌&&◌,
}
use project_trans.Base.{Option, none, some, List, [], ◌∷◌, ◌++◌, length, take, drop}
use project_trans.Client.Block
use project_trans.Client.Block.{BlockEntity, BlockState}

pub record NetworkEndpoint : Type 0 where
  pub ip : List ℕ
  pub port : ℕ

-- The source of an event in the user interface.
pub record EventContext : Type 0 where
  pub object_name : List ℕ

pub data TaskState : Type 0 where
  completed failed in_transfer waiting unknown : TaskState

-- The fields of `TaskEntity` that the controller and its services read or set.
pub record TaskEntity : Type 0 where
  pub task_id : ℕ
  pub file_id : ℕ
  pub saved_path : List ℕ
  pub state : TaskState
  pub end_time : ℕ

pub record BlockRequestTransfer : Type 0 where
  pub block_id : Option ℕ
  pub file_id : ℕ
  pub task_id : ℕ
  pub offset : ℕ
  pub block_size : ℕ

pub record BlockResponseTransfer : Type 0 where
  pub block_id : Option ℕ
  pub file_id : ℕ
  pub task_id : ℕ
  pub offset : ℕ
  pub block_size : ℕ
  pub bytes : List ℕ

-- A `QFile`: where it stands, and the byte at each place.
pub record DestFile : Type 0 where
  pub is_open : Bool
  pub position : ℕ
  pub content : ℕ → ℕ

pub record TaskPending : Type 0 where
  pub is_paused : Bool
  pub event_source : EventContext
  pub endpoint : NetworkEndpoint
  pub task_entity : TaskEntity
  pub dest_file : Option DestFile

-- `m_block_request_transfer_queue` and `m_task_pendding_map`.
pub record Controller : Type 0 where
  pub requests : List BlockRequestTransfer
  pub tasks : ℕ → Option TaskPending

abbrev pub set_task : ℕ → Option TaskPending → (ℕ → Option TaskPending) → ℕ → Option TaskPending
set_task id t tasks k = if k == id then t else tasks k

abbrev pub transfer_of : BlockEntity → BlockRequestTransfer
transfer_of b = record {
  block_id = b.block_id;
  file_id = b.file_id;
  task_id = b.task_id;
  offset = b.offset;
  block_size = b.block_size;
}

unfoldable pub enqueue_blocks :
    List BlockEntity → List BlockRequestTransfer → List BlockRequestTransfer
enqueue_blocks [] requests = requests
enqueue_blocks (b ∷ bs) requests = enqueue_blocks bs (requests ++ (transfer_of b ∷ []))

-- `blocks` is what the service has for the task.
unfoldable pub on_task_enqueue :
    List BlockEntity → EventContext → NetworkEndpoint → TaskEntity → Controller → Controller
on_task_enqueue blocks event_source endpoint task c = record {
  requests = enqueue_blocks blocks c.requests;
  tasks =
      set_task task.task_id
        (some (record {
          is_paused = false;
          event_source = event_source;
          endpoint = endpoint;
          task_entity = task;
          dest_file = none;
        }))
        c.tasks;
}

unfoldable pub on_task_cancle : ℕ → Controller → Controller
on_task_cancle id c = elim (c.tasks id) [
  | none ↦ c
  | some t ↦ record c { tasks = set_task id none c.tasks }
]

unfoldable pub on_task_paused : ℕ → Bool → Controller → Controller
on_task_paused id is_paused c = elim (c.tasks id) [
  | none ↦ c
  | some t ↦ record c { tasks = set_task id (some (record t { is_paused = is_paused })) c.tasks }
]

-- What `publish_block_request` is called with.
pub record Published : Type 0 where
  pub event_source : EventContext
  pub endpoint : NetworkEndpoint
  pub transfer : BlockRequestTransfer

unfoldable pub on_block_request : Controller → Controller × Option Published
on_block_request c = elim c.requests [
  | [] ↦ (c, none)
  | transfer ∷ rest ↦ elim (c.tasks transfer.task_id) [
    | none ↦ (record c { requests = rest }, none)
    | some t ↦ if t.is_paused then (record c { requests = rest ++ (transfer ∷ []) }, none) else (
      record c { requests = rest },
      some (record { event_source = t.event_source; endpoint = t.endpoint; transfer = transfer }),
    )
  ]
]

-- What the controller uses of `BlockService` and `TaskService`, over the state of the database.
pub record Store (R : Type 0) : Type 0 where
  pub get_by_id : Option ℕ → R → Option BlockEntity
  pub update_block : BlockEntity → R → R
  pub get_count : ℕ → BlockState → R → ℕ
  pub get_by_task_id : ℕ → R → Option TaskEntity
  pub update_task : TaskEntity → R → R

-- What the file system and the clock answer during one response: `writes` are the results of `write`, in
-- order, with `none` for a negative one. `opened` is the file as `open` finds it.
pub record FileAnswers : Type 0 where
  pub dir_exists : Bool
  pub is_mkdir : Bool
  pub is_open : Bool
  pub opened : ℕ → ℕ
  pub is_seeked : Bool
  pub writes : List (Option ℕ)
  pub now : ℕ

unfoldable pub write_bytes : List ℕ → DestFile → DestFile
write_bytes [] f = f
write_bytes (b ∷ bs) f = write_bytes bs (record f {
  position = suc f.position;
  content = λ k. if k == f.position then b else f.content k;
})

-- How the loop of writes ends; `writing` is a loop that waits for the answer to one more write.
pub data Written : Type 0 where
  wrote write_failed writing : DestFile → Written

unfoldable pub write_loop : List ℕ → List (Option ℕ) → ℕ → ℕ → DestFile → Written
write_loop bytes [] has_write rest_bytes f = if ltb 0 rest_bytes then writing f else wrote f
write_loop bytes (answer ∷ answers) has_write rest_bytes f =
    if ltb 0 rest_bytes
    then elim answer [
      | none ↦ write_failed f
      | some n ↦
          write_loop bytes answers (has_write + n) (rest_bytes - n)
            (write_bytes (take n (drop has_write bytes)) f)
    ]
    else wrote f

-- The state behind a response, and the task that `task_completed` is emitted for.
pub record Responded (R : Type 0) : Type 0 where
  pub controller : Controller
  pub store : R
  pub emitted : Option ℕ

-- A new `QFile`, and the file once it is open.
abbrev pub closed_file : DestFile
closed_file = record { is_open = false; position = 0; content = λ k. 0 }

abbrev pub open_file : (ℕ → ℕ) → DestFile
open_file opened = record { is_open = true; position = 0; content = opened }

abbrev pub dest_file_of : TaskPending → DestFile
dest_file_of t = elim t.dest_file [ none ↦ closed_file | some f ↦ f ]

-- The parts of `on_block_response`, from its end to its start. `t` is the task of the response and `b`
-- the block.
module _ {R : Type 0} (store : Store R) (answers : FileAnswers)
    (response : BlockResponseTransfer) where
  abbrev pub keep_file : TaskPending → DestFile → Controller → Controller
  keep_file t f c = record c {
    tasks = set_task response.task_id (some (record t { dest_file = some f })) c.tasks;
  }

  -- A step on the file has failed.
  unfoldable pub fail_block : TaskPending → BlockEntity → DestFile → Controller → R → Responded R
  fail_block t b f c r = record {
    controller = keep_file t f c;
    store = store.update_block (record b { state = Block.failed }) r;
    emitted = none;
  }

  unfoldable pub complete_task : ℕ → R → R
  complete_task id r = elim (store.get_by_task_id id r) [
    | none ↦ r
    | some task ↦ store.update_task (record task { end_time = answers.now; state = completed }) r
  ]

  unfoldable pub complete_block :
      TaskPending → BlockEntity → DestFile → Controller → R → Responded R
  complete_block t b f c r =
      let id = t.task_entity.task_id in
      let r1 =
        store.update_block (record b { state = Block.completed; end_time = answers.now }) r in
      if store.get_count id Block.waiting r1 == 0
      then record { controller = keep_file t f c; store = complete_task id r1; emitted = some id }
      else record { controller = keep_file t f c; store = r1; emitted = none }

  -- Behind the opening: `none` is a write loop that has not ended.
  unfoldable pub write_block :
      TaskPending → BlockEntity → DestFile → Controller → R → Option (Responded R)
  write_block t b f c r =
      let at_offset = record f { position = response.offset } in
      if not answers.is_seeked
      then some (fail_block t b f c r)
      else (if ltb (length response.bytes) response.block_size
          then some (fail_block t b at_offset c r)
          else elim (write_loop response.bytes answers.writes 0 response.block_size at_offset) [
            | writing g ↦ none
            | write_failed g ↦ some (fail_block t b g c r)
            | wrote g ↦ some (complete_block t b g c r)
          ])

  unfoldable pub open_and_write :
      TaskPending → BlockEntity → DestFile → Controller → R → Option (Responded R)
  open_and_write t b f c r =
      if f.is_open
      then write_block t b f c r
      else (if not answers.dir_exists && not answers.is_mkdir
          then some (fail_block t b f c r)
          else (if answers.is_open
              then write_block t b (open_file answers.opened) c r
              else some (fail_block t b f c r)))

  unfoldable pub on_block_response : Controller → R → Option (Responded R)
  on_block_response c r = elim (c.tasks response.task_id) [
    | none ↦ some (record { controller = c; store = r; emitted = none })
    | some t ↦ elim (store.get_by_id response.block_id r) [
      | none ↦ some (record { controller = c; store = r; emitted = none })
      | some b ↦ open_and_write t b (dest_file_of t) c r
    ]
  ]
