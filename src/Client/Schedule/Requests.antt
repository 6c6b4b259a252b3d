-- ===== src/Client/Schedule/Requests.antt =====
-- The block requests of `BlockScheduleController`: none is lost or sent twice.
use project_trans.Base.{
  ℕ, ◌+◌, ◌≡◌, refl, sym, ap, ◌∙◌, arith, if◌then◌else◌, Bool-cases, inl, inr, Option-cases,
}
use project_trans.Base.{
  Bool, false, Option, none, some, List, [], ◌∷◌, ◌++◌, All, append-nil, append_assoc, ==_refl,
}
use project_trans.Client.Block.{BlockEntity}
use project_trans.Client.Schedule.{
  Controller, TaskPending, TaskEntity, EventContext, NetworkEndpoint, BlockRequestTransfer,
  Published, transfer_of, enqueue_blocks, on_task_enqueue, on_task_cancle, on_task_paused,
  on_block_request,
}

-- The slots that change the queue or the tasks, in the order in which the event loop calls them.
pub data Event : Type 0 where
  enqueue : List BlockEntity → EventContext → NetworkEndpoint → TaskEntity → Event
  cancle : ℕ → Event
  pause : ℕ → Bool → Event
  request : Event

abbrev pub handle : Event → Controller → Controller × Option Published
handle (enqueue blocks source endpoint task) c =
    (on_task_enqueue blocks source endpoint task c, none)
handle (cancle id) c = (on_task_cancle id c, none)
handle (pause id b) c = (on_task_paused id b c, none)
handle request c = on_block_request c

abbrev pub log : Option Published → List Published → List Published
log none ps = ps
log (some p) ps = p ∷ ps

-- What a sequence of events leaves, and what it publishes.
abbrev pub run : List Event → Controller → Controller × List Published
run [] c = (c, [])
run (e ∷ es) c = let (c1, p) = handle e c in let (c2, ps) = run es c1 in (c2, log p ps)

abbrev pub count : (BlockRequestTransfer → Bool) → List BlockRequestTransfer → ℕ
count p [] = 0
count p (x ∷ xs) = (if p x then 1 else 0) + count p xs

abbrev pub count_blocks : (BlockRequestTransfer → Bool) → List BlockEntity → ℕ
count_blocks p [] = 0
count_blocks p (b ∷ bs) = (if p (transfer_of b) then 1 else 0) + count_blocks p bs

abbrev pub count_published : (BlockRequestTransfer → Bool) → List Published → ℕ
count_published p [] = 0
count_published p (x ∷ xs) = (if p x.transfer then 1 else 0) + count_published p xs

-- The requests that the events ask for.
abbrev pub asked : (BlockRequestTransfer → Bool) → List Event → ℕ
asked p [] = 0
asked p (enqueue blocks source endpoint task ∷ es) = count_blocks p blocks + asked p es
asked p (cancle id ∷ es) = asked p es
asked p (pause id b ∷ es) = asked p es
asked p (request ∷ es) = asked p es

-- Is the first request in the queue one of a task that was cancelled?
abbrev pub gone : (BlockRequestTransfer → Bool) → Controller → ℕ
gone p c = elim c.requests [
  | [] ↦ 0
  | x ∷ xs ↦ elim (c.tasks x.task_id) [ none ↦ if p x then 1 else 0 | some t ↦ 0 ]
]

-- The requests that are taken from the queue when their task is no longer there.
abbrev pub cancelled : (BlockRequestTransfer → Bool) → List Event → Controller → ℕ
cancelled p [] c = 0
cancelled p (enqueue blocks source endpoint task ∷ es) c =
    cancelled p es (on_task_enqueue blocks source endpoint task c)
cancelled p (cancle id ∷ es) c = cancelled p es (on_task_cancle id c)
cancelled p (pause id b ∷ es) c = cancelled p es (on_task_paused id b c)
cancelled p (request ∷ es) c = gone p c + cancelled p es (on_block_request c).0

count-append :
    (p : BlockRequestTransfer → Bool) (xs : List BlockRequestTransfer) (x : BlockRequestTransfer)
    → count p (xs ++ (x ∷ [])) ≡ count p xs + (if p x then 1 else 0)
count-append p [] x = omega arith
count-append p (y ∷ xs) x = omega (arith, count-append p xs x)

count-enqueue_blocks :
    (p : BlockRequestTransfer → Bool) (bs : List BlockEntity) (xs : List BlockRequestTransfer)
    → count p (enqueue_blocks bs xs) ≡ count p xs + count_blocks p bs
unfolding enqueue_blocks
count-enqueue_blocks p [] xs = omega arith
count-enqueue_blocks p (b ∷ bs) xs =
    count-enqueue_blocks p bs (xs ++ (transfer_of b ∷ []))
    ∙ omega (arith, count-append p xs (transfer_of b))

-- Cancelling and pausing leave the queue.
requests-cancle : (id : ℕ) (c : Controller) → (on_task_cancle id c).requests ≡ c.requests
unfolding on_task_cancle
requests-cancle id c = elim (Option-cases (c.tasks id)) [
  | inl e ↦ rw (e, on_task_cancle) refl
  | inr (t, e) ↦ rw (e, on_task_cancle) refl
]

requests-paused :
    (id : ℕ) (b : Bool) (c : Controller) → (on_task_paused id b c).requests ≡ c.requests
unfolding on_task_paused
requests-paused id b c = elim (Option-cases (c.tasks id)) [
  | inl e ↦ rw (e, on_task_paused) refl
  | inr (t, e) ↦ rw (e, on_task_paused) refl
]

requests-enqueue :
    (blocks : List BlockEntity) (source : EventContext) (endpoint : NetworkEndpoint)
    (task : TaskEntity) (c : Controller)
    → (on_task_enqueue blocks source endpoint task c).requests ≡ enqueue_blocks blocks c.requests
unfolding on_task_enqueue
requests-enqueue blocks source endpoint task c = refl

abbrev sent : (BlockRequestTransfer → Bool) → Option Published → ℕ
sent p none = 0
sent p (some x) = if p x.transfer then 1 else 0

count_published-log :
    (p : BlockRequestTransfer → Bool) (o : Option Published) (ps : List Published)
    → count_published p (log o ps) ≡ sent p o + count_published p ps
count_published-log p none ps = omega arith
count_published-log p (some x) ps = refl

-- A request is sent, dropped or put back.
on_block_request-count :
    (p : BlockRequestTransfer → Bool) (requests : List BlockRequestTransfer)
    (tasks : ℕ → Option TaskPending)
    → let c : Controller = record { requests = requests; tasks = tasks } in
      let (c1, o) = on_block_request c in
      count p requests ≡ sent p o + gone p c + count p c1.requests
unfolding on_block_request
on_block_request-count p [] tasks = refl
on_block_request-count p (x ∷ xs) tasks = elim (Option-cases (tasks x.task_id)) [
  | inl e ↦ rw (e, on_block_request) (omega arith)
  | inr (t, e) ↦ elim (Bool-cases t.is_paused) [
    | inl f ↦ rw (e, f, on_block_request) (omega (arith, count-append p xs x))
    | inr f ↦ rw (e, f, on_block_request) (omega arith)
  ]
]

-- Whatever the events are and in whatever order they come, the requests that were in the queue and those
-- that were asked for are, counted for any set of requests, those that were published, those that were
-- dropped because their task was cancelled, and those that the queue still holds.
pub run-count :
    (p : BlockRequestTransfer → Bool) (es : List Event) (c : Controller)
    → count p c.requests + asked p es
      ≡ count_published p (run es c).1 + cancelled p es c + count p (run es c).0.requests
run-count p [] c = omega arith
run-count p (enqueue blocks source endpoint task ∷ es) c = omega (
  arith,
  run-count p es (on_task_enqueue blocks source endpoint task c),
  ap (count p) (requests-enqueue blocks source endpoint task c),
  count-enqueue_blocks p blocks c.requests,
)
run-count p (cancle id ∷ es) c =
    omega (arith, run-count p es (on_task_cancle id c), ap (count p) (requests-cancle id c))
run-count p (pause id b ∷ es) c =
    omega (arith, run-count p es (on_task_paused id b c), ap (count p) (requests-paused id b c))
run-count p (request ∷ es) c =
    let (c1, o) = on_block_request c in
    omega (
      arith,
      run-count p es c1,
      on_block_request-count p c.requests c.tasks,
      count_published-log p o (run es c1).1,
    )

-- As many requests as there are in the queue.
abbrev pub request_each : List BlockRequestTransfer → List Event
request_each [] = []
request_each (x ∷ xs) = request ∷ request_each xs

-- A task that is there and not paused.
abbrev pub IsActive : (ℕ → Option TaskPending) → BlockRequestTransfer → Type 0
IsActive tasks x = (t : TaskPending) × (tasks x.task_id ≡ some t) × (t.is_paused ≡ false)

abbrev pub transfers : List Published → List BlockRequestTransfer
transfers [] = []
transfers (p ∷ ps) = p.transfer ∷ transfers ps

request_active :
    (x : BlockRequestTransfer) (xs : List BlockRequestTransfer) (tasks : ℕ → Option TaskPending)
    (t : TaskPending)
    → tasks x.task_id ≡ some t
    → t.is_paused ≡ false
    → on_block_request (record { requests = x ∷ xs; tasks = tasks }) ≡ (
      record { requests = xs; tasks = tasks },
      some (record { event_source = t.event_source; endpoint = t.endpoint; transfer = x }),
    )
unfolding on_block_request
request_active x xs tasks t e f = rw (e, f) refl

drain :
    (xs : List BlockRequestTransfer) (tasks : ℕ → Option TaskPending)
    → All (IsActive tasks) xs
    → let (c1, ps) = run (request_each xs) (record { requests = xs; tasks = tasks }) in
      (transfers ps ≡ xs) × (c1.requests ≡ [])
drain [] tasks all = (refl, refl)
drain (x ∷ xs) tasks ((t, e, f), all) =
    let (p, q) = drain xs tasks all in
    let here = request_active x xs tasks t e f in (rw here (ap (λ l. x ∷ l) p), rw (here, run) q)

abbrev pub all_transfers : List BlockEntity → List BlockRequestTransfer
all_transfers [] = []
all_transfers (b ∷ bs) = transfer_of b ∷ all_transfers bs

enqueue_blocks_eq :
    (bs : List BlockEntity) (xs : List BlockRequestTransfer)
    → enqueue_blocks bs xs ≡ xs ++ all_transfers bs
unfolding enqueue_blocks
enqueue_blocks_eq [] xs = sym (append-nil xs)
enqueue_blocks_eq (b ∷ bs) xs =
    enqueue_blocks_eq bs (xs ++ (transfer_of b ∷ []))
    ∙ append_assoc xs (transfer_of b ∷ []) (all_transfers bs)

-- The task that `on_task_enqueue` keeps under the id.
all_transfers-IsActive :
    (source : EventContext) (endpoint : NetworkEndpoint) (task : TaskEntity) (c : Controller)
    (bs : List BlockEntity)
    → All (λ b. b.task_id ≡ task.task_id) bs
    → All (IsActive (on_task_enqueue [] source endpoint task c).tasks) (all_transfers bs)
unfolding on_task_enqueue
all_transfers-IsActive source endpoint task c [] all = tt
all_transfers-IsActive source endpoint task c (b ∷ bs) (h, all) = (
  (
    record {
      is_paused = false;
      event_source = source;
      endpoint = endpoint;
      task_entity = task;
      dest_file = none;
    },
    rw (h, ==_refl task.task_id) refl,
    refl,
  ),
  all_transfers-IsActive source endpoint task c bs all,
)

-- When a task is enqueued and no request waits, as many requests as it has blocks publish its blocks in
-- order, each once, and leave the queue empty.
pub on_task_enqueue-transfers :
    (blocks : List BlockEntity) (source : EventContext) (endpoint : NetworkEndpoint)
    (task : TaskEntity) (c : Controller)
    → c.requests ≡ []
    → All (λ b. b.task_id ≡ task.task_id) blocks
    → let (c1, ps) =
        run (request_each (all_transfers blocks)) (on_task_enqueue blocks source endpoint task c) in
      (transfers ps ≡ all_transfers blocks) × (c1.requests ≡ [])
unfolding on_task_enqueue
on_task_enqueue-transfers blocks source endpoint task c empty all =
    rw (empty, enqueue_blocks_eq blocks [])
      (drain (all_transfers blocks) (on_task_enqueue [] source endpoint task c).tasks
        (all_transfers-IsActive source endpoint task c blocks all))
