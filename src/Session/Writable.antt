-- ===== src/Session/Writable.antt =====
-- `writable_event` and `remove_connect` of
-- common/source/danejoe/network/event_loop/posix_epoll_event_loop.cpp: from the mail box to the connection.
use project_trans.Base.{
  ℕ, zero, suc, ◌≡◌, ◌≢◌, refl, sym, ap, ◌∙◌, ◌==◌, if◌then◌else◌, Bool, false, Option, none, some,
  List, [], ◌∷◌, length, ◌⊎◌, inl, inr, eq→==, ==→eq, arith, Bool-cases,
}
use project_trans.Frame.{FrameAssembler}
use project_trans.MailBox.{
  PosixFrame, MailBox, find, assign, pop_from_to_client_queue, remove_to_client_queue,
}
use project_trans.MailBox.Connections.{find-assign, find-erase}
use project_trans.Session.{
  Sender, Syscall, StatusLevel, ok, branch, error, WriteResult, write, has_pending_write,
}

-- A `ConnectContext`: its id, its writing half and its reading half.
pub record Connection : Type 0 where
  pub connect_id : ℕ
  pub sender : Sender
  pub assembler : FrameAssembler

-- `m_connect_contexts`, by file descriptor, and the mail box.
pub record EventLoop : Type 0 where
  pub connect_contexts : ℕ → Option Connection
  pub mail_box : MailBox

abbrev pub set_context : ℕ → Option Connection → EventLoop → EventLoop
set_context fd c l = record l {
  connect_contexts = λ k. if k == fd then c else l.connect_contexts k;
}

unfoldable pub remove_connect : ℕ → EventLoop → EventLoop
remove_connect fd l = elim (l.connect_contexts fd) [
  | none ↦ l
  | some c ↦
      set_context fd none (record l { mail_box = remove_to_client_queue c.connect_id l.mail_box })
]

abbrev pub put_before :
    PosixFrame → Option (List PosixFrame × MailBox) → Option (List PosixFrame × MailBox)
put_before frame none = none
put_before frame (some (frames, b)) = some (frame ∷ frames, b)

-- The loop that pops the frames of a connection: `none` if the fuel ran out.
unfoldable pub pop_all : ℕ → ℕ → MailBox → Option (List PosixFrame × MailBox)
pop_all zero id b = none
pop_all (suc fuel) id b =
    let (frame, b1) = pop_from_to_client_queue id b in
    let rest = pop_all fuel id b1 in
    elim frame [ none ↦ some ([], b1) | some f ↦ put_before f rest ]

abbrev pub frame_bytes : List PosixFrame → List (List ℕ)
frame_bytes [] = []
frame_bytes (f ∷ fs) = f.bytes ∷ frame_bytes fs

-- The state behind the event, and whether the loop waits for the socket to be writable again.
pub record Flushed : Type 0 where
  pub loop : EventLoop
  pub epoll_out : Bool

-- Behind the write.
unfoldable pub after_event : ℕ → Connection → WriteResult → Sender → EventLoop → Flushed
after_event fd c ret s l = elim ret.level [
  | error ↦ record { loop = remove_connect fd l; epoll_out = false }
  | level ↦ record {
    loop = set_context fd (some (record c { sender = s })) l;
    epoll_out = has_pending_write s;
  }
]

unfoldable pub writable_event : ℕ → ℕ → List Syscall → EventLoop → Option Flushed
writable_event fuel fd calls l = elim (l.connect_contexts fd) [
  | none ↦ some (record { loop = l; epoll_out = false })
  | some c ↦ elim (pop_all fuel c.connect_id l.mail_box) [
    | none ↦ none
    | some (frames, b) ↦ elim (write (frame_bytes frames) calls c.sender) [
      | none ↦ none
      | some (ret, s) ↦ some (after_event fd c ret s (record l { mail_box = b }))
    ]
  ]
]

-- The queues, with that of one connection emptied or erased.
abbrev pub Queues : ℕ → Option (List PosixFrame) → MailBox → MailBox → Type 0
Queues id q b b1 = (k : ℕ) → find k b1.to_client ≡ (if id == k then q else find k b.to_client)

pop_empty :
    (id : ℕ) (b : MailBox)
    → find id b.to_client ≡ some []
    → pop_from_to_client_queue id b ≡ (none, b)
unfolding pop_from_to_client_queue
pop_empty id b e = rw (e, pop_from_to_client_queue) refl

pop_first :
    (id : ℕ) (b : MailBox) (f : PosixFrame) (q : List PosixFrame)
    → find id b.to_client ≡ some (f ∷ q)
    → pop_from_to_client_queue id b ≡ (some f, record b { to_client = assign id q b.to_client })
unfolding pop_from_to_client_queue
pop_first id b f q e = rw (e, pop_from_to_client_queue) refl

pop_stop :
    (fuel id : ℕ) (b b1 : MailBox)
    → pop_from_to_client_queue id b ≡ (none, b1)
    → pop_all (suc fuel) id b ≡ some ([], b1)
unfolding pop_all
pop_stop fuel id b b1 e =
    let head : (pop_from_to_client_queue id b).0 ≡ none = ap (λ p. p.0) e in
    rw (head, pop_all) (ap (λ (p : Option PosixFrame × MailBox). some ([], p.1)) e)

pop_go :
    (fuel id : ℕ) (b b1 : MailBox) (f : PosixFrame)
    → pop_from_to_client_queue id b ≡ (some f, b1)
    → pop_all (suc fuel) id b ≡ put_before f (pop_all fuel id b1)
unfolding pop_all
pop_go fuel id b b1 f e =
    let head : (pop_from_to_client_queue id b).0 ≡ some f = ap (λ p. p.0) e in
    rw (head, pop_all)
      (ap (λ (p : Option PosixFrame × MailBox). put_before f (pop_all fuel id p.1)) e)

-- Enough fuel pops the whole queue, in order.
pop_all-Queues :
    (fuel id : ℕ) (b : MailBox) (q : List PosixFrame)
    → find id b.to_client ≡ some q
    → length q ≡ fuel
    → (b1 : MailBox) × (pop_all (suc fuel) id b ≡ some (q, b1)) × Queues id (some []) b b1
unfolding pop_all
pop_all-Queues fuel id b [] e h = (
  b,
  pop_stop fuel id b b (pop_empty id b e),
  λ k. elim (Bool-cases (id == k)) [
    | inl y ↦ rw y (ap (λ j. find j b.to_client) (sym (==→eq id k y)) ∙ e)
    | inr n ↦ rw n refl
  ],
)
pop_all-Queues zero id b (f ∷ q) e h = absurd (omega (arith, h))
pop_all-Queues (suc fuel) id b (f ∷ q) e h =
    let b1 : MailBox = record b { to_client = assign id q b.to_client } in
    let (b2, run, rest) =
      pop_all-Queues fuel id b1 q (find-assign id id q b.to_client ∙ rw (eq→== id id refl) refl)
        (omega (arith, h)) in
    (
      b2,
      pop_go (suc fuel) id b b1 f (pop_first id b f q e) ∙ ap (put_before f) run,
      λ k. elim (Bool-cases (id == k)) [
        | inl y ↦ rw y (rw y at (rest k))
        | inr n ↦ rw n (rw n at (rest k) ∙ (rw n at (find-assign k id q b.to_client)))
      ],
    )

-- What an event leaves of the connection: it is removed with its queue, or it has sent what it could.
abbrev pub IsFlushed : ℕ → Connection → WriteResult → Sender → EventLoop → Flushed → Type 0
IsFlushed fd c ret s l out =
    ((ret.level ≡ error)
      × (out.loop.connect_contexts fd ≡ none)
      × Queues c.connect_id none l.mail_box out.loop.mail_box)
    ⊎ ((ret.level ≢ error)
        × (out.loop.connect_contexts fd ≡ some (record c { sender = s }))
        × (out.epoll_out ≡ has_pending_write s)
        × Queues c.connect_id (some []) l.mail_box out.loop.mail_box)

-- Removing a connection removes its queue and no other.
removed-Queues :
    (id : ℕ) (b b1 : MailBox)
    → Queues id (some []) b b1
    → Queues id none b (remove_to_client_queue id b1)
unfolding remove_to_client_queue
removed-Queues id b b1 rest =
    let there : find id b1.to_client ≡ some [] = rw (eq→== id id refl) at (rest id) in
    λ k. elim (Bool-cases (id == k)) [
      | inl y ↦ rw (there, remove_to_client_queue, y) (rw y at (find-erase k id b1.to_client))
      | inr n ↦
          rw (there, remove_to_client_queue, n)
            ((rw n at (find-erase k id b1.to_client)) ∙ (rw n at (rest k)))
    ]

module _ (fd : ℕ) (c : Connection) (s : Sender) (l : EventLoop) (b1 : MailBox)
    (there : l.connect_contexts fd ≡ some c)
    (rest : Queues c.connect_id (some []) l.mail_box b1) where
  after_event-IsFlushed :
      (value : Option ℕ) (level : StatusLevel)
      → let ret : WriteResult = record { value = value; level = level } in
        IsFlushed fd c ret s l (after_event fd c ret s (record l { mail_box = b1 }))
  unfolding after_event remove_connect
  after_event-IsFlushed value error = inl (
    refl,
    rw (there, remove_connect, eq→== fd fd refl) refl,
    rw (there, remove_connect) (removed-Queues c.connect_id l.mail_box b1 rest),
  )
  after_event-IsFlushed value ok = inr ((λ e. cc e), rw (eq→== fd fd refl) refl, refl, rest)
  after_event-IsFlushed value branch = inr ((λ e. cc e), rw (eq→== fd fd refl) refl, refl, rest)

-- When a connection can be written, the frames that wait for it are written, all of them and in order, and
-- no queue of another connection changes. If the write is an error the connection and its queue are
-- removed; otherwise its queue is empty, and the loop goes on waiting for the socket exactly if bytes are
-- pending.
pub writable_event-IsFlushed :
    (fd : ℕ) (calls : List Syscall) (l : EventLoop) (c : Connection) (q : List PosixFrame)
    (ret : WriteResult) (s : Sender)
    → l.connect_contexts fd ≡ some c
    → find c.connect_id l.mail_box.to_client ≡ some q
    → write (frame_bytes q) calls c.sender ≡ some (ret, s)
    → (out : Flushed) × (writable_event (suc (length q)) fd calls l ≡ some out)
      × IsFlushed fd c ret s l out
unfolding writable_event
writable_event-IsFlushed fd calls l c q ret s there e w =
    let (b1, run, rest) = pop_all-Queues (length q) c.connect_id l.mail_box q e refl in
    (
      after_event fd c ret s (record l { mail_box = b1 }),
      rw (there, run, w, writable_event) refl,
      after_event-IsFlushed fd c s l b1 there rest ret.value ret.level,
    )
