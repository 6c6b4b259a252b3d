-- ===== src/Session/Readable.antt =====
-- `readable_event` of common/source/danejoe/network/event_loop/posix_epoll_event_loop.cpp: from the
-- connection to the queue to the server.
use project_trans.Base.{ℕ, ◌+◌, ◌^◌, ◌≤◌, ◌<◌, ◌≡◌, refl, sym, ap, ◌∙◌, arith}
use project_trans.Base.{if◌then◌else◌, Bool, true, false, Option, none, some, List, [], ◌∷◌, ◌++◌}
use project_trans.Base.{length, length-append, append_assoc, append-nil, lt→ltb}
use project_trans.Binary.{Host}
use project_trans.Frame.{FrameAssembler, read}
use project_trans.Frame.Stream.{Splits}
use project_trans.Frame.Refine.{pending, IsValid}
use project_trans.Frame.Deliver.{concat, read-Popped, Splits-unique}
use project_trans.Concurrent.Mpmc.{Queue, Call, step, push_section}
use project_trans.MailBox.{PosixFrame, MailBox, server_section, push_to_server_frames}
use project_trans.Session.Writable.{Connection, EventLoop, set_context, remove_connect}

abbrev pub frames_of : ℕ → List (List ℕ) → List PosixFrame
frames_of id [] = []
frames_of id (bytes ∷ rest) = record { connect_id = id; bytes = bytes } ∷ frames_of id rest

-- `blocks` are what the socket gave until it had no more or, if `failed`, until it failed. The result
-- is the loop, and the calls on the queue to the server that the event makes.
unfoldable pub readable_event :
    Host → List (List ℕ) → Bool → ℕ → EventLoop → Option (EventLoop × List (Call PosixFrame))
readable_event host blocks failed fd l = elim (l.connect_contexts fd) [
  | none ↦ some (l, [])
  | some c ↦
      if failed then some (remove_connect fd l, []) else elim (read host blocks c.assembler) [
        | none ↦ none
        | some (frames, s) ↦ some (
          set_context fd (some (record c { assembler = s })) l,
          push_to_server_frames (frames_of c.connect_id frames),
        )
      ]
]

-- Calls one after the other, a section each.
unfoldable pub run_calls : List (Call PosixFrame) → MailBox → MailBox
run_calls [] b = b
run_calls (call ∷ calls) b = run_calls calls (server_section call b).1

push_section_room :
    {A : Type 0} (x : A) (q : Queue A)
    → q.is_running ≡ true
    → length q.items < q.max_size
    → (push_section x q).queue ≡ record q { items = q.items ++ (x ∷ []) }
unfolding push_section
push_section_room x q running room =
    rw (running, push_section, lt→ltb (length q.items) q.max_size room) refl

-- Frames for which there is room are put behind those that wait.
pub run_calls-push :
    (frames : List PosixFrame) (b : MailBox)
    → b.to_server.is_running ≡ true
    → length b.to_server.items + length frames ≤ b.to_server.max_size
    → run_calls (push_to_server_frames frames) b
      ≡ record b { to_server = record b.to_server { items = b.to_server.items ++ frames } }
unfolding run_calls server_section step
run_calls-push [] b running room =
    ap (λ xs. record b { to_server = record b.to_server { items = xs } })
      (sym (append-nil b.to_server.items))
run_calls-push (frame ∷ frames) b running room =
    let q = b.to_server in
    let one = push_section_room frame q running (omega arith) in
    ap (λ r. run_calls (push_to_server_frames frames) (record b { to_server = r })) one
    ∙ run_calls-push frames (record b { to_server = record q { items = q.items ++ (frame ∷ []) } })
        running (omega (arith, length-append q.items (frame ∷ [])))
    ∙ ap (λ xs. record b { to_server = record q { items = xs } })
        (append_assoc q.items (frame ∷ []) frames)

-- A connection with a valid assembler that can be read without an error, and from which fewer than
-- 2 ^ 32 bytes are pending, keeps the bytes behind the last whole frame, and its whole frames, those that
-- the pending bytes split into, are put behind the frames that wait for the server, in order and under
-- the id of the connection, if the queue runs and has room for them.
pub readable_event-hands_over :
    (host : Host) (blocks : List (List ℕ)) (fd : ℕ) (l : EventLoop) (c : Connection)
    (frames : List (List ℕ)) (rest : List ℕ)
    → l.connect_contexts fd ≡ some c
    → IsValid host c.assembler
    → length (pending c.assembler) + length (concat blocks) < 2 ^ 32
    → Splits host (pending c.assembler ++ concat blocks) frames rest
    → l.mail_box.to_server.is_running ≡ true
    → length l.mail_box.to_server.items + length (frames_of c.connect_id frames)
      ≤ l.mail_box.to_server.max_size
    → (s : FrameAssembler) × (calls : List (Call PosixFrame)) × (readable_event host blocks false fd
          l
        ≡ some (set_context fd (some (record c { assembler = s })) l, calls))
      × (pending s ≡ rest)
      × IsValid host s
      × (run_calls calls l.mail_box ≡ record l.mail_box {
        to_server = record l.mail_box.to_server {
          items = l.mail_box.to_server.items ++ frames_of c.connect_id frames;
        };
      })
unfolding readable_event
readable_event-hands_over host blocks fd l c frames rest there valid small split running room =
    let popped = read-Popped host blocks c.assembler valid small in
    let (same, left) = Splits-unique popped.split split in
    (
      popped.state,
      push_to_server_frames (frames_of c.connect_id frames),
      rw (there, popped.ended, readable_event, same) refl,
      left,
      popped.valid,
      run_calls-push (frames_of c.connect_id frames) l.mail_box running room,
    )
