-- ===== src/MailBox.antt =====
-- `ReactorMailBox` of common/source/danejoe/network/runtime/reactor_mail_box.cpp, through which the
-- thread of the event loop and the threads of the business logic hand frames to each other.
pub mod Connections
mod Tests
use project_trans.Base.{
  ℕ, ◌+◌, ◌==◌, if◌then◌else◌, Bool, true, false, Option, none, some, List, [], ◌∷◌, ◌++◌,
}
use project_trans.Concurrent.Mpmc
use project_trans.Concurrent.Mpmc.{Queue, Outcome, Call, step, close, move_assign}

-- `PosixFrame`
pub record PosixFrame : Type 0 where
  pub connect_id : ℕ
  pub bytes : List ℕ

-- An `unordered_map` with one entry for a key.
abbrev pub ClientQueues : Type 0
ClientQueues = List (ℕ × List PosixFrame)

unfoldable pub find : ℕ → ClientQueues → Option (List PosixFrame)
find id [] = none
find id ((key, q) ∷ map) = if key == id then some q else find id map

-- `map[id] = queue`
unfoldable pub assign : ℕ → List PosixFrame → ClientQueues → ClientQueues
assign id q [] = (id, q) ∷ []
assign id q ((key, old) ∷ map) =
    let rest = assign id q map in if key == id then (id, q) ∷ map else (key, old) ∷ rest

unfoldable pub erase : ℕ → ClientQueues → ClientQueues
erase id [] = []
erase id ((key, q) ∷ map) = let rest = erase id map in if key == id then rest else (key, q) ∷ rest

-- `events` counts what was written to the event handle, if there is one.
pub record MailBox : Type 0 where
  pub has_event_handle : Bool
  pub events : ℕ
  pub to_server : Queue PosixFrame
  pub to_client : ClientQueues

-- The constructor assigns a queue of 128 frames to the queue that it was made with.
unfoldable pub new : MailBox
new = record {
  has_event_handle = false;
  events = 0;
  to_server = (move_assign (Mpmc.new 50) (Mpmc.new 128)).0;
  to_client = [];
}

unfoldable pub set_event_handle : Bool → MailBox → MailBox
set_event_handle present b = record b { has_event_handle = present }

unfoldable pub add_to_client_queue : ℕ → MailBox → MailBox
add_to_client_queue id b = record b { to_client = assign id [] b.to_client }

unfoldable pub remove_to_client_queue : ℕ → MailBox → MailBox
remove_to_client_queue id b = elim (find id b.to_client) [
  | none ↦ b
  | some q ↦ record b { to_client = erase id b.to_client }
]

unfoldable pub push_to_client_frame : PosixFrame → MailBox → MailBox
push_to_client_frame frame b = elim (find frame.connect_id b.to_client) [
  | none ↦ b
  | some q ↦ record b {
    to_client = assign frame.connect_id (q ++ (frame ∷ [])) b.to_client;
    events = if b.has_event_handle then b.events + 1 else b.events;
  }
]

unfoldable pub pop_from_to_client_queue : ℕ → MailBox → Option PosixFrame × MailBox
pop_from_to_client_queue id b = elim (find id b.to_client) [
  | none ↦ (none, b)
  | some [] ↦ (none, b)
  | some (frame ∷ q) ↦ (some frame, record b { to_client = assign id q b.to_client })
]

-- A section of a call on the queue to the server, and the calls.
unfoldable pub server_section : Call PosixFrame → MailBox → Outcome PosixFrame × MailBox
server_section call b = let o = step call b.to_server in (o, record b { to_server = o.queue })

abbrev pub push_to_server_frame : PosixFrame → Call PosixFrame
push_to_server_frame frame = Mpmc.push frame

-- The overload for several frames: one call after the other.
abbrev pub push_to_server_frames : List PosixFrame → List (Call PosixFrame)
push_to_server_frames [] = []
push_to_server_frames (frame ∷ frames) = push_to_server_frame frame ∷ push_to_server_frames frames

abbrev pub pop_from_to_server_frame : Call PosixFrame
pop_from_to_server_frame = Mpmc.pop

abbrev pub try_pop_from_to_server_queue : Call PosixFrame
try_pop_from_to_server_queue = Mpmc.try_pop

unfoldable pub stop : MailBox → MailBox
stop b = (server_section close b).1
