-- ===== src/MailBox/Tests.antt =====
-- A box with two connections.
use project_trans.Base.{ℕ, ◌≡◌, refl, List, [], ◌∷◌}
use project_trans.Concurrent.Mpmc.{move_assign}
use project_trans.MailBox.{PosixFrame, new, find}
use project_trans.MailBox.Connections.{
  Op, add, remove, pop, push, delivered, served, delivered-served,
}

abbrev frame : ℕ → ℕ → PosixFrame
frame id b = record { connect_id = id; bytes = b ∷ [] }

abbrev ops : List Op
ops =
    add 1
    ∷ add 2
    ∷ push (frame 1 7)
    ∷ push (frame 2 8)
    ∷ push (frame 1 9)
    ∷ pop 1
    ∷ remove 2
    ∷ pop 2
    ∷ pop 1
    ∷ []

delivered-served_example : delivered 1 ops new ≡ served 1 ops (find 1 new.to_client)
delivered-served_example = delivered-served 1 ops new

-- The bound of the queue to the server.
server_bound : new.to_server.max_size ≡ 50
unfolding new move_assign
server_bound = refl
