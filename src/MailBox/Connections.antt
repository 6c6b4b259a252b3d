-- ===== src/MailBox/Connections.antt =====
-- The map of queues to the clients is one queue for each connection.
use project_trans.Base.{
  ℕ, ◌≡◌, refl, sym, ap, ap₂, ◌∙◌, arith, ◌==◌, ==→eq, if◌then◌else◌, Bool, true, false,
}
use project_trans.Base.{Option, none, some, List, [], ◌∷◌, ◌++◌, Bool-cases, Option-cases, inl, inr}
use project_trans.MailBox.{
  PosixFrame, ClientQueues, find, assign, erase, MailBox, add_to_client_queue,
  remove_to_client_queue,
}
use project_trans.MailBox.{push_to_client_frame, pop_from_to_client_queue}

pub find-assign :
    (id key : ℕ) (q : List PosixFrame) (map : ClientQueues)
    → find id (assign key q map) ≡ (if key == id then some q else find id map)
unfolding find assign
find-assign id key q [] = refl
find-assign id key q ((k, old) ∷ map) = ground (arith, find-assign id key q map)

pub find-erase :
    (id key : ℕ) (map : ClientQueues)
    → find id (erase key map) ≡ (if key == id then none else find id map)
unfolding find erase
find-erase id key [] = ground arith
find-erase id key ((k, q) ∷ map) = ground (arith, find-erase id key map)

-- What the threads do with the queues to the clients.
pub data Op : Type 0 where
  add remove pop : ℕ → Op
  push : PosixFrame → Op

unfoldable pub apply : Op → MailBox → Option PosixFrame × MailBox
apply (add id) b = (none, add_to_client_queue id b)
apply (remove id) b = (none, remove_to_client_queue id b)
apply (push frame) b = (none, push_to_client_frame frame b)
apply (pop id) b = pop_from_to_client_queue id b

-- One connection alone: it has no queue, or one.
unfoldable pub serve :
    ℕ → Op → Option (List PosixFrame) → Option PosixFrame × Option (List PosixFrame)
serve id (add key) q = if key == id then (none, some []) else (none, q)
serve id (remove key) q = if key == id then (none, none) else (none, q)
serve id (push frame) none = (none, none)
serve id (push frame) (some q) =
    if frame.connect_id == id then (none, some (q ++ (frame ∷ []))) else (none, some q)
serve id (pop key) none = (none, none)
serve id (pop key) (some []) = (none, some [])
serve id (pop key) (some (frame ∷ q)) =
    if key == id then (some frame, some q) else (none, some (frame ∷ q))

-- Is the operation a pop of this connection?
unfoldable pub is_pop_of : ℕ → Op → Bool
is_pop_of id (pop key) = key == id
is_pop_of id op = false

-- The frames that the pops of a connection give.
unfoldable pub delivered : ℕ → List Op → MailBox → List (Option PosixFrame)
delivered id [] b = []
delivered id (op ∷ ops) b =
    let (frame, b') = apply op b in
    let rest = delivered id ops b' in if is_pop_of id op then frame ∷ rest else rest

unfoldable pub served : ℕ → List Op → Option (List PosixFrame) → List (Option PosixFrame)
served id [] q = []
served id (op ∷ ops) q =
    let (frame, q') = serve id op q in
    let rest = served id ops q' in if is_pop_of id op then frame ∷ rest else rest

find_same : (map : ClientQueues) (id key : ℕ) → (key == id) ≡ true → find id map ≡ find key map
find_same map id key e = ap (λ k. find k map) (sym (==→eq key id e))

-- The outcomes of the operations, by what the map holds.
remove-none :
    (key : ℕ) (b : MailBox) → find key b.to_client ≡ none → remove_to_client_queue key b ≡ b
unfolding remove_to_client_queue
remove-none key b e = rw (e, remove_to_client_queue) refl

remove-some :
    (key : ℕ) (b : MailBox) {q : List PosixFrame}
    → find key b.to_client ≡ some q
    → (remove_to_client_queue key b).to_client ≡ erase key b.to_client
unfolding remove_to_client_queue
remove-some key b e = rw (e, remove_to_client_queue) refl

push-none :
    (frame : PosixFrame) (b : MailBox)
    → find frame.connect_id b.to_client ≡ none
    → push_to_client_frame frame b ≡ b
unfolding push_to_client_frame
push-none frame b e = rw (e, push_to_client_frame) refl

push-some :
    (frame : PosixFrame) (b : MailBox) {q : List PosixFrame}
    → find frame.connect_id b.to_client ≡ some q
    → (push_to_client_frame frame b).to_client
      ≡ assign frame.connect_id (q ++ (frame ∷ [])) b.to_client
unfolding push_to_client_frame
push-some frame b e = rw (e, push_to_client_frame) refl

pop-none :
    (key : ℕ) (b : MailBox)
    → find key b.to_client ≡ none
    → pop_from_to_client_queue key b ≡ (none, b)
unfolding pop_from_to_client_queue
pop-none key b e = rw (e, pop_from_to_client_queue) refl

pop-nil :
    (key : ℕ) (b : MailBox)
    → find key b.to_client ≡ some []
    → pop_from_to_client_queue key b ≡ (none, b)
unfolding pop_from_to_client_queue
pop-nil key b e = rw (e, pop_from_to_client_queue) refl

pop-cons :
    (key : ℕ) (b : MailBox) {frame : PosixFrame} {q : List PosixFrame}
    → find key b.to_client ≡ some (frame ∷ q)
    → pop_from_to_client_queue key b
      ≡ (some frame, record b { to_client = assign key q b.to_client })
unfolding pop_from_to_client_queue
pop-cons key b e = rw (e, pop_from_to_client_queue) refl

-- One step of the box is one step of the connection.
abbrev Serves : ℕ → Op → MailBox → Type 0
Serves id op b =
    (find id (apply op b).1.to_client ≡ (serve id op (find id b.to_client)).1)
    × (is_pop_of id op ≡ true → (apply op b).0 ≡ (serve id op (find id b.to_client)).0)

add-Serves : (id key : ℕ) (b : MailBox) → Serves id (add key) b
unfolding apply serve is_pop_of add_to_client_queue
add-Serves id key b = (ground (arith, find-assign id key [] b.to_client), λ h. cc (h))

remove-Serves : (id key : ℕ) (b : MailBox) → Serves id (remove key) b
unfolding apply serve is_pop_of
remove-Serves id key b = elim (Option-cases (find key b.to_client)) [
  | inl e ↦ (rw (remove-none key b e) (ground (arith, find_same b.to_client id key)), λ h. cc (h))
  | inr (q, e) ↦
      (rw (remove-some key b e) (ground (arith, find-erase id key b.to_client)), λ h. cc (h))
]

push-Serves : (id : ℕ) (frame : PosixFrame) (b : MailBox) → Serves id (push frame) b
unfolding apply serve is_pop_of
push-Serves id frame b = elim (Option-cases (find frame.connect_id b.to_client)) [
  | inl e ↦ (
    rw (push-none frame b e) (ground (arith, find_same b.to_client id frame.connect_id)),
    λ h. cc (h),
  )
  | inr (q, e) ↦ (
    rw (push-some frame b e) (
        ground (
          arith,
          find-assign id frame.connect_id (q ++ (frame ∷ [])) b.to_client,
          find_same b.to_client id frame.connect_id,
        )),
    λ h. cc (h),
  )
]

pop-Serves : (id key : ℕ) (b : MailBox) → Serves id (pop key) b
unfolding apply serve is_pop_of
pop-Serves id key b = elim (Option-cases (find key b.to_client)) [
  | inl e ↦
      rw (pop-none key b e)
        (ground (arith, find_same b.to_client id key), ground (arith, find_same b.to_client id key))
  | inr ([], e) ↦
      rw (pop-nil key b e)
        (ground (arith, find_same b.to_client id key), ground (arith, find_same b.to_client id key))
  | inr (f ∷ q, e) ↦ rw (pop-cons key b e) (
    ground (arith, find-assign id key q b.to_client, find_same b.to_client id key),
    ground (arith, find_same b.to_client id key),
  )
]

apply-Serves : (id : ℕ) (op : Op) (b : MailBox) → Serves id op b
apply-Serves id (add key) b = add-Serves id key b
apply-Serves id (remove key) b = remove-Serves id key b
apply-Serves id (push frame) b = push-Serves id frame b
apply-Serves id (pop key) b = pop-Serves id key b

-- Whatever is added, removed, pushed and popped, in whatever order and for whatever connections, the
-- pops of a connection give the frames that its own operations alone determine: those pushed to it
-- since its queue was added, in order.
pub delivered-served :
    (id : ℕ) (ops : List Op) (b : MailBox)
    → delivered id ops b ≡ served id ops (find id b.to_client)
unfolding delivered served
delivered-served id [] b = refl
delivered-served id (op ∷ ops) b =
    let (kept, same) = apply-Serves id op b in
    let rest = delivered-served id ops (apply op b).1 ∙ ap (served id ops) kept in
    elim (Bool-cases (is_pop_of id op)) [ inl e ↦ rw e (ap₂ ◌∷◌ (same e) rest) | inr e ↦ rw e rest ]
