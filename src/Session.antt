-- ===== src/Session.antt =====
-- The writing half of `ConnectContext` (common/source/danejoe/network/context/connect_context.cpp) on
-- `PosixSocketHandle::write` (common/source/danejoe/network/handle/posix_socket_handle.cpp), with what
-- becomes of the frames from the mail box to the other end. A buffer has fewer than 2 ^ 31 bytes, so that
-- the `int` of `ConnectContext::write` holds its size.
pub mod Stream
pub mod Exchange
pub mod Writable
pub mod Readable
mod Tests
use project_trans.Base.{
  ℕ, ◌+◌, ◌-◌, ◌==◌, ltb, if◌then◌else◌, Bool, true, false, not, Option, none, some,
}
use project_trans.Base.{List, [], ◌∷◌, ◌++◌, length, take, drop}
use project_trans.Frame.Deliver.{concat}

-- What one call of `::write` answers: the bytes that the system took, or the kind of its error.
pub data Syscall : Type 0 where
  took : ℕ → Syscall
  interrupted would_block broken : Syscall

pub data StatusLevel : Type 0 where
  ok branch error : StatusLevel

-- A `Result` with a status level; `none` is a call that has not returned.
pub record WriteResult : Type 0 where
  pub value : Option ℕ
  pub level : StatusLevel

abbrev pub result : Option ℕ → StatusLevel → Option WriteResult
result value level = some (record { value = value; level = level })

-- The loop of `PosixSocketHandle::write` with that of `write_some`, which calls again if it was
-- interrupted, along the answers of the calls.
unfoldable pub write_some_loop : List Syscall → ℕ → ℕ → Option WriteResult
write_some_loop [] has_write rest_size =
    if ltb 0 rest_size then none else result (some has_write) ok
write_some_loop (call ∷ calls) has_write rest_size =
    if ltb 0 rest_size
    then elim call [
      | took n ↦ write_some_loop calls (has_write + n) (rest_size - n)
      | interrupted ↦ write_some_loop calls has_write rest_size
      | would_block ↦ result (some has_write) branch
      | broken ↦ result (some has_write) error
    ]
    else result (some has_write) ok

unfoldable pub socket_write : List Syscall → List ℕ → Option WriteResult
socket_write calls buffer = write_some_loop calls 0 (length buffer)

-- `m_socket_handle`, as far as it is tested, and `m_write_buffer`.
pub record Sender : Type 0 where
  pub is_open : Bool
  pub write_buffer : List ℕ

abbrev pub connected : Sender
connected = record { is_open = true; write_buffer = [] }

-- What becomes of the buffer behind the call of the socket.
unfoldable pub after_write : WriteResult → Sender → WriteResult × Sender
after_write ret s = elim ret.level [
  | error ↦ (record { value = none; level = error }, s)
  | level ↦ elim ret.value [
    | none ↦ (record { value = none; level = level }, s)
    | some total_write ↦ if total_write == 0 then (record { value = none; level = level }, s) else (
      record { value = some total_write; level = ok },
      record s { write_buffer = drop total_write s.write_buffer },
    )
  ]
]

-- `ConnectContext::write(frames)`
unfoldable pub write : List (List ℕ) → List Syscall → Sender → Option (WriteResult × Sender)
write frames calls s =
    if not s.is_open
    then some (record { value = none; level = error }, s)
    else (let s1 : Sender = record s { write_buffer = s.write_buffer ++ concat frames } in
        elim (socket_write calls s1.write_buffer) [
          | none ↦ none
          | some ret ↦ some (after_write ret s1)
        ])

abbrev pub has_pending_write : Sender → Bool
has_pending_write s = not (length s.write_buffer == 0)
