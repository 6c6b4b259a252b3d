-- ===== src/Frame.antt =====
-- `FrameAssembler` of common/source/danejoe/network/codec/frame_assembler.cpp, and the loop of
-- `ConnectContext::read` (common/source/danejoe/network/context/connect_context.cpp) that empties it.
pub mod Stream
pub mod Refine
pub mod Deliver
mod Tests
use project_trans.Base.{ℕ, zero, suc, ◌+◌, ◌-◌, ltb, if◌then◌else◌, Bool, true, false, Option, none}
use project_trans.Base.{some, List, [], ◌∷◌, ◌++◌, length, take, drop, resize}
use project_trans.Binary.{Host}
use project_trans.Binary.Buffer.{write_at, ensure_enough_capacity}
use project_trans.Codec.Parse.{add32}
use project_trans.Codec.Header.{SerializeHeader, from_serialized_byte_array}
use project_trans.Codec.Message.{header_size, blank_header}

-- `buffer` is a deque; `current_header` is read only after it was written.
pub record FrameAssembler : Type 0 where
  pub buffer : List ℕ
  pub current_frame : List ℕ
  pub current_frame_index : ℕ
  pub current_header : SerializeHeader
  pub is_got_header : Bool

abbrev pub new : FrameAssembler
new = record {
  buffer = [];
  current_frame = [];
  current_frame_index = 0;
  current_header = blank_header;
  is_got_header = false;
}

unfoldable pub push_data : List ℕ → FrameAssembler → FrameAssembler
push_data bytes s = record s { buffer = s.buffer ++ bytes }

-- At most `size` bytes from the front of the buffer.
unfoldable pub pop_data : ℕ → FrameAssembler → List ℕ × FrameAssembler
pop_data size s = (take size s.buffer, record s { buffer = drop size s.buffer })

unfoldable pub clear_current_frame : FrameAssembler → FrameAssembler
clear_current_frame s = record s { current_frame_index = 0; is_got_header = false }

-- `for (; index < end; ++index, i++) frame[index] = bytes[i];`
unfoldable pub copy_to_frame : ℕ → List ℕ → FrameAssembler → FrameAssembler
copy_to_frame end bytes s =
    let i = s.current_frame_index in
    record s {
      current_frame =
          write_at (ensure_enough_capacity s.current_frame end) i (take (end - i) bytes);
      current_frame_index = if ltb i end then end else i;
    }

-- The first part of `pop_frame`: `true` if the header is there.
unfoldable pub take_header : Host → FrameAssembler → Bool × FrameAssembler
take_header host s =
    if s.is_got_header
    then (true, s)
    else (if ltb (length s.buffer) header_size
        then (false, s)
        else (let (header_data, s1) = pop_data header_size s in
            let s2 = copy_to_frame header_size (drop s.current_frame_index header_data) s1 in
            elim (from_serialized_byte_array host header_data) [
              | none ↦ (false, clear_current_frame s2)
              | some header ↦ (true, record s2 { current_header = header; is_got_header = true })
            ]))

-- The second part. `frame_size` is a `uint32_t`.
unfoldable pub take_body : FrameAssembler → Option (List ℕ) × FrameAssembler
take_body s =
    if ltb (length s.buffer) s.current_header.message_length
    then (none, s)
    else (let (body_data, s1) = pop_data s.current_header.message_length s in
        let frame_size = add32 header_size s.current_header.message_length in
        let s2 = copy_to_frame frame_size body_data s1 in
        let frame = resize frame_size 0 s2.current_frame in
        (some frame, clear_current_frame (record s2 { current_frame = frame })))

unfoldable pub pop_frame : Host → FrameAssembler → Option (List ℕ) × FrameAssembler
pop_frame host s =
    let (is_ready, s') = take_header host s in if is_ready then take_body s' else (none, s')

-- A frame in front of what a later round gives.
abbrev pub prepend :
    List (List ℕ)
    → Option (List (List ℕ) × FrameAssembler)
    → Option (List (List ℕ) × FrameAssembler)
prepend frames none = none
prepend frames (some (frames', s)) = some (frames ++ frames', s)

-- The loop that pops frames until there is none: `none` if the fuel ran out.
unfoldable pub pop_frames : Host → ℕ → FrameAssembler → Option (List (List ℕ) × FrameAssembler)
pop_frames host zero s = none
pop_frames host (suc fuel) s =
    let (frame, s') = pop_frame host s in
    let rest = pop_frames host fuel s' in
    elim frame [ none ↦ some ([], s') | some f ↦ prepend (f ∷ []) rest ]

-- `ConnectContext::read`: what the socket had is pushed in the blocks in which it was read, and then
-- the complete frames are popped. Every frame takes a byte at least, so the fuel suffices. A read of
-- the socket that fails returns before the frames are popped; the blocks before it stay pushed, and
-- the next call goes on from them.
unfoldable pub push_all : List (List ℕ) → FrameAssembler → FrameAssembler
push_all [] s = s
push_all (block ∷ blocks) s = push_all blocks (push_data block s)

unfoldable pub read :
    Host → List (List ℕ) → FrameAssembler → Option (List (List ℕ) × FrameAssembler)
read host blocks s =
    let s' = push_all blocks s in
    pop_frames host (length s'.buffer + length s'.current_frame + 2) s'

-- A connection that is read several times, each time with the blocks that came meanwhile.
unfoldable pub read_rounds :
    Host → List (List (List ℕ)) → FrameAssembler → Option (List (List ℕ) × FrameAssembler)
read_rounds host [] s = some ([], s)
read_rounds host (blocks ∷ rounds) s = elim (read host blocks s) [
  | none ↦ none
  | some (frames, s') ↦ prepend frames (read_rounds host rounds s')
]
