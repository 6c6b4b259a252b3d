-- ===== src/Frame/Stream.antt =====
-- What a byte stream means: the frames that it consists of.
use project_trans.Base.{ℕ, ◌+◌, ◌≤◌, ◌<◌, ◌≡◌, ap, ◌∙◌, arith, ltb}
use project_trans.Base.{if◌then◌else◌, Option, none, some}
use project_trans.Base.{List, [], ◌∷◌, ◌++◌, length, take, drop, length-append}
use project_trans.Base.{take-append_le, drop-append_le, length-drop}
use project_trans.Binary.{Host}
use project_trans.Codec.Header.{from_serialized_byte_array}

-- The length of the body that the first sixteen bytes announce.
unfoldable pub body_length : Host → List ℕ → ℕ
body_length host bytes = elim (from_serialized_byte_array host (take 16 bytes)) [
  | none ↦ 0
  | some header ↦ header.message_length
]

-- The first frame of a stream, with what follows it: sixteen bytes and the body that they announce.
unfoldable pub first_frame : Host → List ℕ → Option (List ℕ × List ℕ)
first_frame host bytes =
    if ltb (length bytes) 16
    then none
    else (let size = 16 + body_length host bytes in
        if ltb (length bytes) size then none else some (take size bytes, drop size bytes))

-- The first frame, if there is one, and what is left.
unfoldable pub pop_first : Host → List ℕ → Option (List ℕ) × List ℕ
pop_first host bytes = elim (first_frame host bytes) [
  | none ↦ (none, bytes)
  | some (frame, tail) ↦ (some frame, tail)
]

-- The stream consists of the frames and of a rest that holds no frame.
pub data Splits (host : Host) : List ℕ → List (List ℕ) → List ℕ → Type 0 where
  done : {bytes : List ℕ} → first_frame host bytes ≡ none → Splits host bytes [] bytes
  next :
      {bytes frame tail rest : List ℕ} {frames : List (List ℕ)}
      → first_frame host bytes ≡ some (frame, tail)
      → Splits host tail frames rest
      → Splits host bytes (frame ∷ frames) rest

first_frame_inv :
    (host : Host) (bytes : List ℕ) {frame tail : List ℕ}
    → first_frame host bytes ≡ some (frame, tail)
    → (16 + body_length host bytes ≤ length bytes)
      × (take (16 + body_length host bytes) bytes ≡ frame)
      × (drop (16 + body_length host bytes) bytes ≡ tail)
unfolding first_frame
first_frame_inv host bytes e = ground arith

-- A stream that holds all the bytes that its header announces begins with a frame.
pub first_frame_long :
    (host : Host) (bytes : List ℕ)
    → 16 + body_length host bytes ≤ length bytes
    → first_frame host bytes
      ≡ some (take (16 + body_length host bytes) bytes, drop (16 + body_length host bytes) bytes)
unfolding first_frame
first_frame_long host bytes h = ground arith

pub first_frame_short :
    (host : Host) (bytes : List ℕ)
    → length bytes < 16 + body_length host bytes
    → first_frame host bytes ≡ none
unfolding first_frame
first_frame_short host bytes h = ground arith

-- More bytes behind a frame do not change it.
pub body_length-append :
    (host : Host) (bytes more : List ℕ)
    → 16 ≤ length bytes
    → body_length host (bytes ++ more) ≡ body_length host bytes
unfolding body_length
body_length-append host bytes more h = rw (take-append_le bytes more 16 h, body_length)

pub first_frame-append :
    (host : Host) (bytes more : List ℕ) {frame tail : List ℕ}
    → first_frame host bytes ≡ some (frame, tail)
    → first_frame host (bytes ++ more) ≡ some (frame, tail ++ more)
first_frame-append host bytes more e =
    let (long, front, behind) = first_frame_inv host bytes e in
    let size = 16 + body_length host bytes in
    first_frame_long host (bytes ++ more) (
      rw (body_length-append host bytes more (omega arith))
        (omega (arith, length-append bytes more)))
    ∙ rw (
      body_length-append host bytes more (omega arith),
      take-append_le bytes more size long,
      drop-append_le bytes more size long,
      front,
      behind,
    )

-- A frame has sixteen bytes at least.
pub first_frame_shrinks :
    (host : Host) (bytes : List ℕ) {frame tail : List ℕ}
    → first_frame host bytes ≡ some (frame, tail)
    → length tail + 16 ≤ length bytes
first_frame_shrinks host bytes e =
    let (long, front, behind) = first_frame_inv host bytes e in
    omega (arith, ap length behind, length-drop (16 + body_length host bytes) bytes)

-- Streams are split piece by piece: what is left of the first piece comes before the second.
pub Splits-append :
    {host : Host} {bytes rest rest' : List ℕ} {frames frames' : List (List ℕ)} (more : List ℕ)
    → Splits host bytes frames rest
    → Splits host (rest ++ more) frames' rest'
    → Splits host (bytes ++ more) (frames ++ frames') rest'
Splits-append more (done e) t = t
Splits-append {host} more (next {bytes = bytes} e s) t =
    next (first_frame-append host bytes more e) (Splits-append more s t)
