-- ===== src/Frame/Tests.antt =====
-- A stream of two frames that comes in three blocks.
use project_trans.Base.{ℕ, ◌≡◌, refl, arith, List, [], ◌∷◌, ◌++◌, some}
use project_trans.Binary.{big, from_low_first, to_local_byte_order}
use project_trans.Codec.Header.{from_serialized_byte_array}
use project_trans.Frame.{FrameAssembler, new, read_rounds}
use project_trans.Frame.Stream.{body_length}
use project_trans.Frame.Refine.{pending}
use project_trans.Frame.Deliver.{IsFrame, read_rounds_delivers}

-- A header that announces one byte, and the byte.
abbrev head : List ℕ
head = 102 ∷ 102 ∷ 102 ∷ 102 ∷ 1 ∷ 0 ∷ 0 ∷ 0 ∷ 1 ∷ 0 ∷ 0 ∷ 0 ∷ 0 ∷ 0 ∷ 0 ∷ 0 ∷ []

abbrev frame : List ℕ
frame = head ++ (7 ∷ [])

frame-IsFrame : IsFrame big frame
unfolding body_length from_serialized_byte_array to_local_byte_order from_low_first
frame-IsFrame = refl

read_rounds_delivers_example :
    (s : FrameAssembler) × (read_rounds big ((head ∷ (7 ∷ []) ∷ []) ∷ (frame ∷ []) ∷ []) new
      ≡ some (frame ∷ frame ∷ [], s))
    × (pending s ≡ [])
read_rounds_delivers_example =
    read_rounds_delivers big (frame ∷ frame ∷ []) ((head ∷ (7 ∷ []) ∷ []) ∷ (frame ∷ []) ∷ [])
      (frame-IsFrame, (frame-IsFrame, tt)) refl (omega arith)
