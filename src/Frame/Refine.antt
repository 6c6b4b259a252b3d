-- ===== src/Frame/Refine.antt =====
-- The assembler pops the first frame of what it holds.
use project_trans.Base.{
  ℕ, ◌^◌, ◌+◌, ◌-◌, ◌≤◌, ◌<◌, ◌≡◌, refl, sym, ap, ap₂, ◌∙◌, arith, ltb, ltb→lt, ltb→le,
}
use project_trans.Base.{
  le→ltb, lt→ltb, if◌then◌else◌, Bool-cases, inl, inr, Option, none, some, true,
}
use project_trans.Base.{false, List, ◌++◌, append_assoc, length, take, drop, resize}
use project_trans.Base.{length-append, take-append, drop-append, length-take, take_all}
use project_trans.Base.{
  Option-cases, ◌≢◌, leb, leb→lt, take-resize, resize-eq-take, length-resize, take-append-drop,
}
use project_trans.Binary.{Host}
use project_trans.Binary.Buffer.{ensure_enough_capacity, take-write_at, length-write_at}
use project_trans.Codec.Parse.{add32}
use project_trans.Codec.Header.{SerializeHeader, from_serialized_byte_array}
use project_trans.Frame.{
  FrameAssembler, new, pop_data, copy_to_frame, clear_current_frame, take_header,
}
use project_trans.Frame.{take_body, pop_frame}
use project_trans.Frame.Stream.{
  body_length, first_frame, first_frame_long, first_frame_short, pop_first,
}

-- The bytes that were pushed and are not yet popped: a header that was taken stands in the frame.
unfoldable pub pending : FrameAssembler → List ℕ
pending s = if s.is_got_header then take 16 s.current_frame ++ s.buffer else s.buffer

-- Without a header nothing of the frame is written; with one, its sixteen bytes are.
pub record IsValid (host : Host) (s : FrameAssembler) : Type 0 where
  pub idle : s.is_got_header ≡ false → s.current_frame_index ≡ 0
  pub index : s.is_got_header ≡ true → s.current_frame_index ≡ 16
  pub room : s.is_got_header ≡ true → 16 ≤ length s.current_frame
  pub header :
      s.is_got_header ≡ true
      → from_serialized_byte_array host (take 16 s.current_frame) ≡ some s.current_header

pub new-IsValid : (host : Host) → IsValid host new
new-IsValid host = record {
  idle = λ _. refl;
  index = λ e. cc (e);
  room = λ e. cc (e);
  header = λ e. cc (e);
}

length-ensure :
    (bytes : List ℕ) (n : ℕ)
    → (n ≤ length (ensure_enough_capacity bytes n))
      × (length bytes ≤ length (ensure_enough_capacity bytes n))
unfolding ensure_enough_capacity
length-ensure bytes n = ground (arith, length-resize n 0 bytes)

take-ensure :
    (bytes : List ℕ) (i n : ℕ)
    → i ≤ length bytes
    → take i (ensure_enough_capacity bytes n) ≡ take i bytes
unfolding ensure_enough_capacity
take-ensure bytes i n h = elim (Bool-cases (leb n (length bytes))) [
  | inl e ↦ rw e
  | inr e ↦ rw e (
      take-resize i n 0 bytes (omega (arith, leb→lt n (length bytes) e))
      ∙ resize-eq-take i 0 bytes h)
]

-- Sixteen bytes always parse.
from_serialized_not_none :
    (host : Host) (bytes : List ℕ)
    → length bytes ≡ 16
    → from_serialized_byte_array host bytes ≢ none
unfolding from_serialized_byte_array
from_serialized_not_none host bytes e = rw (le→ltb (length bytes) 16 (omega arith)) (λ q. cc q)

from_serialized_total :
    (host : Host) (bytes : List ℕ)
    → length bytes ≡ 16
    → (h : SerializeHeader) × (from_serialized_byte_array host bytes ≡ some h)
from_serialized_total host bytes e = elim (Option-cases (from_serialized_byte_array host bytes)) [
  | inl n ↦ absurd (from_serialized_not_none host bytes e n)
  | inr found ↦ found
]

-- Copying behind what the frame holds.
copy_to_frame_lem :
    (end : ℕ) (bytes : List ℕ) (s : FrameAssembler)
    → s.current_frame_index ≤ end
    → length bytes ≡ end - s.current_frame_index
    → s.current_frame_index ≤ length s.current_frame
    → (take end (copy_to_frame end bytes s).current_frame
        ≡ take s.current_frame_index s.current_frame ++ bytes)
      × (end ≤ length (copy_to_frame end bytes s).current_frame)
      × ((copy_to_frame end bytes s).current_frame_index ≡ end)
unfolding copy_to_frame
copy_to_frame_lem end bytes s h l r =
    let i = s.current_frame_index in
    let frame = ensure_enough_capacity s.current_frame end in
    rw (take_all bytes (end - i) (omega arith)) (
      take-write_at frame i end bytes (omega (arith, length-ensure s.current_frame end))
            (omega arith)
          ∙ ap (λ p. p ++ bytes) (take-ensure s.current_frame i end r),
      omega (arith, length-write_at frame i bytes, length-ensure s.current_frame end),
      ground arith,
    )

copy_to_frame-buffer :
    (end : ℕ) (bytes : List ℕ) (s : FrameAssembler) → (copy_to_frame end bytes s).buffer ≡ s.buffer
unfolding copy_to_frame
copy_to_frame-buffer end bytes s = refl

-- What `take_header` does without a header when the buffer holds one.
taken : SerializeHeader → FrameAssembler → FrameAssembler
taken header s =
    record (copy_to_frame 16 (drop s.current_frame_index (take 16 s.buffer))
      (record s { buffer = drop 16 s.buffer })) { current_header = header; is_got_header = true }

take_header_takes :
    (host : Host) (s : FrameAssembler) (header : SerializeHeader)
    → s.is_got_header ≡ false
    → 16 ≤ length s.buffer
    → from_serialized_byte_array host (take 16 s.buffer) ≡ some header
    → take_header host s ≡ (true, taken header s)
unfolding take_header pop_data taken copy_to_frame
take_header_takes host s header e h p = rw (e, le→ltb (length s.buffer) 16 h, p)

taken-IsValid :
    (host : Host) (s : FrameAssembler) (header : SerializeHeader)
    → s.current_frame_index ≡ 0
    → 16 ≤ length s.buffer
    → from_serialized_byte_array host (take 16 s.buffer) ≡ some header
    → IsValid host (taken header s) × (pending (taken header s) ≡ s.buffer)
unfolding taken pending
taken-IsValid host s header z h p =
    let s' : FrameAssembler = record s { buffer = drop 16 s.buffer } in
    let all : drop s.current_frame_index (take 16 s.buffer) ≡ take 16 s.buffer =
      ap (λ k. drop k (take 16 s.buffer)) z in
    let (front, room, index) =
      copy_to_frame_lem 16 (drop s.current_frame_index (take 16 s.buffer)) s' (omega arith)
        (omega (arith, ap length all, length-take 16 s.buffer h)) (omega arith) in
    let frame : take 16
          (copy_to_frame 16 (drop s.current_frame_index (take 16 s.buffer)) s').current_frame
        ≡ take 16 s.buffer =
      front ∙ rw (all, z) in
    (
      record { idle = λ e. cc (e); index = λ _. index; room = λ _. room; header = λ _. rw frame p },
      ap₂ ◌++◌ frame (copy_to_frame-buffer 16 (drop s.current_frame_index (take 16 s.buffer)) s')
          ∙ take-append-drop 16 s.buffer,
    )

pending_idle : (s : FrameAssembler) → s.is_got_header ≡ false → pending s ≡ s.buffer
unfolding pending
pending_idle s e = rw e

pending_ready :
    (s : FrameAssembler) → s.is_got_header ≡ true → pending s ≡ take 16 s.current_frame ++ s.buffer
unfolding pending
pending_ready s e = rw e

module _ (host : Host) (s : FrameAssembler) (v : IsValid host s) where
  length-pending_ready : s.is_got_header ≡ true → length (pending s) ≡ 16 + length s.buffer
  length-pending_ready e =
      ap length (pending_ready s e)
      ∙ length-append (take 16 s.current_frame) s.buffer
      ∙ ap (λ (n : ℕ). n + length s.buffer) (length-take 16 s.current_frame (v.room e))

  -- With fewer than sixteen bytes nothing happens.
  take_header_waits : length (pending s) < 16 → take_header host s ≡ (false, s)
  unfolding take_header
  take_header_waits h = elim (Bool-cases s.is_got_header) [
    | inl e ↦ absurd (omega (arith, length-pending_ready e))
    | inr e ↦ rw (e, lt→ltb (length s.buffer) 16 (omega (arith, ap length (pending_idle s e))))
  ]

  -- With sixteen the header is there, and nothing is lost.
  take_header_ready :
      16 ≤ length (pending s)
      → (s' : FrameAssembler) × (take_header host s ≡ (true, s'))
        × IsValid host s'
        × (pending s' ≡ pending s)
        × (s'.is_got_header ≡ true)
  take_header_ready h = elim (Bool-cases s.is_got_header) [
    | inl e ↦ (s, unfold take_header in rw e, v, refl, e)
    | inr e ↦
        let same = pending_idle s e in
        let long : 16 ≤ length s.buffer = omega (arith, ap length same) in
        let (header, p) =
          from_serialized_total host (take 16 s.buffer) (length-take 16 s.buffer long) in
        let (ok_state, kept) = taken-IsValid host s header (v.idle e) long p in
        (
          taken header s,
          take_header_takes host s header e long p,
          ok_state,
          kept ∙ sym same,
          unfold taken in refl,
        )
  ]

  module _ (ready : s.is_got_header ≡ true) where
    body_length-pending : body_length host (pending s) ≡ s.current_header.message_length
    unfolding body_length
    body_length-pending = rw (
      pending_ready s ready,
      take-append (take 16 s.current_frame) s.buffer 16
          (sym (length-take 16 s.current_frame (v.room ready))),
      v.header ready,
      body_length,
    )

    take_body_waits : length s.buffer < s.current_header.message_length → take_body s ≡ (none, s)
    unfolding take_body
    take_body_waits h = rw (lt→ltb (length s.buffer) s.current_header.message_length h)

    module _ (h : s.current_header.message_length ≤ length s.buffer)
        (small : length (pending s) < 2 ^ 32) where
      abbrev body : List ℕ
      body = take s.current_header.message_length s.buffer

      abbrev behind : List ℕ
      behind = drop s.current_header.message_length s.buffer

      length-front : length (take 16 s.current_frame ++ body) ≡ 16 + s.current_header.message_length
      length-front =
          length-append (take 16 s.current_frame) body
          ∙ ap₂ ◌+◌ (length-take 16 s.current_frame (v.room ready))
              (length-take s.current_header.message_length s.buffer h)

      pending_parts : pending s ≡ (take 16 s.current_frame ++ body) ++ behind
      pending_parts =
          pending_ready s ready
          ∙ ap (λ l. take 16 s.current_frame ++ l)
              (sym (take-append-drop s.current_header.message_length s.buffer))
          ∙ sym (append_assoc (take 16 s.current_frame) body behind)

      frame_size : add32 16 s.current_header.message_length ≡ 16 + s.current_header.message_length
      frame_size = omega (arith, length-pending_ready ready)

      -- The frame that is copied together.
      copied :
          resize
            (16 + s.current_header.message_length)
            0
            (copy_to_frame
              (16 + s.current_header.message_length)
              body
              (record s { buffer = behind })).current_frame
          ≡ take 16 s.current_frame ++ body
      copied =
          let size = 16 + s.current_header.message_length in
          let (front, room, index) =
            copy_to_frame_lem size body (record s { buffer = behind })
              (omega (arith, v.index ready))
              (omega (arith, v.index ready, length-take s.current_header.message_length s.buffer h))
              (omega (arith, v.index ready, v.room ready)) in
          resize-eq-take size 0 _ room
          ∙ front
          ∙ ap (λ k. take k s.current_frame ++ body) (v.index ready)

      -- The frame is the header and the body, and the buffer goes on behind them.
      take_body_takes :
          let size = 16 + s.current_header.message_length in
          ((take_body s).0 ≡ some (take size (pending s)))
          × IsValid host (take_body s).1
          × (pending (take_body s).1 ≡ drop size (pending s))
      unfolding take_body pop_data clear_current_frame pending
      take_body_takes =
          let size = 16 + s.current_header.message_length in
          rw (le→ltb (length s.buffer) s.current_header.message_length h, frame_size)
            (
              ap some (
                  copied
                  ∙ sym (
                      ap (take size) pending_parts
                      ∙ take-append (take 16 s.current_frame ++ body) behind size
                          (sym length-front))),
              record {
                idle = λ _. refl;
                index = λ e. cc (e);
                room = λ e. cc (e);
                header = λ e. cc (e);
              },
              copy_to_frame-buffer size body (record s { buffer = behind })
                  ∙ sym (
                      ap (drop size) pending_parts
                      ∙ drop-append (take 16 s.current_frame ++ body) behind size
                          (sym length-front)),
            )

-- What a result of popping means for the pending bytes.
abbrev Pops : Host → List ℕ → Option (List ℕ) × FrameAssembler → Type 0
Pops host bytes (frame, s') = ((frame, pending s') ≡ pop_first host bytes) × IsValid host s'

pub pop_first-none :
    (host : Host) (bytes : List ℕ)
    → first_frame host bytes ≡ none
    → pop_first host bytes ≡ (none, bytes)
unfolding pop_first
pop_first-none host bytes e = rw (e, pop_first)

pub pop_first-some :
    (host : Host) (bytes : List ℕ) (frame tail : List ℕ)
    → first_frame host bytes ≡ some (frame, tail)
    → pop_first host bytes ≡ (some frame, tail)
unfolding pop_first
pop_first-some host bytes frame tail e = rw (e, pop_first)

take_body-Pops :
    (host : Host) (s : FrameAssembler)
    → IsValid host s
    → s.is_got_header ≡ true
    → length (pending s) < 2 ^ 32
    → Pops host (pending s) (take_body s)
take_body-Pops host s v ready small =
    let n = s.current_header.message_length in
    let same = body_length-pending host s v ready in
    let size = length-pending_ready host s v ready in
    elim (Bool-cases (ltb (length s.buffer) n)) [
      | inl e ↦ rw (take_body_waits host s v ready (ltb→lt (length s.buffer) n e)) (
        sym (
            pop_first-none host (pending s)
              (first_frame_short host (pending s) (omega (arith, ltb→lt (length s.buffer) n e)))),
        v,
      )
      | inr e ↦
          let (frame, valid, rest) =
            take_body_takes host s v ready (ltb→le (length s.buffer) n e) small in
          (
            ap₂ (λ a b. (a, b)) frame rest
                ∙ sym (
                    pop_first-some host (pending s) (take (16 + n) (pending s))
                      (drop (16 + n) (pending s))
                      (rw same at (
                        first_frame_long host (pending s)
                          (omega (arith, ltb→le (length s.buffer) n e))))),
            valid,
          )
    ]

pub pop_frame_refines :
    (host : Host) (s : FrameAssembler)
    → IsValid host s
    → length (pending s) < 2 ^ 32
    → let (frame, s') = pop_frame host s in
      ((frame, pending s') ≡ pop_first host (pending s)) × IsValid host s'
unfolding pop_frame
pop_frame_refines host s v small = elim (Bool-cases (ltb (length (pending s)) 16)) [
  | inl e ↦ rw (take_header_waits host s v (ltb→lt (length (pending s)) 16 e)) (
    sym (
        pop_first-none host (pending s)
          (first_frame_short host (pending s) (omega (arith, ltb→lt (length (pending s)) 16 e)))),
    v,
  )
  | inr e ↦
      let (s', step, valid, same, ready) =
        take_header_ready host s v (ltb→le (length (pending s)) 16 e) in
      rw (step, ← same) (take_body-Pops host s' valid ready (rw same small))
]
