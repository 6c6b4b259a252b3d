-- ===== src/Frame/Deliver.antt =====
-- What was sent is delivered, however the stream was cut.
use project_trans.Base.{
  subst, some-injective, ℕ, zero, suc, ◌+◌, ◌^◌, ◌≤◌, ◌<◌, ◌≡◌, refl, sym, ap, ap₂, ◌∙◌, arith,
  Option, none, some,
}
use project_trans.Base.{List, [], ◌∷◌, ◌++◌, append_assoc, append-nil, length, length-append}
use project_trans.Base.{Option-cases, All, Bool-cases, inl, inr, take, take_all, drop_all}
use project_trans.Binary.{Host}
use project_trans.Frame.{
  FrameAssembler, new, push_data, pop_frame, pop_frames, push_all, read, read_rounds,
}
use project_trans.Frame.{prepend}
use project_trans.Frame.Stream.{first_frame, Splits, done, next, Splits-append, body_length}
use project_trans.Frame.Stream.{
  first_frame-append, first_frame_shrinks, first_frame_long, first_frame_short,
}
use project_trans.Frame.Refine.{
  pop_first-none, pop_first-some, pending, IsValid, new-IsValid, pop_frame_refines,
}

-- Pushing puts the bytes behind the pending ones.
push_data-pending :
    (host : Host) (bytes : List ℕ) (s : FrameAssembler)
    → IsValid host s
    → (pending (push_data bytes s) ≡ pending s ++ bytes) × IsValid host (push_data bytes s)
unfolding push_data pending
push_data-pending host bytes s v = (
  elim (Bool-cases s.is_got_header) [
    | inl e ↦ rw e (sym (append_assoc (take 16 s.current_frame) s.buffer bytes))
    | inr e ↦ rw e
  ],
  record { idle = v.idle; index = v.index; room = v.room; header = v.header },
)

abbrev pub concat : List (List ℕ) → List ℕ
concat [] = []
concat (bytes ∷ rest) = bytes ++ concat rest

push_all-pending :
    (host : Host) (blocks : List (List ℕ)) (s : FrameAssembler)
    → IsValid host s
    → (pending (push_all blocks s) ≡ pending s ++ concat blocks) × IsValid host (push_all blocks s)
unfolding push_all
push_all-pending host [] s v = (sym (append-nil (pending s)), v)
push_all-pending host (b ∷ bs) s v =
    let (e, w) = push_data-pending host b s v in
    let (e', w') = push_all-pending host bs (push_data b s) w in
    (e' ∙ ap (λ l. l ++ concat bs) e ∙ append_assoc (pending s) b (concat bs), w')

-- The outcome of a loop that popped: it ended, and its frames are those of the stream.
pub record Popped (host : Host) (bytes : List ℕ) (r : Option (List (List ℕ) × FrameAssembler))
    : Type 0 where
  pub frames : List (List ℕ)
  pub state : FrameAssembler
  pub ended : r ≡ some (frames, state)
  pub split : Splits host bytes frames (pending state)
  pub valid : IsValid host state

-- One round of the loop.
pop_frames_stop :
    (host : Host) (fuel : ℕ) (s : FrameAssembler)
    → (pop_frame host s).0 ≡ none
    → pop_frames host (suc fuel) s ≡ some ([], (pop_frame host s).1)
unfolding pop_frames
pop_frames_stop host fuel s e = rw (e, pop_frames) refl

pop_frames_go :
    (host : Host) (fuel : ℕ) (s : FrameAssembler) (frame : List ℕ)
    → (pop_frame host s).0 ≡ some frame
    → pop_frames host (suc fuel) s
      ≡ prepend (frame ∷ []) (pop_frames host fuel (pop_frame host s).1)
unfolding pop_frames
pop_frames_go host fuel s frame e = rw (e, pop_frames) refl

pub pop_frames-Popped :
    (host : Host) (fuel : ℕ) (s : FrameAssembler)
    → IsValid host s
    → length (pending s) < 2 ^ 32
    → length (pending s) < fuel
    → Popped host (pending s) (pop_frames host fuel s)
pop_frames-Popped host zero s v small h = absurd (omega arith)
pop_frames-Popped host (suc fuel) s v small h =
    let (step, valid) = pop_frame_refines host s v small in
    elim (Option-cases (first_frame host (pending s))) [
      | inl e ↦
          let both = step ∙ pop_first-none host (pending s) e in
          record {
            frames = [];
            state = (pop_frame host s).1;
            ended = pop_frames_stop host fuel s (ap (λ p. p.0) both);
            split = rw (ap (λ p. p.1) both) (done e);
            valid = valid;
          }
      | inr ((frame, tail), e) ↦
          let both = step ∙ pop_first-some host (pending s) frame tail e in
          let left : pending (pop_frame host s).1 ≡ tail = ap (λ p. p.1) both in
          let fewer = first_frame_shrinks host (pending s) e in
          let rest =
            pop_frames-Popped host fuel (pop_frame host s).1 valid (omega (arith, ap length left))
              (omega (arith, ap length left)) in
          record {
            frames = frame ∷ rest.frames;
            state = rest.state;
            ended =
                pop_frames_go host fuel s frame (ap (λ p. p.0) both)
                ∙ ap (prepend (frame ∷ [])) rest.ended;
            split = next e (rw left at rest.split);
            valid = rest.valid;
          }
    ]

length-take_le : (n : ℕ) (bytes : List ℕ) → length (take n bytes) ≤ length bytes
length-take_le zero bytes = omega arith
length-take_le (suc n) [] = omega arith
length-take_le (suc n) (b ∷ bs) = omega (arith, length-take_le n bs)

pending_bound : (s : FrameAssembler) → length (pending s) ≤ length s.buffer + length s.current_frame
unfolding pending
pending_bound s = elim (Bool-cases s.is_got_header) [
  | inl e ↦ rw e (
      omega (
        arith,
        length-append (take 16 s.current_frame) s.buffer,
        length-take_le 16 s.current_frame,
      ))
  | inr e ↦ rw e (omega arith)
]

-- One call of `read`, with the fuel that it takes.
pub read-Popped :
    (host : Host) (blocks : List (List ℕ)) (s : FrameAssembler)
    → IsValid host s
    → length (pending s) + length (concat blocks) < 2 ^ 32
    → Popped host (pending s ++ concat blocks) (read host blocks s)
unfolding read
read-Popped host blocks s v small =
    let (same, valid) = push_all-pending host blocks s v in
    let s' = push_all blocks s in
    rw same at (
      pop_frames-Popped host (length s'.buffer + length s'.current_frame + 2) s' valid
        (omega (arith, ap length same, length-append (pending s) (concat blocks)))
        (omega (arith, pending_bound s')))

Splits-rest :
    {host : Host} {bytes rest : List ℕ} {frames : List (List ℕ)}
    → Splits host bytes frames rest
    → (first_frame host rest ≡ none) × (length rest ≤ length bytes)
Splits-rest (done e) = (e, omega arith)
Splits-rest {host} (next {bytes = bytes} e s) =
    let (ended, fewer) = Splits-rest s in
    (ended, omega (arith, first_frame_shrinks host bytes e, fewer))

-- A stream has one way to be split.
pub Splits-unique :
    {host : Host} {bytes rest rest' : List ℕ} {frames frames' : List (List ℕ)}
    → Splits host bytes frames rest
    → Splits host bytes frames' rest'
    → (frames ≡ frames') × (rest ≡ rest')
Splits-unique (done e) (done e') = (refl, refl)
Splits-unique (done e) (next e' s') = cc (e, e')
Splits-unique (next e s) (done e') = cc (e, e')
Splits-unique {host} {rest' = r'} {frames' = fs'} (next {frame = f} {rest = r} {frames = fs} e s)
      (next {tail = t'} {frames = fs1'} e' s') =
    let both = some-injective _ _ (sym e ∙ e') in
    let (same, left) =
      Splits-unique s (subst (λ t. Splits host t fs1' r') (sym (ap (λ p. p.1) both)) s') in
    (ap₂ ◌∷◌ (ap (λ p. p.0) both) same, left)

-- All that comes in the rounds.
abbrev pub all_bytes : List (List (List ℕ)) → List ℕ
all_bytes [] = []
all_bytes (blocks ∷ rounds) = concat blocks ++ all_bytes rounds

-- A connection that is read in several rounds delivers what the whole stream splits into.
pub read_rounds-Popped :
    (host : Host) (rounds : List (List (List ℕ))) (s : FrameAssembler)
    → IsValid host s
    → first_frame host (pending s) ≡ none
    → length (pending s) + length (all_bytes rounds) < 2 ^ 32
    → Popped host (pending s ++ all_bytes rounds) (read_rounds host rounds s)
unfolding read_rounds
read_rounds-Popped host [] s v e small = record {
  frames = [];
  state = s;
  ended = refl;
  split = rw (append-nil (pending s)) (done e);
  valid = v;
}
read_rounds-Popped host (blocks ∷ rounds) s v e small =
    let one =
      read-Popped host blocks s v
        (omega (arith, length-append (concat blocks) (all_bytes rounds))) in
    let (ended, fewer) = Splits-rest one.split in
    let more = read_rounds-Popped host rounds one.state one.valid ended (
      omega (
        arith,
        fewer,
        length-append (pending s) (concat blocks),
        length-append (concat blocks) (all_bytes rounds),
      )) in
    record {
      frames = one.frames ++ more.frames;
      state = more.state;
      ended = rw (one.ended, read_rounds) (ap (prepend one.frames) more.ended);
      split =
          rw (← append_assoc (pending s) (concat blocks) (all_bytes rounds))
            (Splits-append (all_bytes rounds) one.split more.split);
      valid = more.valid;
    }

-- A frame as a sender makes it: the header announces the rest.
abbrev pub IsFrame : Host → List ℕ → Type 0
IsFrame host bytes = 16 + body_length host bytes ≡ length bytes

first_frame-concat :
    (host : Host) (frame more : List ℕ)
    → IsFrame host frame
    → first_frame host (frame ++ more) ≡ some (frame, more)
first_frame-concat host frame more e = first_frame-append host frame more {tail = []} (
    first_frame_long host frame (omega arith)
    ∙ rw e (
        ap₂ (λ a b. some (a, b)) (take_all frame (length frame) (omega arith))
          (drop_all frame (length frame) (omega arith))))

pub frames-Splits :
    (host : Host) (frames : List (List ℕ))
    → All (IsFrame host) frames
    → Splits host (concat frames) frames []
frames-Splits host [] all = done (first_frame_short host [] (omega arith))
frames-Splits host (frame ∷ frames) (e, all) =
    next (first_frame-concat host frame (concat frames) e) (frames-Splits host frames all)

-- Frames that are sent one behind the other are delivered, exactly these and in this order, however
-- the stream of their bytes is cut into rounds and blocks, and nothing is left, as long as they are
-- fewer than 2 ^ 32 bytes.
pub read_rounds_delivers :
    (host : Host) (frames : List (List ℕ)) (rounds : List (List (List ℕ)))
    → All (IsFrame host) frames
    → all_bytes rounds ≡ concat frames
    → length (concat frames) < 2 ^ 32
    → (s : FrameAssembler) × (read_rounds host rounds new ≡ some (frames, s)) × (pending s ≡ [])
unfolding pending
read_rounds_delivers host frames rounds all same small =
    let out =
      read_rounds-Popped host rounds new (new-IsValid host)
        (first_frame_short host [] (omega arith)) (rw same (omega arith)) in
    let (e, left) = Splits-unique (rw same at out.split) (frames-Splits host frames all) in
    (out.state, rw e at out.ended, left)
