-- ===== src/Session/Stream.antt =====
-- What the writes of a connection put on the wire.
use project_trans.Base.{
  if-path, ℕ, ◌+◌, ◌-◌, ◌≤◌, ◌≡◌, ◌≢◌, refl, sym, ap, ◌∙◌, arith, ltb, ◌==◌, if◌then◌else◌,
  Bool-cases, inl, inr, ==→eq, Option-cases, some-injective,
}
use project_trans.Base.{
  Bool, not, Option, some, List, [], ◌∷◌, ◌++◌, append_assoc, append-nil, length, take, drop,
  drop_add, take-append_split, take-append-drop,
}
use project_trans.Frame.Deliver.{concat}
use project_trans.Session.{
  Syscall, took, interrupted, would_block, broken, StatusLevel, ok, branch, error, WriteResult,
  write_some_loop, socket_write, Sender, after_write, write,
}

-- The system takes no more than it is given.
abbrev pub IsWithin : List Syscall → ℕ → Type 0
IsWithin [] rest = Unit
IsWithin (took n ∷ calls) rest = (n ≤ rest) × IsWithin calls (rest - n)
IsWithin (interrupted ∷ calls) rest = IsWithin calls rest
IsWithin (would_block ∷ calls) rest = Unit
IsWithin (broken ∷ calls) rest = Unit

-- The bytes that the calls put on the wire: what the system takes of `buffer.data() + has_write`.
abbrev pub on_wire : List Syscall → List ℕ → ℕ → ℕ → List ℕ
on_wire [] buffer has rest = []
on_wire (took n ∷ calls) buffer has rest =
    let next = on_wire calls buffer (has + n) (rest - n) in
    if ltb 0 rest then take n (drop has buffer) ++ next else []
on_wire (interrupted ∷ calls) buffer has rest =
    let next = on_wire calls buffer has rest in if ltb 0 rest then next else []
on_wire (would_block ∷ calls) buffer has rest = []
on_wire (broken ∷ calls) buffer has rest = []

-- What is known of a call that returned.
pub record Sent (calls : List Syscall) (buffer : List ℕ) (has rest : ℕ) (ret : WriteResult)
    : Type 0 where
  pub count : ℕ
  pub counted : ret.value ≡ some (has + count)
  pub within : count ≤ rest
  pub bytes : on_wire calls buffer has rest ≡ take count (drop has buffer)

Sent-none :
    (calls : List Syscall) (buffer : List ℕ) (has rest : ℕ) (level : StatusLevel)
    → on_wire calls buffer has rest ≡ []
    → Sent calls buffer has rest (record { value = some has; level = level })
Sent-none calls buffer has rest level e = record {
  count = 0;
  counted = ap some (omega arith);
  within = omega arith;
  bytes = e;
}

joined : (n c : ℕ) (xs : List ℕ) → take n xs ++ take c (drop n xs) ≡ take (n + c) xs
joined n c xs =
    ap (λ m. take n xs ++ take m (drop n xs)) (omega arith)
    ∙ take-append_split n (n + c) xs (omega arith)

write_some_loop-Sent :
    (calls : List Syscall) (buffer : List ℕ) (has rest : ℕ) (ret : WriteResult)
    → IsWithin calls rest
    → write_some_loop calls has rest ≡ some ret
    → Sent calls buffer has rest ret
unfolding write_some_loop
write_some_loop-Sent [] buffer has rest ret w e = elim (Bool-cases (ltb 0 rest)) [
  | inl b ↦ cc (rw b at e)
  | inr b ↦ rw (some-injective _ _ (rw b at e)) at (Sent-none [] buffer has rest ok refl)
]
write_some_loop-Sent (took n ∷ calls) buffer has rest ret (h, w) e =
    elim (Bool-cases (ltb 0 rest)) [
      | inl b ↦
          let more = write_some_loop-Sent calls buffer (has + n) (rest - n) ret w (rw b at e) in
          record {
            count = n + more.count;
            counted = more.counted ∙ ap some (omega arith);
            within = omega (arith, more.within, h);
            bytes =
                rw (b, more.bytes, drop_add has n buffer) (joined n more.count (drop has buffer));
          }
      | inr b ↦
          rw (some-injective _ _ (rw b at e)) at
            (Sent-none (took n ∷ calls) buffer has rest ok (rw b refl))
    ]
write_some_loop-Sent (interrupted ∷ calls) buffer has rest ret w e =
    elim (Bool-cases (ltb 0 rest)) [
      | inl b ↦
          let more = write_some_loop-Sent calls buffer has rest ret w (rw b at e) in
          record {
            count = more.count;
            counted = more.counted;
            within = more.within;
            bytes = rw b more.bytes;
          }
      | inr b ↦
          rw (some-injective _ _ (rw b at e)) at
            (Sent-none (interrupted ∷ calls) buffer has rest ok (rw b refl))
    ]
write_some_loop-Sent (would_block ∷ calls) buffer has rest ret w e =
    elim (Bool-cases (ltb 0 rest)) [
      | inl b ↦
          rw (some-injective _ _ (rw b at e)) at
            (Sent-none (would_block ∷ calls) buffer has rest branch refl)
      | inr b ↦
          rw (some-injective _ _ (rw b at e)) at
            (Sent-none (would_block ∷ calls) buffer has rest ok refl)
    ]
write_some_loop-Sent (broken ∷ calls) buffer has rest ret w e = elim (Bool-cases (ltb 0 rest)) [
  | inl b ↦
      rw (some-injective _ _ (rw b at e)) at (Sent-none (broken ∷ calls) buffer has rest error refl)
  | inr b ↦
      rw (some-injective _ _ (rw b at e)) at (Sent-none (broken ∷ calls) buffer has rest ok refl)
]

-- What went out and what is kept are the buffer.
kept :
    (out buffer : List ℕ) (c : ℕ) (value : Option ℕ) (level : StatusLevel) (is_open : Bool)
    → value ≡ some c
    → out ≡ take c buffer
    → let done =
        after_write
          (record { value = value; level = level })
          (record { is_open = is_open; write_buffer = buffer }) in
      done.0.level ≢ error → out ++ done.1.write_buffer ≡ buffer
unfolding after_write
kept out buffer c value error is_open e o n = absurd (n refl)
kept out buffer c value ok is_open e o n = elim (Bool-cases (c == 0)) [
  | inl z ↦ rw (e, z, o, ==→eq c 0 z) refl
  | inr z ↦ rw (e, z, o) (take-append-drop c buffer)
]
kept out buffer c value branch is_open e o n = elim (Bool-cases (c == 0)) [
  | inl z ↦ rw (e, z, o, ==→eq c 0 z) refl
  | inr z ↦ rw (e, z, o) (take-append-drop c buffer)
]

-- The outcome of `ConnectContext::write`, by what the socket returned.
write_outcome :
    (frames : List (List ℕ)) (calls : List Syscall) (s s1 : Sender) (res : WriteResult)
    → write frames calls s ≡ some (res, s1)
    → res.level ≢ error
    → (ret : WriteResult) × (socket_write calls (s.write_buffer ++ concat frames) ≡ some ret)
      × (after_write ret
            (record { is_open = s.is_open; write_buffer = s.write_buffer ++ concat frames })
          ≡ (res, s1))
unfolding write
write_outcome frames calls s s1 res e n = elim (if-path (not s.is_open) _ _ (some (res, s1)) e) [
  | inl o ↦ absurd (n (ap (λ p. p.0.level) (sym (some-injective _ _ o))))
  | inr o ↦ elim (Option-cases (socket_write calls (s.write_buffer ++ concat frames))) [
    | inl k ↦ cc (rw k at o)
    | inr (ret, k) ↦ (ret, k, some-injective _ _ (rw k at o))
  ]
]

write_split :
    (frames : List (List ℕ)) (calls : List Syscall) (s s1 : Sender) (res : WriteResult)
    → IsWithin calls (length (s.write_buffer ++ concat frames))
    → write frames calls s ≡ some (res, s1)
    → res.level ≢ error
    → on_wire calls (s.write_buffer ++ concat frames) 0 (length (s.write_buffer ++ concat frames))
        ++ s1.write_buffer
      ≡ s.write_buffer ++ concat frames
unfolding socket_write
write_split frames calls s s1 res w e n =
    let buffer = s.write_buffer ++ concat frames in
    let (ret, k, done) = write_outcome frames calls s s1 res e n in
    let sent = write_some_loop-Sent calls buffer 0 (length buffer) ret w k in
    let no_error : (after_write ret (record { is_open = s.is_open; write_buffer = buffer })).0.level
        ≢ error =
      rw done n in
    ap (λ (p : WriteResult × Sender). on_wire calls buffer 0 (length buffer) ++ p.1.write_buffer)
      (sym done)
    ∙ kept (on_wire calls buffer 0 (length buffer)) buffer (0 + sent.count) ret.value ret.level
        s.is_open sent.counted (sent.bytes ∙ ap (λ c. take c buffer) (omega arith)) no_error

-- Writes one after the other that are no errors, with the frames that they were given and the bytes that
-- went out. The event loop removes a connection whose write is an error.
pub data Sends : Sender → List (List ℕ) → List ℕ → Sender → Type 0 where
  idle : {s : Sender} → Sends s [] [] s
  then_write :
      {s s2 : Sender} (frames more : List (List ℕ)) (calls : List Syscall) (wire : List ℕ)
      (res : WriteResult) (s1 : Sender)
      → IsWithin calls (length (s.write_buffer ++ concat frames))
      → write frames calls s ≡ some (res, s1)
      → res.level ≢ error
      → Sends s1 more wire s2
      → Sends s
          (frames ++ more)
          (on_wire calls
              (s.write_buffer ++ concat frames)
              0
              (length (s.write_buffer ++ concat frames))
            ++ wire)
          s2

concat-append : (xs ys : List (List ℕ)) → concat (xs ++ ys) ≡ concat xs ++ concat ys
concat-append [] ys = refl
concat-append (x ∷ xs) ys =
    ap (λ l. x ++ l) (concat-append xs ys) ∙ sym (append_assoc x (concat xs) (concat ys))

-- However the system cuts the writes, as long as none of them is an error, what went out and what is
-- still kept are, in order, what was kept before and the bytes of the frames.
pub Sends-split :
    {s s2 : Sender} {frames : List (List ℕ)} {wire : List ℕ}
    → Sends s frames wire s2
    → wire ++ s2.write_buffer ≡ s.write_buffer ++ concat frames
Sends-split {s = s} idle = sym (append-nil s.write_buffer)
Sends-split {s = s} {s2 = s2} (then_write frames more calls wire res s1 w e n rest) =
    let buffer = s.write_buffer ++ concat frames in
    let out = on_wire calls buffer 0 (length buffer) in
    append_assoc out wire s2.write_buffer
    ∙ ap (λ l. out ++ l) (Sends-split rest)
    ∙ sym (append_assoc out s1.write_buffer (concat more))
    ∙ ap (λ l. l ++ concat more) (write_split frames calls s s1 res w e n)
    ∙ append_assoc s.write_buffer (concat frames) (concat more)
    ∙ ap (λ l. s.write_buffer ++ l) (sym (concat-append frames more))
