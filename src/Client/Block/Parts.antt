-- ===== src/Client/Block/Parts.antt =====
-- The blocks of a file are a partition of its bytes.
use project_trans.Base.{
  ℕ, zero, suc, ◌+◌, ◌-◌, ◌≤◌, ◌<◌, ◌≡◌, ◌≢◌, refl, arith, ltb, leb, if◌then◌else◌, Bool-cases, inl,
  inr,
}
use project_trans.Base.{
  Bool, true, false, ◌&&◌, none, some, List, [], ◌∷◌, ltb→lt, ltb→le, lt→ltb, le→ltb,
}
use project_trans.Client.Block.{
  BlockEntity, ClientFileEntity, BlockParam, waiting, next_block, add_loop, add,
}

-- Blocks of a task that follow one another from `offset` to the end of the file: none is empty, and all
-- but the last are of the size asked for, which the last does not exceed.
abbrev pub IsParts : ClientFileEntity → ℕ → BlockParam → ℕ → List BlockEntity → Type 0
IsParts file task_id param offset [] = offset ≡ file.file_size
IsParts file task_id param offset (b ∷ bs) =
    (b.offset ≡ offset)
    × (0 < b.block_size)
    × (b.block_size ≤ param.block_bytes)
    × ((bs ≢ []) → b.block_size ≡ param.block_bytes)
    × (b.task_id ≡ task_id)
    × (b.file_id ≡ file.file_id)
    × (b.state ≡ waiting)
    × IsParts file task_id param (offset + b.block_size) bs

-- How many blocks hold the byte at `x`.
abbrev pub holding : ℕ → List BlockEntity → ℕ
holding x [] = 0
holding x (b ∷ bs) =
    (if leb b.offset x && ltb x (b.offset + b.block_size) then 1 else 0) + holding x bs

abbrev pub once : ℕ → ClientFileEntity → ℕ → ℕ
once x file offset = if leb offset x && ltb x file.file_size then 1 else 0

block_size-next :
    (size bytes offset : ℕ)
    → 0 < bytes
    → offset < size
    → (0 < (if leb bytes (size - offset) then bytes else size - offset))
      × ((if leb bytes (size - offset) then bytes else size - offset) ≤ bytes)
      × (offset + (if leb bytes (size - offset) then bytes else size - offset) ≤ size)
      × ((offset + (if leb bytes (size - offset) then bytes else size - offset) < size)
          → (if leb bytes (size - offset) then bytes else size - offset) ≡ bytes)
block_size-next size bytes offset h k =
    (ground arith, ground arith, ground arith, λ l. ground (arith, l))

-- A block and what follows it hold what starts at its offset, once.
hold_once :
    (o n x size : ℕ)
    → o + n ≤ size
    → ((if leb o x && ltb x (o + n) then 1 else 0) + (if leb (o + n) x && ltb x size then 1 else 0))
      ≡ (if leb o x && ltb x size then 1 else 0)
hold_once o n x size h = ground arith

holds_no_byte : (o x size n : ℕ) → n ≡ 0 → o ≡ size → n ≡ (if leb o x && ltb x size then 1 else 0)
holds_no_byte o x size n z h = ground arith

parts_end :
    (file : ClientFileEntity) (task_id : ℕ) (param : BlockParam) (offset : ℕ)
    (bs : List BlockEntity)
    → IsParts file task_id param offset bs
    → offset ≤ file.file_size
parts_end file task_id param offset [] p = omega (arith, p)
parts_end file task_id param offset (b ∷ bs) p =
    let h = parts_end file task_id param (offset + b.block_size) bs p.7 in omega (arith, h)

-- The parts hold every byte from `offset` to the end once, and no other.
parts_once :
    (file : ClientFileEntity) (task_id : ℕ) (param : BlockParam) (offset x : ℕ)
    (bs : List BlockEntity)
    → IsParts file task_id param offset bs
    → holding x bs ≡ once x file offset
parts_once file task_id param offset x [] p = holds_no_byte offset x file.file_size 0 refl p
parts_once file task_id param offset x (b ∷ bs) p =
    let rest = parts_once file task_id param (offset + b.block_size) x bs p.7 in
    let h = parts_end file task_id param (offset + b.block_size) bs p.7 in
    rw (p.0, rest) (hold_once offset b.block_size x file.file_size h)

stays : (size bytes : ℕ) → bytes ≡ 0 → 0 + (if leb bytes (size - 0) then bytes else size - 0) ≡ 0
stays size bytes z = ground arith

module _ {R : Type 0} (add_block : BlockEntity → R → Bool × R) where
  -- One block after the other is given to the repository, to the first that it does not take.
  abbrev pub add_each : List BlockEntity → R → Bool × R
  add_each [] r = (true, r)
  add_each (b ∷ bs) r =
      let (is_succeed, r1) = add_block b r in
      let rest = add_each bs r1 in if is_succeed then rest else (false, r1)

  module _ (file : ClientFileEntity) (task_id : ℕ) (param : BlockParam)
      (some_bytes : 0 < param.block_bytes) where
    loop_end :
        (fuel offset : ℕ) (r : R)
        → file.file_size ≤ offset
        → add_loop add_block (suc fuel) file task_id param offset r ≡ some (true, r)
    unfolding add_loop
    loop_end fuel offset r h = rw (le→ltb offset file.file_size h) refl

    loop_step :
        (fuel offset : ℕ) (bs : List BlockEntity) (r : R)
        → offset < file.file_size
        → ((r : R)
            → add_loop add_block fuel file task_id param
                (offset + (next_block file task_id param offset).block_size)
                r
              ≡ some (add_each bs r))
        → add_loop add_block (suc fuel) file task_id param offset r
          ≡ some (add_each (next_block file task_id param offset ∷ bs) r)
    unfolding add_loop
    loop_step fuel offset bs r h rest =
        let (ok, r1) = add_block (next_block file task_id param offset) r in
        elim (Bool-cases ok) [
          | inl e ↦ rw (lt→ltb offset file.file_size h, e) (rest r1)
          | inr e ↦ rw (lt→ltb offset file.file_size h, e) refl
        ]

    loop-IsParts :
        (fuel offset : ℕ)
        → offset ≤ file.file_size
        → file.file_size - offset < fuel
        → (bs : List BlockEntity) × IsParts file task_id param offset bs
          × ((r : R) → add_loop add_block fuel file task_id param offset r ≡ some (add_each bs r))
    unfolding next_block
    loop-IsParts zero offset h k = absurd (omega (arith, k))
    loop-IsParts (suc fuel) offset h k = elim (Bool-cases (ltb offset file.file_size)) [
      | inr e ↦
          let end = ltb→le offset file.file_size e in
          ([], omega (arith, end, h), λ r. loop_end fuel offset r end)
      | inl e ↦
          let l = ltb→lt offset file.file_size e in
          let b = next_block file task_id param offset in
          let (q0, q1, q2, q3) =
            block_size-next file.file_size param.block_bytes offset some_bytes l in
          let (bs, p, run) = loop-IsParts fuel (offset + b.block_size) q2 (omega (arith, k, q0)) in
          (
            b ∷ bs,
            (refl, q0, q1, last bs p q3, refl, refl, refl, p),
            λ r. loop_step fuel offset bs r l run,
          )
    ]
      where
        last :
            {P : Type 0} {offset : ℕ} (bs : List BlockEntity)
            → IsParts file task_id param offset bs
            → (offset < file.file_size → P)
            → bs ≢ []
            → P
        last {P} {offset} [] p f n = absurd (n refl)
        last {P} {offset} (c ∷ bs) p f n =
            let h = parts_end file task_id param (offset + c.block_size) bs p.7 in
            f (omega (arith, h, p.1))

    -- With a block size above 0, `add` of a file ends: it gives the blocks of a partition of the file to
    -- the repository, one after the other, to the first that is not taken. The blocks are of the task and
    -- the file, wait, follow one another without a gap, are of the size asked for but for the last, which
    -- may be smaller, and hold every byte of the file once and no other.
    pub add-IsParts :
        (r : R)
        → (bs : List BlockEntity) × IsParts file task_id param 0 bs
          × ((x : ℕ) → holding x bs ≡ once x file 0)
          × (add add_block (suc file.file_size) file task_id param r ≡ some (add_each bs r))
    unfolding add
    add-IsParts r =
        let (bs, p, run) = loop-IsParts (suc file.file_size) 0 (omega arith) (omega arith) in
        (bs, p, λ x. parts_once file task_id param 0 x bs p, run r)

  module _ (accepts : (b : BlockEntity) (r : R) → (add_block b r).0 ≡ true) where
    loop_stuck :
        (file : ClientFileEntity) (task_id : ℕ) (param : BlockParam) (fuel : ℕ) (r : R)
        → param.block_bytes ≡ 0
        → 0 < file.file_size
        → add_loop add_block fuel file task_id param 0 r ≡ none
    unfolding add_loop next_block
    loop_stuck file task_id param zero r z h = refl
    loop_stuck file task_id param (suc fuel) r z h =
        let b = next_block file task_id param 0 in
        let rest = loop_stuck file task_id param fuel (add_block b r).1 z h in
        rw (lt→ltb 0 file.file_size h, accepts b r, stays file.file_size param.block_bytes z) rest

    -- With a block size of 0, `add` of a file that is not empty never ends if the repository takes every
    -- block.
    pub add-none :
        (file : ClientFileEntity) (task_id : ℕ) (param : BlockParam) (fuel : ℕ) (r : R)
        → param.block_bytes ≡ 0
        → 0 < file.file_size
        → add add_block fuel file task_id param r ≡ none
    unfolding add
    add-none file task_id param fuel r z h = loop_stuck file task_id param fuel r z h
