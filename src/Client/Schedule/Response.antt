-- ===== src/Client/Schedule/Response.antt =====
-- What a response does: a block is completed only when its bytes are in the file.
use project_trans.Base.{
  if-path, ◌≤◌, ◌≡◌, refl, sym, ap, ◌∙◌, ltb, if◌then◌else◌, Bool-cases, inl, inr, ◌⊎◌,
  Option-cases, subst,
}
use project_trans.Base.{
  Bool, true, false, not, ◌&&◌, none, some, some-injective, length, take, ltb→le, le→ltb,
}
use project_trans.Client.Block.{BlockEntity}
use project_trans.Client.Schedule.{
  Controller, TaskPending, BlockResponseTransfer, Store, FileAnswers, DestFile, Responded, Written,
  wrote, write_failed, writing, write_loop, write_bytes, fail_block, complete_block, write_block,
  open_and_write, on_block_response, open_file, dest_file_of,
}
use project_trans.Client.Schedule.Outcome.{
  IsFileOf, IsFailed, IsSaved, fail_block-IsFailed, complete_block-HasFile,
  complete_block-IsCounted,
}
use project_trans.Client.Schedule.Writes.{
  IsWritten, IsWhole, IsLimited, write_bytes-IsWritten, write_loop-wrote, write_loop-IsWhole,
}

Written-cases :
    (w : Written)
    → ((g : DestFile) × (w ≡ wrote g))
      ⊎ ((g : DestFile) × (w ≡ write_failed g))
      ⊎ ((g : DestFile) × (w ≡ writing g))
Written-cases (wrote g) = inl (g, refl)
Written-cases (write_failed g) = inr (inl (g, refl))
Written-cases (writing g) = inr (inr (g, refl))

if_true : {A : Type 0} (x : Bool) (u v : A) → x ≡ true → (if x then u else v) ≡ u
if_true x u v e = rw e refl

if_false : {A : Type 0} (x : Bool) (u v : A) → x ≡ false → (if x then u else v) ≡ v
if_false x u v e = rw e refl

module _ {R : Type 0} (store : Store R) (answers : FileAnswers)
    (response : BlockResponseTransfer) where
  -- The response is that of no task or of no block, and nothing happens.
  abbrev pub IsIgnored : Controller → R → Responded R → Type 0
  IsIgnored c r res = res ≡ record { controller = c; store = r; emitted = none }

  module _ (t : TaskPending) (b : BlockEntity) (c : Controller) (r : R) where
    written :
        (f g : DestFile)
        → g
          ≡ write_bytes
              (take response.block_size response.bytes)
              (record f { position = response.offset })
        → IsWritten response.offset (take response.block_size response.bytes) f.content g.content
    written f g e = rw e (
        write_bytes-IsWritten (take response.block_size response.bytes)
          (record f { position = response.offset }))

    failed :
        (g : DestFile) (res : Responded R)
        → fail_block store answers response t b g c r ≡ res
        → IsFailed store answers response t b c r res
    failed g res e =
        subst (IsFailed store answers response t b c r) e
          (fail_block-IsFailed store answers response t b c r g)

    saved :
        (f g : DestFile) (res : Responded R)
        → IsFileOf answers t f
        → complete_block store answers response t b g c r ≡ res
        → response.block_size ≤ length response.bytes
        → IsWritten response.offset (take response.block_size response.bytes) f.content g.content
        → IsSaved store answers response t b c r res
    saved f g res o e h w = subst (IsSaved store answers response t b c r) e (
      f,
      g,
      o,
      complete_block-HasFile store answers response t b c r g,
      h,
      w,
      complete_block-IsCounted store answers response t b c r g,
    )

    write_block_verdict :
        (f : DestFile) (res : Responded R)
        → IsFileOf answers t f
        → IsLimited answers.writes response.block_size
        → write_block store answers response t b f c r ≡ some res
        → IsFailed store answers response t b c r res ⊎ IsSaved store answers response t b c r res
    unfolding write_block fail_block
    write_block_verdict f res o l e =
        let at_offset : DestFile = record f { position = response.offset } in
        elim (Bool-cases answers.is_seeked) [
          | inr s ↦ inl (failed f res (some-injective _ _ (rw s at e)))
          | inl s ↦ elim (Bool-cases (ltb (length response.bytes) response.block_size)) [
            | inl h ↦ inl (failed at_offset res (some-injective _ _ (rw (s, h) at e)))
            | inr h ↦
                elim (Written-cases
                  (write_loop response.bytes answers.writes 0 response.block_size at_offset)) [
                    | inl (g, w) ↦
                        let same =
                          write_loop-wrote response.bytes answers.writes 0 response.block_size
                            at_offset g l w in
                        inr (
                          saved f g res o (some-injective _ _ (rw (s, h, w) at e))
                            (ltb→le (length response.bytes) response.block_size h)
                            (written f g same))
                    | inr (inl (g, w)) ↦ inl (failed g res (some-injective _ _ (rw (s, h, w) at e)))
                    | inr (inr (g, w)) ↦ cc (rw (s, h, w) at e)
                  ]
          ]
        ]

    open_and_write_verdict :
        (res : Responded R)
        → IsLimited answers.writes response.block_size
        → open_and_write store answers response t b (dest_file_of t) c r ≡ some res
        → IsFailed store answers response t b c r res ⊎ IsSaved store answers response t b c r res
    unfolding open_and_write
    open_and_write_verdict res l e =
        let f = dest_file_of t in
        elim (Bool-cases f.is_open) [
          | inl o ↦ write_block_verdict f res (inl (o, refl)) l (sym (if_true f.is_open _ _ o) ∙ e)
          | inr o ↦
              let h = sym (if_false f.is_open _ _ o) ∙ e in
              elim (if-path (not answers.dir_exists && not answers.is_mkdir) _ _ (some res) h) [
                | inl k ↦ inl (failed f res (some-injective _ _ k))
                | inr k ↦ elim (if-path answers.is_open _ _ (some res) k) [
                  | inl m ↦ write_block_verdict (open_file answers.opened) res (inr (o, refl)) l m
                  | inr m ↦ inl (failed f res (some-injective _ _ m))
                ]
              ]
        ]

  -- If no write writes more than it was given, a response that returns has one of three outcomes. For a
  -- task or a block that is unknown nothing happens. Otherwise the requests and the other tasks are as
  -- before, the task has the file, and either the block is stored as failed, nothing else is stored and
  -- nothing is emitted; or the bytes of the response, as many as the block has, are in the file at the
  -- offset of the block, and the block is stored as completed with the time. The file is the one that the
  -- task has open, or the one that is opened. In this case, if the database counts no block of the task as
  -- waiting any more, the task is stored as completed, if the database has it, and its completion is
  -- emitted; otherwise nothing more is stored or emitted.
  pub on_block_response_verdict :
      (c : Controller) (r : R) (res : Responded R)
      → IsLimited answers.writes response.block_size
      → on_block_response store answers response c r ≡ some res
      → IsIgnored c r res
        ⊎ ((t : TaskPending) × (b : BlockEntity) × (c.tasks response.task_id ≡ some t)
            × (store.get_by_id response.block_id r ≡ some b)
            × (IsFailed store answers response t b c r res
                ⊎ IsSaved store answers response t b c r res))
  unfolding on_block_response
  on_block_response_verdict c r res l e = elim (Option-cases (c.tasks response.task_id)) [
    | inl h ↦ inl (sym (some-injective _ _ (rw (h, on_block_response) at e)))
    | inr (t, h) ↦ elim (Option-cases (store.get_by_id response.block_id r)) [
      | inl k ↦ inl (sym (some-injective _ _ (rw (h, k, on_block_response) at e)))
      | inr (b, k) ↦
          inr (t, b, h, k, open_and_write_verdict t b c r res l (rw (h, k, on_block_response) at e))
    ]
  ]

  -- The file of the task is open or can be opened, and takes the whole block.
  abbrev pub CanOpen : TaskPending → Type 0
  CanOpen t =
      ((dest_file_of t).is_open ≡ true)
      ⊎ (((dest_file_of t).is_open ≡ false)
          × ((not answers.dir_exists && not answers.is_mkdir) ≡ false)
          × (answers.is_open ≡ true))

  module _ (t : TaskPending) (b : BlockEntity) (c : Controller) (r : R) where
    write_block_saves :
        (f : DestFile)
        → IsFileOf answers t f
        → answers.is_seeked ≡ true
        → response.block_size ≤ length response.bytes
        → IsWhole answers.writes response.block_size
        → (res : Responded R) × (write_block store answers response t b f c r ≡ some res)
          × IsSaved store answers response t b c r res
    unfolding write_block
    write_block_saves f o s h w =
        let at_offset : DestFile = record f { position = response.offset } in
        let g : DestFile = write_bytes (take response.block_size response.bytes) at_offset in
        let run =
          write_loop-IsWhole response.bytes answers.writes 0 response.block_size at_offset w in
        (
          complete_block store answers response t b g c r,
          if_false (not answers.is_seeked) _ _ (ap not s)
              ∙ if_false (ltb (length response.bytes) response.block_size) _ _
                  (le→ltb (length response.bytes) response.block_size h)
              ∙ rw run refl,
          saved t b c r f g _ o refl h (written t b c r f g refl),
        )

    open_and_write_saves :
        CanOpen t
        → answers.is_seeked ≡ true
        → response.block_size ≤ length response.bytes
        → IsWhole answers.writes response.block_size
        → (res : Responded R) × (open_and_write store answers response t b (dest_file_of t) c r
            ≡ some res)
          × IsSaved store answers response t b c r res
    unfolding open_and_write
    open_and_write_saves (inl o) s h w =
        let (res, e, v) = write_block_saves (dest_file_of t) (inl (o, refl)) s h w in
        (res, if_true (dest_file_of t).is_open _ _ o ∙ e, v)
    open_and_write_saves (inr (o, m, p)) s h w =
        let (res, e, v) = write_block_saves (open_file answers.opened) (inr (o, refl)) s h w in
        (
          res,
          if_false (dest_file_of t).is_open _ _ o
              ∙ if_false (not answers.dir_exists && not answers.is_mkdir) _ _ m
              ∙ if_true answers.is_open _ _ p
              ∙ e,
          v,
        )

    -- A response to a task that is under way and a block that the store has, with as many bytes as the
    -- block, returns if the file can be opened and sought and the writes make up the whole block. Its
    -- bytes are then in the file that the task has open or that is opened, at the offset of the block,
    -- and the block is stored as completed with the time; if the database counts no block of the task as waiting any more, the task is stored as
    -- completed, if the database has it, and its completion is emitted, otherwise nothing more is.
    pub on_block_response_saves :
        c.tasks response.task_id ≡ some t
        → store.get_by_id response.block_id r ≡ some b
        → CanOpen t
        → answers.is_seeked ≡ true
        → response.block_size ≤ length response.bytes
        → IsWhole answers.writes response.block_size
        → (res : Responded R) × (on_block_response store answers response c r ≡ some res)
          × IsSaved store answers response t b c r res
    unfolding on_block_response
    on_block_response_saves h k o s n w =
        let (res, e, v) = open_and_write_saves o s n w in (res, rw (h, k, on_block_response) e, v)
