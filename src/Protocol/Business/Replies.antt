-- ===== src/Protocol/Business/Replies.antt =====
-- Whom the runtime answers, and how often: whatever the frame is.
use project_trans.Base.{ℕ, ◌^◌, ◌≡◌, ◌≢◌, ◌⊎◌, inl, inr, refl, sym, ◌∙◌, subst, ltb, ◌&&◌}
use project_trans.Base.{Option, some, some-injective, Option-cases, List, [], ◌∷◌}
use project_trans.Base.{if◌then◌else◌, Bool, true, false, ◌++◌, ne→==, ==_refl}
use project_trans.Binary.{Host}
use project_trans.Codec.Parse.{Parse, parsed, rejected, out_of_range}
use project_trans.Codec.Field.{SerializeField}
use project_trans.Codec.Message.{same_name}
use project_trans.MailBox.{MailBox, PosixFrame, find, push_to_client_frame}
use project_trans.MailBox.Connections.{find-assign}
use project_trans.Protocol.Names.{download_path, test_path, block_path}
use project_trans.Protocol.Transfer.{EnvelopeRequestTransfer, DownloadRequestTransfer}
use project_trans.Protocol.Transfer.{BlockRequestTransfer}
use project_trans.Protocol.Business.{
  Services, Handled, handled, undefined, thrown, push_reply, reply,
}
use project_trans.Protocol.Business.{handle_download_request, handle_test_request, reply_block}
use project_trans.Protocol.Business.{handle_block_request, with_parsed, dispatch, handle_request}
use project_trans.Protocol.Business.{to_int32, read_block}

module _ (connect_id : ℕ) (box : Option MailBox) where
  -- Handling leaves the mail box alone or pushes one frame for the connection.
  abbrev pub Replies : Handled → Type 0
  Replies (handled b) = (b ≡ box) ⊎ ((bytes : List ℕ) × (b ≡ push_reply connect_id bytes box))
  Replies undefined = Unit {0}
  Replies thrown = Unit {0}

  reply-Replies : (m : Parse (List ℕ)) → Replies (reply connect_id m box)
  unfolding reply
  reply-Replies (parsed bytes) = inr (bytes, refl)
  reply-Replies rejected = tt
  reply-Replies out_of_range = tt

  with_parsed-Replies :
      (host : Host) (services : Services) {A : Type 0} (m : Parse A) (next : A → Handled)
      → ((a : A) → Replies (next a))
      → Replies (with_parsed host services m next box)
  unfolding with_parsed
  with_parsed-Replies host services (parsed a) next h = h a
  with_parsed-Replies host services rejected next h = inl refl
  with_parsed-Replies host services out_of_range next h = tt

  if-Replies : (x : Bool) (a b : Handled) → Replies a → Replies b → Replies (if x then a else b)
  if-Replies true a b p q = p
  if-Replies false a b p q = q

  module _ (host : Host) (services : Services) where
    download-Replies :
        (r : DownloadRequestTransfer) (id : ℕ)
        → Replies (handle_download_request host services r id connect_id box)
    unfolding handle_download_request
    download-Replies r id = elim (Option-cases (services.get_by_id (to_int32 r.file_id))) [
      | inl e ↦ rw (e, handle_download_request) (reply-Replies _)
      | inr (file, e) ↦ rw (e, handle_download_request) (reply-Replies _)
    ]

    reply_block-Replies :
        (r : BlockRequestTransfer) (size : ℕ) (bytes : List ℕ) (id : ℕ)
        → Replies (reply_block host services r size bytes id connect_id box)
    unfolding reply_block
    reply_block-Replies r size bytes id = reply-Replies _

    block-Replies :
        (r : BlockRequestTransfer) (id : ℕ)
        → Replies (handle_block_request host services r id connect_id box)
    unfolding handle_block_request
    block-Replies r id = elim (Option-cases (services.get_by_id (to_int32 r.file_id))) [
      | inl e ↦ rw (e, handle_block_request) (reply_block-Replies r 0 [] id)
      | inr (file, e) ↦
          rw (e, handle_block_request)
            (if-Replies (ltb r.block_size (2 ^ 63) && services.can_allocate r.block_size) _ _
              (elim (Option-cases (services.open_file file.resource_path)) [
                | inl f ↦ rw f (reply_block-Replies r 0 [] id)
                | inr (content, f) ↦ rw f (
                    reply_block-Replies r r.block_size (read_block content r.offset r.block_size)
                      id)
              ])
              tt)
    ]

    dispatch-Replies :
        (stringify : SerializeField → List ℕ) (request : EnvelopeRequestTransfer)
        → Replies (dispatch host services stringify request connect_id box)
    unfolding dispatch handle_test_request
    dispatch-Replies stringify request =
        if-Replies (same_name request.path download_path) _ _
          (with_parsed-Replies host services _ _ (λ r. download-Replies r request.request_id))
          (if-Replies (same_name request.path test_path) _ _
            (with_parsed-Replies host services _ _ (λ r. reply-Replies _))
            (if-Replies (same_name request.path block_path) _ _
              (with_parsed-Replies host services _ _ (λ r. block-Replies r request.request_id))
              (inl refl)))

    handle_request-Replies :
        (stringify : SerializeField → List ℕ) (envelope : EnvelopeRequestTransfer) (frame : List ℕ)
        → Replies (handle_request host services stringify envelope frame connect_id box)
    unfolding handle_request
    handle_request-Replies stringify envelope frame =
        with_parsed-Replies host services _ _ (dispatch-Replies stringify)

-- What a push for a connection does to the box.
abbrev pub frame_for : ℕ → List ℕ → PosixFrame
frame_for connect_id bytes = record { connect_id = connect_id; bytes = bytes }

push_other :
    (connect_id id : ℕ) (bytes : List ℕ) (b : MailBox)
    → connect_id ≢ id
    → find id (push_to_client_frame (frame_for connect_id bytes) b).to_client ≡ find id b.to_client
unfolding push_to_client_frame
push_other connect_id id bytes b other = elim (Option-cases (find connect_id b.to_client)) [
  | inl e ↦ rw (e, push_to_client_frame) refl
  | inr (q, e) ↦
      rw (e, push_to_client_frame)
        (find-assign id connect_id (q ++ (frame_for connect_id bytes ∷ [])) b.to_client
          ∙ rw (ne→== connect_id id other) refl)
]

pub push_server :
    (connect_id : ℕ) (bytes : List ℕ) (b : MailBox)
    → (push_to_client_frame (frame_for connect_id bytes) b).to_server ≡ b.to_server
unfolding push_to_client_frame
push_server connect_id bytes b = elim (Option-cases (find connect_id b.to_client)) [
  | inl e ↦ rw (e, push_to_client_frame) refl
  | inr (q, e) ↦ rw (e, push_to_client_frame) refl
]

-- The queue of the connection is as it was, or one frame longer.
abbrev OneMore : ℕ → MailBox → MailBox → Type 0
OneMore connect_id b b' =
    (find connect_id b'.to_client ≡ find connect_id b.to_client)
    ⊎ ((q : List PosixFrame) × (bytes : List ℕ) × (find connect_id b.to_client ≡ some q)
        × (find connect_id b'.to_client ≡ some (q ++ (frame_for connect_id bytes ∷ []))))

pub push_found :
    (connect_id : ℕ) (bytes : List ℕ) (b : MailBox) (q : List PosixFrame)
    → find connect_id b.to_client ≡ some q
    → find connect_id (push_to_client_frame (frame_for connect_id bytes) b).to_client
      ≡ some (q ++ (frame_for connect_id bytes ∷ []))
unfolding push_to_client_frame
push_found connect_id bytes b q e =
    rw (e, push_to_client_frame)
      (find-assign connect_id connect_id (q ++ (frame_for connect_id bytes ∷ [])) b.to_client
        ∙ rw (==_refl connect_id) refl)

pub push_reply-queue :
    (connect_id : ℕ) (bytes : List ℕ) (b : MailBox) (q : List PosixFrame)
    → find connect_id b.to_client ≡ some q
    → (after : MailBox) × (push_reply connect_id bytes (some b) ≡ some after)
      × (find connect_id after.to_client ≡ some (q ++ (frame_for connect_id bytes ∷ [])))
unfolding push_reply
push_reply-queue connect_id bytes b q e =
    (push_to_client_frame (frame_for connect_id bytes) b, refl, push_found connect_id bytes b q e)

push-OneMore :
    (connect_id : ℕ) (bytes : List ℕ) (b : MailBox)
    → OneMore connect_id b (push_to_client_frame (frame_for connect_id bytes) b)
unfolding push_to_client_frame
push-OneMore connect_id bytes b = elim (Option-cases (find connect_id b.to_client)) [
  | inl e ↦ inl (rw (e, push_to_client_frame) e)
  | inr (q, e) ↦ inr (q, bytes, e, push_found connect_id bytes b q e)
]

-- One answer to the connection at most, and nothing for anybody else.
abbrev pub Answers : ℕ → MailBox → MailBox → Type 0
Answers connect_id b b' =
    OneMore connect_id b b'
    × ((id : ℕ) → connect_id ≢ id → find id b'.to_client ≡ find id b.to_client)
    × (b'.to_server ≡ b.to_server)

-- Handling any frame of a connection, where it comes to an end, adds one answer to the queue of this
-- connection, if it has one, or none, and leaves the queues of the other connections and the queue to
-- the server alone.
pub handle_request_answers :
    (host : Host) (services : Services) (stringify : SerializeField → List ℕ)
    (envelope : EnvelopeRequestTransfer) (frame : List ℕ) (connect_id : ℕ) (b b' : MailBox)
    → handle_request host services stringify envelope frame connect_id (some b) ≡ handled (some b')
    → Answers connect_id b b'
unfolding push_reply
handle_request_answers host services stringify envelope frame connect_id b b' e =
    elim (subst (Replies connect_id (some b)) e
      (handle_request-Replies connect_id (some b) host services stringify envelope frame)) [
        | inl same ↦
            subst (Answers connect_id b) (sym (some-injective b' b same))
              (inl refl, λ id other. refl, refl)
        | inr (bytes, pushed) ↦
            subst (Answers connect_id b)
              (sym (some-injective b' (push_to_client_frame (frame_for connect_id bytes) b) pushed))
              (
                push-OneMore connect_id bytes b,
                λ id other. push_other connect_id id bytes b other,
                push_server connect_id bytes b,
              )
      ]
