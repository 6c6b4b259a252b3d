-- ===== src/Protocol/Reactor.antt =====
-- From the bytes that come in for a connection to the frame that waits for it: the event loop, the
-- mail box, the runtime and both codecs together.
use project_trans.Base.{
  ℕ, ◌+◌, ◌^◌, ◌≤◌, ◌<◌, ◌≡◌, refl, sym, ap, subst, ◌∙◌, arith, true, false, some,
}
use project_trans.Base.{List, [], ◌∷◌, ◌++◌, length, drop, resize, append-nil}
use project_trans.Binary.{Host}
use project_trans.Codec.Parse.{parsed}
use project_trans.Codec.Field.{SerializeField}
use project_trans.Codec.Message.Bytes.{AllBytes}
use project_trans.Frame.{FrameAssembler}
use project_trans.Frame.Stream.{Splits}
use project_trans.Frame.Refine.{pending, IsValid}
use project_trans.Frame.Deliver.{concat, frames-Splits}
use project_trans.Concurrent.Mpmc.{Call, step, take_item}
use project_trans.MailBox.{PosixFrame, MailBox, find, server_section, push_to_client_frame}
use project_trans.Session.Writable.{Connection, EventLoop, set_context}
use project_trans.Session.Readable.{readable_event, run_calls, readable_event-hands_over}
use project_trans.Protocol.Transfer.{EnvelopeRequestTransfer, EnvelopeResponseTransfer}
use project_trans.Protocol.Transfer.{BlockRequestTransfer}
use project_trans.Protocol.ClientCodec.{build_block_request_byte_array}
use project_trans.Protocol.ClientCodec.{try_parse_byte_array_response}
use project_trans.Protocol.ClientCodec.{try_parse_byte_array_block_response}
use project_trans.Protocol.ServerCodec.{ok_envelope}
use project_trans.Protocol.Bodies.Requests.{IsBlockRequest}
use project_trans.Protocol.Bodies.Sent.{block_request-IsFrame}
use project_trans.Protocol.Business.{Services, ServerFileInfo, handled, to_int32}
use project_trans.Protocol.Business.{push_reply, handle_request, after_pop, run_round}
use project_trans.Protocol.Business.Replies.{frame_for, push_found, push_server}
use project_trans.Protocol.Business.Served.{block_served}

-- A mail box whose queue to the server holds these frames.
abbrev pub with_items : List PosixFrame → MailBox → MailBox
with_items frames b = record b { to_server = record b.to_server { items = frames } }

-- A round takes the frame that waits longest.
run_round-first :
    (host : Host) (services : Services) (stringify : SerializeField → List ℕ)
    (envelope : EnvelopeRequestTransfer) (frame : PosixFrame) (frames : List PosixFrame)
    (b : MailBox)
    → run_round host services stringify envelope (with_items (frame ∷ frames) b)
      ≡ handle_request host services stringify envelope frame.bytes frame.connect_id
          (some (with_items frames b))
unfolding run_round after_pop server_section step take_item
run_round-first host services stringify envelope frame frames b = refl

module _ (host : Host) (services : Services) (stringify : SerializeField → List ℕ)
    (envelope : EnvelopeRequestTransfer) (new : EnvelopeResponseTransfer) (id : ℕ)
    (fits : id < 256 ^ 8) where
  -- The round that handles a block request that waits first.
  round_served :
      (r : BlockRequestTransfer) (file : ServerFileInfo) (content : List ℕ) (request : List ℕ)
      (connect_id : ℕ) (b : MailBox) (q : List PosixFrame)
      → IsBlockRequest r
      → services.get_by_id (to_int32 r.file_id) ≡ some file
      → services.open_file file.resource_path ≡ some content
      → services.can_allocate r.block_size ≡ true
      → AllBytes content
      → 2 ≤ r.block_size
      → r.block_size + 200 ≤ 2 ^ 28
      → r.offset < 2 ^ 63
      → build_block_request_byte_array host r id ≡ parsed request
      → find connect_id b.to_client ≡ some q
      → (bytes body : List ℕ) × (after : MailBox) × (run_round host services stringify envelope
            (with_items (frame_for connect_id request ∷ []) b)
          ≡ handled (some after))
        × (find connect_id after.to_client ≡ some (q ++ (frame_for connect_id bytes ∷ [])))
        × (after.to_server ≡ (with_items [] b).to_server)
        × (try_parse_byte_array_response host new bytes ≡ parsed (ok_envelope id body))
        × (try_parse_byte_array_block_response host body
            ≡ parsed (record {
              block_id = r.block_id;
              file_id = r.file_id;
              task_id = r.task_id;
              offset = r.offset;
              block_size = r.block_size;
              bytes = resize r.block_size 0 (drop r.offset content);
            }))
  unfolding push_reply
  round_served r file content request connect_id b q v known opened gives whole several short
        positive built waiting =
      let left = with_items [] b in
      let (request', bytes, body, built', answered, read, inner) =
        block_served host services stringify envelope new connect_id (some left) id fits r file
          content v known opened gives whole several short positive in
      let same : request' ≡ request = cc (built, built') in
      (
        bytes,
        body,
        push_to_client_frame (frame_for connect_id bytes) left,
        run_round-first host services stringify envelope (frame_for connect_id request) [] b
            ∙ ap (λ f. handle_request host services stringify envelope f connect_id (some left))
                (sym same)
            ∙ answered,
        push_found connect_id bytes left q waiting,
        push_server connect_id bytes left,
        read,
        inner,
      )

  -- A client builds a request for a block of two bytes or more that fits, and its bytes come in, in
  -- whatever blocks, on a connection of a machine of the same byte order that has nothing pending. If the
  -- queue to the server is running and empty, with a bound above 0, and the connection has a queue, the
  -- event, its calls on the queue and one round of the runtime put one frame behind those that wait for
  -- the connection, and leave the queue to the server empty. In this frame the client reads the id of its
  -- request and the bytes of the file from the offset on, filled up with zeros where the file ends; the
  -- file is known and can be opened, its bytes are bytes, the offset is not negative and the allocator
  -- gives a vector of the size.
  pub block_round_trip :
      (r : BlockRequestTransfer) (file : ServerFileInfo) (content : List ℕ) (request : List ℕ)
      (blocks : List (List ℕ)) (fd : ℕ) (l : EventLoop) (c : Connection) (q : List PosixFrame)
      → IsBlockRequest r
      → services.get_by_id (to_int32 r.file_id) ≡ some file
      → services.open_file file.resource_path ≡ some content
      → services.can_allocate r.block_size ≡ true
      → AllBytes content
      → 2 ≤ r.block_size
      → r.block_size + 200 ≤ 2 ^ 28
      → r.offset < 2 ^ 63
      → build_block_request_byte_array host r id ≡ parsed request
      → concat blocks ≡ request
      → l.connect_contexts fd ≡ some c
      → IsValid host c.assembler
      → pending c.assembler ≡ []
      → l.mail_box.to_server.is_running ≡ true
      → l.mail_box.to_server.items ≡ []
      → 1 ≤ l.mail_box.to_server.max_size
      → find c.connect_id l.mail_box.to_client ≡ some q
      → (s : FrameAssembler) × (calls : List (Call PosixFrame)) × (bytes body : List ℕ)
        × (after : MailBox) × (readable_event host blocks false fd l
            ≡ some (set_context fd (some (record c { assembler = s })) l, calls))
        × (pending s ≡ [])
        × (run_round host services stringify envelope (run_calls calls l.mail_box)
            ≡ handled (some after))
        × (find c.connect_id after.to_client ≡ some (q ++ (frame_for c.connect_id bytes ∷ [])))
        × (after.to_server.items ≡ [])
        × (try_parse_byte_array_response host new bytes ≡ parsed (ok_envelope id body))
        × (try_parse_byte_array_block_response host body
            ≡ parsed (record {
              block_id = r.block_id;
              file_id = r.file_id;
              task_id = r.task_id;
              offset = r.offset;
              block_size = r.block_size;
              bytes = resize r.block_size 0 (drop r.offset content);
            }))
  block_round_trip r file content request blocks fd l c q v known opened gives whole several short
        positive built came there valid idle running empty room waiting =
      let (is_frame, small) = block_request-IsFrame host r v id fits request built in
      let stream : concat (request ∷ []) ≡ pending c.assembler ++ concat blocks =
        append-nil request ∙ sym came ∙ ap (λ p. p ++ concat blocks) (sym idle) in
      let split : Splits host (pending c.assembler ++ concat blocks) (request ∷ []) [] =
        subst (λ t. Splits host t (request ∷ []) []) stream
          (frames-Splits host (request ∷ []) (is_frame, tt)) in
      let (s, calls, event, rest, _, queued) =
        readable_event-hands_over host blocks fd l c (request ∷ []) [] there valid
          (omega (arith, ap length idle, ap length came, small)) split running
          (omega (arith, ap length empty, room)) in
      let (bytes, body, after, round, found, server, read, inner) =
        round_served r file content request c.connect_id l.mail_box q v known opened gives whole
          several short positive built waiting in
      let box : run_calls calls l.mail_box
          ≡ with_items (frame_for c.connect_id request ∷ []) l.mail_box =
        queued
        ∙ ap (λ xs. with_items (xs ++ (frame_for c.connect_id request ∷ [])) l.mail_box) empty in
      (
        s,
        calls,
        bytes,
        body,
        after,
        event,
        rest,
        ap (run_round host services stringify envelope) box ∙ round,
        found,
        ap (λ t. t.items) server,
        read,
        inner,
      )
