-- ===== src/Protocol/Business/Refused.antt =====
-- Answers to block requests that the client cannot use.
use project_trans.MailBox.{PosixFrame, find}
use project_trans.Protocol.Business.Replies.{frame_for, push_reply-queue}
use project_trans.Base.{◌++◌, ◌∷◌, some}
use project_trans.Base.{ℕ, ◌^◌, ◌<◌, ◌≡◌, refl, arith, ap, ◌∙◌}
use project_trans.Base.{Option, none, List, []}
use project_trans.Binary.{Host}
use project_trans.Codec.DataType.{int64}
use project_trans.Codec.Parse.{parsed, rejected}
use project_trans.Codec.Field.{SerializeField}
use project_trans.Codec.Message.{default_config, value_field, get_parsed_field, find_field}
use project_trans.Codec.Message.{same_name}
use project_trans.Codec.Message.Build.{entries, serialize_all}
use project_trans.Codec.Message.RoundTrip.{message}
use project_trans.Codec.Message.Elements.{serialize_vector, serialize_option, elements_field}
use project_trans.Codec.Message.Ready.{received}
use project_trans.Codec.Message.Ready.{deserialize-received}
use project_trans.MailBox.{MailBox}
use project_trans.Protocol.Names.{file_id_name, block_id_name, offset_name}
use project_trans.Protocol.Names.{block_size_name, data_name}
use project_trans.Protocol.Transfer.{EnvelopeRequestTransfer, EnvelopeResponseTransfer}
use project_trans.Protocol.Transfer.{BlockRequestTransfer, BlockResponseTransfer, required_bytes}
use project_trans.Protocol.ClientCodec.{build_block_request_byte_array}
use project_trans.Protocol.ClientCodec.{try_parse_byte_array_response}
use project_trans.Protocol.ClientCodec.{try_parse_byte_array_block_response}
use project_trans.Protocol.ServerCodec.{ok_envelope, build_block_response_byte_array}
use project_trans.Protocol.Envelope.{parse_response-build_response}
use project_trans.Protocol.Bodies.{required_value-value_field}
use project_trans.Protocol.Bodies.Requests.{IsBlockRequest, block_request_fields}
use project_trans.Protocol.Bodies.Requests.{block_request_fields-IsBody, found_block_request}
use project_trans.Protocol.Bodies.Sent.{ok_envelope-IsResponse}
use project_trans.Protocol.Business.{Services, handled, to_int32}
use project_trans.Protocol.Business.{push_reply, reply, reply_block}
use project_trans.Protocol.Business.{handle_block_request, handle_request}
use project_trans.Protocol.Business.Dispatch.{handle_request-block_request}

-- The five numbers of a block response are those of a block request.
abbrev emptied : BlockRequestTransfer → BlockRequestTransfer
emptied r = record r { block_size = 0 }

abbrev no_bytes : BlockRequestTransfer → BlockResponseTransfer
no_bytes r = record {
  block_id = r.block_id;
  file_id = r.file_id;
  task_id = r.task_id;
  offset = r.offset;
  block_size = 0;
  bytes = [];
}

emptied-IsBlockRequest : (r : BlockRequestTransfer) → IsBlockRequest r → IsBlockRequest (emptied r)
emptied-IsBlockRequest r v = record {
  block_id_fits = v.block_id_fits;
  file_id_fits = v.file_id_fits;
  task_id_fits = v.task_id_fits;
  offset_fits = v.offset_fits;
  block_size_fits = omega arith;
}

module _ (host : Host) (r : BlockRequestTransfer) (v : IsBlockRequest r) where
  no_data : get_parsed_field data_name (received host (block_request_fields host r v)) ≡ none
  unfolding get_parsed_field find_field same_name entries value_field
  no_data = refl

  -- The client wants a field for the bytes.
  refused :
      try_parse_byte_array_block_response host
        (message host default_config (block_request_fields host r v))
      ≡ rejected
  unfolding try_parse_byte_array_block_response required_bytes
  refused =
      let found = found_block_request host r v in
      rw (
        deserialize-received host (block_request_fields host r v)
            (block_request_fields-IsBody host r v).0,
        found.0,
        required_value-value_field host int64 8 r.block_id block_id_name v.block_id_fits,
        found.1,
        required_value-value_field host int64 8 r.file_id file_id_name v.file_id_fits,
        found.3,
        required_value-value_field host int64 8 r.offset offset_name v.offset_fits,
        found.4,
        required_value-value_field host int64 8 r.block_size block_size_name v.block_size_fits,
        no_data,
      )

-- A block response without bytes.
no_bytes-sent :
    (host : Host) (r : BlockRequestTransfer) (id : ℕ) (new : EnvelopeResponseTransfer)
    → IsBlockRequest r
    → id < 256 ^ 8
    → (bytes body : List ℕ) × (build_block_response_byte_array host (no_bytes r) id ≡ parsed bytes)
      × (try_parse_byte_array_response host new bytes ≡ parsed (ok_envelope id body))
      × (try_parse_byte_array_block_response host body ≡ rejected)
unfolding build_block_response_byte_array message serialize_all serialize_vector elements_field
    serialize_option
no_bytes-sent host r id new v fits =
    let w = emptied-IsBlockRequest r v in
    let body = message host default_config (block_request_fields host (emptied r) w) in
    let (bytes, built, read) =
      parse_response-build_response host (ok_envelope id body) new
        (ok_envelope-IsResponse id body fits (block_request_fields-IsBody host (emptied r) w).1) in
    (bytes, body, built, read, refused host (emptied r) w)

module _ (host : Host) (services : Services) (stringify : SerializeField → List ℕ)
    (envelope : EnvelopeRequestTransfer) (new : EnvelopeResponseTransfer) (connect_id : ℕ)
    (box : Option MailBox) (id : ℕ) (fits : id < 256 ^ 8) where
  handle_block_request-unknown :
      (r : BlockRequestTransfer) (bytes : List ℕ)
      → services.get_by_id (to_int32 r.file_id) ≡ none
      → build_block_response_byte_array host (no_bytes r) id ≡ parsed bytes
      → handle_block_request host services r id connect_id box
        ≡ handled (push_reply connect_id bytes box)
  unfolding handle_block_request reply_block reply
  handle_block_request-unknown r bytes unknown built =
      rw (unknown, handle_block_request) (ap (λ m. reply connect_id m box) built)

  handle_request-unknown :
      (r : BlockRequestTransfer)
      → IsBlockRequest r
      → services.get_by_id (to_int32 r.file_id) ≡ none
      → (request bytes body : List ℕ) × (build_block_request_byte_array host r id ≡ parsed request)
        × (handle_request host services stringify envelope request connect_id box
            ≡ handled (push_reply connect_id bytes box))
        × (try_parse_byte_array_response host new bytes ≡ parsed (ok_envelope id body))
        × (try_parse_byte_array_block_response host body ≡ rejected)
  handle_request-unknown r v unknown =
      let (request, sent, dispatched) =
        handle_request-block_request host services stringify envelope connect_id box r id v fits in
      let (bytes, body, built, read, inner) = no_bytes-sent host r id new v fits in
      (
        request,
        bytes,
        body,
        sent,
        dispatched ∙ handle_block_request-unknown r bytes unknown built,
        read,
        inner,
      )

module _ (host : Host) (services : Services) (stringify : SerializeField → List ℕ)
    (envelope : EnvelopeRequestTransfer) (new : EnvelopeResponseTransfer) (connect_id : ℕ)
    (b : MailBox) (q : List PosixFrame) (waiting : find connect_id b.to_client ≡ some q) (id : ℕ)
    (fits : id < 256 ^ 8) where
  -- The connection has a queue. The frame of a request that fits for a block of a file that the service
  -- does not know, from a client on a machine of the server's byte order, makes the server put one frame
  -- behind those in this queue: an envelope with the id of the request and the status 200, whose body the
  -- client does not parse.
  pub block_unknown_refused :
      (r : BlockRequestTransfer)
      → IsBlockRequest r
      → services.get_by_id (to_int32 r.file_id) ≡ none
      → (request bytes body : List ℕ) × (after : MailBox) × (build_block_request_byte_array host r
            id
          ≡ parsed request)
        × (handle_request host services stringify envelope request connect_id (some b)
            ≡ handled (some after))
        × (find connect_id after.to_client ≡ some (q ++ (frame_for connect_id bytes ∷ [])))
        × (try_parse_byte_array_response host new bytes ≡ parsed (ok_envelope id body))
        × (try_parse_byte_array_block_response host body ≡ rejected)
  block_unknown_refused r v unknown =
      let (request, bytes, body, sent, done, read, inner) =
        handle_request-unknown host services stringify envelope new connect_id (some b) id fits r v
          unknown in
      let (after, pushed, queued) = push_reply-queue connect_id bytes b q waiting in
      (request, bytes, body, after, sent, done ∙ ap handled pushed, queued, read, inner)
