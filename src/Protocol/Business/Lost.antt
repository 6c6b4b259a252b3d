-- ===== src/Protocol/Business/Lost.antt =====
-- The answer to a request for a block of one byte.
use project_trans.MailBox.{PosixFrame, find}
use project_trans.Protocol.Business.Replies.{frame_for, push_reply-queue}
use project_trans.Base.{◌++◌}
use project_trans.Base.{ℕ, ◌^◌, ◌<◌, ◌≡◌, refl, arith, ap, ◌∙◌}
use project_trans.Base.{Option, some, true, List, [], ◌∷◌, drop, resize, get_or}
use project_trans.Binary.{Host, to_byte_array}
use project_trans.Codec.DataType.{int64, uint8, get_data_type_length}
use project_trans.Codec.Parse.{parsed}
use project_trans.Codec.Field.{SerializeField}
use project_trans.Codec.Message.{default_config, value_field, get_parsed_field, find_field}
use project_trans.Codec.Message.{same_name}
use project_trans.Codec.Message.Build.{entries, serialize_all}
use project_trans.Codec.Message.RoundTrip.{IsMessage, message}
use project_trans.Codec.Message.Elements.{
  serialize_vector, serialize_option, elements_field, named_field,
}
use project_trans.Codec.Message.Elements.Faults.{to_array_one_field}
use project_trans.Codec.Message.Ready.{Prepared-nil, Prepared-value, received}
use project_trans.Codec.Message.Ready.{deserialize-received}
use project_trans.Codec.Message.Bytes.{all_bytes-AllBytes, value_field-IsByteField}
use project_trans.MailBox.{MailBox}
use project_trans.Protocol.Names.{file_id_name, task_id_name, block_id_name, offset_name}
use project_trans.Protocol.Names.{block_size_name, data_name}
use project_trans.Protocol.Transfer.{EnvelopeRequestTransfer, EnvelopeResponseTransfer, minus_one}
use project_trans.Protocol.Transfer.{BlockRequestTransfer, BlockResponseTransfer, required_bytes}
use project_trans.Protocol.ClientCodec.{build_block_request_byte_array}
use project_trans.Protocol.ClientCodec.{try_parse_byte_array_response}
use project_trans.Protocol.ClientCodec.{try_parse_byte_array_block_response}
use project_trans.Protocol.ServerCodec.{ok_envelope, build_block_response_byte_array}
use project_trans.Protocol.Envelope.{IsBody, parse_response-build_response}
use project_trans.Protocol.Bodies.{IsBody-message, required_value-value_field}
use project_trans.Protocol.Bodies.{lenient_value-value_field}
use project_trans.Protocol.Bodies.Requests.{IsBlockRequest}
use project_trans.Protocol.Bodies.Sent.{ok_envelope-IsResponse}
use project_trans.Protocol.Business.{Services, ServerFileInfo, handled, to_int32}
use project_trans.Protocol.Business.{push_reply}
use project_trans.Protocol.Business.{handle_request}
use project_trans.Protocol.Business.Dispatch.{handle_request-block_request}
use project_trans.Protocol.Business.Served.{handle_block_request-found}

one_byte : (bs : List ℕ) → resize 1 0 bs ≡ get_or bs 0 0 ∷ []
one_byte [] = refl
one_byte (b ∷ bs) = refl

module _ (host : Host) (r : BlockRequestTransfer) (v : IsBlockRequest r) (x : ℕ) where
  abbrev byte_answer : List ℕ → BlockResponseTransfer
  byte_answer bytes = record {
    block_id = r.block_id;
    file_id = r.file_id;
    task_id = r.task_id;
    offset = r.offset;
    block_size = r.block_size;
    bytes = bytes;
  }

  abbrev byte_fields : List SerializeField
  byte_fields =
      value_field host int64 8 r.block_id block_id_name
      ∷ value_field host int64 8 r.file_id file_id_name
      ∷ value_field host int64 8 r.task_id task_id_name
      ∷ value_field host int64 8 r.offset offset_name
      ∷ value_field host int64 8 r.block_size block_size_name
      ∷ value_field host uint8 1 x data_name
      ∷ []

  byte_fields-IsBody :
      IsMessage default_config byte_fields × IsBody (message host default_config byte_fields)
  unfolding get_data_type_length
  byte_fields-IsBody =
      let bytes = all_bytes-AllBytes in
      IsBody-message host byte_fields 6 _
        (Prepared-value block_id_name (omega arith)
          (Prepared-value file_id_name (omega arith)
            (Prepared-value task_id_name (omega arith)
              (Prepared-value offset_name (omega arith)
                (Prepared-value block_size_name (omega arith)
                  (Prepared-value data_name (omega arith) Prepared-nil host uint8 1 x (omega arith)
                    (omega arith) refl)
                  host int64 8 r.block_size (omega arith) (omega arith) refl)
                host int64 8 r.offset (omega arith) (omega arith) refl)
              host int64 8 r.task_id (omega arith) (omega arith) refl)
            host int64 8 r.file_id (omega arith) (omega arith) refl)
          host int64 8 r.block_id (omega arith) (omega arith) refl)
        (
          value_field-IsByteField host int64 8 r.block_id block_id_name (bytes block_id_name refl),
          (
            value_field-IsByteField host int64 8 r.file_id file_id_name (bytes file_id_name refl),
            (
              value_field-IsByteField host int64 8 r.task_id task_id_name (bytes task_id_name refl),
              (
                value_field-IsByteField host int64 8 r.offset offset_name (bytes offset_name refl),
                (
                  value_field-IsByteField host int64 8 r.block_size block_size_name
                      (bytes block_size_name refl),
                  (value_field-IsByteField host uint8 1 x data_name (bytes data_name refl), tt),
                ),
              ),
            ),
          ),
        )
        (omega arith) (omega arith)

  found_byte :
      (get_parsed_field block_id_name (received host byte_fields)
        ≡ some (value_field host int64 8 r.block_id block_id_name))
      × (get_parsed_field file_id_name (received host byte_fields)
          ≡ some (value_field host int64 8 r.file_id file_id_name))
      × (get_parsed_field task_id_name (received host byte_fields)
          ≡ some (value_field host int64 8 r.task_id task_id_name))
      × (get_parsed_field offset_name (received host byte_fields)
          ≡ some (value_field host int64 8 r.offset offset_name))
      × (get_parsed_field block_size_name (received host byte_fields)
          ≡ some (value_field host int64 8 r.block_size block_size_name))
      × (get_parsed_field data_name (received host byte_fields)
          ≡ some (named_field data_name uint8 0 (to_byte_array host 1 x)))
  unfolding get_parsed_field find_field same_name entries value_field
  found_byte = (refl, refl, refl, refl, refl, refl)

  parse_byte :
      try_parse_byte_array_block_response host (message host default_config byte_fields)
      ≡ parsed (byte_answer [])
  unfolding try_parse_byte_array_block_response required_bytes
  parse_byte =
      let found = found_byte in
      rw (
        deserialize-received host byte_fields byte_fields-IsBody.0,
        found.0,
        required_value-value_field host int64 8 r.block_id block_id_name v.block_id_fits,
        found.1,
        required_value-value_field host int64 8 r.file_id file_id_name v.file_id_fits,
        found.2,
        lenient_value-value_field host int64 8 r.task_id task_id_name minus_one v.task_id_fits,
        found.3,
        required_value-value_field host int64 8 r.offset offset_name v.offset_fits,
        found.4,
        required_value-value_field host int64 8 r.block_size block_size_name v.block_size_fits,
        found.5,
        to_array_one_field host host uint8 1 x data_name (omega arith),
      )

  byte_sent :
      (id : ℕ) (new : EnvelopeResponseTransfer)
      → id < 256 ^ 8
      → (bytes body : List ℕ) × (build_block_response_byte_array host (byte_answer (x ∷ [])) id
          ≡ parsed bytes)
        × (try_parse_byte_array_response host new bytes ≡ parsed (ok_envelope id body))
        × (try_parse_byte_array_block_response host body ≡ parsed (byte_answer []))
  unfolding build_block_response_byte_array message serialize_all serialize_vector elements_field
      serialize_option value_field
  byte_sent id new fits =
      let body = message host default_config byte_fields in
      let (bytes, built, read) =
        parse_response-build_response host (ok_envelope id body) new
          (ok_envelope-IsResponse id body fits byte_fields-IsBody.1) in
      (bytes, body, built, read, parse_byte)

module _ (host : Host) (services : Services) (stringify : SerializeField → List ℕ)
    (envelope : EnvelopeRequestTransfer) (new : EnvelopeResponseTransfer) (connect_id : ℕ)
    (box : Option MailBox) (id : ℕ) (fits : id < 256 ^ 8) where
  handle_request-one_byte :
      (r : BlockRequestTransfer) (file : ServerFileInfo) (content : List ℕ)
      → IsBlockRequest r
      → services.get_by_id (to_int32 r.file_id) ≡ some file
      → services.open_file file.resource_path ≡ some content
      → services.can_allocate r.block_size ≡ true
      → r.block_size ≡ 1
      → r.offset < 2 ^ 63
      → (request bytes body : List ℕ) × (build_block_request_byte_array host r id ≡ parsed request)
        × (handle_request host services stringify envelope request connect_id box
            ≡ handled (push_reply connect_id bytes box))
        × (try_parse_byte_array_response host new bytes ≡ parsed (ok_envelope id body))
        × (try_parse_byte_array_block_response host body
            ≡ parsed (record {
              block_id = r.block_id;
              file_id = r.file_id;
              task_id = r.task_id;
              offset = r.offset;
              block_size = r.block_size;
              bytes = [];
            }))
  handle_request-one_byte r file content v known opened gives one positive =
      let (request, sent, dispatched) =
        handle_request-block_request host services stringify envelope connect_id box r id v fits in
      let x = get_or (drop r.offset content) 0 0 in
      let (bytes, body, built, read, inner) = byte_sent host r v x id new fits in
      let single : resize r.block_size 0 (drop r.offset content) ≡ x ∷ [] =
        ap (λ n. resize n 0 (drop r.offset content)) one ∙ one_byte (drop r.offset content) in
      let done =
        handle_block_request-found host services stringify envelope new connect_id box id fits r
          file content bytes known opened gives (omega arith) positive
          (ap (λ bs. build_block_response_byte_array host (byte_answer host r v x bs) id) single
            ∙ built) in
      (request, bytes, body, sent, dispatched ∙ done, read, inner)

module _ (host : Host) (services : Services) (stringify : SerializeField → List ℕ)
    (envelope : EnvelopeRequestTransfer) (new : EnvelopeResponseTransfer) (connect_id : ℕ)
    (b : MailBox) (q : List PosixFrame) (waiting : find connect_id b.to_client ≡ some q) (id : ℕ)
    (fits : id < 256 ^ 8) where
  -- The connection has a queue. The frame of a request that fits for a block of one byte, with an offset
  -- that is not negative, of a file that is known and can be opened, from a client on a machine of the
  -- server's byte order, makes the server put one frame behind those in this queue, if the allocator gives
  -- one byte. In this frame the client reads an envelope with the id of the request, and in it the ids,
  -- the offset and the size 1 of the request, but no bytes.
  pub block_of_one_lost :
      (r : BlockRequestTransfer) (file : ServerFileInfo) (content : List ℕ)
      → IsBlockRequest r
      → services.get_by_id (to_int32 r.file_id) ≡ some file
      → services.open_file file.resource_path ≡ some content
      → services.can_allocate r.block_size ≡ true
      → r.block_size ≡ 1
      → r.offset < 2 ^ 63
      → (request bytes body : List ℕ) × (after : MailBox) × (build_block_request_byte_array host r
            id
          ≡ parsed request)
        × (handle_request host services stringify envelope request connect_id (some b)
            ≡ handled (some after))
        × (find connect_id after.to_client ≡ some (q ++ (frame_for connect_id bytes ∷ [])))
        × (try_parse_byte_array_response host new bytes ≡ parsed (ok_envelope id body))
        × (try_parse_byte_array_block_response host body
            ≡ parsed (record {
              block_id = r.block_id;
              file_id = r.file_id;
              task_id = r.task_id;
              offset = r.offset;
              block_size = r.block_size;
              bytes = [];
            }))
  block_of_one_lost r file content v known opened gives one positive =
      let (request, bytes, body, sent, done, read, inner) =
        handle_request-one_byte host services stringify envelope new connect_id (some b) id fits r
          file content v known opened gives one positive in
      let (after, pushed, queued) = push_reply-queue connect_id bytes b q waiting in
      (request, bytes, body, after, sent, done ∙ ap handled pushed, queued, read, inner)
