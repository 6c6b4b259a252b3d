-- ===== src/Protocol/Business/Served.antt =====
-- What the client reads of the answer to a request that it built.
use project_trans.Base.{ℕ, zero, suc, ◌+◌, ◌^◌, ◌≤◌, ◌<◌, ◌≡◌, refl, arith, lt→ltb, length}
use project_trans.Base.{Option, some, true}
use project_trans.Base.{List, [], ◌∷◌, ◌++◌, drop, resize, length-resize, length-append}
use project_trans.Base.{◌∙◌, ap}
use project_trans.Protocol.ServerCodec.{build_block_response_byte_array}
use project_trans.Binary.{Host}
use project_trans.Codec.Parse.{parsed}
use project_trans.Codec.Field.{SerializeField}
use project_trans.Codec.Message.Bytes.{AllBytes, AllBytes-append, all_bytes-AllBytes}
use project_trans.MailBox.{MailBox}
use project_trans.Protocol.Names.{echo}
use project_trans.Protocol.Transfer.{EnvelopeRequestTransfer, EnvelopeResponseTransfer}
use project_trans.Protocol.Transfer.{BlockRequestTransfer, BlockResponseTransfer}
use project_trans.Protocol.Transfer.{TestRequestTransfer, TestResponseTransfer}
use project_trans.Protocol.ClientCodec.{build_block_request_byte_array}
use project_trans.Protocol.ClientCodec.{build_test_request_byte_array}
use project_trans.Protocol.ClientCodec.{try_parse_byte_array_response}
use project_trans.Protocol.ClientCodec.{try_parse_byte_array_block_response}
use project_trans.Protocol.ClientCodec.{try_parse_byte_array_test_response}
use project_trans.Protocol.ServerCodec.{ok_envelope}
use project_trans.Protocol.Bodies.Requests.{IsBlockRequest, IsTestRequest}
use project_trans.Protocol.Bodies.Sent.{block_response-sent, test_response-sent}
use project_trans.Protocol.Business.{Services, ServerFileInfo, handled, to_int32}
use project_trans.Protocol.Business.{push_reply, reply, read_block}
use project_trans.Protocol.Business.{handle_test_request, reply_block}
use project_trans.Protocol.Business.{handle_block_request, handle_request}
use project_trans.Protocol.Business.Dispatch.{handle_request-test_request}
use project_trans.Protocol.Business.Dispatch.{handle_request-block_request}

AllBytes-drop : (n : ℕ) (bs : List ℕ) → AllBytes bs → AllBytes (drop n bs)
AllBytes-drop zero bs p = p
AllBytes-drop (suc n) [] p = tt
AllBytes-drop (suc n) (b ∷ bs) (p, ps) = AllBytes-drop n bs ps

AllBytes-resize : (n : ℕ) (bs : List ℕ) → AllBytes bs → AllBytes (resize n 0 bs)
AllBytes-resize zero bs p = tt
AllBytes-resize (suc n) [] p = (omega arith, AllBytes-resize n [] tt)
AllBytes-resize (suc n) (b ∷ bs) (p, ps) = (p, AllBytes-resize n bs ps)

module _ (host : Host) (services : Services) (stringify : SerializeField → List ℕ)
    (envelope : EnvelopeRequestTransfer) (new : EnvelopeResponseTransfer) (connect_id : ℕ)
    (box : Option MailBox) (id : ℕ) (fits : id < 256 ^ 8) where
  -- The frame of a test request that fits, from a client on a machine of the server's byte order, makes
  -- the server push one frame for its connection, in which the client reads an envelope with the id of
  -- the request and, in it, the text of the request behind "Echo: ".
  pub test_served :
      (r : TestRequestTransfer)
      → IsTestRequest r
      → length r.message + 206 ≤ 2 ^ 28
      → (request bytes body : List ℕ) × (build_test_request_byte_array host r id ≡ parsed request)
        × (handle_request host services stringify envelope request connect_id box
            ≡ handled (push_reply connect_id bytes box))
        × (try_parse_byte_array_response host new bytes ≡ parsed (ok_envelope id body))
        × (try_parse_byte_array_test_response host stringify body
            ≡ parsed (record { message = echo ++ r.message }))
  unfolding handle_test_request reply
  test_served r v short =
      let answer : TestResponseTransfer = record { message = echo ++ r.message } in
      let (request, sent, dispatched) =
        handle_request-test_request host services stringify envelope connect_id box r id v fits in
      let (bytes, body, built, read, inner) =
        test_response-sent host answer id stringify new
          (record {
            message_bytes =
                AllBytes-append echo r.message (all_bytes-AllBytes echo refl) v.message_bytes;
            short = omega (arith, length-append echo r.message, short);
          })
          fits in
      (request, bytes, body, sent, dispatched ∙ rw built, read, inner)

  pub handle_block_request-found :
      (r : BlockRequestTransfer) (file : ServerFileInfo) (content bytes : List ℕ)
      → services.get_by_id (to_int32 r.file_id) ≡ some file
      → services.open_file file.resource_path ≡ some content
      → services.can_allocate r.block_size ≡ true
      → r.block_size < 2 ^ 63
      → r.offset < 2 ^ 63
      → build_block_response_byte_array host
          (record {
            block_id = r.block_id;
            file_id = r.file_id;
            task_id = r.task_id;
            offset = r.offset;
            block_size = r.block_size;
            bytes = resize r.block_size 0 (drop r.offset content);
          })
          id
        ≡ parsed bytes
      → handle_block_request host services r id connect_id box
        ≡ handled (push_reply connect_id bytes box)
  unfolding handle_block_request reply_block reply read_block
  handle_block_request-found r file content bytes known opened gives small positive built =
      rw
        (
          known,
          handle_block_request,
          lt→ltb r.block_size (2 ^ 63) small,
          gives,
          opened,
          lt→ltb r.offset (2 ^ 63) positive,
        )
        (ap (λ m. reply connect_id m box) built)

  -- The frame of a request for a block of two bytes or more that fits, from a client on a machine of the
  -- server's byte order, where the file is known and can be opened, its bytes are bytes, the offset is not
  -- negative and the allocator gives a vector of the size, makes the server push one frame for its
  -- connection, in which the client reads an envelope with the id of the request and, in it, the bytes of
  -- the file from the offset on, filled up with zeros where the file ends before, with the ids, the offset
  -- and the size of the request.
  pub block_served :
      (r : BlockRequestTransfer) (file : ServerFileInfo) (content : List ℕ)
      → IsBlockRequest r
      → services.get_by_id (to_int32 r.file_id) ≡ some file
      → services.open_file file.resource_path ≡ some content
      → services.can_allocate r.block_size ≡ true
      → AllBytes content
      → 2 ≤ r.block_size
      → r.block_size + 200 ≤ 2 ^ 28
      → r.offset < 2 ^ 63
      → (request bytes body : List ℕ) × (build_block_request_byte_array host r id ≡ parsed request)
        × (handle_request host services stringify envelope request connect_id box
            ≡ handled (push_reply connect_id bytes box))
        × (try_parse_byte_array_response host new bytes ≡ parsed (ok_envelope id body))
        × (try_parse_byte_array_block_response host body
            ≡ parsed (record {
              block_id = r.block_id;
              file_id = r.file_id;
              task_id = r.task_id;
              offset = r.offset;
              block_size = r.block_size;
              bytes = resize r.block_size 0 (drop r.offset content);
            }))
  block_served r file content v known opened gives content_bytes several short positive =
      let read_bytes = resize r.block_size 0 (drop r.offset content) in
      let size = length-resize r.block_size 0 (drop r.offset content) in
      let answer : BlockResponseTransfer = record {
        block_id = r.block_id;
        file_id = r.file_id;
        task_id = r.task_id;
        offset = r.offset;
        block_size = r.block_size;
        bytes = read_bytes;
      } in
      let (request, sent, dispatched) =
        handle_request-block_request host services stringify envelope connect_id box r id v fits in
      let (bytes, body, built, read, inner) =
        block_response-sent host answer id new
          (record {
            block_id_fits = v.block_id_fits;
            file_id_fits = v.file_id_fits;
            task_id_fits = v.task_id_fits;
            offset_fits = v.offset_fits;
            block_size_fits = v.block_size_fits;
            bytes_vector = record {
              type_fits = omega arith;
              several = omega (arith, size);
              numbers_fit =
                  AllBytes-resize r.block_size (drop r.offset content)
                    (AllBytes-drop r.offset content content_bytes);
              fits = omega (arith, size);
              wide = omega arith;
              narrow = omega arith;
            };
            short = omega (arith, size);
          })
          fits in
      let done =
        handle_block_request-found r file content bytes known opened gives (omega arith) positive
          built in
      (request, bytes, body, sent, dispatched ∙ done, read, inner)
