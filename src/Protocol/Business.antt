-- ===== src/Protocol/Business.antt =====
-- `BusinessRuntime` of business_runtime.cpp, which answers the requests that the mail box hands on.
pub mod Replies
pub mod Dispatch
pub mod Served
pub mod Download
pub mod Refused
pub mod Lost
mod Tests
use project_trans.Base.{ℕ, ◌+◌, ◌-◌, ◌%◌, ◌^◌, ltb, if◌then◌else◌, Bool, ◌&&◌, Option, none, some}
use project_trans.Base.{List, [], ◌++◌, drop, resize}
use project_trans.Binary.{Host}
use project_trans.Codec.Parse.{Parse, parsed, rejected, out_of_range}
use project_trans.Codec.Field.{SerializeField}
use project_trans.Codec.Message.{same_name}
use project_trans.MailBox.{MailBox, PosixFrame, push_to_client_frame, server_section}
use project_trans.MailBox.{pop_from_to_server_frame}
use project_trans.Concurrent.Mpmc.{Next, returns, item}
use project_trans.Protocol.Names.{download_path, test_path, block_path, echo}
use project_trans.Protocol.Transfer.{EnvelopeRequestTransfer, DownloadRequestTransfer}
use project_trans.Protocol.Transfer.{BlockRequestTransfer, TestRequestTransfer}
use project_trans.Protocol.ServerCodec.{try_parse_byte_array_request}
use project_trans.Protocol.ServerCodec.{try_parse_byte_array_download_request}
use project_trans.Protocol.ServerCodec.{try_parse_byte_array_block_request}
use project_trans.Protocol.ServerCodec.{try_parse_byte_array_test_request}
use project_trans.Protocol.ServerCodec.{build_download_response_byte_array}
use project_trans.Protocol.ServerCodec.{build_block_response_byte_array}
use project_trans.Protocol.ServerCodec.{build_test_response_byte_array}

-- `file_id` is the bit pattern of an `int32_t`, `file_size` an `uint32_t`.
pub record ServerFileInfo : Type 0 where
  pub file_id : ℕ
  pub file_name : List ℕ
  pub resource_path : List ℕ
  pub file_size : ℕ
  pub md5_code : List ℕ

-- What the runtime asks of the file information service (`get_by_id` takes the pattern of an
-- `int32_t`), of the file system (the bytes of a file that can be opened) and of the allocator
-- (whether it gives a vector of so many bytes).
pub record Services : Type 0 where
  pub get_by_id : ℕ → Option ServerFileInfo
  pub open_file : List ℕ → Option (List ℕ)
  pub can_allocate : ℕ → Bool

-- How handling ends: with the mail box (there may be none), with a read outside a buffer, or with an
-- exception of the allocator.
pub data Handled : Type 0 where
  handled : Option MailBox → Handled
  undefined : Handled
  thrown : Handled

-- The conversions from `int64_t` to `int32_t` and back.
abbrev pub to_int32 : ℕ → ℕ
to_int32 n = n % 2 ^ 32

abbrev pub from_int32 : ℕ → ℕ
from_int32 n = if ltb n (2 ^ 31) then n else n + (2 ^ 64 - 2 ^ 32)

-- `if (m_reactor_mail_box) m_reactor_mail_box->push_to_client_frame({ connect_id, data });`
unfoldable pub push_reply : ℕ → List ℕ → Option MailBox → Option MailBox
push_reply connect_id bytes none = none
push_reply connect_id bytes (some box) =
    some (push_to_client_frame (record { connect_id = connect_id; bytes = bytes }) box)

unfoldable pub reply : ℕ → Parse (List ℕ) → Option MailBox → Handled
reply connect_id (parsed bytes) box = handled (push_reply connect_id bytes box)
reply connect_id rejected box = undefined
reply connect_id out_of_range box = undefined

-- The bytes of the response: a vector of zeros, over whose front `read` puts what the file has from
-- the offset on. A negative offset fails, and then `read` does nothing.
unfoldable pub read_block : List ℕ → ℕ → ℕ → List ℕ
read_block content offset size =
    resize size 0 (if ltb offset (2 ^ 63) then drop offset content else [])

abbrev pub handle_unknown_request : Option MailBox → Handled
handle_unknown_request box = handled box

module _ (host : Host) (services : Services) where
  unfoldable pub handle_download_request :
      DownloadRequestTransfer → ℕ → ℕ → Option MailBox → Handled
  handle_download_request request request_id connect_id box =
      elim (services.get_by_id (to_int32 request.file_id)) [
        | none ↦
            reply connect_id
              (build_download_response_byte_array host
                (record {
                  file_id = request.file_id;
                  task_id = request.task_id;
                  file_name = [];
                  file_size = 0;
                  md5_code = [];
                })
                request_id)
              box
        | some file ↦
            reply connect_id
              (build_download_response_byte_array host
                (record {
                  file_id = from_int32 file.file_id;
                  task_id = request.task_id;
                  file_name = file.file_name;
                  file_size = file.file_size;
                  md5_code = file.md5_code;
                })
                request_id)
              box
      ]

  unfoldable pub handle_test_request : TestRequestTransfer → ℕ → ℕ → Option MailBox → Handled
  handle_test_request request request_id connect_id box =
      reply connect_id
        (build_test_response_byte_array host (record { message = echo ++ request.message })
          request_id)
        box

  -- The response with the bytes that were read, or with none.
  unfoldable pub reply_block : BlockRequestTransfer → ℕ → List ℕ → ℕ → ℕ → Option MailBox → Handled
  reply_block request block_size bytes request_id connect_id box =
      reply connect_id
        (build_block_response_byte_array host
          (record {
            block_id = request.block_id;
            file_id = request.file_id;
            task_id = request.task_id;
            offset = request.offset;
            block_size = block_size;
            bytes = bytes;
          })
          request_id)
        box

  unfoldable pub handle_block_request : BlockRequestTransfer → ℕ → ℕ → Option MailBox → Handled
  handle_block_request request request_id connect_id box =
      elim (services.get_by_id (to_int32 request.file_id)) [
        | none ↦ reply_block request 0 [] request_id connect_id box
        | some file ↦
            if ltb request.block_size (2 ^ 63) && services.can_allocate request.block_size
            then elim (services.open_file file.resource_path) [
              | none ↦ reply_block request 0 [] request_id connect_id box
              | some content ↦
                  reply_block request request.block_size
                    (read_block content request.offset request.block_size) request_id connect_id box
            ]
            else thrown
      ]

  -- What is parsed goes on, `std::nullopt` ends the handling.
  unfoldable pub with_parsed {ℓ} : {A : Type ℓ} → Parse A → (A → Handled) → Option MailBox → Handled
  with_parsed (parsed a) next box = next a
  with_parsed rejected next box = handled box
  with_parsed out_of_range next box = undefined

  -- `stringify` and `envelope` are those of the parser.
  unfoldable pub dispatch :
      (SerializeField → List ℕ) → EnvelopeRequestTransfer → ℕ → Option MailBox → Handled
  dispatch stringify request connect_id box =
      if same_name request.path download_path
      then with_parsed (try_parse_byte_array_download_request host request.body)
          (λ r. handle_download_request r request.request_id connect_id box) box
      else (if same_name request.path test_path
          then with_parsed (try_parse_byte_array_test_request host stringify request.body)
              (λ r. handle_test_request r request.request_id connect_id box) box
          else (if same_name request.path block_path
              then with_parsed (try_parse_byte_array_block_request host request.body)
                  (λ r. handle_block_request r request.request_id connect_id box) box
              else handle_unknown_request box))

  unfoldable pub handle_request :
      (SerializeField → List ℕ) → EnvelopeRequestTransfer → List ℕ → ℕ → Option MailBox → Handled
  handle_request stringify envelope frame connect_id box =
      with_parsed (try_parse_byte_array_request host stringify envelope frame)
        (λ request. dispatch stringify request connect_id box) box

  -- One round of the loop of `run`: the section of the pop, and the handling of what it returned. A
  -- pop that waits or returns nothing leaves the round with the next one to come.
  unfoldable pub after_pop :
      (SerializeField → List ℕ) → EnvelopeRequestTransfer → Next PosixFrame → MailBox → Handled
  after_pop stringify envelope (returns (item (some frame))) box =
      handle_request stringify envelope frame.bytes frame.connect_id (some box)
  after_pop stringify envelope next box = handled (some box)

  unfoldable pub run_round : (SerializeField → List ℕ) → EnvelopeRequestTransfer → MailBox → Handled
  run_round stringify envelope box =
      let (o, b) = server_section pop_from_to_server_frame box in
      after_pop stringify envelope o.next b
