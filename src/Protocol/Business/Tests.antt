-- ===== src/Protocol/Business/Tests.antt =====
-- A server with one file of three bytes, and a client that asks for it.
use project_trans.Base.{ℕ, ◌≡◌, refl, arith, ltb, ◌==◌, if◌then◌else◌}
use project_trans.Base.{none, some, some-injective, List, [], ◌∷◌, subst}
use project_trans.Binary.{little}
use project_trans.Codec.Parse.{parsed, rejected}
use project_trans.Codec.Field.{SerializeField}
use project_trans.Codec.Message.Bytes.{all_bytes-AllBytes}
use project_trans.Base.{append-nil, false, ◌++◌}
use project_trans.Frame
use project_trans.Frame.{FrameAssembler}
use project_trans.Frame.Refine.{pending, new-IsValid}
use project_trans.Concurrent.Mpmc
use project_trans.Concurrent.Mpmc.{Call}
use project_trans.Session.{connected}
use project_trans.Session.Writable.{Connection, EventLoop, set_context}
use project_trans.Session.Readable.{readable_event, run_calls}
use project_trans.Protocol.Bodies.Sent.{block_envelope, block_request-sent}
use project_trans.Protocol.Reactor.{block_round_trip}
use project_trans.Protocol.Business.{run_round}
use project_trans.Protocol.Business.Replies.{frame_for}
use project_trans.MailBox.{PosixFrame, find, MailBox}
use project_trans.MailBox.{new}
use project_trans.Protocol.Transfer.{EnvelopeRequestTransfer, EnvelopeResponseTransfer}
use project_trans.Protocol.Transfer.{DownloadRequestTransfer, BlockRequestTransfer}
use project_trans.Protocol.ClientCodec.{build_download_request_byte_array}
use project_trans.Protocol.ClientCodec.{build_block_request_byte_array}
use project_trans.Protocol.ClientCodec.{try_parse_byte_array_response}
use project_trans.Protocol.ClientCodec.{try_parse_byte_array_download_response}
use project_trans.Protocol.ClientCodec.{try_parse_byte_array_block_response}
use project_trans.Protocol.ServerCodec.{ok_envelope, try_parse_byte_array_request, optional_path}
use project_trans.Protocol.Transfer.{optional_value, optional_bytes}
use project_trans.Codec.Message.{deserialize, get_message_header, get_parsed_field, find_field}
use project_trans.Codec.Message.{same_name}
use project_trans.Protocol.Bodies.Requests.{IsDownloadRequest, IsBlockRequest}
use project_trans.Protocol.Business.{Services, ServerFileInfo, handled, handle_request}
use project_trans.Protocol.Business.{to_int32, with_parsed, dispatch}
use project_trans.Protocol.Business.Download.{IsFileInfo, download_answer, download_served}
use project_trans.Protocol.Business.Refused.{block_unknown_refused}
use project_trans.Protocol.Business.Lost.{block_of_one_lost}
use project_trans.Protocol.Business.Replies.{Answers, handle_request_answers}

abbrev file : ServerFileInfo
file = record {
  file_id = 7;
  file_name = 97 ∷ [];
  resource_path = 47 ∷ 97 ∷ [];
  file_size = 3;
  md5_code = 99 ∷ [];
}

abbrev content : List ℕ
content = 10 ∷ 20 ∷ 30 ∷ []

abbrev services : Services
services = record {
  get_by_id = λ id. if id == 7 then some file else none;
  open_file = λ path. some content;
  can_allocate = λ n. ltb n 1024;
}

abbrev plain : SerializeField → List ℕ
plain f = []

abbrev blank_request : EnvelopeRequestTransfer
blank_request = record {
  version = 0;
  request_id = 0;
  request_type = 0;
  path = [];
  content_type = 0;
  body = [];
}

abbrev blank_response : EnvelopeResponseTransfer
blank_response = record { version = 0; request_id = 0; status = 0; content_type = 0; body = [] }

-- A server with the connection 4 at the descriptor 3.
abbrev connection : Connection
connection = record { connect_id = 4; sender = connected; assembler = Frame.new }

abbrev loop : EventLoop
loop = record {
  connect_contexts = λ fd. if fd == 3 then some connection else none;
  mail_box = record {
    has_event_handle = false;
    events = 0;
    to_server = Mpmc.new 50;
    to_client = (4, []) ∷ [];
  };
}

has_queue : find 4 loop.mail_box.to_client ≡ some []
unfolding find
has_queue = refl

abbrev download : DownloadRequestTransfer
download = record { file_id = 7; task_id = 5 }

download-IsDownloadRequest : IsDownloadRequest download
download-IsDownloadRequest = record { file_id_fits = omega arith; task_id_fits = omega arith }

file-IsFileInfo : IsFileInfo file
file-IsFileInfo = record {
  id_fits = omega arith;
  size_fits = omega arith;
  name_bytes = all_bytes-AllBytes (97 ∷ []) refl;
  md5_bytes = all_bytes-AllBytes (99 ∷ []) refl;
  short = omega arith;
}

download_served_example :
    (request bytes body : List ℕ) × (after : MailBox) × (build_download_request_byte_array little
        download 9
      ≡ parsed request)
    × (handle_request little services plain blank_request request 4 (some loop.mail_box)
        ≡ handled (some after))
    × (find 4 after.to_client ≡ some ([] ++ (frame_for 4 bytes ∷ [])))
    × (try_parse_byte_array_response little blank_response bytes ≡ parsed (ok_envelope 9 body))
    × (try_parse_byte_array_download_response little plain body
        ≡ parsed (download_answer (services.get_by_id (to_int32 7)) download))
download_served_example =
    download_served little services plain blank_request blank_response 4 loop.mail_box [] has_queue
      9 (omega arith) download download-IsDownloadRequest known
  where
    known : (f : ServerFileInfo) → services.get_by_id (to_int32 7) ≡ some f → IsFileInfo f
    known f e = subst IsFileInfo (some-injective file f e) file-IsFileInfo

-- Two bytes from the last byte of the file on.
abbrev block : BlockRequestTransfer
block = record { block_id = 1; file_id = 7; task_id = 5; offset = 2; block_size = 2 }

block-IsBlockRequest : IsBlockRequest block
block-IsBlockRequest = record {
  block_id_fits = omega arith;
  file_id_fits = omega arith;
  task_id_fits = omega arith;
  offset_fits = omega arith;
  block_size_fits = omega arith;
}

-- The bytes of the request.
sent :
    (request : List ℕ) × (build_block_request_byte_array little block 9 ≡ parsed request)
    × (try_parse_byte_array_request little plain blank_request request
        ≡ parsed (block_envelope little block block-IsBlockRequest 9 (omega arith)))
sent = block_request-sent little block block-IsBlockRequest 9 (omega arith) plain blank_request

nothing_pending : pending Frame.new ≡ []
unfolding pending
nothing_pending = refl

block_round_trip_example :
    (s : FrameAssembler) × (calls : List (Call PosixFrame)) × (bytes body : List ℕ)
    × (after : MailBox) × (readable_event little (sent.0 ∷ []) false 3 loop
        ≡ some (set_context 3 (some (record connection { assembler = s })) loop, calls))
    × (pending s ≡ [])
    × (run_round little services plain blank_request (run_calls calls loop.mail_box)
        ≡ handled (some after))
    × (find 4 after.to_client ≡ some ([] ++ (frame_for 4 bytes ∷ [])))
    × (after.to_server.items ≡ [])
    × (try_parse_byte_array_response little blank_response bytes ≡ parsed (ok_envelope 9 body))
    × (try_parse_byte_array_block_response little body
        ≡ parsed (record {
          block_id = 1;
          file_id = 7;
          task_id = 5;
          offset = 2;
          block_size = 2;
          bytes = 30 ∷ 0 ∷ [];
        }))
block_round_trip_example =
    block_round_trip little services plain blank_request blank_response 9 (omega arith) block file
      content sent.0 (sent.0 ∷ []) 3 loop connection [] block-IsBlockRequest refl refl refl
      (all_bytes-AllBytes content refl) (omega arith) (omega arith) (omega arith) sent.1
      (append-nil sent.0) refl (new-IsValid little) nothing_pending refl refl (omega arith)
      has_queue

-- A block of a file that the server does not know.
abbrev unknown_block : BlockRequestTransfer
unknown_block = record block { file_id = 8 }

unknown_block-IsBlockRequest : IsBlockRequest unknown_block
unknown_block-IsBlockRequest = record {
  block_id_fits = omega arith;
  file_id_fits = omega arith;
  task_id_fits = omega arith;
  offset_fits = omega arith;
  block_size_fits = omega arith;
}

block_unknown_refused_example :
    (request bytes body : List ℕ) × (after : MailBox) × (build_block_request_byte_array little
        unknown_block 9
      ≡ parsed request)
    × (handle_request little services plain blank_request request 4 (some loop.mail_box)
        ≡ handled (some after))
    × (find 4 after.to_client ≡ some ([] ++ (frame_for 4 bytes ∷ [])))
    × (try_parse_byte_array_response little blank_response bytes ≡ parsed (ok_envelope 9 body))
    × (try_parse_byte_array_block_response little body ≡ rejected)
block_unknown_refused_example =
    block_unknown_refused little services plain blank_request blank_response 4 loop.mail_box []
      has_queue 9 (omega arith) unknown_block unknown_block-IsBlockRequest refl

-- The last byte of the file.
abbrev last_block : BlockRequestTransfer
last_block = record block { block_size = 1 }

last_block-IsBlockRequest : IsBlockRequest last_block
last_block-IsBlockRequest = record {
  block_id_fits = omega arith;
  file_id_fits = omega arith;
  task_id_fits = omega arith;
  offset_fits = omega arith;
  block_size_fits = omega arith;
}

block_of_one_lost_example :
    (request bytes body : List ℕ) × (after : MailBox) × (build_block_request_byte_array little
        last_block 9
      ≡ parsed request)
    × (handle_request little services plain blank_request request 4 (some loop.mail_box)
        ≡ handled (some after))
    × (find 4 after.to_client ≡ some ([] ++ (frame_for 4 bytes ∷ [])))
    × (try_parse_byte_array_response little blank_response bytes ≡ parsed (ok_envelope 9 body))
    × (try_parse_byte_array_block_response little body
        ≡ parsed (record {
          block_id = 1;
          file_id = 7;
          task_id = 5;
          offset = 2;
          block_size = 1;
          bytes = [];
        }))
block_of_one_lost_example =
    block_of_one_lost little services plain blank_request blank_response 4 loop.mail_box []
      has_queue 9 (omega arith) last_block file content last_block-IsBlockRequest refl refl refl
      refl (omega arith)

-- A frame that is no message is left unanswered.
no_message :
    handle_request little services plain blank_request (1 ∷ []) 4 (some new) ≡ handled (some new)
unfolding handle_request dispatch with_parsed try_parse_byte_array_request deserialize
    get_message_header get_parsed_field find_field optional_value optional_path optional_bytes
    same_name project_trans.Codec.Message.new
no_message = refl

handle_request_answers_example : Answers 4 new new
handle_request_answers_example =
    handle_request_answers little services plain blank_request (1 ∷ []) 4 new new no_message
