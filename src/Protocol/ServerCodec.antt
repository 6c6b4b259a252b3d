-- ===== src/Protocol/ServerCodec.antt =====
-- `ServerMessageCodec` of server_message_codec.cpp. A parser answers `rejected` where the code returns
-- `std::nullopt`.
use project_trans.Base.{ℕ, Option, none, some, List, [], ◌∷◌}
use project_trans.Binary.{Host}
use project_trans.Codec.DataType.{uint8, uint16, uint64, int64}
use project_trans.Codec.Parse.{Parse, parsed, rejected, ◌>>=◌}
use project_trans.Codec.Field.{SerializeField}
use project_trans.Codec.Message.{
  new, default_config, serialize, value_field, string_field, deserialize,
}
use project_trans.Codec.Message.{get_parsed_field, get_serialized_data_vector_build}
use project_trans.Codec.Message.Elements.{serialize_vector, to_string}
use project_trans.Protocol.Names.{version_name, request_id_name, request_type_name, path_name}
use project_trans.Protocol.Names.{content_type_name, body_name, status_name, message_name}
use project_trans.Protocol.Names.{file_id_name, task_id_name, block_id_name, offset_name}
use project_trans.Protocol.Names.{block_size_name, data_name, file_name_name, file_size_name}
use project_trans.Protocol.Names.{md5_code_name}
use project_trans.Protocol.Transfer.{EnvelopeRequestTransfer, EnvelopeResponseTransfer}
use project_trans.Protocol.Transfer.{DownloadRequestTransfer, DownloadResponseTransfer}
use project_trans.Protocol.Transfer.{BlockRequestTransfer, BlockResponseTransfer}
use project_trans.Protocol.Transfer.{TestRequestTransfer, TestResponseTransfer, minus_one, dane_joe}
use project_trans.Protocol.Transfer.{optional_value, required_value, lenient_value, ok}
use project_trans.Protocol.Transfer.{optional_bytes, required_text}
use project_trans.Protocol.ClientCodec.{serialize_int64}

-- A path that is there must not be empty.
unfoldable pub optional_path : (SerializeField → List ℕ) → Option SerializeField → Parse (List ℕ)
optional_path stringify none = parsed []
optional_path stringify (some f) = elim (to_string stringify f) [
  | [] ↦ rejected
  | b ∷ bs ↦ parsed (b ∷ bs)
]

-- `envelope` is the new object, as in the parser of the client.
unfoldable pub try_parse_byte_array_request :
    Host
    → (SerializeField → List ℕ)
    → EnvelopeRequestTransfer
    → List ℕ
    → Parse EnvelopeRequestTransfer
try_parse_byte_array_request host stringify envelope bytes = do
  c ← deserialize host bytes (new default_config)
  version ← optional_value host uint16 2 (get_parsed_field version_name c) envelope.version
  request_id ← optional_value host uint64 8 (get_parsed_field request_id_name c) envelope.request_id
  request_type ←
      optional_value host uint8 1 (get_parsed_field request_type_name c) envelope.request_type
  path ← optional_path stringify (get_parsed_field path_name c)
  content_type ←
      optional_value host uint8 1 (get_parsed_field content_type_name c) envelope.content_type
  body ← optional_bytes host (get_parsed_field body_name c)
  parsed (record {
    version = version;
    request_id = request_id;
    request_type = request_type;
    path = path;
    content_type = content_type;
    body = body;
  })

unfoldable pub try_parse_byte_array_block_request : Host → List ℕ → Parse BlockRequestTransfer
try_parse_byte_array_block_request host bytes = do
  c ← deserialize host bytes (new default_config)
  block_id ← required_value host int64 8 (get_parsed_field block_id_name c)
  file_id ← required_value host int64 8 (get_parsed_field file_id_name c)
  offset ← required_value host int64 8 (get_parsed_field offset_name c)
  block_size ← required_value host int64 8 (get_parsed_field block_size_name c)
  parsed (record {
    block_id = block_id;
    file_id = file_id;
    task_id = lenient_value host int64 8 (get_parsed_field task_id_name c) minus_one;
    offset = offset;
    block_size = block_size;
  })

unfoldable pub try_parse_byte_array_download_request : Host → List ℕ → Parse DownloadRequestTransfer
try_parse_byte_array_download_request host bytes = do
  c ← deserialize host bytes (new default_config)
  file_id ← required_value host int64 8 (get_parsed_field file_id_name c)
  parsed (record {
    file_id = file_id;
    task_id = lenient_value host int64 8 (get_parsed_field task_id_name c) minus_one;
  })

unfoldable pub try_parse_byte_array_test_request :
    Host → (SerializeField → List ℕ) → List ℕ → Parse TestRequestTransfer
try_parse_byte_array_test_request host stringify bytes = do
  c ← deserialize host bytes (new default_config)
  message ← required_text stringify (get_parsed_field message_name c)
  parsed (record { message = message })

unfoldable pub build_response_byte_array : Host → EnvelopeResponseTransfer → Parse (List ℕ)
build_response_byte_array host response = do
  let c0 = new default_config
  let c1 = serialize host (value_field host uint16 2 response.version version_name) c0
  let c2 = serialize host (value_field host uint64 8 response.request_id request_id_name) c1
  let c3 = serialize host (value_field host uint16 2 response.status status_name) c2
  let c4 = serialize host (value_field host uint8 1 response.content_type content_type_name) c3
  c5 ← serialize_vector host uint8 1 response.body body_name c4
  parsed (get_serialized_data_vector_build host c5).0

-- The envelope that each of the three builders fills in.
abbrev pub ok_envelope : ℕ → List ℕ → EnvelopeResponseTransfer
ok_envelope request_id body = record {
  version = 1;
  request_id = request_id;
  status = ok;
  content_type = dane_joe;
  body = body;
}

unfoldable pub build_block_response_byte_array : Host → BlockResponseTransfer → ℕ → Parse (List ℕ)
build_block_response_byte_array host block_response request_id = do
  let c1 = serialize_int64 host block_response.block_id block_id_name (new default_config)
  let c2 = serialize_int64 host block_response.file_id file_id_name c1
  let c3 = serialize_int64 host block_response.task_id task_id_name c2
  let c4 = serialize_int64 host block_response.offset offset_name c3
  let c5 = serialize_int64 host block_response.block_size block_size_name c4
  c6 ← serialize_vector host uint8 1 block_response.bytes data_name c5
  let body = (get_serialized_data_vector_build host c6).0
  build_response_byte_array host (ok_envelope request_id body)

unfoldable pub build_download_response_byte_array :
    Host → DownloadResponseTransfer → ℕ → Parse (List ℕ)
build_download_response_byte_array host download_response request_id =
    let c1 = serialize_int64 host download_response.task_id task_id_name (new default_config) in
    let c2 = serialize_int64 host download_response.file_id file_id_name c1 in
    let c3 = serialize host (string_field download_response.file_name file_name_name) c2 in
    let c4 = serialize_int64 host download_response.file_size file_size_name c3 in
    let c5 = serialize host (string_field download_response.md5_code md5_code_name) c4 in
    let body = (get_serialized_data_vector_build host c5).0 in
    build_response_byte_array host (ok_envelope request_id body)

unfoldable pub build_test_response_byte_array : Host → TestResponseTransfer → ℕ → Parse (List ℕ)
build_test_response_byte_array host test_response request_id =
    let c = serialize host (string_field test_response.message message_name) (new default_config) in
    let body = (get_serialized_data_vector_build host c).0 in
    build_response_byte_array host (ok_envelope request_id body)
