-- ===== src/Protocol/ClientCodec.antt =====
-- `ClientMessageCodec` of client_message_codec.cpp. A parser answers `rejected` where the code returns
-- `std::nullopt`.
use project_trans.Base.{ℕ, List}
use project_trans.Binary.{Host}
use project_trans.Codec.DataType.{uint8, uint16, uint64, int64}
use project_trans.Codec.Parse.{Parse, parsed, ◌>>=◌}
use project_trans.Codec.Field.{SerializeField}
use project_trans.Codec.Message.{
  SerializeCodec, new, default_config, serialize, value_field, string_field, deserialize,
}
use project_trans.Codec.Message.{get_parsed_field, get_serialized_data_vector_build}
use project_trans.Codec.Message.Elements.{serialize_vector}
use project_trans.Protocol.Names.{version_name, request_id_name, request_type_name, path_name}
use project_trans.Protocol.Names.{content_type_name, body_name, status_name, message_name}
use project_trans.Protocol.Names.{file_id_name, task_id_name, block_id_name, offset_name}
use project_trans.Protocol.Names.{block_size_name, data_name, file_name_name, file_size_name}
use project_trans.Protocol.Names.{md5_code_name, download_path, test_path, block_path}
use project_trans.Protocol.Transfer.{EnvelopeRequestTransfer, EnvelopeResponseTransfer}
use project_trans.Protocol.Transfer.{DownloadRequestTransfer, DownloadResponseTransfer}
use project_trans.Protocol.Transfer.{BlockRequestTransfer, BlockResponseTransfer}
use project_trans.Protocol.Transfer.{TestRequestTransfer, TestResponseTransfer, minus_one, dane_joe}
use project_trans.Protocol.Transfer.{optional_value, required_value, lenient_value, optional_text}
use project_trans.Protocol.Transfer.{optional_bytes, required_bytes, required_text}

-- `serializer.serialize(number, name)` for an `int64_t`.
abbrev pub serialize_int64 : Host → ℕ → List ℕ → SerializeCodec → SerializeCodec
serialize_int64 host n name c = serialize host (value_field host int64 8 n name) c

-- `envelope` is the new object: its numbers have no initial value, and the message may leave them so.
unfoldable pub try_parse_byte_array_response :
    Host → EnvelopeResponseTransfer → List ℕ → Parse EnvelopeResponseTransfer
try_parse_byte_array_response host envelope bytes = do
  c ← deserialize host bytes (new default_config)
  version ← optional_value host uint16 2 (get_parsed_field version_name c) envelope.version
  request_id ← optional_value host uint64 8 (get_parsed_field request_id_name c) envelope.request_id
  status ← optional_value host uint16 2 (get_parsed_field status_name c) envelope.status
  content_type ←
      optional_value host uint8 1 (get_parsed_field content_type_name c) envelope.content_type
  body ← optional_bytes host (get_parsed_field body_name c)
  parsed (record {
    version = version;
    request_id = request_id;
    status = status;
    content_type = content_type;
    body = body;
  })

unfoldable pub try_parse_byte_array_download_response :
    Host → (SerializeField → List ℕ) → List ℕ → Parse DownloadResponseTransfer
try_parse_byte_array_download_response host stringify bytes = do
  c ← deserialize host bytes (new default_config)
  file_id ← optional_value host int64 8 (get_parsed_field file_id_name c) minus_one
  file_size ← optional_value host int64 8 (get_parsed_field file_size_name c) 0
  parsed (record {
    file_id = file_id;
    task_id = lenient_value host int64 8 (get_parsed_field task_id_name c) minus_one;
    file_name = optional_text stringify (get_parsed_field file_name_name c);
    file_size = file_size;
    md5_code = optional_text stringify (get_parsed_field md5_code_name c);
  })

unfoldable pub try_parse_byte_array_block_response : Host → List ℕ → Parse BlockResponseTransfer
try_parse_byte_array_block_response host bytes = do
  c ← deserialize host bytes (new default_config)
  block_id ← required_value host int64 8 (get_parsed_field block_id_name c)
  file_id ← required_value host int64 8 (get_parsed_field file_id_name c)
  offset ← required_value host int64 8 (get_parsed_field offset_name c)
  block_size ← required_value host int64 8 (get_parsed_field block_size_name c)
  read ← required_bytes host (get_parsed_field data_name c)
  parsed (record {
    block_id = block_id;
    file_id = file_id;
    task_id = lenient_value host int64 8 (get_parsed_field task_id_name c) minus_one;
    offset = offset;
    block_size = block_size;
    bytes = read;
  })

unfoldable pub try_parse_byte_array_test_response :
    Host → (SerializeField → List ℕ) → List ℕ → Parse TestResponseTransfer
try_parse_byte_array_test_response host stringify bytes = do
  c ← deserialize host bytes (new default_config)
  message ← required_text stringify (get_parsed_field message_name c)
  parsed (record { message = message })

unfoldable pub build_request_byte_array : Host → EnvelopeRequestTransfer → Parse (List ℕ)
build_request_byte_array host info = do
  let c0 = new default_config
  let c1 = serialize host (value_field host uint16 2 info.version version_name) c0
  let c2 = serialize host (value_field host uint64 8 info.request_id request_id_name) c1
  let c3 = serialize host (value_field host uint8 1 info.request_type request_type_name) c2
  let c4 = serialize host (string_field info.path path_name) c3
  let c5 = serialize host (value_field host uint8 1 info.content_type content_type_name) c4
  c6 ← serialize_vector host uint8 1 info.body body_name c5
  parsed (get_serialized_data_vector_build host c6).0

unfoldable pub build_test_request_byte_array : Host → TestRequestTransfer → ℕ → Parse (List ℕ)
build_test_request_byte_array host test_request request_id =
    let c = serialize host (string_field test_request.message message_name) (new default_config) in
    let body = (get_serialized_data_vector_build host c).0 in
    build_request_byte_array host (record {
      version = 1;
      request_id = request_id;
      request_type = 1;
      path = test_path;
      content_type = dane_joe;
      body = body;
    })

unfoldable pub build_download_request_byte_array :
    Host → DownloadRequestTransfer → ℕ → Parse (List ℕ)
build_download_request_byte_array host download_request request_id =
    let c1 = serialize_int64 host download_request.file_id file_id_name (new default_config) in
    let c2 = serialize_int64 host download_request.task_id task_id_name c1 in
    let body = (get_serialized_data_vector_build host c2).0 in
    build_request_byte_array host (record {
      version = 1;
      request_id = request_id;
      request_type = 0;
      path = download_path;
      content_type = dane_joe;
      body = body;
    })

unfoldable pub build_block_request_byte_array : Host → BlockRequestTransfer → ℕ → Parse (List ℕ)
build_block_request_byte_array host block_request request_id =
    let c1 = serialize_int64 host block_request.block_id block_id_name (new default_config) in
    let c2 = serialize_int64 host block_request.file_id file_id_name c1 in
    let c3 = serialize_int64 host block_request.task_id task_id_name c2 in
    let c4 = serialize_int64 host block_request.offset offset_name c3 in
    let c5 = serialize_int64 host block_request.block_size block_size_name c4 in
    let body = (get_serialized_data_vector_build host c5).0 in
    build_request_byte_array host (record {
      version = 1;
      request_id = request_id;
      request_type = 0;
      path = block_path;
      content_type = dane_joe;
      body = body;
    })
