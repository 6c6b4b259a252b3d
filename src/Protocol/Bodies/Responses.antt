-- ===== src/Protocol/Bodies/Responses.antt =====
-- The bodies of the responses: what one side builds the other side reads.
use project_trans.Base.{ℕ, ◌+◌, ◌^◌, ◌≤◌, ◌<◌, ◌≡◌, refl, arith, length, some, List, [], ◌∷◌}
use project_trans.Binary.{Host}
use project_trans.Codec.DataType.{int64, uint8, get_data_type_length}
use project_trans.Codec.Parse.{parsed}
use project_trans.Codec.Field.{SerializeField}
use project_trans.Codec.Message.{default_config, value_field, string_field, get_parsed_field}
use project_trans.Codec.Message.{find_field, same_name}
use project_trans.Codec.Message.Build.{entries}
use project_trans.Codec.Message.RoundTrip.{IsMessage, message}
use project_trans.Codec.Message.Elements.RoundTrip.{vector_field, IsVector, to_array-vector_field}
use project_trans.Codec.Message.Ready.{Prepared-nil, Prepared-value, Prepared-text}
use project_trans.Codec.Message.Ready.{Prepared-vector, received, deserialize-received}
use project_trans.Codec.Message.Ready.{to_string-string_field}
use project_trans.Codec.Message.Bytes.{AllBytes, all_bytes-AllBytes, value_field-IsByteField}
use project_trans.Codec.Message.Bytes.{string_field-IsByteField, vector_field-IsByteField}
use project_trans.Protocol.Names.{file_id_name, task_id_name, block_id_name, offset_name}
use project_trans.Protocol.Names.{block_size_name, data_name, file_name_name, file_size_name}
use project_trans.Protocol.Names.{md5_code_name, message_name}
use project_trans.Protocol.Transfer.{minus_one, optional_text}
use project_trans.Protocol.Transfer.{required_text, required_bytes}
use project_trans.Protocol.Bodies.{IsBody-message, required_value-value_field}
use project_trans.Protocol.Bodies.{lenient_value-value_field}
use project_trans.Protocol.Envelope.{IsBody, optional_value-value_field}
use project_trans.Protocol.Transfer.{DownloadResponseTransfer}
use project_trans.Protocol.ClientCodec.{try_parse_byte_array_download_response}
use project_trans.Protocol.Transfer.{BlockResponseTransfer}
use project_trans.Protocol.ClientCodec.{try_parse_byte_array_block_response}
use project_trans.Protocol.Transfer.{TestResponseTransfer}
use project_trans.Protocol.ClientCodec.{try_parse_byte_array_test_response}

-- The numbers fit their types, the texts and vectors are bytes within the limits of the codec.
pub record IsDownloadResponse (r : DownloadResponseTransfer) : Type 0 where
  pub task_id_fits : r.task_id < 256 ^ 8
  pub file_id_fits : r.file_id < 256 ^ 8
  pub file_name_bytes : AllBytes r.file_name
  pub file_size_fits : r.file_size < 256 ^ 8
  pub md5_code_bytes : AllBytes r.md5_code
  pub short : length r.file_name + length r.md5_code + 200 ≤ 2 ^ 28

module _ (host : Host) (r : DownloadResponseTransfer) (v : IsDownloadResponse r) where
  abbrev pub download_response_fields : List SerializeField
  download_response_fields =
      value_field host int64 8 r.task_id task_id_name
      ∷ value_field host int64 8 r.file_id file_id_name
      ∷ string_field r.file_name file_name_name
      ∷ value_field host int64 8 r.file_size file_size_name
      ∷ string_field r.md5_code md5_code_name
      ∷ []

  pub download_response_fields-IsBody :
      IsMessage default_config download_response_fields
      × IsBody (message host default_config download_response_fields)
  unfolding get_data_type_length
  download_response_fields-IsBody =
      IsBody-message host download_response_fields 5 _
        (Prepared-value task_id_name (omega arith)
          (Prepared-value file_id_name (omega arith)
            (Prepared-text file_name_name (omega arith)
              (Prepared-value file_size_name (omega arith)
                (Prepared-text md5_code_name (omega arith) Prepared-nil r.md5_code
                  (omega (arith, v.short)))
                host int64 8 r.file_size (omega arith) (omega arith) refl)
              r.file_name (omega (arith, v.short)))
            host int64 8 r.file_id (omega arith) (omega arith) refl)
          host int64 8 r.task_id (omega arith) (omega arith) refl)
        (
          value_field-IsByteField host int64 8 r.task_id task_id_name
              (all_bytes-AllBytes task_id_name refl),
          (
            value_field-IsByteField host int64 8 r.file_id file_id_name
                (all_bytes-AllBytes file_id_name refl),
            (
              string_field-IsByteField r.file_name file_name_name
                  (all_bytes-AllBytes file_name_name refl) v.file_name_bytes,
              (
                value_field-IsByteField host int64 8 r.file_size file_size_name
                    (all_bytes-AllBytes file_size_name refl),
                (
                  string_field-IsByteField r.md5_code md5_code_name
                      (all_bytes-AllBytes md5_code_name refl) v.md5_code_bytes,
                  tt,
                ),
              ),
            ),
          ),
        )
        (omega arith) (omega (arith, v.short))

  found_download_response :
      (get_parsed_field task_id_name (received host download_response_fields)
        ≡ some (value_field host int64 8 r.task_id task_id_name))
      × (get_parsed_field file_id_name (received host download_response_fields)
          ≡ some (value_field host int64 8 r.file_id file_id_name))
      × (get_parsed_field file_name_name (received host download_response_fields)
          ≡ some (string_field r.file_name file_name_name))
      × (get_parsed_field file_size_name (received host download_response_fields)
          ≡ some (value_field host int64 8 r.file_size file_size_name))
      × (get_parsed_field md5_code_name (received host download_response_fields)
          ≡ some (string_field r.md5_code md5_code_name))
  unfolding get_parsed_field find_field same_name entries value_field string_field vector_field
  found_download_response = (refl, refl, refl, refl, refl)

  pub parse_download_response-message :
      (stringify : SerializeField → List ℕ)
      → try_parse_byte_array_download_response host stringify
          (message host default_config download_response_fields)
        ≡ parsed r
  unfolding try_parse_byte_array_download_response optional_text
  parse_download_response-message stringify =
      let found = found_download_response in
      rw (
        deserialize-received host download_response_fields download_response_fields-IsBody.0,
        found.0,
        lenient_value-value_field host int64 8 r.task_id task_id_name minus_one v.task_id_fits,
        found.1,
        optional_value-value_field host int64 8 r.file_id file_id_name minus_one v.file_id_fits,
        found.2,
        to_string-string_field stringify r.file_name file_name_name,
        found.3,
        optional_value-value_field host int64 8 r.file_size file_size_name 0 v.file_size_fits,
        found.4,
        to_string-string_field stringify r.md5_code md5_code_name,
      )

-- The numbers fit their types, the texts and vectors are bytes within the limits of the codec.
pub record IsBlockResponse (r : BlockResponseTransfer) : Type 0 where
  pub block_id_fits : r.block_id < 256 ^ 8
  pub file_id_fits : r.file_id < 256 ^ 8
  pub task_id_fits : r.task_id < 256 ^ 8
  pub offset_fits : r.offset < 256 ^ 8
  pub block_size_fits : r.block_size < 256 ^ 8
  pub bytes_vector : IsVector uint8 1 r.bytes
  pub short : length r.bytes + 200 ≤ 2 ^ 28

module _ (host : Host) (r : BlockResponseTransfer) (v : IsBlockResponse r) where
  abbrev pub block_response_fields : List SerializeField
  block_response_fields =
      value_field host int64 8 r.block_id block_id_name
      ∷ value_field host int64 8 r.file_id file_id_name
      ∷ value_field host int64 8 r.task_id task_id_name
      ∷ value_field host int64 8 r.offset offset_name
      ∷ value_field host int64 8 r.block_size block_size_name
      ∷ vector_field uint8 1 r.bytes data_name
      ∷ []

  pub block_response_fields-IsBody :
      IsMessage default_config block_response_fields
      × IsBody (message host default_config block_response_fields)
  unfolding get_data_type_length
  block_response_fields-IsBody =
      IsBody-message host block_response_fields 6 _
        (Prepared-value block_id_name (omega arith)
          (Prepared-value file_id_name (omega arith)
            (Prepared-value task_id_name (omega arith)
              (Prepared-value offset_name (omega arith)
                (Prepared-value block_size_name (omega arith)
                  (Prepared-vector data_name (omega arith) Prepared-nil uint8 1 r.bytes
                    v.bytes_vector (omega (arith, v.short)))
                  host int64 8 r.block_size (omega arith) (omega arith) refl)
                host int64 8 r.offset (omega arith) (omega arith) refl)
              host int64 8 r.task_id (omega arith) (omega arith) refl)
            host int64 8 r.file_id (omega arith) (omega arith) refl)
          host int64 8 r.block_id (omega arith) (omega arith) refl)
        (
          value_field-IsByteField host int64 8 r.block_id block_id_name
              (all_bytes-AllBytes block_id_name refl),
          (
            value_field-IsByteField host int64 8 r.file_id file_id_name
                (all_bytes-AllBytes file_id_name refl),
            (
              value_field-IsByteField host int64 8 r.task_id task_id_name
                  (all_bytes-AllBytes task_id_name refl),
              (
                value_field-IsByteField host int64 8 r.offset offset_name
                    (all_bytes-AllBytes offset_name refl),
                (
                  value_field-IsByteField host int64 8 r.block_size block_size_name
                      (all_bytes-AllBytes block_size_name refl),
                  (
                    vector_field-IsByteField uint8 1 r.bytes data_name
                        (all_bytes-AllBytes data_name refl),
                    tt,
                  ),
                ),
              ),
            ),
          ),
        )
        (omega arith) (omega (arith, v.short))

  found_block_response :
      (get_parsed_field block_id_name (received host block_response_fields)
        ≡ some (value_field host int64 8 r.block_id block_id_name))
      × (get_parsed_field file_id_name (received host block_response_fields)
          ≡ some (value_field host int64 8 r.file_id file_id_name))
      × (get_parsed_field task_id_name (received host block_response_fields)
          ≡ some (value_field host int64 8 r.task_id task_id_name))
      × (get_parsed_field offset_name (received host block_response_fields)
          ≡ some (value_field host int64 8 r.offset offset_name))
      × (get_parsed_field block_size_name (received host block_response_fields)
          ≡ some (value_field host int64 8 r.block_size block_size_name))
      × (get_parsed_field data_name (received host block_response_fields)
          ≡ some (vector_field uint8 1 r.bytes data_name))
  unfolding get_parsed_field find_field same_name entries value_field string_field vector_field
  found_block_response = (refl, refl, refl, refl, refl, refl)

  pub parse_block_response-message :
      try_parse_byte_array_block_response host (message host default_config block_response_fields)
      ≡ parsed r
  unfolding try_parse_byte_array_block_response required_bytes
  parse_block_response-message =
      let found = found_block_response in
      rw (
        deserialize-received host block_response_fields block_response_fields-IsBody.0,
        found.0,
        required_value-value_field host int64 8 r.block_id block_id_name v.block_id_fits,
        found.1,
        required_value-value_field host int64 8 r.file_id file_id_name v.file_id_fits,
        found.2,
        lenient_value-value_field host int64 8 r.task_id task_id_name minus_one v.task_id_fits,
        found.3,
        required_value-value_field host int64 8 r.offset offset_name v.offset_fits,
        found.4,
        required_value-value_field host int64 8 r.block_size block_size_name v.block_size_fits,
        found.5,
        to_array-vector_field uint8 1 r.bytes v.bytes_vector host data_name,
      )

-- The numbers fit their types, the texts and vectors are bytes within the limits of the codec.
pub record IsTestResponse (r : TestResponseTransfer) : Type 0 where
  pub message_bytes : AllBytes r.message
  pub short : length r.message + 200 ≤ 2 ^ 28

module _ (host : Host) (r : TestResponseTransfer) (v : IsTestResponse r) where
  abbrev pub test_response_fields : List SerializeField
  test_response_fields = string_field r.message message_name ∷ []

  pub test_response_fields-IsBody :
      IsMessage default_config test_response_fields
      × IsBody (message host default_config test_response_fields)
  unfolding get_data_type_length
  test_response_fields-IsBody =
      IsBody-message host test_response_fields 1 _
        (Prepared-text message_name (omega arith) Prepared-nil r.message (omega (arith, v.short)))
        (
          string_field-IsByteField r.message message_name (all_bytes-AllBytes message_name refl)
              v.message_bytes,
          tt,
        )
        (omega arith) (omega (arith, v.short))

  found_test_response :
      get_parsed_field message_name (received host test_response_fields)
      ≡ some (string_field r.message message_name)
  unfolding get_parsed_field find_field same_name entries value_field string_field vector_field
  found_test_response = refl

  pub parse_test_response-message :
      (stringify : SerializeField → List ℕ)
      → try_parse_byte_array_test_response host stringify
          (message host default_config test_response_fields)
        ≡ parsed r
  unfolding try_parse_byte_array_test_response required_text
  parse_test_response-message stringify =
      let found = found_test_response in
      rw (
        deserialize-received host test_response_fields test_response_fields-IsBody.0,
        found,
        to_string-string_field stringify r.message message_name,
      )
