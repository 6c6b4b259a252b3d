-- ===== src/Protocol/Bodies/Requests.antt =====
-- The bodies of the requests: what one side builds the other side reads.
use project_trans.Base.{ℕ, ◌+◌, ◌^◌, ◌≤◌, ◌<◌, ◌≡◌, refl, arith, length, some, List, [], ◌∷◌}
use project_trans.Binary.{Host}
use project_trans.Codec.DataType.{int64, get_data_type_length}
use project_trans.Codec.Parse.{parsed}
use project_trans.Codec.Field.{SerializeField}
use project_trans.Codec.Message.{default_config, value_field, string_field, get_parsed_field}
use project_trans.Codec.Message.{find_field, same_name}
use project_trans.Codec.Message.Build.{entries}
use project_trans.Codec.Message.RoundTrip.{IsMessage, message}
use project_trans.Codec.Message.Elements.RoundTrip.{vector_field}
use project_trans.Codec.Message.Ready.{Prepared-nil, Prepared-value, Prepared-text}
use project_trans.Codec.Message.Ready.{received, deserialize-received}
use project_trans.Codec.Message.Ready.{to_string-string_field}
use project_trans.Codec.Message.Bytes.{AllBytes, all_bytes-AllBytes, value_field-IsByteField}
use project_trans.Codec.Message.Bytes.{string_field-IsByteField}
use project_trans.Protocol.Names.{file_id_name, task_id_name, block_id_name, offset_name}
use project_trans.Protocol.Names.{block_size_name}
use project_trans.Protocol.Names.{message_name}
use project_trans.Protocol.Transfer.{minus_one}
use project_trans.Protocol.Transfer.{required_text}
use project_trans.Protocol.Bodies.{IsBody-message, required_value-value_field}
use project_trans.Protocol.Bodies.{lenient_value-value_field}
use project_trans.Protocol.Envelope.{IsBody}
use project_trans.Protocol.Transfer.{DownloadRequestTransfer}
use project_trans.Protocol.ServerCodec.{try_parse_byte_array_download_request}
use project_trans.Protocol.Transfer.{BlockRequestTransfer}
use project_trans.Protocol.ServerCodec.{try_parse_byte_array_block_request}
use project_trans.Protocol.Transfer.{TestRequestTransfer}
use project_trans.Protocol.ServerCodec.{try_parse_byte_array_test_request}

-- The numbers fit their types.
pub record IsDownloadRequest (r : DownloadRequestTransfer) : Type 0 where
  pub file_id_fits : r.file_id < 256 ^ 8
  pub task_id_fits : r.task_id < 256 ^ 8

module _ (host : Host) (r : DownloadRequestTransfer) (v : IsDownloadRequest r) where
  abbrev pub download_request_fields : List SerializeField
  download_request_fields =
      value_field host int64 8 r.file_id file_id_name
      ∷ value_field host int64 8 r.task_id task_id_name
      ∷ []

  pub download_request_fields-IsBody :
      IsMessage default_config download_request_fields
      × IsBody (message host default_config download_request_fields)
  unfolding get_data_type_length
  download_request_fields-IsBody =
      IsBody-message host download_request_fields 2 _
        (Prepared-value file_id_name (omega arith)
          (Prepared-value task_id_name (omega arith) Prepared-nil host int64 8 r.task_id
            (omega arith) (omega arith) refl)
          host int64 8 r.file_id (omega arith) (omega arith) refl)
        (
          value_field-IsByteField host int64 8 r.file_id file_id_name
              (all_bytes-AllBytes file_id_name refl),
          (
            value_field-IsByteField host int64 8 r.task_id task_id_name
                (all_bytes-AllBytes task_id_name refl),
            tt,
          ),
        )
        (omega arith) (omega (arith))

  found_download_request :
      (get_parsed_field file_id_name (received host download_request_fields)
        ≡ some (value_field host int64 8 r.file_id file_id_name))
      × (get_parsed_field task_id_name (received host download_request_fields)
          ≡ some (value_field host int64 8 r.task_id task_id_name))
  unfolding get_parsed_field find_field same_name entries value_field string_field vector_field
  found_download_request = (refl, refl)

  pub parse_download_request-message :
      try_parse_byte_array_download_request host
        (message host default_config download_request_fields)
      ≡ parsed r
  unfolding try_parse_byte_array_download_request
  parse_download_request-message =
      let found = found_download_request in
      rw (
        deserialize-received host download_request_fields download_request_fields-IsBody.0,
        found.0,
        required_value-value_field host int64 8 r.file_id file_id_name v.file_id_fits,
        found.1,
        lenient_value-value_field host int64 8 r.task_id task_id_name minus_one v.task_id_fits,
      )

-- The numbers fit their types.
pub record IsBlockRequest (r : BlockRequestTransfer) : Type 0 where
  pub block_id_fits : r.block_id < 256 ^ 8
  pub file_id_fits : r.file_id < 256 ^ 8
  pub task_id_fits : r.task_id < 256 ^ 8
  pub offset_fits : r.offset < 256 ^ 8
  pub block_size_fits : r.block_size < 256 ^ 8

module _ (host : Host) (r : BlockRequestTransfer) (v : IsBlockRequest r) where
  abbrev pub block_request_fields : List SerializeField
  block_request_fields =
      value_field host int64 8 r.block_id block_id_name
      ∷ value_field host int64 8 r.file_id file_id_name
      ∷ value_field host int64 8 r.task_id task_id_name
      ∷ value_field host int64 8 r.offset offset_name
      ∷ value_field host int64 8 r.block_size block_size_name
      ∷ []

  pub block_request_fields-IsBody :
      IsMessage default_config block_request_fields
      × IsBody (message host default_config block_request_fields)
  unfolding get_data_type_length
  block_request_fields-IsBody =
      IsBody-message host block_request_fields 5 _
        (Prepared-value block_id_name (omega arith)
          (Prepared-value file_id_name (omega arith)
            (Prepared-value task_id_name (omega arith)
              (Prepared-value offset_name (omega arith)
                (Prepared-value block_size_name (omega arith) Prepared-nil host int64 8 r.block_size
                  (omega arith) (omega arith) refl)
                host int64 8 r.offset (omega arith) (omega arith) refl)
              host int64 8 r.task_id (omega arith) (omega arith) refl)
            host int64 8 r.file_id (omega arith) (omega arith) refl)
          host int64 8 r.block_id (omega arith) (omega arith) refl)
        (
          value_field-IsByteField host int64 8 r.block_id block_id_name
              (all_bytes-AllBytes block_id_name refl),
          (
            value_field-IsByteField host int64 8 r.file_id file_id_name
                (all_bytes-AllBytes file_id_name refl),
            (
              value_field-IsByteField host int64 8 r.task_id task_id_name
                  (all_bytes-AllBytes task_id_name refl),
              (
                value_field-IsByteField host int64 8 r.offset offset_name
                    (all_bytes-AllBytes offset_name refl),
                (
                  value_field-IsByteField host int64 8 r.block_size block_size_name
                      (all_bytes-AllBytes block_size_name refl),
                  tt,
                ),
              ),
            ),
          ),
        )
        (omega arith) (omega (arith))

  pub found_block_request :
      (get_parsed_field block_id_name (received host block_request_fields)
        ≡ some (value_field host int64 8 r.block_id block_id_name))
      × (get_parsed_field file_id_name (received host block_request_fields)
          ≡ some (value_field host int64 8 r.file_id file_id_name))
      × (get_parsed_field task_id_name (received host block_request_fields)
          ≡ some (value_field host int64 8 r.task_id task_id_name))
      × (get_parsed_field offset_name (received host block_request_fields)
          ≡ some (value_field host int64 8 r.offset offset_name))
      × (get_parsed_field block_size_name (received host block_request_fields)
          ≡ some (value_field host int64 8 r.block_size block_size_name))
  unfolding get_parsed_field find_field same_name entries value_field string_field vector_field
  found_block_request = (refl, refl, refl, refl, refl)

  pub parse_block_request-message :
      try_parse_byte_array_block_request host (message host default_config block_request_fields)
      ≡ parsed r
  unfolding try_parse_byte_array_block_request
  parse_block_request-message =
      let found = found_block_request in
      rw (
        deserialize-received host block_request_fields block_request_fields-IsBody.0,
        found.0,
        required_value-value_field host int64 8 r.block_id block_id_name v.block_id_fits,
        found.1,
        required_value-value_field host int64 8 r.file_id file_id_name v.file_id_fits,
        found.2,
        lenient_value-value_field host int64 8 r.task_id task_id_name minus_one v.task_id_fits,
        found.3,
        required_value-value_field host int64 8 r.offset offset_name v.offset_fits,
        found.4,
        required_value-value_field host int64 8 r.block_size block_size_name v.block_size_fits,
      )

-- The numbers fit their types, the texts and vectors are bytes within the limits of the codec.
pub record IsTestRequest (r : TestRequestTransfer) : Type 0 where
  pub message_bytes : AllBytes r.message
  pub short : length r.message + 200 ≤ 2 ^ 28

module _ (host : Host) (r : TestRequestTransfer) (v : IsTestRequest r) where
  abbrev pub test_request_fields : List SerializeField
  test_request_fields = string_field r.message message_name ∷ []

  pub test_request_fields-IsBody :
      IsMessage default_config test_request_fields
      × IsBody (message host default_config test_request_fields)
  unfolding get_data_type_length
  test_request_fields-IsBody =
      IsBody-message host test_request_fields 1 _
        (Prepared-text message_name (omega arith) Prepared-nil r.message (omega (arith, v.short)))
        (
          string_field-IsByteField r.message message_name (all_bytes-AllBytes message_name refl)
              v.message_bytes,
          tt,
        )
        (omega arith) (omega (arith, v.short))

  found_test_request :
      get_parsed_field message_name (received host test_request_fields)
      ≡ some (string_field r.message message_name)
  unfolding get_parsed_field find_field same_name entries value_field string_field vector_field
  found_test_request = refl

  pub parse_test_request-message :
      (stringify : SerializeField → List ℕ)
      → try_parse_byte_array_test_request host stringify
          (message host default_config test_request_fields)
        ≡ parsed r
  unfolding try_parse_byte_array_test_request required_text
  parse_test_request-message stringify =
      let found = found_test_request in
      rw (
        deserialize-received host test_request_fields test_request_fields-IsBody.0,
        found,
        to_string-string_field stringify r.message message_name,
      )
