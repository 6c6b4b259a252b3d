-- ===== src/Protocol/Envelope.antt =====
-- The envelopes: what one side builds of a request or a response the other side reads.
use project_trans.Base.{ℕ, ◌+◌, ◌^◌, ◌≤◌, ◌<◌, ◌≡◌, refl, arith, length, some}
use project_trans.Base.{List, [], ◌∷◌}
use project_trans.Binary.{Host}
use project_trans.Codec.DataType.{uint8, uint16, uint64, get_data_type_length}
use project_trans.Codec.Parse.{parsed}
use project_trans.Codec.Field.{SerializeField}
use project_trans.Codec.Message.{value_field, string_field, get_parsed_field, find_field, same_name}
use project_trans.Codec.Message.{default_config}
use project_trans.Codec.Message.Build.{entries, serialize_all}
use project_trans.Codec.Message.RoundTrip.{IsMessage, message}
use project_trans.Codec.Message.Values.{to_value-value_field}
use project_trans.Codec.Message.Elements.{to_string}
use project_trans.Codec.Message.Elements.RoundTrip.{vector_field, IsVector, to_array-vector_field}
use project_trans.Codec.Message.Ready.{Prepared-nil, Prepared-value, Prepared-text}
use project_trans.Codec.Message.Ready.{Prepared-vector, Prepared-IsMessage, received}
use project_trans.Codec.Message.Ready.{deserialize-received, serialize_vector_several}
use project_trans.Codec.Message.Bytes.{length-message}
use project_trans.Base.{subst}
use project_trans.Frame.Deliver.{IsFrame}
use project_trans.Session.Exchange.{message-IsFrame}
use project_trans.Protocol.Names.{version_name, request_id_name, request_type_name, path_name}
use project_trans.Protocol.Names.{content_type_name, body_name, status_name}
use project_trans.Protocol.Transfer.{EnvelopeRequestTransfer, EnvelopeResponseTransfer}
use project_trans.Protocol.Transfer.{optional_value, optional_bytes}
use project_trans.Protocol.ClientCodec.{build_request_byte_array, try_parse_byte_array_response}
use project_trans.Protocol.ServerCodec.{build_response_byte_array, try_parse_byte_array_request}
use project_trans.Protocol.ServerCodec.{optional_path}

-- A number that is read back from its field.
pub optional_value-value_field :
    (host : Host) (type w n : ℕ) (name : List ℕ) (old : ℕ)
    → n < 256 ^ w
    → optional_value host type w (some (value_field host type w n name)) old ≡ parsed n
unfolding optional_value
optional_value-value_field host type w n name old h =
    rw (to_value-value_field host type w n name h, optional_value)

optional_path-string_field :
    (stringify : SerializeField → List ℕ) (path name : List ℕ)
    → 1 ≤ length path
    → optional_path stringify (some (string_field path name)) ≡ parsed path
unfolding optional_path to_string string_field
optional_path-string_field stringify [] name h = absurd (omega arith)
optional_path-string_field stringify (b ∷ bs) name h = refl

-- A body that fits a message: bytes, two or more.
pub record IsBody (body : List ℕ) : Type 0 where
  pub vector : IsVector uint8 1 body
  pub short : length body + 10 ≤ 2 ^ 28

-- The members fit their types, there is a path, and path and body are within the limits of the codec.
pub record IsRequest (e : EnvelopeRequestTransfer) : Type 0 where
  pub version_fits : e.version < 256 ^ 2
  pub id_fits : e.request_id < 256 ^ 8
  pub type_fits : e.request_type < 256 ^ 1
  pub path_given : 1 ≤ length e.path
  pub path_short : length e.path ≤ 2 ^ 28
  pub content_fits : e.content_type < 256 ^ 1
  pub body : IsBody e.body

module _ (host : Host) (e : EnvelopeRequestTransfer) (v : IsRequest e) where
  abbrev request_fields : List SerializeField
  request_fields =
      value_field host uint16 2 e.version version_name
      ∷ value_field host uint64 8 e.request_id request_id_name
      ∷ value_field host uint8 1 e.request_type request_type_name
      ∷ string_field e.path path_name
      ∷ value_field host uint8 1 e.content_type content_type_name
      ∷ vector_field uint8 1 e.body body_name
      ∷ []

  build_request-message :
      build_request_byte_array host e ≡ parsed (message host default_config request_fields)
  unfolding build_request_byte_array message serialize_all
  build_request-message =
      rw (serialize_vector_several host uint8 1 e.body body_name _ v.body.vector)

  request_fields-IsMessage : IsMessage default_config request_fields
  unfolding get_data_type_length
  request_fields-IsMessage =
      Prepared-IsMessage request_fields 6 _
        (Prepared-value version_name (omega arith)
          (Prepared-value request_id_name (omega arith)
            (Prepared-value request_type_name (omega arith)
              (Prepared-text path_name (omega arith)
                (Prepared-value content_type_name (omega arith)
                  (Prepared-vector body_name (omega arith) Prepared-nil uint8 1 e.body v.body.vector
                    (omega (arith, v.body.short)))
                  host uint8 1 e.content_type (omega arith) (omega arith) refl)
                e.path v.path_short)
              host uint8 1 e.request_type (omega arith) (omega arith) refl)
            host uint64 8 e.request_id (omega arith) (omega arith) refl)
          host uint16 2 e.version (omega arith) (omega arith) refl)
        (omega arith) (omega (arith, v.path_short, v.body.short))

  found_request :
      (get_parsed_field version_name (received host request_fields)
        ≡ some (value_field host uint16 2 e.version version_name))
      × (get_parsed_field request_id_name (received host request_fields)
          ≡ some (value_field host uint64 8 e.request_id request_id_name))
      × (get_parsed_field request_type_name (received host request_fields)
          ≡ some (value_field host uint8 1 e.request_type request_type_name))
      × (get_parsed_field path_name (received host request_fields)
          ≡ some (string_field e.path path_name))
      × (get_parsed_field content_type_name (received host request_fields)
          ≡ some (value_field host uint8 1 e.content_type content_type_name))
      × (get_parsed_field body_name (received host request_fields)
          ≡ some (vector_field uint8 1 e.body body_name))
  unfolding get_parsed_field find_field same_name entries value_field string_field vector_field
  found_request = (refl, refl, refl, refl, refl, refl)

  parse_request-message :
      (stringify : SerializeField → List ℕ) (envelope : EnvelopeRequestTransfer)
      → try_parse_byte_array_request host stringify envelope
          (message host default_config request_fields)
        ≡ parsed e
  unfolding try_parse_byte_array_request optional_bytes
  parse_request-message stringify envelope =
      let (version, id, type, path, content, body) = found_request in
      rw (
        deserialize-received host request_fields request_fields-IsMessage,
        version,
        optional_value-value_field host uint16 2 e.version version_name envelope.version
            v.version_fits,
        id,
        optional_value-value_field host uint64 8 e.request_id request_id_name envelope.request_id
            v.id_fits,
        type,
        optional_value-value_field host uint8 1 e.request_type request_type_name
            envelope.request_type v.type_fits,
        path,
        optional_path-string_field stringify e.path path_name v.path_given,
        content,
        optional_value-value_field host uint8 1 e.content_type content_type_name
            envelope.content_type v.content_fits,
        body,
        to_array-vector_field uint8 1 e.body v.body.vector host body_name,
      )

-- The members fit their types, and the body is within the limits of the codec.
pub record IsResponse (e : EnvelopeResponseTransfer) : Type 0 where
  pub version_fits : e.version < 256 ^ 2
  pub id_fits : e.request_id < 256 ^ 8
  pub status_fits : e.status < 256 ^ 2
  pub content_fits : e.content_type < 256 ^ 1
  pub body : IsBody e.body

module _ (host : Host) (e : EnvelopeResponseTransfer) (v : IsResponse e) where
  abbrev response_fields : List SerializeField
  response_fields =
      value_field host uint16 2 e.version version_name
      ∷ value_field host uint64 8 e.request_id request_id_name
      ∷ value_field host uint16 2 e.status status_name
      ∷ value_field host uint8 1 e.content_type content_type_name
      ∷ vector_field uint8 1 e.body body_name
      ∷ []

  build_response-message :
      build_response_byte_array host e ≡ parsed (message host default_config response_fields)
  unfolding build_response_byte_array message serialize_all
  build_response-message =
      rw (serialize_vector_several host uint8 1 e.body body_name _ v.body.vector)

  response_fields-IsMessage : IsMessage default_config response_fields
  unfolding get_data_type_length
  response_fields-IsMessage =
      Prepared-IsMessage response_fields 5 _
        (Prepared-value version_name (omega arith)
          (Prepared-value request_id_name (omega arith)
            (Prepared-value status_name (omega arith)
              (Prepared-value content_type_name (omega arith)
                (Prepared-vector body_name (omega arith) Prepared-nil uint8 1 e.body v.body.vector
                  (omega (arith, v.body.short)))
                host uint8 1 e.content_type (omega arith) (omega arith) refl)
              host uint16 2 e.status (omega arith) (omega arith) refl)
            host uint64 8 e.request_id (omega arith) (omega arith) refl)
          host uint16 2 e.version (omega arith) (omega arith) refl)
        (omega arith) (omega (arith, v.body.short))

  found_response :
      (get_parsed_field version_name (received host response_fields)
        ≡ some (value_field host uint16 2 e.version version_name))
      × (get_parsed_field request_id_name (received host response_fields)
          ≡ some (value_field host uint64 8 e.request_id request_id_name))
      × (get_parsed_field status_name (received host response_fields)
          ≡ some (value_field host uint16 2 e.status status_name))
      × (get_parsed_field content_type_name (received host response_fields)
          ≡ some (value_field host uint8 1 e.content_type content_type_name))
      × (get_parsed_field body_name (received host response_fields)
          ≡ some (vector_field uint8 1 e.body body_name))
  unfolding get_parsed_field find_field same_name entries value_field string_field vector_field
  found_response = (refl, refl, refl, refl, refl)

  parse_response-message :
      (envelope : EnvelopeResponseTransfer)
      → try_parse_byte_array_response host envelope (message host default_config response_fields)
        ≡ parsed e
  unfolding try_parse_byte_array_response optional_bytes
  parse_response-message envelope =
      let (version, id, status, content, body) = found_response in
      rw (
        deserialize-received host response_fields response_fields-IsMessage,
        version,
        optional_value-value_field host uint16 2 e.version version_name envelope.version
            v.version_fits,
        id,
        optional_value-value_field host uint64 8 e.request_id request_id_name envelope.request_id
            v.id_fits,
        status,
        optional_value-value_field host uint16 2 e.status status_name envelope.status v.status_fits,
        content,
        optional_value-value_field host uint8 1 e.content_type content_type_name
            envelope.content_type v.content_fits,
        body,
        to_array-vector_field uint8 1 e.body v.body.vector host body_name,
      )

-- What is built is one frame.
pub build_request-IsFrame :
    (host : Host) (e : EnvelopeRequestTransfer) (bytes : List ℕ)
    → IsRequest e
    → build_request_byte_array host e ≡ parsed bytes
    → IsFrame host bytes × (length bytes < 2 ^ 32)
build_request-IsFrame host e bytes v built =
    let fields = request_fields host e v in
    let m = request_fields-IsMessage host e v in
    let same : message host default_config fields ≡ bytes =
      cc (build_request-message host e v, built) in
    (
      subst (IsFrame host) same (message-IsFrame host host default_config fields m),
      subst (λ (b : List ℕ). length b < 2 ^ 32) same
          (omega (arith, length-message host fields m, m.small)),
    )

-- A request that fits (`IsRequest`) is built, and the server on a machine of the same byte order parses
-- it as it was.
pub parse_request-build_request :
    (host : Host) (stringify : SerializeField → List ℕ) (e new : EnvelopeRequestTransfer)
    → IsRequest e
    → (bytes : List ℕ) × (build_request_byte_array host e ≡ parsed bytes)
      × (try_parse_byte_array_request host stringify new bytes ≡ parsed e)
parse_request-build_request host stringify e new v = (
  message host default_config (request_fields host e v),
  build_request-message host e v,
  parse_request-message host e v stringify new,
)

-- A response that fits (`IsResponse`) is built, and the client on a machine of the same byte order
-- parses it as it was.
pub parse_response-build_response :
    (host : Host) (e new : EnvelopeResponseTransfer)
    → IsResponse e
    → (bytes : List ℕ) × (build_response_byte_array host e ≡ parsed bytes)
      × (try_parse_byte_array_response host new bytes ≡ parsed e)
parse_response-build_response host e new v = (
  message host default_config (response_fields host e v),
  build_response-message host e v,
  parse_response-message host e v new,
)
