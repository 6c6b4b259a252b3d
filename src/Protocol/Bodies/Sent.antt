-- ===== src/Protocol/Bodies/Sent.antt =====
-- What is built of a body with its envelope, and how the other side reads both.
use project_trans.Base.{ℕ, ◌^◌, ◌<◌, ◌≡◌, arith, List}
use project_trans.Base.{length}
use project_trans.Binary.{Host}
use project_trans.Codec.Parse.{parsed}
use project_trans.Codec.Field.{SerializeField}
use project_trans.Codec.Message.{default_config}
use project_trans.Codec.Message.Build.{serialize_all}
use project_trans.Codec.Message.RoundTrip.{message}
use project_trans.Codec.Message.Ready.{serialize_vector_several}
use project_trans.Codec.DataType.{uint8}
use project_trans.Frame.Deliver.{IsFrame}
use project_trans.Protocol.Envelope.{build_request-IsFrame}
use project_trans.Protocol.Names.{download_path, test_path, block_path, data_name}
use project_trans.Protocol.Transfer.{EnvelopeRequestTransfer, EnvelopeResponseTransfer}
use project_trans.Protocol.Transfer.{DownloadRequestTransfer, DownloadResponseTransfer}
use project_trans.Protocol.Transfer.{BlockRequestTransfer, BlockResponseTransfer}
use project_trans.Protocol.Transfer.{TestRequestTransfer, TestResponseTransfer, dane_joe}
use project_trans.Protocol.ClientCodec.{build_download_request_byte_array}
use project_trans.Protocol.ClientCodec.{build_block_request_byte_array}
use project_trans.Protocol.ClientCodec.{build_test_request_byte_array}
use project_trans.Protocol.ClientCodec.{try_parse_byte_array_response}
use project_trans.Protocol.ClientCodec.{try_parse_byte_array_download_response}
use project_trans.Protocol.ClientCodec.{try_parse_byte_array_block_response}
use project_trans.Protocol.ClientCodec.{try_parse_byte_array_test_response}
use project_trans.Protocol.ServerCodec.{build_download_response_byte_array, ok_envelope}
use project_trans.Protocol.ServerCodec.{build_block_response_byte_array}
use project_trans.Protocol.ServerCodec.{build_test_response_byte_array}
use project_trans.Protocol.ServerCodec.{try_parse_byte_array_request}
use project_trans.Protocol.Envelope.{IsBody, IsRequest, IsResponse, parse_request-build_request}
use project_trans.Protocol.Envelope.{parse_response-build_response}
use project_trans.Protocol.Bodies.Requests.{IsDownloadRequest, download_request_fields}
use project_trans.Protocol.Bodies.Requests.{download_request_fields-IsBody}
use project_trans.Protocol.Bodies.Requests.{IsBlockRequest, block_request_fields}
use project_trans.Protocol.Bodies.Requests.{block_request_fields-IsBody}
use project_trans.Protocol.Bodies.Requests.{IsTestRequest, test_request_fields}
use project_trans.Protocol.Bodies.Requests.{test_request_fields-IsBody}
use project_trans.Protocol.Bodies.Responses.{IsDownloadResponse, download_response_fields}
use project_trans.Protocol.Bodies.Responses.{download_response_fields-IsBody}
use project_trans.Protocol.Bodies.Responses.{parse_download_response-message}
use project_trans.Protocol.Bodies.Responses.{IsBlockResponse, block_response_fields}
use project_trans.Protocol.Bodies.Responses.{block_response_fields-IsBody}
use project_trans.Protocol.Bodies.Responses.{parse_block_response-message}
use project_trans.Protocol.Bodies.Responses.{IsTestResponse, test_response_fields}
use project_trans.Protocol.Bodies.Responses.{test_response_fields-IsBody}
use project_trans.Protocol.Bodies.Responses.{parse_test_response-message}

module _ (host : Host) (r : DownloadRequestTransfer) (v : IsDownloadRequest r) (id : ℕ)
    (fits : id < 256 ^ 8) where
  abbrev pub download_envelope : EnvelopeRequestTransfer
  download_envelope = record {
    version = 1;
    request_id = id;
    request_type = 0;
    path = download_path;
    content_type = dane_joe;
    body = message host default_config (download_request_fields host r v);
  }

  download_envelope-IsRequest : IsRequest download_envelope
  download_envelope-IsRequest = record {
    version_fits = omega arith;
    id_fits = fits;
    type_fits = omega arith;
    path_given = omega arith;
    path_short = omega arith;
    content_fits = omega arith;
    body = (download_request_fields-IsBody host r v).1;
  }

  pub download_request-sent :
      (stringify : SerializeField → List ℕ) (new : EnvelopeRequestTransfer)
      → (bytes : List ℕ) × (build_download_request_byte_array host r id ≡ parsed bytes)
        × (try_parse_byte_array_request host stringify new bytes ≡ parsed download_envelope)
  unfolding build_download_request_byte_array message serialize_all
  download_request-sent stringify new =
      parse_request-build_request host stringify download_envelope new download_envelope-IsRequest

module _ (host : Host) (r : BlockRequestTransfer) (v : IsBlockRequest r) (id : ℕ)
    (fits : id < 256 ^ 8) where
  abbrev pub block_envelope : EnvelopeRequestTransfer
  block_envelope = record {
    version = 1;
    request_id = id;
    request_type = 0;
    path = block_path;
    content_type = dane_joe;
    body = message host default_config (block_request_fields host r v);
  }

  block_envelope-IsRequest : IsRequest block_envelope
  block_envelope-IsRequest = record {
    version_fits = omega arith;
    id_fits = fits;
    type_fits = omega arith;
    path_given = omega arith;
    path_short = omega arith;
    content_fits = omega arith;
    body = (block_request_fields-IsBody host r v).1;
  }

  pub block_request-sent :
      (stringify : SerializeField → List ℕ) (new : EnvelopeRequestTransfer)
      → (bytes : List ℕ) × (build_block_request_byte_array host r id ≡ parsed bytes)
        × (try_parse_byte_array_request host stringify new bytes ≡ parsed block_envelope)
  unfolding build_block_request_byte_array message serialize_all
  block_request-sent stringify new =
      parse_request-build_request host stringify block_envelope new block_envelope-IsRequest

  pub block_request-IsFrame :
      (bytes : List ℕ)
      → build_block_request_byte_array host r id ≡ parsed bytes
      → IsFrame host bytes × (length bytes < 2 ^ 32)
  unfolding build_block_request_byte_array message serialize_all
  block_request-IsFrame bytes built =
      build_request-IsFrame host block_envelope bytes block_envelope-IsRequest built

module _ (host : Host) (r : TestRequestTransfer) (v : IsTestRequest r) (id : ℕ)
    (fits : id < 256 ^ 8) where
  abbrev pub test_envelope : EnvelopeRequestTransfer
  test_envelope = record {
    version = 1;
    request_id = id;
    request_type = 1;
    path = test_path;
    content_type = dane_joe;
    body = message host default_config (test_request_fields host r v);
  }

  test_envelope-IsRequest : IsRequest test_envelope
  test_envelope-IsRequest = record {
    version_fits = omega arith;
    id_fits = fits;
    type_fits = omega arith;
    path_given = omega arith;
    path_short = omega arith;
    content_fits = omega arith;
    body = (test_request_fields-IsBody host r v).1;
  }

  pub test_request-sent :
      (stringify : SerializeField → List ℕ) (new : EnvelopeRequestTransfer)
      → (bytes : List ℕ) × (build_test_request_byte_array host r id ≡ parsed bytes)
        × (try_parse_byte_array_request host stringify new bytes ≡ parsed test_envelope)
  unfolding build_test_request_byte_array message serialize_all
  test_request-sent stringify new =
      parse_request-build_request host stringify test_envelope new test_envelope-IsRequest

pub ok_envelope-IsResponse :
    (id : ℕ) (body : List ℕ) → id < 256 ^ 8 → IsBody body → IsResponse (ok_envelope id body)
ok_envelope-IsResponse id body fits v = record {
  version_fits = omega arith;
  id_fits = fits;
  status_fits = omega arith;
  content_fits = omega arith;
  body = v;
}

pub download_response-sent :
    (host : Host) (r : DownloadResponseTransfer) (id : ℕ) (stringify : SerializeField → List ℕ)
    (new : EnvelopeResponseTransfer)
    → IsDownloadResponse r
    → id < 256 ^ 8
    → (bytes body : List ℕ) × (build_download_response_byte_array host r id ≡ parsed bytes)
      × (try_parse_byte_array_response host new bytes ≡ parsed (ok_envelope id body))
      × (try_parse_byte_array_download_response host stringify body ≡ parsed r)
unfolding build_download_response_byte_array message serialize_all
download_response-sent host r id stringify new v fits =
    let body = message host default_config (download_response_fields host r v) in
    let (bytes, built, read) =
      parse_response-build_response host (ok_envelope id body) new
        (ok_envelope-IsResponse id body fits (download_response_fields-IsBody host r v).1) in
    (bytes, body, built, read, parse_download_response-message host r v stringify)

pub block_response-sent :
    (host : Host) (r : BlockResponseTransfer) (id : ℕ) (new : EnvelopeResponseTransfer)
    → IsBlockResponse r
    → id < 256 ^ 8
    → (bytes body : List ℕ) × (build_block_response_byte_array host r id ≡ parsed bytes)
      × (try_parse_byte_array_response host new bytes ≡ parsed (ok_envelope id body))
      × (try_parse_byte_array_block_response host body ≡ parsed r)
unfolding build_block_response_byte_array message serialize_all
block_response-sent host r id new v fits =
    let body = message host default_config (block_response_fields host r v) in
    let (bytes, built, read) =
      parse_response-build_response host (ok_envelope id body) new
        (ok_envelope-IsResponse id body fits (block_response_fields-IsBody host r v).1) in
    (
      bytes,
      body,
      rw (serialize_vector_several host uint8 1 r.bytes data_name _ v.bytes_vector) built,
      read,
      parse_block_response-message host r v,
    )

pub test_response-sent :
    (host : Host) (r : TestResponseTransfer) (id : ℕ) (stringify : SerializeField → List ℕ)
    (new : EnvelopeResponseTransfer)
    → IsTestResponse r
    → id < 256 ^ 8
    → (bytes body : List ℕ) × (build_test_response_byte_array host r id ≡ parsed bytes)
      × (try_parse_byte_array_response host new bytes ≡ parsed (ok_envelope id body))
      × (try_parse_byte_array_test_response host stringify body ≡ parsed r)
unfolding build_test_response_byte_array message serialize_all
test_response-sent host r id stringify new v fits =
    let body = message host default_config (test_response_fields host r v) in
    let (bytes, built, read) =
      parse_response-build_response host (ok_envelope id body) new
        (ok_envelope-IsResponse id body fits (test_response_fields-IsBody host r v).1) in
    (bytes, body, built, read, parse_test_response-message host r v stringify)
