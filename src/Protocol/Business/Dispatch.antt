-- ===== src/Protocol/Business/Dispatch.antt =====
-- A request that the client built reaches the handler of its kind.
use project_trans.Base.{ℕ, ◌^◌, ◌<◌, ◌≡◌}
use project_trans.Base.{Option}
use project_trans.Base.{List}
use project_trans.Binary.{Host}
use project_trans.Codec.Parse.{parsed}
use project_trans.Codec.Field.{SerializeField}
use project_trans.Codec.Message.{same_name}
use project_trans.MailBox.{MailBox}
use project_trans.Protocol.Transfer.{EnvelopeRequestTransfer}
use project_trans.Protocol.Transfer.{DownloadRequestTransfer}
use project_trans.Protocol.Transfer.{BlockRequestTransfer}
use project_trans.Protocol.Transfer.{TestRequestTransfer}
use project_trans.Protocol.ClientCodec.{build_download_request_byte_array}
use project_trans.Protocol.ClientCodec.{build_block_request_byte_array}
use project_trans.Protocol.ClientCodec.{build_test_request_byte_array}
use project_trans.Protocol.Bodies.Requests.{IsDownloadRequest, IsBlockRequest, IsTestRequest}
use project_trans.Protocol.Bodies.Requests.{parse_download_request-message}
use project_trans.Protocol.Bodies.Requests.{parse_block_request-message}
use project_trans.Protocol.Bodies.Requests.{parse_test_request-message}
use project_trans.Protocol.Bodies.Sent.{download_request-sent, block_request-sent}
use project_trans.Protocol.Bodies.Sent.{test_request-sent}
use project_trans.Protocol.Business.{Services}
use project_trans.Protocol.Business.{handle_download_request, handle_test_request}
use project_trans.Protocol.Business.{handle_block_request, with_parsed, dispatch, handle_request}

module _ (host : Host) (services : Services) (stringify : SerializeField → List ℕ)
    (envelope : EnvelopeRequestTransfer) (connect_id : ℕ) (box : Option MailBox) where
  -- A request that the client built reaches the handler of its kind.
  pub handle_request-download_request :
      (r : DownloadRequestTransfer) (id : ℕ)
      → IsDownloadRequest r
      → id < 256 ^ 8
      → (request : List ℕ) × (build_download_request_byte_array host r id ≡ parsed request)
        × (handle_request host services stringify envelope request connect_id box
            ≡ handle_download_request host services r id connect_id box)
  unfolding handle_request dispatch same_name with_parsed
  handle_request-download_request r id v fits =
      let (request, built, read) = download_request-sent host r v id fits stringify envelope in
      (request, built, rw (read, parse_download_request-message host r v))

  pub handle_request-test_request :
      (r : TestRequestTransfer) (id : ℕ)
      → IsTestRequest r
      → id < 256 ^ 8
      → (request : List ℕ) × (build_test_request_byte_array host r id ≡ parsed request)
        × (handle_request host services stringify envelope request connect_id box
            ≡ handle_test_request host services r id connect_id box)
  unfolding handle_request dispatch same_name with_parsed
  handle_request-test_request r id v fits =
      let (request, built, read) = test_request-sent host r v id fits stringify envelope in
      (request, built, rw (read, parse_test_request-message host r v stringify))

  pub handle_request-block_request :
      (r : BlockRequestTransfer) (id : ℕ)
      → IsBlockRequest r
      → id < 256 ^ 8
      → (request : List ℕ) × (build_block_request_byte_array host r id ≡ parsed request)
        × (handle_request host services stringify envelope request connect_id box
            ≡ handle_block_request host services r id connect_id box)
  unfolding handle_request dispatch same_name with_parsed
  handle_request-block_request r id v fits =
      let (request, built, read) = block_request-sent host r v id fits stringify envelope in
      (request, built, rw (read, parse_block_request-message host r v))
