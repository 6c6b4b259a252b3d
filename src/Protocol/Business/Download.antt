-- ===== src/Protocol/Business/Download.antt =====
-- What the client reads of the answer to a download request that it built.
use project_trans.MailBox.{PosixFrame, find}
use project_trans.Protocol.Business.Replies.{frame_for, push_reply-queue}
use project_trans.Base.{◌++◌, ◌∷◌}
use project_trans.Base.{ℕ, ◌+◌, ◌^◌, ◌≤◌, ◌<◌, ◌≡◌, refl, arith, length}
use project_trans.Base.{ltb, Bool-cases, inl, inr, Option, none, some}
use project_trans.Base.{List, []}
use project_trans.Base.{Option-cases, ◌∙◌, ap}
use project_trans.Protocol.ServerCodec.{build_download_response_byte_array}
use project_trans.Binary.{Host}
use project_trans.Codec.Parse.{parsed}
use project_trans.Codec.Field.{SerializeField}
use project_trans.Codec.Message.Bytes.{AllBytes}
use project_trans.MailBox.{MailBox}
use project_trans.Protocol.Transfer.{EnvelopeRequestTransfer, EnvelopeResponseTransfer}
use project_trans.Protocol.Transfer.{DownloadRequestTransfer, DownloadResponseTransfer}
use project_trans.Protocol.ClientCodec.{build_download_request_byte_array}
use project_trans.Protocol.ClientCodec.{try_parse_byte_array_response}
use project_trans.Protocol.ClientCodec.{try_parse_byte_array_download_response}
use project_trans.Protocol.ServerCodec.{ok_envelope}
use project_trans.Protocol.Bodies.Requests.{IsDownloadRequest}
use project_trans.Protocol.Bodies.Responses.{IsDownloadResponse}
use project_trans.Protocol.Bodies.Sent.{download_response-sent}
use project_trans.Protocol.Business.{Services, ServerFileInfo, handled, to_int32}
use project_trans.Protocol.Business.{from_int32, push_reply, reply}
use project_trans.Protocol.Business.{handle_download_request}
use project_trans.Protocol.Business.{handle_request}
use project_trans.Protocol.Business.Dispatch.{handle_request-download_request}

-- An entry whose members fit their types and whose texts are short.
pub record IsFileInfo (file : ServerFileInfo) : Type 0 where
  pub id_fits : file.file_id < 2 ^ 32
  pub size_fits : file.file_size < 2 ^ 32
  pub name_bytes : AllBytes file.file_name
  pub md5_bytes : AllBytes file.md5_code
  pub short : length file.file_name + length file.md5_code + 200 ≤ 2 ^ 28

-- What a request for a file is to be answered: the entry of the file, or an empty one.
unfoldable pub download_answer :
    Option ServerFileInfo → DownloadRequestTransfer → DownloadResponseTransfer
download_answer none r = record {
  file_id = r.file_id;
  task_id = r.task_id;
  file_name = [];
  file_size = 0;
  md5_code = [];
}
download_answer (some file) r = record {
  file_id = from_int32 file.file_id;
  task_id = r.task_id;
  file_name = file.file_name;
  file_size = file.file_size;
  md5_code = file.md5_code;
}

from_int32_fits : (n : ℕ) → n < 2 ^ 32 → from_int32 n < 2 ^ 64
from_int32_fits n h = elim (Bool-cases (ltb n (2 ^ 31))) [
  | inl e ↦ rw e (omega arith)
  | inr e ↦ rw e (omega arith)
]

download_answer-IsDownloadResponse :
    (found : Option ServerFileInfo) (r : DownloadRequestTransfer)
    → IsDownloadRequest r
    → ((file : ServerFileInfo) → found ≡ some file → IsFileInfo file)
    → IsDownloadResponse (download_answer found r)
unfolding download_answer
download_answer-IsDownloadResponse none r v files = record {
  task_id_fits = v.task_id_fits;
  file_id_fits = v.file_id_fits;
  file_name_bytes = tt;
  file_size_fits = omega arith;
  md5_code_bytes = tt;
  short = omega arith;
}
download_answer-IsDownloadResponse (some file) r v files =
    let w = files file refl in
    record {
      task_id_fits = v.task_id_fits;
      file_id_fits = from_int32_fits file.file_id w.id_fits;
      file_name_bytes = w.name_bytes;
      file_size_fits = omega (arith, w.size_fits);
      md5_code_bytes = w.md5_bytes;
      short = w.short;
    }

module _ (host : Host) (services : Services) (stringify : SerializeField → List ℕ)
    (envelope : EnvelopeRequestTransfer) (new : EnvelopeResponseTransfer) (connect_id : ℕ)
    (box : Option MailBox) (id : ℕ) (fits : id < 256 ^ 8) where
  handle_download_request-answer :
      (r : DownloadRequestTransfer) (bytes : List ℕ)
      → build_download_response_byte_array host
          (download_answer (services.get_by_id (to_int32 r.file_id)) r)
          id
        ≡ parsed bytes
      → handle_download_request host services r id connect_id box
        ≡ handled (push_reply connect_id bytes box)
  unfolding handle_download_request download_answer reply
  handle_download_request-answer r bytes built =
      elim (Option-cases (services.get_by_id (to_int32 r.file_id))) [
        | inl e ↦ rw (e, handle_download_request) (ap (λ m. reply connect_id m box) (rw e at built))
        | inr (file, e) ↦
            rw (e, handle_download_request) (ap (λ m. reply connect_id m box) (rw e at built))
      ]

  handle_request-download :
      (r : DownloadRequestTransfer)
      → IsDownloadRequest r
      → ((file : ServerFileInfo)
          → services.get_by_id (to_int32 r.file_id) ≡ some file
          → IsFileInfo file)
      → (request bytes body : List ℕ) × (build_download_request_byte_array host r id
          ≡ parsed request)
        × (handle_request host services stringify envelope request connect_id box
            ≡ handled (push_reply connect_id bytes box))
        × (try_parse_byte_array_response host new bytes ≡ parsed (ok_envelope id body))
        × (try_parse_byte_array_download_response host stringify body
            ≡ parsed (download_answer (services.get_by_id (to_int32 r.file_id)) r))
  handle_request-download r v files =
      let found = services.get_by_id (to_int32 r.file_id) in
      let (request, sent, dispatched) =
        handle_request-download_request host services stringify envelope connect_id box r id v
          fits in
      let (bytes, body, built, read, inner) =
        download_response-sent host (download_answer found r) id stringify new
          (download_answer-IsDownloadResponse found r v files) fits in
      (
        request,
        bytes,
        body,
        sent,
        dispatched ∙ handle_download_request-answer r bytes built,
        read,
        inner,
      )

module _ (host : Host) (services : Services) (stringify : SerializeField → List ℕ)
    (envelope : EnvelopeRequestTransfer) (new : EnvelopeResponseTransfer) (connect_id : ℕ)
    (b : MailBox) (q : List PosixFrame) (waiting : find connect_id b.to_client ≡ some q) (id : ℕ)
    (fits : id < 256 ^ 8) where
  -- The connection has a queue. The frame of a download request that fits, from a client on a machine of
  -- the server's byte order, makes the server put one frame behind those in this queue, in which the
  -- client reads an envelope with the id of the request and, in it, the entry of the file, or an empty
  -- one if there is none, with the task of the request; the entries of the file information service fit
  -- their types.
  pub download_served :
      (r : DownloadRequestTransfer)
      → IsDownloadRequest r
      → ((file : ServerFileInfo)
          → services.get_by_id (to_int32 r.file_id) ≡ some file
          → IsFileInfo file)
      → (request bytes body : List ℕ) × (after : MailBox) × (build_download_request_byte_array host
            r id
          ≡ parsed request)
        × (handle_request host services stringify envelope request connect_id (some b)
            ≡ handled (some after))
        × (find connect_id after.to_client ≡ some (q ++ (frame_for connect_id bytes ∷ [])))
        × (try_parse_byte_array_response host new bytes ≡ parsed (ok_envelope id body))
        × (try_parse_byte_array_download_response host stringify body
            ≡ parsed (download_answer (services.get_by_id (to_int32 r.file_id)) r))
  download_served r v files =
      let (request, bytes, body, sent, done, read, inner) =
        handle_request-download host services stringify envelope new connect_id (some b) id fits r v
          files in
      let (after, pushed, queued) = push_reply-queue connect_id bytes b q waiting in
      (request, bytes, body, after, sent, done ∙ ap handled pushed, queued, read, inner)
