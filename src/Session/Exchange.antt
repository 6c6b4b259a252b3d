-- ===== src/Session/Exchange.antt =====
-- From the fields of one end of a connection to those of the other.
use project_trans.Base.{
  ℕ, ◌^◌, ◌<◌, ◌≡◌, refl, sym, ap, ◌∙◌, arith, some, List, [], ◌∷◌, ◌++◌, append-nil, All, length,
  length-append, take-append,
}
use project_trans.Binary.{Host}
use project_trans.Codec.Parse.{Parse, parsed}
use project_trans.Codec.Header
use project_trans.Codec.Header.{SerializeHeader}
use project_trans.Codec.Header.Wire.{IsHeader, from_serialized_byte_array-wire}
use project_trans.Codec.Field.{SerializeField}
use project_trans.Codec.Message.{SerializeCodec, SerializeConfig, deserialize}
use project_trans.Codec.Message.Build.{wires, entries}
use project_trans.Codec.Message.RoundTrip.{IsMessage, message, message-wire, deserialize-message}
use project_trans.Frame
use project_trans.Frame.{FrameAssembler, read_rounds}
use project_trans.Frame.Stream.{body_length}
use project_trans.Frame.Deliver.{IsFrame, concat, all_bytes, read_rounds_delivers}
use project_trans.Frame.Refine.{pending}
use project_trans.Session.{Sender, connected}
use project_trans.Session.Stream.{Sends, Sends-split}

-- A message is a frame.
body_length-wire :
    (reader : Host) (h : SerializeHeader) (body : List ℕ)
    → IsHeader h
    → body_length reader (Header.Wire.wire h ++ body) ≡ h.message_length
unfolding body_length
body_length-wire reader h body v =
    let head =
      take-append (Header.Wire.wire h) body 16 (sym (Header.Wire.length-wire h))
      ∙ sym (append-nil (Header.Wire.wire h)) in
    rw (head, from_serialized_byte_array-wire reader h [] v, body_length) refl

pub message-IsFrame :
    (writer reader : Host) (config : SerializeConfig) (fs : List SerializeField)
    → IsMessage config fs
    → IsFrame reader (message writer config fs)
message-IsFrame writer reader config fs m =
    let (h, v, e, l) = message-wire writer config fs m in
    rw (e, body_length-wire reader h (wires fs) v)
      (omega (arith, l, length-append (Header.Wire.wire h) (wires fs), Header.Wire.length-wire h))

-- What one end sends: for each message the limits and the fields.
abbrev pub Outgoing : Type 0
Outgoing = List (SerializeConfig × List SerializeField)

abbrev pub messages : Host → Outgoing → List (List ℕ)
messages writer [] = []
messages writer ((config, fs) ∷ out) = message writer config fs ∷ messages writer out

-- A codec of the receiver for each frame.
abbrev pub deserialize_each : Host → SerializeCodec → List (List ℕ) → List (Parse SerializeCodec)
deserialize_each reader d [] = []
deserialize_each reader d (frame ∷ frames) =
    deserialize reader frame d ∷ deserialize_each reader d frames

-- The codecs that hold what was sent.
abbrev pub holding_each : Host → SerializeCodec → Outgoing → List (Parse SerializeCodec)
holding_each writer d [] = []
holding_each writer d ((config, fs) ∷ out) =
    parsed (record d {
      byte_array_parsed = message writer config fs;
      data_map_parsed = d.data_map_parsed ++ entries fs;
    })
    ∷ holding_each writer d out

module _ (writer reader : Host) where
  messages-IsFrame :
      (out : Outgoing)
      → All (λ m. IsMessage m.0 m.1) out
      → All (IsFrame reader) (messages writer out)
  messages-IsFrame [] all = tt
  messages-IsFrame ((config, fs) ∷ out) (m, all) =
      (message-IsFrame writer reader config fs m, messages-IsFrame out all)

  deserialize_each-messages :
      (d : SerializeCodec) (out : Outgoing)
      → All (λ m. IsMessage m.0 m.1) out
      → deserialize_each reader d (messages writer out) ≡ holding_each writer d out
  deserialize_each-messages d [] all = refl
  deserialize_each-messages d ((config, fs) ∷ out) (m, all) =
      let one = deserialize-message writer config fs m reader d in
      let rest = deserialize_each-messages d out all in cc (one, rest)

  -- Messages that one end serializes, on any machine, and writes to a connection until nothing is pending,
  -- however the system cuts the writes, come out of the other end as they went in: if the bytes that are
  -- read are, in whatever rounds and blocks, those that went out, fewer than 2 ^ 32, the frames that are
  -- popped are the messages, and a codec on any machine reads from each the fields that were put in.
  pub exchange :
      (out : Outgoing) (wire : List ℕ) (s : Sender) (rounds : List (List (List ℕ)))
      (d : SerializeCodec)
      → All (λ m. IsMessage m.0 m.1) out
      → Sends connected (messages writer out) wire s
      → s.write_buffer ≡ []
      → all_bytes rounds ≡ wire
      → length wire < 2 ^ 32
      → (frames : List (List ℕ)) × (r : FrameAssembler) × (read_rounds reader rounds Frame.new
          ≡ some (frames, r))
        × (pending r ≡ [])
        × (frames ≡ messages writer out)
        × (deserialize_each reader d frames ≡ holding_each writer d out)
  exchange out wire s rounds d all sends flushed same small =
      let whole : wire ≡ concat (messages writer out) =
        sym (append-nil wire) ∙ ap (λ l. wire ++ l) (sym flushed) ∙ Sends-split sends in
      let (r, e, p) =
        read_rounds_delivers reader (messages writer out) rounds (messages-IsFrame out all)
          (same ∙ whole) (rw whole at small) in
      (messages writer out, r, e, p, refl, deserialize_each-messages d out all)
