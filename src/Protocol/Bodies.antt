-- ===== src/Protocol/Bodies.antt =====
-- The bodies of requests and responses: lemmas on the messages that stand in an envelope.
pub mod Requests
pub mod Responses
pub mod Sent
use project_trans.Base.{ℕ, ◌+◌, ◌*◌, ◌^◌, ◌≤◌, ◌<◌, ◌≡◌, arith, All, length, some, List}
use project_trans.Binary.{Host}
use project_trans.Codec.DataType.{uint8}
use project_trans.Codec.Parse.{parsed}
use project_trans.Codec.Field.{SerializeField}
use project_trans.Codec.Message.{default_config, value_field}
use project_trans.Codec.Message.Build.{wires}
use project_trans.Codec.Message.RoundTrip.{IsMessage, message}
use project_trans.Codec.Message.Values.{to_value-value_field}
use project_trans.Codec.Message.Ready.{Prepared, Prepared-IsMessage}
use project_trans.Codec.Message.Bytes.{IsByteField, message-AllBytes, length-message}
use project_trans.Protocol.Transfer.{required_value, lenient_value}
use project_trans.Protocol.Envelope.{IsBody}

pub required_value-value_field :
    (host : Host) (type w n : ℕ) (name : List ℕ)
    → n < 256 ^ w
    → required_value host type w (some (value_field host type w n name)) ≡ parsed n
unfolding required_value
required_value-value_field host type w n name h =
    rw (to_value-value_field host type w n name h, required_value)

pub lenient_value-value_field :
    (host : Host) (type w n : ℕ) (name : List ℕ) (old : ℕ)
    → n < 256 ^ w
    → lenient_value host type w (some (value_field host type w n name)) old ≡ n
unfolding lenient_value
lenient_value-value_field host type w n name old h =
    rw (to_value-value_field host type w n name h, lenient_value)

-- A message of fields of bytes can stand in an envelope.
pub IsBody-message :
    (host : Host) (fs : List SerializeField) (count total : ℕ)
    → Prepared fs count total
    → All IsByteField fs
    → count < 2 ^ 16
    → total + 26 ≤ 2 ^ 28
    → IsMessage default_config fs × IsBody (message host default_config fs)
IsBody-message host fs count total p bytes few small =
    let m = Prepared-IsMessage fs count total p few (omega arith) in
    let size = length-message host fs m in
    (
      m,
      record {
        vector = record {
          type_fits = omega arith;
          several = omega (arith, size);
          numbers_fit = message-AllBytes host fs m bytes;
          fits = omega (arith, size, p.bounded);
          wide = omega arith;
          narrow = omega arith;
        };
        short = omega (arith, size, p.bounded);
      },
    )
