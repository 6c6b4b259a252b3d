-- ===== src/Protocol/Transfer.antt =====
-- The structs of model/transfer, which client and server each have a copy of, and the tests on the
-- fields of a message that both parsers make. Integers are their bit patterns: a negative `int64_t`
-- `n` is `2 ^ 64 + n`. `ContentType` and `ResponseStatus` are the numbers under the enums.
use project_trans.Base.{ℕ, Option, none, some, List, [], ◌-◌, ◌^◌}
use project_trans.Binary.{Host}
use project_trans.Codec.DataType.{uint8}
use project_trans.Codec.Parse.{Parse, parsed, rejected}
use project_trans.Codec.Field.{SerializeField}
use project_trans.Codec.Message.{to_value}
use project_trans.Codec.Message.Elements.{to_array, to_string}

pub record EnvelopeRequestTransfer : Type 0 where
  pub version : ℕ
  pub request_id : ℕ
  pub request_type : ℕ
  pub path : List ℕ
  pub content_type : ℕ
  pub body : List ℕ

pub record EnvelopeResponseTransfer : Type 0 where
  pub version : ℕ
  pub request_id : ℕ
  pub status : ℕ
  pub content_type : ℕ
  pub body : List ℕ

pub record DownloadRequestTransfer : Type 0 where
  pub file_id : ℕ
  pub task_id : ℕ

pub record DownloadResponseTransfer : Type 0 where
  pub file_id : ℕ
  pub task_id : ℕ
  pub file_name : List ℕ
  pub file_size : ℕ
  pub md5_code : List ℕ

pub record BlockRequestTransfer : Type 0 where
  pub block_id : ℕ
  pub file_id : ℕ
  pub task_id : ℕ
  pub offset : ℕ
  pub block_size : ℕ

pub record BlockResponseTransfer : Type 0 where
  pub block_id : ℕ
  pub file_id : ℕ
  pub task_id : ℕ
  pub offset : ℕ
  pub block_size : ℕ
  pub bytes : List ℕ

pub record TestRequestTransfer : Type 0 where
  pub message : List ℕ

pub record TestResponseTransfer : Type 0 where
  pub message : List ℕ

-- `-1` as an `int64_t`, which ids have before they are set.
abbrev pub minus_one : ℕ
minus_one = 2 ^ 64 - 1

-- `ContentType::DaneJoe` and `ResponseStatus::Ok`
abbrev pub dane_joe : ℕ
dane_joe = 1

abbrev pub ok : ℕ
ok = 200

-- A member whose field may be missing, which leaves the member as it was; a field that is there must
-- hold a number of `w` bytes and data type `type`.
unfoldable pub optional_value : Host → ℕ → ℕ → Option SerializeField → ℕ → Parse ℕ
optional_value host type w none old = parsed old
optional_value host type w (some f) old = elim (to_value host type w f) [
  | none ↦ rejected
  | some n ↦ parsed n
]

-- A member whose field must be there and hold a number.
unfoldable pub required_value : Host → ℕ → ℕ → Option SerializeField → Parse ℕ
required_value host type w none = rejected
required_value host type w (some f) = elim (to_value host type w f) [
  | none ↦ rejected
  | some n ↦ parsed n
]

-- A member that keeps its value unless its field is there and holds a number.
unfoldable pub lenient_value : Host → ℕ → ℕ → Option SerializeField → ℕ → ℕ
lenient_value host type w none old = old
lenient_value host type w (some f) old = elim (to_value host type w f) [ none ↦ old | some n ↦ n ]

-- A text whose field may be missing.
unfoldable pub optional_text : (SerializeField → List ℕ) → Option SerializeField → List ℕ
optional_text stringify none = []
optional_text stringify (some f) = to_string stringify f

-- A vector of bytes whose field may be missing.
unfoldable pub optional_bytes : Host → Option SerializeField → Parse (List ℕ)
optional_bytes host none = parsed []
optional_bytes host (some f) = to_array host uint8 1 f

-- A vector of bytes, and a text, whose field must be there.
unfoldable pub required_bytes : Host → Option SerializeField → Parse (List ℕ)
required_bytes host none = rejected
required_bytes host (some f) = to_array host uint8 1 f

unfoldable pub required_text : (SerializeField → List ℕ) → Option SerializeField → Parse (List ℕ)
required_text stringify none = rejected
required_text stringify (some f) = parsed (to_string stringify f)
