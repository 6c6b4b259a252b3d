-- ===== src/Codec/Header.antt =====
-- `SerializeHeader` of serialize_header.hpp and serialize_header.cpp.
pub mod Wire
use project_trans.Base.{ℕ, ◌+◌, ltb, if◌then◌else◌, Option, none, some, List}
use project_trans.Base.{length, take, drop, replicate}
use project_trans.Binary.{Host, to_network_byte_order, to_local_byte_order}
use project_trans.Binary.Buffer.{write_at}

-- `flag` is the byte of `SerializeFlag`.
pub record SerializeHeader : Type 0 where
  pub magic_number : ℕ
  pub version : ℕ
  pub message_length : ℕ
  pub flag : ℕ
  pub checksum : ℕ
  pub field_count : ℕ

-- The default member initialisers; the members without one are written before they are read.
abbrev pub default_magic_number : ℕ
default_magic_number = 0x66666666

abbrev pub default_version : ℕ
default_version = 1

abbrev pub min_serialized_byte_array_size : ℕ
min_serialized_byte_array_size = 4 + 1 + 4 + 1 + 4 + 2

abbrev pub serialized_size : SerializeHeader → ℕ
serialized_size h = min_serialized_byte_array_size

-- The six writes, each at the index behind the one before it.
unfoldable pub write_header : Host → SerializeHeader → List ℕ → List ℕ
write_header host h data0 =
    let data1 = write_at data0 0 (to_network_byte_order host 4 h.magic_number) in
    let data2 = write_at data1 4 (to_network_byte_order host 1 h.version) in
    let data3 = write_at data2 5 (to_network_byte_order host 4 h.message_length) in
    let data4 = write_at data3 9 (to_network_byte_order host 1 h.flag) in
    let data5 = write_at data4 10 (to_network_byte_order host 4 h.checksum) in
    write_at data5 14 (to_network_byte_order host 2 h.field_count)

unfoldable pub to_serialized_byte_array : Host → SerializeHeader → List ℕ
to_serialized_byte_array host h = write_header host h (replicate (serialized_size h) 0)

-- A number of `w` bytes at index `i`. The size test of the caller keeps the reads inside.
abbrev pub read_number : Host → ℕ → List ℕ → ℕ → ℕ
read_number host w bytes i = to_local_byte_order host w (take w (drop i bytes))

unfoldable pub from_serialized_byte_array : Host → List ℕ → Option SerializeHeader
from_serialized_byte_array host bytes =
    if ltb (length bytes) min_serialized_byte_array_size
    then none
    else some (record {
      magic_number = read_number host 4 bytes 0;
      version = read_number host 1 bytes 4;
      message_length = read_number host 4 bytes 5;
      flag = read_number host 1 bytes 9;
      checksum = read_number host 4 bytes 10;
      field_count = read_number host 2 bytes 14;
    })
