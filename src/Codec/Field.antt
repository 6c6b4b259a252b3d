-- ===== src/Codec/Field.antt =====
-- `SerializeField` of serialize_field.hpp and serialize_field.cpp.
pub mod Wire
pub mod Reads
pub mod RoundTrip
use project_trans.Base.{some, ℕ, ◌+◌, ◌%◌, ◌^◌, ◌≡◌, leb, if◌then◌else◌, Bool, List, [], ◌∷◌, ◌++◌}
use project_trans.Base.{length, take, drop, replicate}
use project_trans.Binary.{Host, to_network_byte_order, to_local_byte_order}
use project_trans.Binary.{to_network_byte_order_data, to_local_byte_order_bytes, data_of}
use project_trans.Binary.Buffer.{write_at, ensure_enough_capacity, ensure_enough_to_read}
use project_trans.Codec.DataType.{get_data_type_length, is_raw, has_flag, has_value_length}
use project_trans.Codec.Parse.{Parse, parsed, ◌>>=◌, ◌>>◌, require, read_bytes, add32}

-- `type` and `flag` are the bytes of their enums.
pub record SerializeField : Type 0 where
  pub name_length : ℕ
  pub name : List ℕ
  pub type : ℕ
  pub flag : ℕ
  pub value_length : ℕ
  pub value : List ℕ

abbrev pub min_serialized_byte_array_size : ℕ
min_serialized_byte_array_size = 2 + 1 + 1

unfoldable pub serialized_size : SerializeField → ℕ
serialized_size f =
    let size = (2 + length f.name + 1 + 1 + length f.value) % 2 ^ 32 in
    if has_flag f.flag has_value_length then add32 size 4 else size

-- The value as `to_serialized_byte_array` writes it, and as the readers take it over.
unfoldable pub write_value : Host → SerializeField → List ℕ
write_value host f =
    if is_raw f.type
    then f.value
    else to_network_byte_order_data host (data_of f.value) f.value_length

unfoldable pub read_value : Host → ℕ → List ℕ → ℕ → List ℕ
read_value host type bytes value_length =
    if is_raw type then bytes else to_local_byte_order_bytes host (some bytes) value_length

-- The last part: the value length, if the flag asks for it, and the value. `need` counts the bytes
-- that were made room for, and `i` is the index of the next byte.
unfoldable pub write_tail : Host → SerializeField → List ℕ → ℕ → ℕ → List ℕ
write_tail host f bytes need i =
    if has_flag f.flag has_value_length
    then (let need' = add32 need 4 in
        let bytes' =
          write_at (ensure_enough_capacity bytes need') i
            (to_network_byte_order host 4 f.value_length) in
        let bytes'' = ensure_enough_capacity bytes' (add32 need' f.value_length) in
        write_at bytes'' (add32 i 4) (write_value host f))
    else write_at (ensure_enough_capacity bytes (add32 need f.value_length)) i (write_value host f)

unfoldable pub to_serialized_byte_array : Host → SerializeField → List ℕ
to_serialized_byte_array host f =
    let data0 = ensure_enough_capacity (replicate (serialized_size f) 0) 2 in
    let data1 = write_at data0 0 (to_network_byte_order host 2 f.name_length) in
    let need1 = add32 2 f.name_length in
    let data2 = write_at (ensure_enough_capacity data1 need1) 2 f.name in
    let i2 = add32 2 (length f.name) in
    let need2 = add32 need1 1 in
    let data3 =
      write_at (ensure_enough_capacity data2 need2) i2 (to_network_byte_order host 1 f.type) in
    let i3 = add32 i2 1 in
    let need3 = add32 need2 1 in
    let data4 =
      write_at (ensure_enough_capacity data3 need3) i3 (to_network_byte_order host 1 f.flag) in
    write_tail host f data4 need3 (add32 i3 1)

-- The value length with the bytes asked for and the index behind it.
unfoldable pub read_value_length : Host → List ℕ → ℕ → ℕ → ℕ → ℕ → Parse (ℕ × ℕ × ℕ)
read_value_length host bytes type flag need i =
    if has_flag flag has_value_length
    then (do
      require (ensure_enough_to_read bytes (add32 need 4))
      b ← read_bytes bytes i 4
      parsed (to_local_byte_order host 4 b, add32 need 4, add32 i 4))
    else parsed (get_data_type_length type, need, i)

unfoldable pub from_serialized_byte_array : Host → List ℕ → Parse SerializeField
from_serialized_byte_array host bytes = do
  require (leb min_serialized_byte_array_size (length bytes % 2 ^ 32))
  require (ensure_enough_to_read bytes 2)
  name_length_bytes ← read_bytes bytes 0 2
  let name_length = to_local_byte_order host 2 name_length_bytes
  let need1 = add32 2 name_length
  require (ensure_enough_to_read bytes need1)
  name ← read_bytes bytes 2 name_length
  let i1 = add32 2 name_length
  let need2 = add32 need1 1
  require (ensure_enough_to_read bytes need2)
  type_byte ← read_bytes bytes i1 1
  let type = to_local_byte_order host 1 type_byte
  let i2 = add32 i1 1
  let need3 = add32 need2 1
  require (ensure_enough_to_read bytes need3)
  flag_byte ← read_bytes bytes i2 1
  let flag = to_local_byte_order host 1 flag_byte
  (value_length, need4, i3) ← read_value_length host bytes type flag need3 (add32 i2 1)
  require (ensure_enough_to_read bytes (add32 need4 value_length))
  value ← read_bytes bytes i3 value_length
  parsed (record {
    name_length = name_length;
    name = name;
    type = type;
    flag = flag;
    value_length = value_length;
    value = read_value host type value value_length;
  })
