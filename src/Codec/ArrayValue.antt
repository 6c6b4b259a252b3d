-- ===== src/Codec/ArrayValue.antt =====
-- `SerializeArrayValue` of serialize_array_value.hpp and serialize_array_value.cpp: the value of a field
-- that holds an array.
pub mod Wire
pub mod RoundTrip
use project_trans.Base.{ℕ, zero, suc, ◌+◌, ◌*◌, ◌%◌, ◌^◌, leb, ltb, ◌==◌, not, if◌then◌else◌, ◌&&◌}
use project_trans.Base.{List, [], ◌∷◌, ◌++◌, length, replicate}
use project_trans.Binary.{Host, to_network_byte_order, to_local_byte_order}
use project_trans.Binary.Buffer.{write_at, ensure_enough_capacity, ensure_enough_to_read}
use project_trans.Codec.DataType.{has_flag}
use project_trans.Codec.Parse.{Parse, parsed, out_of_range, ◌>>=◌, ◌>>◌, require, read_bytes, add32}

-- `element_type` and `flag` are the bytes of their enums.
pub record SerializeArrayValue : Type 0 where
  pub element_type : ℕ
  pub element_count : ℕ
  pub flag : ℕ
  pub element_value_length : List ℕ
  pub element_value : List ℕ

-- `SerializeArrayFlag::IsElementLengthVariable`
abbrev pub is_element_length_variable : ℕ
is_element_length_variable = 1

abbrev pub min_serialized_byte_array_size : ℕ
min_serialized_byte_array_size = 1 + 4 + 1 + 4

unfoldable pub serialized_size : SerializeArrayValue → ℕ
serialized_size a =
    (1 + 4 + 1 + 4 * length a.element_value_length + length a.element_value) % 2 ^ 32

-- A number of `w` bytes written at `i`, with room made for `need` bytes before.
unfoldable pub put : Host → ℕ → ℕ → ℕ → ℕ → List ℕ → List ℕ
put host w n need i bytes =
    write_at (ensure_enough_capacity bytes need) i (to_network_byte_order host w n)

-- The loop over the lengths of the elements: the buffer, the bytes needed so far and the next index.
unfoldable pub write_lengths : Host → List ℕ → List ℕ → ℕ → ℕ → List ℕ × ℕ × ℕ
write_lengths host [] bytes need i = (bytes, need, i)
write_lengths host (n ∷ ns) bytes need i =
    write_lengths host ns (put host 4 n (add32 need 4) i bytes) (add32 need 4) (add32 i 4)

-- The one length of an array whose elements have the same length. The code passes the pointer to the
-- list of lengths: if the list is empty this is null, and nothing is written at the place.
unfoldable pub write_one_length : Host → List ℕ → List ℕ → ℕ → ℕ → Parse (List ℕ × ℕ × ℕ)
write_one_length host [] bytes need i =
    parsed (ensure_enough_capacity bytes (add32 need 4), add32 need 4, add32 i 4)
write_one_length host (n ∷ ns) bytes need i =
    parsed (put host 4 n (add32 need 4) i bytes, add32 need 4, add32 i 4)

unfoldable pub to_serialized_byte_array : Host → SerializeArrayValue → Parse (List ℕ)
to_serialized_byte_array host a =
    let is_variable_array = ltb 1 (length a.element_value_length) in
    let data0 = replicate (serialized_size a) 0 in
    let data1 = put host 1 a.element_type 1 0 data0 in
    let data2 = put host 4 a.element_count 5 1 data1 in
    let data3 = put host 1 a.flag 6 5 data2 in
    if is_variable_array && not (a.element_count == length a.element_value_length)
    then parsed []
    else (do
      (data4, need, i) ←
          (if is_variable_array
            then parsed (write_lengths host a.element_value_length data3 6 6)
            else write_one_length host a.element_value_length data3 6 6)
      let data5 = ensure_enough_capacity data4 ((need + length a.element_value) % 2 ^ 32)
      parsed (write_at data5 i a.element_value))

-- The loop that reads `count` lengths: the lengths, the bytes needed so far, the next index and the sum
-- of the lengths.
unfoldable pub read_lengths : Host → List ℕ → ℕ → ℕ → ℕ → ℕ → Parse (List ℕ × ℕ × ℕ × ℕ)
read_lengths host bytes zero need i value_length = parsed ([], need, i, value_length)
read_lengths host bytes (suc count) need i value_length = do
  require (ensure_enough_to_read bytes (add32 need 4))
  b ← read_bytes bytes i 4
  let n = to_local_byte_order host 4 b
  (ns, need', i', total) ←
      read_lengths host bytes count (add32 need 4) (add32 i 4) (add32 value_length n)
  parsed (n ∷ ns, need', i', total)

-- The length of an array whose elements have the same length.
unfoldable pub read_one_length : Host → List ℕ → ℕ → ℕ → ℕ → Parse (List ℕ × ℕ × ℕ × ℕ)
read_one_length host bytes count need i = do
  require (ensure_enough_to_read bytes (add32 need 4))
  b ← read_bytes bytes i 4
  let n = to_local_byte_order host 4 b
  parsed (n ∷ [], add32 need 4, add32 i 4, (n * count) % 2 ^ 32)

unfoldable pub from_serialized_byte_array : Host → List ℕ → Parse SerializeArrayValue
from_serialized_byte_array host bytes = do
  require (leb min_serialized_byte_array_size (length bytes))
  require (ensure_enough_to_read bytes 1)
  type_byte ← read_bytes bytes 0 1
  let element_type = to_local_byte_order host 1 type_byte
  require (ensure_enough_to_read bytes 5)
  count_bytes ← read_bytes bytes 1 4
  let element_count = to_local_byte_order host 4 count_bytes
  require (ensure_enough_to_read bytes 6)
  flag_byte ← read_bytes bytes 5 1
  let flag = to_local_byte_order host 1 flag_byte
  (lengths, need, i, value_length) ←
      (if has_flag flag is_element_length_variable
        then read_lengths host bytes element_count 6 6 0
        else read_one_length host bytes element_count 6 6)
  require (ensure_enough_to_read bytes (add32 need value_length))
  value ← read_bytes bytes i value_length
  parsed (record {
    element_type = element_type;
    element_count = element_count;
    flag = flag;
    element_value_length = lengths;
    element_value = value;
  })
