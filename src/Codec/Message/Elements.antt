-- ===== src/Codec/Message/Elements.antt =====
-- The overloads of `serialize` for vectors and for pointers with a size, `to_array` of
-- serialize_array_value.hpp, and the texts that `to_string` gives for fields.
pub mod RoundTrip
pub mod Faults
mod Tests
use project_trans.Base.{
  ℕ, zero, suc, ◌+◌, ◌*◌, ◌%◌, ◌^◌, ltb, ◌==◌, if◌then◌else◌, Option, none, some,
}
use project_trans.Base.{List, [], ◌∷◌, length, take, replicate, get_or}
use project_trans.Binary.{Host, to_network_byte_order, to_local_byte_order_data, to_byte_array}
use project_trans.Binary.Buffer.{write_at}
use project_trans.Codec.DataType.{array, string, has_flag, has_value_length}
use project_trans.Codec.Parse.{Parse, parsed, rejected, out_of_range, ◌>>=◌, read_bytes, add32}
use project_trans.Codec.Field.{SerializeField}
use project_trans.Codec.ArrayValue.{
  SerializeArrayValue, is_element_length_variable, to_serialized_byte_array,
}
use project_trans.Codec.ArrayValue.{from_serialized_byte_array}
use project_trans.Codec.Message.{SerializeCodec, serialize}

-- The loop that writes the elements, of `w` bytes each, in network order.
unfoldable pub write_elements : Host → ℕ → List ℕ → ℕ → List ℕ → List ℕ
write_elements host w [] i bytes = bytes
write_elements host w (x ∷ xs) i bytes =
    write_elements host w xs (add32 i w) (write_at bytes i (to_network_byte_order host w x))

unfoldable pub elements_array : Host → ℕ → ℕ → List ℕ → SerializeArrayValue
elements_array host type w xs = record {
  element_type = type;
  element_count = length xs;
  flag = 0;
  element_value_length = w ∷ [];
  element_value = write_elements host w xs 0 (replicate (w * length xs) 0);
}

abbrev pub named_field : List ℕ → ℕ → ℕ → List ℕ → SerializeField
named_field name type flag value = record {
  name_length = length name % 2 ^ 16;
  name = name;
  type = type;
  flag = flag;
  value_length = length value % 2 ^ 32;
  value = value;
}

-- The field that `serialize(const T* data, uint32_t size, name)` makes of numbers of `w` bytes and
-- data type `type`, if it makes one; `T` is not `char`.
unfoldable pub elements_field : Host → ℕ → ℕ → List ℕ → List ℕ → Parse (Option SerializeField)
elements_field host type w xs name =
    if length xs == 0
    then parsed none
    else (if ltb 1 (length xs)
        then (do
          value ← to_serialized_byte_array host (elements_array host type w xs)
          parsed (some (named_field name array has_value_length value)))
        else parsed (some (named_field name type 0 (to_byte_array host w (get_or xs 0 0)))))

unfoldable pub serialize_option : Host → Option SerializeField → SerializeCodec → SerializeCodec
serialize_option host none c = c
serialize_option host (some f) c = serialize host f c

-- `serialize(const std::vector<T>& data, name)`: the size is converted to a `uint32_t`.
unfoldable pub serialize_vector :
    Host → ℕ → ℕ → List ℕ → List ℕ → SerializeCodec → Parse SerializeCodec
serialize_vector host type w xs name c = do
  f ← elements_field host type w (take (length xs % 2 ^ 32) xs) name
  parsed (serialize_option host f c)

-- The pointer to `w` bytes of a value at an index: null for a value without storage at the index 0.
unfoldable pub data_at : List ℕ → ℕ → ℕ → Parse (Option (List ℕ))
data_at [] zero w = parsed none
data_at bytes i w = do b ← read_bytes bytes i w; parsed (some b)

-- The loop that reads `count` elements over zeros; it does not compare its reads with the size of the
-- value.
unfoldable pub read_elements : Host → ℕ → List ℕ → ℕ → ℕ → Parse (List ℕ)
read_elements host w bytes zero i = parsed []
read_elements host w bytes (suc count) i = do
  b ← data_at bytes i w
  xs ← read_elements host w bytes count (add32 i w)
  parsed (to_local_byte_order_data host w b 0 ∷ xs)

-- The elements of an array that was read, for numbers of `w` bytes and data type `type`.
unfoldable pub array_elements : Host → ℕ → ℕ → SerializeArrayValue → Parse (List ℕ)
array_elements host type w a =
    if a.element_type == type
    then (if has_flag a.flag is_element_length_variable
        then parsed []
        else read_elements host w a.element_value a.element_count 0)
    else parsed []

-- `to_array<T>(field)`
unfoldable pub to_array : Host → ℕ → ℕ → SerializeField → Parse (List ℕ)
to_array host type w f = elim (from_serialized_byte_array host f.value) [
  | parsed a ↦ array_elements host type w a
  | rejected ↦ parsed []
  | out_of_range ↦ out_of_range
]

-- `to_string(field)`, where `stringify` gives the text for a field that does not hold a text.
unfoldable pub to_string : (SerializeField → List ℕ) → SerializeField → List ℕ
to_string stringify f = if f.type == string then f.value else stringify f
