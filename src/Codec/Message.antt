-- ===== src/Codec/Message.antt =====
-- `SerializeCodec` of serialize_codec.hpp and serialize_codec.cpp: building and parsing messages.
pub mod Build
pub mod RoundTrip
pub mod Lookup
pub mod Faults
pub mod Values
pub mod Elements
pub mod Ready
pub mod Bytes
mod Tests
use project_trans.Base.{ℕ, zero, suc, ◌+◌, ◌-◌, ◌*◌, ◌%◌, ◌^◌, ltb, ◌==◌, if◌then◌else◌, Bool, true}
use project_trans.Base.{false, ◌&&◌, Option, none, some, List, [], ◌∷◌, ◌++◌, length, take, set}
use project_trans.Base.{resize, replicate}
use project_trans.Binary.{Host, to_local_byte_order, to_byte_array, try_cast}
use project_trans.Binary.Buffer.{write_at, read_at}
use project_trans.Codec.DataType.{has_value_length, string, get_data_type_length, has_flag}
use project_trans.Codec.Parse.{Parse, parsed, rejected, out_of_range, ◌>>=◌, read_bytes, add32}
use project_trans.Codec.Header
use project_trans.Codec.Header.{SerializeHeader}
use project_trans.Codec.Field
use project_trans.Codec.Field.{SerializeField}

abbrev pub header_size : ℕ
header_size = 16

-- `SerializeConfig`
pub record SerializeConfig : Type 0 where
  pub max_field_value_length : ℕ
  pub max_field_name_length : ℕ
  pub pre_allocated_size : ℕ

abbrev pub default_config : SerializeConfig
default_config = record {
  max_field_value_length = 256 * 1024 * 1024;
  max_field_name_length = 128;
  pre_allocated_size = 4 * 1024;
}

-- An `unordered_multimap` from names to fields, in the order of insertion.
abbrev pub FieldMap : Type 0
FieldMap = List (List ℕ × SerializeField)

pub record SerializeCodec : Type 0 where
  pub config : SerializeConfig
  pub parsed_buffer_index : ℕ
  pub parsed_message_header : SerializeHeader
  pub is_parsed_header_finished : Bool
  pub current_index : ℕ
  pub byte_array_build : List ℕ
  pub byte_array_parsed : List ℕ
  pub data_map_build : FieldMap
  pub data_map_parsed : FieldMap

-- A header whose members are not initialised; the code writes them before it reads them.
abbrev pub blank_header : SerializeHeader
blank_header = record {
  magic_number = Header.default_magic_number;
  version = Header.default_version;
  message_length = 0;
  flag = 0;
  checksum = 0;
  field_count = 0;
}

unfoldable pub new : SerializeConfig → SerializeCodec
new config = record {
  config = config;
  parsed_buffer_index = 0;
  parsed_message_header = blank_header;
  is_parsed_header_finished = false;
  current_index = header_size;
  byte_array_build = replicate config.pre_allocated_size 0;
  byte_array_parsed = [];
  data_map_build = [];
  data_map_parsed = [];
}

unfoldable pub set_config : SerializeConfig → SerializeCodec → SerializeCodec
set_config config c =
    let build = c.byte_array_build in
    record c {
      config = config;
      byte_array_build =
          if ltb (length build) config.pre_allocated_size
          then resize config.pre_allocated_size 0 build
          else build;
    }

unfoldable pub reset_build : SerializeCodec → SerializeCodec
reset_build c = record c { byte_array_build = []; data_map_build = []; current_index = header_size }

unfoldable pub reset_parse : SerializeCodec → SerializeCodec
reset_parse c = record c {
  byte_array_parsed = [];
  data_map_parsed = [];
  parsed_buffer_index = 0;
  is_parsed_header_finished = false;
}

unfoldable pub get_message_header : Host → List ℕ → Option SerializeHeader
get_message_header host bytes =
    if ltb (length bytes) header_size
    then none
    else Header.from_serialized_byte_array host (take header_size bytes)

-- `ensure_enough_capacity_rest_to_build`
unfoldable pub ensure_rest_to_build : ℕ → SerializeCodec → SerializeCodec
ensure_rest_to_build size_need c =
    let request_total_size = add32 c.current_index size_need in
    if ltb (length c.byte_array_build) request_total_size
    then record c { byte_array_build = resize request_total_size 0 c.byte_array_build }
    else c

-- The part of `serialize(field)` behind the size checks.
unfoldable pub append_field : Host → SerializeField → SerializeCodec → SerializeCodec
append_field host f c =
    let c' = ensure_rest_to_build (Field.serialized_size f) c in
    record c' {
      byte_array_build =
          write_at c'.byte_array_build c.current_index (Field.to_serialized_byte_array host f);
      current_index = add32 c.current_index (Field.serialized_size f);
      data_map_build = c'.data_map_build ++ ((f.name, f) ∷ []);
    }

-- `serialize(field)`
unfoldable pub serialize : Host → SerializeField → SerializeCodec → SerializeCodec
serialize host f c =
    if ltb c.config.max_field_name_length f.name_length
    then c
    else (if ltb c.config.max_field_value_length f.value_length then c else append_field host f c)

-- `to_value<T>(field)` for a number of `w` bytes and data type `type`.
unfoldable pub to_value : Host → ℕ → ℕ → SerializeField → Option ℕ
to_value host type w f = if f.type == type then try_cast host w f.value else none

-- `serialize(const T& data, name)` for a number of `w` bytes and data type `type`; the name length is
-- a `uint16_t`.
unfoldable pub value_field : Host → ℕ → ℕ → ℕ → List ℕ → SerializeField
value_field host type w n name = record {
  name_length = length name % 2 ^ 16;
  name = name;
  type = type;
  flag = 0;
  value_length = length (to_byte_array host w n) % 2 ^ 32;
  value = to_byte_array host w n;
}

-- `serialize(const std::string& data, name)`
unfoldable pub string_field : List ℕ → List ℕ → SerializeField
string_field text name = record {
  name_length = length name % 2 ^ 16;
  name = name;
  type = string;
  flag = has_value_length;
  value_length = length text % 2 ^ 32;
  value = text;
}

-- The header that `finalize_message_header` writes.
unfoldable pub message_header : SerializeCodec → SerializeHeader
message_header c = record {
  magic_number = Header.default_magic_number;
  version = Header.default_version;
  message_length = (c.current_index + 2 ^ 32 - header_size) % 2 ^ 32;
  flag = 0;
  checksum = 0;
  field_count = length c.data_map_build % 2 ^ 16;
}

unfoldable pub finalize_message_header : Host → SerializeCodec → SerializeCodec
finalize_message_header host c = record c {
  byte_array_build =
      Header.write_header host (message_header c) (resize c.current_index 0 c.byte_array_build);
}

-- The vector is returned by value; the codec keeps the finished message.
unfoldable pub get_serialized_data_vector_build : Host → SerializeCodec → List ℕ × SerializeCodec
get_serialized_data_vector_build host c =
    let c' = finalize_message_header host c in (c'.byte_array_build, c')

-- The value length with the index behind it: read, or told by the type.
unfoldable pub read_length : Host → List ℕ → ℕ → ℕ → ℕ → Parse (ℕ × ℕ)
read_length host bytes type flag i =
    if has_flag flag has_value_length
    then (do b ← read_bytes bytes i 4; parsed (to_local_byte_order host 4 b, add32 i 4))
    else parsed (get_data_type_length type, i)

-- One round of the loop of `deserialize`, which does not compare its reads with the size of the data:
-- the field at index `i`, and the index behind it.
unfoldable pub read_field : Host → List ℕ → ℕ → Parse (SerializeField × ℕ)
read_field host bytes i = do
  name_length_bytes ← read_bytes bytes i 2
  let name_length = to_local_byte_order host 2 name_length_bytes
  let i1 = add32 i 2
  name ← read_bytes bytes i1 name_length
  let i2 = add32 i1 name_length
  type_byte ← read_bytes bytes i2 1
  let type = to_local_byte_order host 1 type_byte
  flag_byte ← read_bytes bytes (add32 i2 1) 1
  let flag = to_local_byte_order host 1 flag_byte
  (value_length, i3) ← read_length host bytes type flag (add32 (add32 i2 1) 1)
  value ← read_bytes bytes i3 value_length
  parsed (
    record {
      name_length = name_length;
      name = name;
      type = type;
      flag = flag;
      value_length = value_length;
      value = Field.read_value host type value value_length;
    },
    add32 i3 value_length,
  )

-- The loop: `count` rounds.
unfoldable pub read_fields : Host → List ℕ → ℕ → ℕ → FieldMap → Parse FieldMap
read_fields host bytes zero i map = parsed map
read_fields host bytes (suc count) i map = do
  (f, j) ← read_field host bytes i
  read_fields host bytes count j (map ++ ((f.name, f) ∷ []))

-- A message that is refused leaves the codec as it was.
unfoldable pub deserialize : Host → List ℕ → SerializeCodec → Parse SerializeCodec
deserialize host bytes c = elim (get_message_header host bytes) [
  | none ↦ parsed c
  | some header ↦
      if ltb (length bytes) (add32 header.message_length header_size) then parsed c else (do
        map ← read_fields host bytes header.field_count header_size c.data_map_parsed
        parsed (record c { byte_array_parsed = bytes; data_map_parsed = map }))
]

-- `std::string` equality
unfoldable pub same_name : List ℕ → List ℕ → Bool
same_name [] [] = true
same_name (a ∷ as') (b ∷ bs) = a == b && same_name as' bs
same_name _ _ = false

-- `find` on the multimap. Which of several entries with one name is found is not specified; here it
-- is the oldest, and the theorems are about names that occur once.
unfoldable pub find_field : List ℕ → FieldMap → Option SerializeField
unfolding same_name
find_field key [] = none
find_field key ((name, f) ∷ map) = if same_name name key then some f else find_field key map

unfoldable pub get_parsed_field : List ℕ → SerializeCodec → Option SerializeField
get_parsed_field key c = find_field key c.data_map_parsed

-- The copy loop of `add_data_block_to_parse`.
unfoldable pub store_bytes : List ℕ → List ℕ → ℕ → List ℕ × ℕ
store_bytes [] stored i = (stored, i)
store_bytes (b ∷ bytes) stored i = store_bytes bytes (set stored i b) (add32 i 1)

unfoldable pub add_data_block_to_parse : List ℕ → SerializeCodec → SerializeCodec
add_data_block_to_parse bytes c =
    let size_need = (c.parsed_buffer_index + length bytes) % 2 ^ 32 in
    let room =
      if ltb (length c.byte_array_parsed) size_need
      then resize size_need 0 c.byte_array_parsed
      else c.byte_array_parsed in
    let (stored, i) = store_bytes bytes room c.parsed_buffer_index in
    record c { byte_array_parsed = stored; parsed_buffer_index = i }

-- The last test of `is_frame_complete`.
unfoldable pub is_body_complete : SerializeCodec → Bool
is_body_complete c =
    if ltb c.parsed_buffer_index (add32 c.parsed_message_header.message_length header_size)
    then false
    else true

unfoldable pub is_frame_complete : Host → SerializeCodec → Bool × SerializeCodec
is_frame_complete host c =
    if ltb c.parsed_buffer_index header_size
    then (false, c)
    else (if c.is_parsed_header_finished
        then (is_body_complete c, c)
        else elim (get_message_header host c.byte_array_parsed) [
          | none ↦ (false, reset_parse c)
          | some header ↦
              let c' = record c {
                parsed_message_header = header;
                is_parsed_header_finished = true;
              } in
              (is_body_complete c', c')
        ])
