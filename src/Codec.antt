-- ===== src/Codec.antt =====
-- The binary message format: common/source/danejoe/network/codec/serialize_header.cpp,
-- serialize_field.cpp, serialize_array_value.cpp and serialize_codec.cpp, with common/source/danejoe/common/core/data_type.cpp.
-- A message is a header of 16 bytes and a body of fields. Diagnostics are left out.
pub mod DataType
pub mod Header
pub mod Parse
pub mod Field
pub mod ArrayValue
pub mod Message
