-- ===== src/Codec/Message/Tests.antt =====
-- Concrete messages, headers and fields.
use project_trans.Base.{
  ◌<◌, ◌^◌, ◌-◌, ◌+◌, ◌≡◌, refl, arith, List, [], ◌∷◌, ◌++◌, some, length, All, false,
}
use project_trans.Binary.{little, big, low_first, to_byte_array}
use project_trans.Binary.Order.{high_first}
use project_trans.Codec.DataType.{has_value_length, has_flag, uint16, bool, get_data_type_length}
use project_trans.Codec.Parse.{parsed, out_of_range}
use project_trans.Codec.Header
use project_trans.Codec.Header.{SerializeHeader}
use project_trans.Codec.Header.Wire.{IsHeader, from_serialized-to_serialized}
use project_trans.Codec.Field
use project_trans.Codec.Field.{SerializeField}
use project_trans.Codec.Field.Wire.{IsSized, IsField, wire, wire_length}
use project_trans.Codec.Field.RoundTrip.{from_serialized_byte_array-wire}
use project_trans.Codec.Message.{
  SerializeCodec, new, default_config, value_field, string_field, deserialize,
}
use project_trans.Codec.Message.{same_name, get_parsed_field, read_field, blank_header}
use project_trans.Codec.Message.Build.{entries, wires}
use project_trans.Codec.Message.RoundTrip.{IsMessage, message, deserialize-message}
use project_trans.Codec.Message.Lookup.{get_parsed_field-message}
use project_trans.Codec.Message.Faults.{deserialize_short_body_faults, read_field_unsized, emptied}
use project_trans.Codec.Message.Values.{value_field-IsField, string_field-IsField}

-- A number named "id" and a text named "s".
abbrev id_field : SerializeField
unfolding value_field
id_field = value_field little uint16 2 258 (105 ∷ 100 ∷ [])

abbrev text_field : SerializeField
unfolding string_field
text_field = string_field (104 ∷ 105 ∷ []) (115 ∷ [])

abbrev fields : List SerializeField
fields = id_field ∷ text_field ∷ []

fields-IsMessage : IsMessage default_config fields
unfolding value_field string_field wires wire wire_length high_first low_first has_flag
    to_byte_array get_data_type_length
fields-IsMessage =
    let (id_ok, id_sized) =
      value_field-IsField little uint16 2 258 (105 ∷ 100 ∷ []) (omega arith) (omega arith)
        (omega arith) in
    let (text_ok, text_sized) =
      string_field-IsField (104 ∷ 105 ∷ []) (115 ∷ []) (omega arith) (omega arith) in
    record {
      well_formed = (id_ok, (text_ok, tt));
      sized = (id_sized refl, (text_sized, tt));
      accepted = (
        record { name_ok = omega arith; value_ok = omega arith },
        (record { name_ok = omega arith; value_ok = omega arith }, tt),
      );
      few = omega arith;
      small = omega arith;
    }

deserialize-message_example :
    deserialize big (message little default_config fields) (new default_config)
    ≡ parsed (record (new default_config) {
      byte_array_parsed = message little default_config fields;
      data_map_parsed = (new default_config).data_map_parsed ++ entries fields;
    })
deserialize-message_example =
    deserialize-message little default_config fields fields-IsMessage big (new default_config)

get_parsed_field-message_example :
    (d : SerializeCodec) × (deserialize big
        (message little default_config ((id_field ∷ []) ++ (text_field ∷ [])))
        (new default_config)
      ≡ parsed d)
    × (get_parsed_field text_field.name d ≡ some text_field)
get_parsed_field-message_example =
    get_parsed_field-message little big default_config default_config (id_field ∷ []) [] text_field
      fields-IsMessage others tt
  where
    others : All (λ g. same_name g.name text_field.name ≡ false) (id_field ∷ [])
    others = unfold same_name value_field string_field in (refl, tt)

abbrev short_header : SerializeHeader
short_header = record blank_header { field_count = 1 }

short_header-IsHeader : IsHeader short_header
short_header-IsHeader = record {
  magic_fits = omega arith;
  version_fits = omega arith;
  length_fits = omega arith;
  flag_fits = omega arith;
  checksum_fits = omega arith;
  count_fits = omega arith;
}

deserialize_short_body_faults_example :
    deserialize little (Header.Wire.wire short_header ++ []) (new default_config) ≡ out_of_range
deserialize_short_body_faults_example =
    deserialize_short_body_faults little short_header [] (new default_config) short_header-IsHeader
      (omega arith) (omega arith) (λ e. omega arith)

text_field-IsField : IsField text_field
unfolding string_field
text_field-IsField =
    (string_field-IsField (104 ∷ 105 ∷ []) (115 ∷ []) (omega arith) (omega arith)).0

text_field-IsSized : IsSized text_field
unfolding string_field
text_field-IsSized =
    (string_field-IsField (104 ∷ 105 ∷ []) (115 ∷ []) (omega arith) (omega arith)).1

text_field_short : length (wire text_field ++ []) < 2 ^ 32
unfolding string_field wire wire_length high_first low_first has_flag to_byte_array
    get_data_type_length
text_field_short = omega arith

from_serialized_byte_array-wire_example :
    Field.from_serialized_byte_array little (wire text_field ++ []) ≡ parsed text_field
from_serialized_byte_array-wire_example =
    from_serialized_byte_array-wire little text_field text_field-IsField text_field-IsSized []
      text_field_short

-- A `bool` that is true, named "b".
abbrev flag_field : SerializeField
unfolding value_field
flag_field = value_field little bool 1 1 (98 ∷ [])

flag_field-IsField : IsField flag_field
unfolding value_field
flag_field-IsField =
    (value_field-IsField little bool 1 1 (98 ∷ []) (omega arith) (omega arith) (omega arith)).0

flag_field_unsized :
    (has_flag flag_field.flag has_value_length ≡ false) × (get_data_type_length flag_field.type ≡ 0)
unfolding flag_field value_field has_flag get_data_type_length
flag_field_unsized = (refl, refl)

flag_field_short : 0 + length (wire flag_field) + 4 < 2 ^ 32
unfolding flag_field value_field wire wire_length high_first low_first has_flag to_byte_array
    get_data_type_length
flag_field_short = omega arith

read_field_unsized_example :
    read_field little ([] ++ (wire flag_field ++ [])) 0
    ≡ parsed (emptied flag_field, 0 + (length (wire flag_field) - length flag_field.value))
read_field_unsized_example =
    read_field_unsized little [] [] flag_field flag_field-IsField flag_field_unsized.0
      flag_field_unsized.1 flag_field_short
