-- ===== src/Codec/Message/Elements/Tests.antt =====
-- Concrete arrays.
use project_trans.Base.{◌≡◌, refl, arith, some, [], ◌∷◌, false}
use project_trans.Binary.{little, big}
use project_trans.Codec.DataType.{uint16, has_flag, array, has_value_length}
use project_trans.Codec.Parse.{parsed, out_of_range, ◌>>=◌}
use project_trans.Codec.Field.{SerializeField}
use project_trans.Codec.ArrayValue
use project_trans.Codec.ArrayValue.{SerializeArrayValue, is_element_length_variable}
use project_trans.Codec.ArrayValue.Wire.{IsArray, wire, sum}
use project_trans.Codec.ArrayValue.RoundTrip.{from_serialized_byte_array-to_serialized_byte_array}
use project_trans.Codec.Message.Elements.{elements_field, to_array, named_field}
use project_trans.Codec.Message.Elements.RoundTrip.{IsVector, to_array-elements_field}
use project_trans.Codec.Message.Elements.Faults.{to_array_faults}

numbers-IsVector : IsVector uint16 2 (258 ∷ 7 ∷ [])
numbers-IsVector = record {
  type_fits = omega arith;
  several = omega arith;
  numbers_fit = (omega arith, (omega arith, tt));
  fits = omega arith;
  wide = omega arith;
  narrow = omega arith;
}

to_array-elements_field_example :
    (f : SerializeField) × (elements_field little uint16 2 (258 ∷ 7 ∷ []) (97 ∷ [])
      ≡ parsed (some f))
    × (to_array big uint16 2 f ≡ parsed (258 ∷ 7 ∷ []))
to_array-elements_field_example =
    to_array-elements_field little big uint16 2 (258 ∷ 7 ∷ []) (97 ∷ []) numbers-IsVector

-- Two elements of one byte and of two.
abbrev ragged : SerializeArrayValue
ragged = record {
  element_type = 13;
  element_count = 2;
  flag = 1;
  element_value_length = 1 ∷ 2 ∷ [];
  element_value = 5 ∷ 6 ∷ 7 ∷ [];
}

ragged-IsArray : IsArray ragged
unfolding sum has_flag
ragged-IsArray = record {
  type_fits = omega arith;
  count_fits = omega arith;
  flag_fits = omega arith;
  lengths_fit = (omega arith, (omega arith, tt));
  some_length = omega arith;
  counted = λ e. (refl, refl);
  uniform = λ e. absurd (cc e);
  fits = omega arith;
}

from_serialized_byte_array-to_serialized_byte_array_example :
    (ArrayValue.to_serialized_byte_array little ragged
      >>= ArrayValue.from_serialized_byte_array big)
    ≡ parsed ragged
from_serialized_byte_array-to_serialized_byte_array_example =
    from_serialized_byte_array-to_serialized_byte_array little big ragged ragged-IsArray

-- Three elements of one byte.
abbrev narrow : SerializeArrayValue
narrow = record {
  element_type = uint16;
  element_count = 3;
  flag = 0;
  element_value_length = 1 ∷ [];
  element_value = 5 ∷ 6 ∷ 7 ∷ [];
}

narrow-IsArray : IsArray narrow
unfolding has_flag
narrow-IsArray = record {
  type_fits = omega arith;
  count_fits = omega arith;
  flag_fits = omega arith;
  lengths_fit = (omega arith, tt);
  some_length = omega arith;
  counted = λ e. absurd (cc e);
  uniform = λ e. (1, refl, refl);
  fits = omega arith;
}

fixed : has_flag narrow.flag is_element_length_variable ≡ false
unfolding has_flag
fixed = refl

to_array_faults_example :
    to_array big uint16 2 (named_field (97 ∷ []) array has_value_length (wire narrow))
    ≡ out_of_range
to_array_faults_example =
    to_array_faults big 2 narrow (97 ∷ []) narrow-IsArray fixed (omega arith) (omega arith)
      (omega arith)
