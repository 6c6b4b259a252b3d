-- ===== src/Codec/Message/Ready.antt =====
-- Lists of fields that a codec with the default limits serializes, put together field by field.
use project_trans.Base.{
  ℕ, suc, ◌+◌, ◌*◌, ◌%◌, ◌^◌, ◌≤◌, ◌<◌, ◌≡◌, refl, arith, true, false, All, length,
}
use project_trans.Base.{List, [], ◌∷◌, length-append, take_all}
use project_trans.Binary.{Host}
use project_trans.Binary.Order.{length-to_byte_array}
use project_trans.Codec.DataType.{get_data_type_length, has_flag, has_value_length}
use project_trans.Codec.Parse.{parsed}
use project_trans.Codec.Field.{SerializeField}
use project_trans.Codec.Field.Wire.{IsField, IsSized, wire}
use project_trans.Codec.Field.RoundTrip.{
  length-wire, length-wire_length_with, length-wire_length_without,
}
use project_trans.Codec.ArrayValue
use project_trans.Codec.Message.{new, deserialize}
use project_trans.Codec.Message.{
  default_config, value_field, string_field, serialize, SerializeCodec,
}
use project_trans.Codec.Message.Build.{wires, IsAccepted, entries}
use project_trans.Codec.Message.RoundTrip.{IsMessage, message, deserialize-message}
use project_trans.Codec.Message.Values.{value_field-IsField, string_field-IsField}
use project_trans.Codec.Message.Elements.{serialize_vector, named_field, to_string}
use project_trans.Codec.Message.Elements.RoundTrip.{elements_form, vector_field, IsVector}
use project_trans.Codec.Message.Elements.RoundTrip.{
  length-elements_wire, elements_field_several, counts,
}

-- `count` fields of `total` bytes at most.
pub record Prepared (fs : List SerializeField) (count total : ℕ) : Type 0 where
  pub well_formed : All IsField fs
  pub sized : All IsSized fs
  pub accepted : All (IsAccepted default_config) fs
  pub counted : length fs ≡ count
  pub bounded : length (wires fs) ≤ total

pub Prepared-nil : Prepared [] 0 0
unfolding wires
Prepared-nil = record {
  well_formed = tt;
  sized = tt;
  accepted = tt;
  counted = refl;
  bounded = omega arith;
}

Prepared-cons :
    {fs : List SerializeField} {count total : ℕ} (f : SerializeField) (size : ℕ)
    → IsField f
    → IsSized f
    → IsAccepted default_config f
    → length (wire f) ≤ size
    → Prepared fs count total
    → Prepared (f ∷ fs) (suc count) (size + total)
unfolding wires
Prepared-cons {fs} f size v s a l p = record {
  well_formed = (v, p.well_formed);
  sized = (s, p.sized);
  accepted = (a, p.accepted);
  counted = omega (arith, p.counted);
  bounded = omega (arith, length-append (wire f) (wires fs), l, p.bounded);
}

unset : has_flag 0 has_value_length ≡ false
unfolding has_flag
unset = refl

is_set : has_flag has_value_length has_value_length ≡ true
unfolding has_flag
is_set = refl

module _ {fs : List SerializeField} {count total : ℕ} (name : List ℕ) (short : length name ≤ 128)
    (p : Prepared fs count total) where
  pub Prepared-value :
      (host : Host) (type w n : ℕ)
      → type < 256
      → w ≤ 8
      → w ≡ get_data_type_length type
      → Prepared (value_field host type w n name ∷ fs) (suc count) (length name + 12 + total)
  Prepared-value host type w n t small e =
      let (v, s) = value_field-IsField host type w n name (omega arith) t small in
      Prepared-cons (value_field host type w n name) (length name + 12) v (s e) accepted bound p
    where
      size : length (value_field host type w n name).value ≡ w
      size = unfold value_field in length-to_byte_array host w n

      bound : length (wire (value_field host type w n name)) ≤ length name + 12
      bound =
          unfold value_field in
          omega (
            arith,
            length-wire (value_field host type w n name),
            length-wire_length_without (value_field host type w n name) unset,
            size,
          )

      accepted : IsAccepted default_config (value_field host type w n name)
      accepted =
          unfold value_field in record { name_ok = omega arith; value_ok = omega (arith, size) }

  pub Prepared-text :
      (text : List ℕ)
      → length text ≤ 2 ^ 28
      → Prepared (string_field text name ∷ fs) (suc count) (length name + 8 + length text + total)
  Prepared-text text small =
      let (v, s) = string_field-IsField text name (omega arith) (omega arith) in
      Prepared-cons (string_field text name) (length name + 8 + length text) v s accepted bound p
    where
      bound : length (wire (string_field text name)) ≤ length name + 8 + length text
      bound =
          unfold string_field in
          omega (
            arith,
            length-wire (string_field text name),
            length-wire_length_with (string_field text name) is_set,
          )

      accepted : IsAccepted default_config (string_field text name)
      accepted = unfold string_field in record { name_ok = omega arith; value_ok = omega arith }

  pub Prepared-vector :
      (type w : ℕ) (xs : List ℕ)
      → IsVector type w xs
      → w * length xs + 10 ≤ 2 ^ 28
      → Prepared
          (vector_field type w xs name ∷ fs)
          (suc count)
          (length name + 18 + w * length xs + total)
  Prepared-vector type w xs v small =
      Prepared-cons (vector_field type w xs name) (length name + 18 + w * length xs) well_formed
        sized accepted bound p
    where
      size : length (ArrayValue.Wire.wire (elements_form type w xs)) ≡ 10 + w * length xs
      size =
          unfold elements_form in
          omega (
            arith,
            ArrayValue.Wire.length-wire (elements_form type w xs),
            length-elements_wire w xs,
          )

      sized : IsSized (vector_field type w xs name)
      sized = unfold vector_field in (λ e. absurd (cc (e, is_set)))

      well_formed : IsField (vector_field type w xs name)
      well_formed =
          unfold vector_field in
          record {
            name_counted = omega arith;
            name_fits = omega arith;
            type_fits = omega arith;
            flag_fits = omega arith;
            value_counted = omega (arith, size);
            fits = omega (arith, size);
          }

      bound : length (wire (vector_field type w xs name)) ≤ length name + 18 + w * length xs
      bound =
          unfold vector_field in
          omega (
            arith,
            length-wire (vector_field type w xs name),
            length-wire_length_with (vector_field type w xs name) is_set,
            size,
          )

      accepted : IsAccepted default_config (vector_field type w xs name)
      accepted =
          unfold vector_field in record { name_ok = omega arith; value_ok = omega (arith, size) }

pub Prepared-IsMessage :
    (fs : List SerializeField) (count total : ℕ)
    → Prepared fs count total
    → count < 2 ^ 16
    → total + 20 < 2 ^ 32
    → IsMessage default_config fs
Prepared-IsMessage fs count total p few small = record {
  well_formed = p.well_formed;
  sized = p.sized;
  accepted = p.accepted;
  few = omega (arith, p.counted);
  small = omega (arith, p.bounded);
}

-- Serializing a vector of two elements or more.
pub serialize_vector_several :
    (host : Host) (type w : ℕ) (xs name : List ℕ) (c : SerializeCodec)
    → IsVector type w xs
    → serialize_vector host type w xs name c
      ≡ parsed (serialize host (vector_field type w xs name) c)
unfolding serialize_vector project_trans.Codec.Message.Elements.serialize_option
serialize_vector_several host type w xs name c v = rw (
  take_all xs (length xs % 2 ^ 32) (omega (arith, v.fits, counts type w xs v)),
  elements_field_several type w xs v host name,
)

-- A new codec after it has read a message of the fields `fs`.
abbrev pub received : Host → List SerializeField → SerializeCodec
received host fs = record (new default_config) {
  byte_array_parsed = message host default_config fs;
  data_map_parsed = entries fs;
}

pub deserialize-received :
    (host : Host) (fs : List SerializeField)
    → IsMessage default_config fs
    → deserialize host (message host default_config fs) (new default_config)
      ≡ parsed (received host fs)
unfolding new
deserialize-received host fs m =
    deserialize-message host default_config fs m host (new default_config)

pub to_string-string_field :
    (stringify : SerializeField → List ℕ) (text name : List ℕ)
    → to_string stringify (string_field text name) ≡ text
unfolding to_string string_field
to_string-string_field stringify text name = refl
