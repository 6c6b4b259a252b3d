-- ===== src/Codec/Message/Elements/Faults.antt =====
-- Vectors that are not read back: those of one number, and arrays with short elements.
use project_trans.Base.{ℕ, zero, suc, ◌≤◌, ◌<◌, ◌≡◌, refl, arith}
use project_trans.Base.{==_refl, some}
use project_trans.Base.{List, [], ◌∷◌, length}
use project_trans.Base.{
  false, lt→leb, le→leb, ◌+◌, ◌*◌, ◌^◌, Bool-cases, inl, inr, ltb, ltb→lt, ltb→le, take, drop,
}
use project_trans.Binary.{Host, to_byte_array}
use project_trans.Binary.Buffer.{read_at, read_at_past}
use project_trans.Binary.Order.{length-to_byte_array}
use project_trans.Codec.DataType.{array, has_flag, has_value_length}
use project_trans.Codec.Parse.{add32, parsed, rejected, out_of_range}
use project_trans.Codec.Field.{SerializeField}
use project_trans.Codec.ArrayValue
use project_trans.Codec.ArrayValue.{SerializeArrayValue, from_serialized_byte_array}
use project_trans.Codec.ArrayValue.Wire.{IsArray, wire}
use project_trans.Codec.ArrayValue.RoundTrip.{from_serialized_byte_array-wire}
use project_trans.Codec.Message.Elements.{elements_field}
use project_trans.Codec.Message.Elements.{
  named_field, data_at, read_elements, array_elements, to_array,
}

-- The field of a vector of one number.
pub elements_field_one :
    (host : Host) (type w x : ℕ) (name : List ℕ)
    → elements_field host type w (x ∷ []) name
      ≡ parsed (some (named_field name type 0 (to_byte_array host w x)))
unfolding elements_field
elements_field_one host type w x name = refl

from_short :
    (host : Host) (bytes : List ℕ)
    → length bytes < 10
    → from_serialized_byte_array host bytes ≡ rejected
unfolding from_serialized_byte_array
from_short host bytes h = rw (lt→leb 10 (length bytes) h)

pub to_array_one_field :
    (writer reader : Host) (type w x : ℕ) (name : List ℕ)
    → w ≤ 8
    → to_array reader type w (named_field name type 0 (to_byte_array writer w x)) ≡ parsed []
unfolding to_array
to_array_one_field writer reader type w x name h = rw (
  from_short reader (to_byte_array writer w x) (omega (arith, length-to_byte_array writer w x)),
  to_array,
)

-- A vector of one number of at most eight bytes becomes a field, on any machine, from which every
-- machine reads the empty vector.
pub to_array_one :
    (writer reader : Host) (type w x : ℕ) (name : List ℕ)
    → w ≤ 8
    → (f : SerializeField) × (elements_field writer type w (x ∷ []) name ≡ parsed (some f))
      × (to_array reader type w f ≡ parsed [])
to_array_one writer reader type w x name h = (
  named_field name type 0 (to_byte_array writer w x),
  elements_field_one writer type w x name,
  to_array_one_field writer reader type w x name h,
)

-- A range that does not lie in a value with storage.
data_at-past :
    (bytes : List ℕ) (i w : ℕ)
    → 1 ≤ length bytes
    → length bytes < i + w
    → data_at bytes i w ≡ out_of_range
unfolding data_at
data_at-past [] i w h past = absurd (omega arith)
data_at-past (b ∷ bytes) i w h past = rw (read_at_past (b ∷ bytes) i w past)

data_at-inside :
    (bytes : List ℕ) (i w : ℕ)
    → 1 ≤ length bytes
    → i + w ≤ length bytes
    → data_at bytes i w ≡ parsed (some (take w (drop i bytes)))
unfolding data_at
data_at-inside [] i w h fit = absurd (omega arith)
data_at-inside (b ∷ bytes) i w h fit =
    unfold read_at in rw (le→leb (i + w) (length (b ∷ bytes)) fit)

-- Where the elements do not all lie in the value, the loop reads outside it.
read_elements_short :
    (host : Host) (w count : ℕ) (bytes : List ℕ) (i : ℕ)
    → 1 ≤ length bytes
    → i ≤ length bytes
    → length bytes < i + w * count
    → i + w * count < 2 ^ 32
    → read_elements host w bytes count i ≡ out_of_range
unfolding read_elements
read_elements_short host w zero bytes i h inside short fits = absurd (omega arith)
read_elements_short host w (suc count) bytes i h inside short fits =
    elim (Bool-cases (ltb (length bytes) (i + w))) [
      | inl past ↦ rw (data_at-past bytes i w h (ltb→lt (length bytes) (i + w) past))
      | inr there ↦
          let fit = ltb→le (length bytes) (i + w) there in
          rw (
            data_at-inside bytes i w h fit,
            read_elements_short host w count bytes (add32 i w) h (omega (arith, fit)) (omega arith)
                (omega arith),
          )
    ]

-- A field that holds a well-formed array (`IsArray`) of the wanted type, without the flag for variable
-- lengths, makes `to_array` read outside the value if this has a byte or more, but fewer than all its
-- elements of that type; their bytes are fewer than 2^32.
pub to_array_faults :
    (host : Host) (w : ℕ) (a : SerializeArrayValue) (name : List ℕ)
    → IsArray a
    → has_flag a.flag ArrayValue.is_element_length_variable ≡ false
    → 1 ≤ length a.element_value
    → length a.element_value < w * a.element_count
    → w * a.element_count < 2 ^ 32
    → to_array host a.element_type w (named_field name array has_value_length (wire a))
      ≡ out_of_range
unfolding to_array
to_array_faults host w a name v h there short fits =
    rw (from_serialized_byte_array-wire host a v, to_array)
      (unfold array_elements in
        rw (==_refl a.element_type, h)
          (read_elements_short host w a.element_count a.element_value 0 there (omega arith)
            (omega (arith, short)) (omega (arith, fits))))
