-- ===== src/Codec/Message/Values.antt =====
-- Numbers as values of fields: read back on a machine of the writer's order, and only there.
use project_trans.Base.{ℕ, ◌+◌, ◌*◌, ◌/◌, ◌%◌, ◌^◌, ◌≤◌, ◌<◌, ◌≡◌, ◌≢◌, refl, sym, ap, ◌∙◌, arith}
use project_trans.Base.{le→leb, ==_refl, List, length, take_all, some}
use project_trans.Base.{true}
use mathlib.Core.List.{reverse-reverse}
use mathlib.Core.Option.{some-injective}
use project_trans.Binary.{
  Host, little, big, low_first, from_low_first, object_value, to_byte_array, try_cast,
}
use project_trans.Binary.Order.{length-to_byte_array, from_low_first-low_first}
use project_trans.Codec.DataType.{get_data_type_length, has_flag, has_value_length}
use project_trans.Codec.Field.Wire.{IsField, IsSized}
use project_trans.Codec.Message.{value_field, to_value, string_field}

object_value-to_byte_array :
    (host : Host) (w n : ℕ) → n < 256 ^ w → object_value host (to_byte_array host w n) ≡ n
unfolding object_value to_byte_array
object_value-to_byte_array little w n h = from_low_first-low_first w n h
object_value-to_byte_array big w n h =
    ap from_low_first (reverse-reverse (low_first w n)) ∙ from_low_first-low_first w n h

try_cast-to_byte_array :
    (reader writer : Host) (w n : ℕ)
    → try_cast reader w (to_byte_array writer w n)
      ≡ some (object_value reader (to_byte_array writer w n))
unfolding try_cast
try_cast-to_byte_array reader writer w n =
    let size = length-to_byte_array writer w n in
    rw (
      le→leb w (length (to_byte_array writer w n)) (omega (arith, size)),
      take_all (to_byte_array writer w n) w (omega (arith, size)),
    )

swapped_pair :
    (n : ℕ) → object_value big (to_byte_array little 2 n) ≡ n / 256 % 256 + 256 * (n % 256)
unfolding object_value to_byte_array low_first from_low_first
swapped_pair n = omega arith

-- A number that is serialized as a value is what `to_value` of its type gives on a machine with the
-- same byte order.
pub to_value-value_field :
    (host : Host) (type w n : ℕ) (name : List ℕ)
    → n < 256 ^ w
    → to_value host type w (value_field host type w n name) ≡ some n
unfolding to_value value_field
to_value-value_field host type w n name h =
    rw (==_refl type, try_cast-to_byte_array host host w n, object_value-to_byte_array host w n h)

-- A value of two bytes that differ, sent from a machine of one byte order and read on a machine of the
-- other, is not the number that was sent: the value bytes of a message are not converted.
pub to_value_other_order :
    (type n : ℕ) (name : List ℕ)
    → n < 256 ^ 2
    → n % 256 ≢ n / 256
    → to_value big type 2 (value_field little type 2 n name) ≢ some n
unfolding to_value value_field
to_value_other_order type n name h ne e =
    let same : n / 256 % 256 + 256 * (n % 256) ≡ n = some-injective _ _ (sym misread ∙ e) in
    absurd (omega arith)
  where
    misread :
        to_value big type 2 (value_field little type 2 n name)
        ≡ some (n / 256 % 256 + 256 * (n % 256))
    misread = rw (==_refl type, try_cast-to_byte_array big little 2 n) (ap some (swapped_pair n))

-- The fields that the overload for numbers makes are well formed.
pub value_field-IsField :
    (host : Host) (type w n : ℕ) (name : List ℕ)
    → length name < 2 ^ 16
    → type < 256
    → w ≤ 8
    → IsField (value_field host type w n name)
      × (w ≡ get_data_type_length type → IsSized (value_field host type w n name))
unfolding value_field
value_field-IsField host type w n name short t small =
    let size = length-to_byte_array host w n in
    (
      record {
        name_counted = omega arith;
        name_fits = omega arith;
        type_fits = omega arith;
        flag_fits = omega arith;
        value_counted = omega (arith, size);
        fits = omega (arith, size);
      },
      λ e _. omega (arith, size, e),
    )

has_flag_set : has_flag has_value_length has_value_length ≡ true
unfolding has_flag
has_flag_set = refl

pub string_field-IsField :
    (text name : List ℕ)
    → length name < 2 ^ 16
    → length name + length text + 8 < 2 ^ 32
    → IsField (string_field text name) × IsSized (string_field text name)
unfolding string_field
string_field-IsField text name short small = (
  record {
    name_counted = omega arith;
    name_fits = omega arith;
    type_fits = omega arith;
    flag_fits = omega arith;
    value_counted = omega arith;
    fits = omega arith;
  },
  λ e. cc (e, has_flag_set),
)
