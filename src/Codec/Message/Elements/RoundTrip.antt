-- ===== src/Codec/Message/Elements/RoundTrip.antt =====
-- Vectors as values of fields: two elements or more are read back, one element and none are not.
use project_trans.Base.{ℕ, zero, suc, ◌+◌, ◌*◌, ◌^◌, ◌≤◌, ◌<◌, ◌≡◌, refl, sym, ap, ◌∙◌, arith}
use project_trans.Base.{lt→ltb, ne→==, ==_refl, some, All, length-append}
use project_trans.Base.{List, [], ◌∷◌, ◌++◌, length, take, replicate, append_assoc, append-nil}
use project_trans.Base.{length-replicate, take_all, false}
use project_trans.Binary.{Host, to_local_byte_order_data, to_local_byte_order}
use project_trans.Binary.Buffer.{write_at, take-write_at, length-write_at, read_at, read_at-append}
use project_trans.Binary.Order.{high_first, length-high_first, to_network_byte_order-high_first}
use project_trans.Binary.Order.{to_local_byte_order-high_first}
use project_trans.Codec.DataType.{array, has_flag, has_value_length}
use project_trans.Codec.Parse.{parsed, add32}
use project_trans.Codec.Field.{SerializeField}
use project_trans.Codec.ArrayValue
use project_trans.Codec.ArrayValue.{SerializeArrayValue, from_serialized_byte_array}
use project_trans.Codec.ArrayValue.Wire.{IsArray, wire, to_serialized_byte_array-wire}
use project_trans.Codec.ArrayValue.RoundTrip.{from_serialized_byte_array-wire}
use project_trans.Codec.Message.Elements.{write_elements, elements_array, elements_field}
use project_trans.Codec.Message.Elements.{
  named_field, data_at, read_elements, array_elements, to_array,
}

unfoldable pub elements_wire : ℕ → List ℕ → List ℕ
elements_wire w [] = []
elements_wire w (x ∷ xs) = high_first w x ++ elements_wire w xs

pub length-elements_wire : (w : ℕ) (xs : List ℕ) → length (elements_wire w xs) ≡ w * length xs
unfolding elements_wire
length-elements_wire w [] = omega arith
length-elements_wire w (x ∷ xs) = omega (
  arith,
  length-append (high_first w x) (elements_wire w xs),
  length-high_first w x,
  length-elements_wire w xs,
)

-- The loop fills the buffer up behind `done`.
write_elements-wire :
    (host : Host) (w : ℕ) (xs bytes done : List ℕ) (i : ℕ)
    → take i bytes ≡ done
    → length bytes ≡ i + w * length xs
    → i + w * length xs < 2 ^ 32
    → write_elements host w xs i bytes ≡ done ++ elements_wire w xs
unfolding write_elements elements_wire
write_elements-wire host w [] bytes done i e l s =
    sym (take_all bytes i (omega arith)) ∙ e ∙ sym (append-nil done)
write_elements-wire host w (x ∷ xs) bytes done i e l s =
    let size = length-high_first w x in
    rw (to_network_byte_order-high_first host w x) (
      write_elements-wire host w xs (write_at bytes i (high_first w x)) (done ++ high_first w x)
        (add32 i w)
        (take-write_at bytes i (add32 i w) (high_first w x) (omega (arith, size))
            (omega (arith, size))
          ∙ ap (λ l. l ++ high_first w x) e)
        (omega (arith, length-write_at bytes i (high_first w x))) (omega arith)
      ∙ append_assoc done (high_first w x) (elements_wire w xs))

-- A range of one byte or more that lies in the value is read.
data_at-some :
    (bytes b : List ℕ) (i w : ℕ)
    → read_at bytes i w ≡ some b
    → 1 ≤ w
    → data_at bytes i w ≡ parsed (some b)
unfolding data_at
data_at-some [] b zero w r h = absurd (unfold read_at in ground arith)
data_at-some [] b (suc i) w r h = rw r refl
data_at-some (x ∷ bytes) b i w r h = rw r refl

-- The loop reads the elements behind `pre`.
read_elements_step :
    (host : Host) (w x count i : ℕ) (bytes xs : List ℕ)
    → read_at bytes i w ≡ some (high_first w x)
    → 1 ≤ w
    → x < 256 ^ w
    → read_elements host w bytes count (add32 i w) ≡ parsed xs
    → read_elements host w bytes (suc count) i ≡ parsed (x ∷ xs)
unfolding read_elements to_local_byte_order_data to_local_byte_order
read_elements_step host w x count i bytes xs r wide fit rest =
    rw (data_at-some bytes (high_first w x) i w r wide, rest)
      (ap (λ n. parsed (n ∷ xs)) (to_local_byte_order-high_first host w x fit))

read_elements-wire :
    (host : Host) (w : ℕ) (xs pre : List ℕ) (i : ℕ)
    → 1 ≤ w
    → All (λ x. x < 256 ^ w) xs
    → i ≡ length pre
    → i + w * length xs < 2 ^ 32
    → read_elements host w (pre ++ elements_wire w xs) (length xs) i ≡ parsed xs
unfolding elements_wire
read_elements-wire host w [] pre i wide fits e s = unfold read_elements in refl
read_elements-wire host w (x ∷ xs) pre i wide (fit, fits) e s =
    let size = length-high_first w x in
    read_elements_step host w x (length xs) i _ xs
      (read_at-append pre (high_first w x) (elements_wire w xs) i w e (sym size)) wide fit
      (rw (← append_assoc pre (high_first w x) (elements_wire w xs)) (
        read_elements-wire host w xs (pre ++ high_first w x) (add32 i w) wide fits
          (omega (arith, size, length-append pre (high_first w x))) (omega arith)))

-- An array of numbers of `w` bytes: its value is their wire form.
unfoldable pub elements_form : ℕ → ℕ → List ℕ → SerializeArrayValue
elements_form type w xs = record {
  element_type = type;
  element_count = length xs;
  flag = 0;
  element_value_length = w ∷ [];
  element_value = elements_wire w xs;
}

-- The field that a vector of two elements or more becomes.
unfoldable pub vector_field : ℕ → ℕ → List ℕ → List ℕ → SerializeField
vector_field type w xs name =
    named_field name array has_value_length (wire (elements_form type w xs))

elements_array-form :
    (host : Host) (type w : ℕ) (xs : List ℕ)
    → w * length xs < 2 ^ 32
    → elements_array host type w xs ≡ elements_form type w xs
unfolding elements_array elements_form
elements_array-form host type w xs small =
    let filled : write_elements host w xs 0 (replicate (w * length xs) 0) ≡ elements_wire w xs =
      write_elements-wire host w xs (replicate (w * length xs) 0) [] 0 refl
        (length-replicate _ 0 ∙ omega arith) (omega arith) in
    λ i. record {
      element_type = type;
      element_count = length xs;
      flag = 0;
      element_value_length = w ∷ [];
      element_value = filled i;
    }

-- What fits a message: the numbers their width, the array its length.
pub record IsVector (type w : ℕ) (xs : List ℕ) : Type 0 where
  pub type_fits : type < 256
  pub several : 2 ≤ length xs
  pub numbers_fit : All (λ x. x < 256 ^ w) xs
  pub fits : w * length xs + 20 < 2 ^ 32
  pub wide : 1 ≤ w
  pub narrow : w ≤ 8

le_mul : (w n : ℕ) → 1 ≤ w → n ≤ w * n
le_mul zero n h = absurd (omega arith)
le_mul (suc w) n h = omega arith

not_variable : has_flag 0 ArrayValue.is_element_length_variable ≡ false
unfolding has_flag
not_variable = refl

module _ (type w : ℕ) (xs : List ℕ) (v : IsVector type w xs) where
  pub counts : length xs ≤ w * length xs
  counts = le_mul w (length xs) v.wide

  elements_form-IsArray : IsArray (elements_form type w xs)
  unfolding elements_form
  elements_form-IsArray =
      let size = length-elements_wire w xs in
      record {
        type_fits = v.type_fits;
        count_fits = omega (arith, v.fits, counts);
        flag_fits = omega arith;
        lengths_fit = (omega (arith, v.narrow), tt);
        some_length = omega arith;
        counted = λ e. absurd (cc (e, not_variable));
        uniform = λ e. (w, refl, sym size);
        fits = omega (arith, size, v.fits);
      }

  pub elements_field_several :
      (host : Host) (name : List ℕ)
      → elements_field host type w xs name ≡ parsed (some (vector_field type w xs name))
  unfolding elements_field vector_field
  elements_field_several host name = rw (
    ne→== (length xs) 0 (λ e. omega (arith, v.several)),
    lt→ltb 1 (length xs) (omega (arith, v.several)),
    elements_array-form host type w xs (omega (arith, v.fits)),
    to_serialized_byte_array-wire host (elements_form type w xs) elements_form-IsArray,
  )

  pub to_array-vector_field :
      (host : Host) (name : List ℕ) → to_array host type w (vector_field type w xs name) ≡ parsed xs
  unfolding to_array vector_field
  to_array-vector_field host name =
      rw
        (
          from_serialized_byte_array-wire host (elements_form type w xs) elements_form-IsArray,
          to_array,
        )
        (unfold array_elements elements_form in
          rw (==_refl type, not_variable)
            (read_elements-wire host w xs [] 0 v.wide v.numbers_fit refl (omega (arith, v.fits))))

-- A vector of two numbers or more that fits a message (`IsVector`) becomes a field, on any machine,
-- from which any machine reads the vector.
pub to_array-elements_field :
    (writer reader : Host) (type w : ℕ) (xs name : List ℕ)
    → IsVector type w xs
    → (f : SerializeField) × (elements_field writer type w xs name ≡ parsed (some f))
      × (to_array reader type w f ≡ parsed xs)
to_array-elements_field writer reader type w xs name v = (
  vector_field type w xs name,
  elements_field_several type w xs v writer name,
  to_array-vector_field type w xs v reader name,
)
