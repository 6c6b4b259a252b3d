-- ===== src/Codec/Field/Wire.antt =====
-- What a field is on the wire, and that it is written so.
use project_trans.Base.{ℕ, ◌+◌, ◌^◌, ◌≤◌, ◌<◌, ◌≡◌, refl, sym, ◌∙◌, arith, inl, inr}
use project_trans.Base.{if◌then◌else◌, Bool-cases, true, false, List, [], ◌++◌, append_assoc}
use project_trans.Base.{length, take, take_all, replicate, length-replicate}
use project_trans.Binary.{Host}
use project_trans.Binary.Buffer.{write_at_filled}
use project_trans.Binary.Order.{high_first, length-high_first, to_network_byte_order-high_first}
use project_trans.Binary.Order.{to_network_byte_order_data_lem, to_local_byte_order_bytes_lem}
use project_trans.Codec.DataType.{get_data_type_length, has_flag, has_value_length}
use project_trans.Codec.Parse.{add32}
use project_trans.Codec.Field.{SerializeField, serialized_size, write_value, read_value, write_tail}
use project_trans.Codec.Field.{to_serialized_byte_array}

-- The lengths are those of the data, and every member fits its type.
pub record IsField (f : SerializeField) : Type 0 where
  pub name_counted : f.name_length ≡ length f.name
  pub name_fits : f.name_length < 256 ^ 2
  pub type_fits : f.type < 256 ^ 1
  pub flag_fits : f.flag < 256 ^ 1
  pub value_counted : f.value_length ≡ length f.value
  pub fits : length f.name + length f.value + 8 < 2 ^ 32

-- A field that does not carry its value length has the length that its type tells.
abbrev pub IsSized : SerializeField → Type 0
IsSized f = has_flag f.flag has_value_length ≡ false → f.value_length ≡ get_data_type_length f.type

unfoldable pub wire_length : SerializeField → List ℕ
wire_length f = if has_flag f.flag has_value_length then high_first 4 f.value_length else []

-- A field on the wire: the length of the name, the name, the type, the flag, the length of the
-- value where the flag asks for it, and the value.
unfoldable pub wire : SerializeField → List ℕ
wire f =
    high_first 2 f.name_length
    ++ (f.name ++ (high_first 1 f.type ++ (high_first 1 f.flag ++ (wire_length f ++ f.value))))

-- The value is copied, whatever its type and the machine.
pub write_value_lem :
    (host : Host) (f : SerializeField)
    → f.value_length ≡ length f.value
    → write_value host f ≡ f.value
unfolding write_value
write_value_lem host f e = ground (
  arith,
  to_network_byte_order_data_lem host f.value f.value_length,
  take_all f.value f.value_length,
)

pub read_value_lem :
    (host : Host) (type : ℕ) (bytes : List ℕ) (n : ℕ)
    → n ≡ length bytes
    → read_value host type bytes n ≡ bytes
unfolding read_value
read_value_lem host type bytes n e =
    ground (arith, to_local_byte_order_bytes_lem host bytes n, take_all bytes n)

unfoldable pub wire_size : SerializeField → ℕ
wire_size f = length f.name + 4 + length (wire_length f) + length f.value

length-wire_length : (f : SerializeField) → length (wire_length f) ≤ 4
unfolding wire_length
length-wire_length f = ground (arith, length-high_first 4 f.value_length)

pub serialized_size_lem : (f : SerializeField) → IsField f → serialized_size f ≡ wire_size f
unfolding serialized_size wire_size wire_length
serialized_size_lem f v = elim (Bool-cases (has_flag f.flag has_value_length)) [
  | inl e ↦ rw (e, length-high_first) (omega arith)
  | inr e ↦ rw e (omega arith)
]

all_filled :
    (bytes done : List ℕ) (j total : ℕ)
    → take j bytes ≡ done
    → length bytes ≡ total
    → j ≡ total
    → bytes ≡ done
all_filled bytes done j total e l k = sym (take_all bytes j (omega arith)) ∙ e

module _ (host : Host) (f : SerializeField) (v : IsField f) where
  -- The value length and the value fill the buffer up.
  tail_with_length :
      (bytes done : List ℕ) (need i : ℕ)
      → has_flag f.flag has_value_length ≡ true
      → take i bytes ≡ done
      → length bytes ≡ length f.name + 4 + 4 + length f.value
      → i ≡ length f.name + 4
      → need ≡ length f.name + 4
      → write_tail host f bytes need i ≡ done ++ (high_first 4 f.value_length ++ f.value)
  unfolding write_tail
  tail_with_length bytes done need i h e l k n =
      let len4 = length-high_first 4 f.value_length in
      let s1 =
        write_at_filled bytes done (high_first 4 f.value_length) (add32 need 4) i (add32 i 4)
          (length f.name + 4 + 4 + length f.value) e l (omega (arith, v.fits))
          (omega (arith, v.fits)) (omega (arith, v.fits)) in
      let s2 =
        write_at_filled _ _ f.value (add32 (add32 need 4) f.value_length) (add32 i 4)
          (length f.name + 4 + 4 + length f.value) (length f.name + 4 + 4 + length f.value) s1.0
          s1.1 (omega (arith, v.fits, v.value_counted)) (omega (arith, v.fits))
          (omega (arith, v.fits)) in
      rw (h, write_value_lem host f v.value_counted, to_network_byte_order-high_first)
        (all_filled _ _ _ _ s2.0 s2.1 refl
          ∙ append_assoc done (high_first 4 f.value_length) f.value)

  tail_without_length :
      (bytes done : List ℕ) (need i : ℕ)
      → has_flag f.flag has_value_length ≡ false
      → take i bytes ≡ done
      → length bytes ≡ length f.name + 4 + length f.value
      → i ≡ length f.name + 4
      → need ≡ length f.name + 4
      → write_tail host f bytes need i ≡ done ++ f.value
  unfolding write_tail
  tail_without_length bytes done need i h e l k n =
      let s1 =
        write_at_filled bytes done f.value (add32 need f.value_length) i
          (length f.name + 4 + length f.value) (length f.name + 4 + length f.value) e l
          (omega (arith, v.fits, v.value_counted)) (omega (arith, v.fits))
          (omega (arith, v.fits)) in
      rw (h, write_value_lem host f v.value_counted) (all_filled _ _ _ _ s1.0 s1.1 refl)

  write_tail_lem :
      (bytes done : List ℕ) (need i : ℕ)
      → take i bytes ≡ done
      → length bytes ≡ wire_size f
      → i ≡ length f.name + 4
      → need ≡ length f.name + 4
      → write_tail host f bytes need i ≡ done ++ (wire_length f ++ f.value)
  unfolding wire_size wire_length
  write_tail_lem bytes done need i e l k n = elim (Bool-cases (has_flag f.flag has_value_length)) [
    | inl h ↦ rw h (
        tail_with_length bytes done need i h e
          (l ∙ rw h (omega (arith, length-high_first 4 f.value_length))) k n)
    | inr h ↦ rw h (tail_without_length bytes done need i h e (l ∙ rw h (omega arith)) k n)
  ]

  -- `to_serialized_byte_array` writes the wire form.
  pub to_serialized_byte_array-wire : to_serialized_byte_array host f ≡ wire f
  unfolding to_serialized_byte_array wire wire_size
  to_serialized_byte_array-wire =
      let total = wire_size f in
      let nl = f.name_length in
      let i2 = add32 2 (length f.name) in
      let s1 =
        write_at_filled (replicate (serialized_size f) 0) [] (high_first 2 nl) 2 0 2 total refl
          (length-replicate _ 0 ∙ serialized_size_lem f v) (omega arith)
          (omega (arith, length-high_first 2 nl)) (omega (arith, length-high_first 2 nl)) in
      let s2 =
        write_at_filled _ _ f.name (add32 2 nl) 2 i2 total s1.0 s1.1
          (omega (arith, v.fits, v.name_counted)) (omega arith) (omega (arith, v.fits)) in
      let s3 =
        write_at_filled _ _ (high_first 1 f.type) (add32 (add32 2 nl) 1) i2 (add32 i2 1) total s2.0
          s2.1 (omega (arith, v.fits, v.name_counted))
          (omega (arith, v.fits, length-high_first 1 f.type))
          (omega (arith, v.fits, length-high_first 1 f.type)) in
      let s4 =
        write_at_filled _ _ (high_first 1 f.flag) (add32 (add32 (add32 2 nl) 1) 1) (add32 i2 1)
          (add32 (add32 i2 1) 1) total s3.0 s3.1 (omega (arith, v.fits, v.name_counted))
          (omega (arith, v.fits, length-high_first 1 f.flag))
          (omega (arith, v.fits, length-high_first 1 f.flag)) in
      simp (to_network_byte_order-high_first) (
        write_tail_lem _ _ (add32 (add32 (add32 2 nl) 1) 1) (add32 (add32 i2 1) 1) s4.0 s4.1
          (omega (arith, v.fits)) (omega (arith, v.fits, v.name_counted))
        ∙ simp append_assoc)
