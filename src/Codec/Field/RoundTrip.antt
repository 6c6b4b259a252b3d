-- ===== src/Codec/Field/RoundTrip.antt =====
-- A field is read back from its wire form.
use project_trans.Base.{ℕ, ◌+◌, ◌%◌, ◌^◌, ◌≤◌, ◌<◌, ◌≡◌, refl, sym, ◌∙◌, arith, le→leb, true, false}
use project_trans.Base.{Bool-cases, inl, inr, List, [], ◌++◌, length}
use project_trans.Base.{length-append}
use project_trans.Binary.{Host}
use project_trans.Binary.Buffer.{ensure_enough_to_read, ensure_enough_to_read_lem}
use project_trans.Binary.Order.{length-high_first, to_local_byte_order-high_first}
use project_trans.Codec.DataType.{has_flag, has_value_length}
use project_trans.Codec.Parse.{parsed, add32}
use project_trans.Codec.Field.{SerializeField, serialized_size, read_value_length}
use project_trans.Codec.Field.{from_serialized_byte_array}
use project_trans.Codec.Field.Wire.{
  wire_size, serialized_size_lem, IsField, IsSized, wire, wire_length,
}
use project_trans.Codec.Field.Wire.{read_value_lem}
use project_trans.Codec.Field.Reads.{
  read_name_length, read_name, read_type, read_flag, read_length_at,
}
use project_trans.Codec.Field.Reads.{read_value_bytes}

pub length-wire :
    (f : SerializeField)
    → length (wire f) ≡ length f.name + 4 + length (wire_length f) + length f.value
unfolding wire
length-wire f = simp (length-append, length-high_first) (omega arith)

pub serialized_size-wire : (f : SerializeField) → IsField f → serialized_size f ≡ length (wire f)
unfolding wire_size
serialized_size-wire f v = serialized_size_lem f v ∙ sym (length-wire f)

pub length-wire_length_with :
    (f : SerializeField) → has_flag f.flag has_value_length ≡ true → length (wire_length f) ≡ 4
unfolding wire_length
length-wire_length_with f h = rw h (length-high_first 4 f.value_length)

pub length-wire_length_without :
    (f : SerializeField) → has_flag f.flag has_value_length ≡ false → length (wire_length f) ≡ 0
unfolding wire_length
length-wire_length_without f h = rw h

module _ (host : Host) (f : SerializeField) (v : IsField f) (sized : IsSized f)
    (rest : List ℕ) where
  enough :
      (n : ℕ)
      → n ≤ length f.name + 4 + length (wire_length f) + length f.value
      → ensure_enough_to_read (wire f ++ rest) n ≡ true
  enough n h =
      ensure_enough_to_read_lem (wire f ++ rest) n
        (omega (arith, length-append (wire f) rest, length-wire f))

  -- The value length, read or told by the type.
  value_length_read :
      (need i : ℕ)
      → need ≡ length f.name + 4
      → i ≡ length f.name + 4
      → read_value_length host (wire f ++ rest) f.type f.flag need i
        ≡ parsed (f.value_length, need + length (wire_length f), i + length (wire_length f))
  unfolding read_value_length
  value_length_read need i e k = elim (Bool-cases (has_flag f.flag has_value_length)) [
    | inl h ↦
        let four : length (wire_length f) ≡ 4 = length-wire_length_with f h in
        rw
          (
            h,
            enough (add32 need 4) (omega (arith, v.fits)),
            read_length_at [] rest f i h (omega arith),
            to_local_byte_order-high_first host 4 f.value_length
                (omega (arith, v.fits, v.value_counted)),
          )
          (λ j. parsed (f.value_length, right need e four j, right i k four j))
    | inr h ↦
        let none_here : length (wire_length f) ≡ 0 = length-wire_length_without f h in
        rw (h, ← sized h) (λ j. parsed (f.value_length, same need none_here j, same i none_here j))
  ]
    where
      right :
          (n : ℕ)
          → n ≡ length f.name + 4
          → length (wire_length f) ≡ 4
          → add32 n 4 ≡ n + length (wire_length f)
      right n e1 e2 = omega (arith, v.fits)

      same : (n : ℕ) → length (wire_length f) ≡ 0 → n ≡ n + length (wire_length f)
      same n e1 = omega arith

  -- The bytes of a well-formed field, which has a value length or one that its type tells, are read
  -- on any machine as the same field, whatever follows them, as long as they are fewer than 2 ^ 32.
  pub from_serialized_byte_array-wire :
      length (wire f ++ rest) < 2 ^ 32 → from_serialized_byte_array host (wire f ++ rest) ≡ parsed f
  unfolding from_serialized_byte_array
  from_serialized_byte_array-wire h =
      let all = length-append (wire f) rest in
      let size = length-wire f in
      let nl = f.name_length in
      let need3 = add32 (add32 (add32 2 nl) 1) 1 in
      let i2 = add32 (add32 2 nl) 1 in
      rw (
        le→leb 4 (length (wire f ++ rest) % 2 ^ 32) (omega (arith, all, size)),
        enough 2 (omega arith),
        read_name_length [] rest f 0 refl,
        to_local_byte_order-high_first host 2 nl v.name_fits,
        enough (add32 2 nl) (omega (arith, v.fits, v.name_counted)),
        read_name [] rest f 2 nl refl v.name_counted,
        enough (add32 (add32 2 nl) 1) (omega (arith, v.fits, v.name_counted)),
        read_type [] rest f (add32 2 nl) (omega (arith, v.fits, v.name_counted)),
        to_local_byte_order-high_first host 1 f.type v.type_fits,
        enough need3 (omega (arith, v.fits, v.name_counted)),
        read_flag [] rest f i2 (omega (arith, v.fits, v.name_counted)),
        to_local_byte_order-high_first host 1 f.flag v.flag_fits,
        value_length_read need3 (add32 i2 1) (omega (arith, v.fits, v.name_counted))
            (omega (arith, v.fits, v.name_counted)),
        enough (add32 (need3 + length (wire_length f)) f.value_length)
            (omega (arith, v.fits, v.name_counted, v.value_counted)),
        read_value_bytes [] rest f (add32 i2 1 + length (wire_length f)) f.value_length
            (omega (arith, v.fits, v.name_counted)) v.value_counted,
        read_value_lem host f.type f.value f.value_length v.value_counted,
      )
