-- ===== src/Codec/Message/Faults.antt =====
-- Messages that a receiver cannot read safely.
use project_trans.Base.{ℕ, zero, suc, ◌+◌, ◌-◌, ◌^◌, ◌≤◌, ◌<◌, ◌≡◌, ◌≢◌, refl, sym, ap, ◌∙◌, arith}
use project_trans.Base.{
  le→ltb, List, [], ◌++◌, append-nil, length, length-append, false, append_assoc,
}
use project_trans.Binary.{Host}
use project_trans.Binary.Buffer.{read_at_past}
use project_trans.Codec.Field.Wire.{IsField, wire, wire_length}
use project_trans.Codec.DataType.{get_data_type_length, has_flag, has_value_length}
use project_trans.Codec.Parse.{parsed, out_of_range, add32}
use project_trans.Codec.Header
use project_trans.Codec.Header.{SerializeHeader, from_serialized_byte_array}
use project_trans.Codec.Header.Wire.{IsHeader, from_serialized_byte_array-wire}
use project_trans.Codec.Field.{SerializeField}
use project_trans.Codec.Message.{SerializeCodec, read_field, read_fields, deserialize}
use project_trans.Codec.Message.RoundTrip.{get_message_header-wire, read_field-wire}

read_field_past :
    (host : Host) (bytes : List ℕ) (i : ℕ)
    → length bytes < i + 2
    → read_field host bytes i ≡ out_of_range
unfolding read_field
read_field_past host bytes i h = rw (read_at_past bytes i 2 h)

read_fields_past :
    (host : Host) (bytes : List ℕ) (n i : ℕ) (map : List (List ℕ × SerializeField))
    → n ≢ 0
    → length bytes < i + 2
    → read_fields host bytes n i map ≡ out_of_range
read_fields_past host bytes zero i map ne h = absurd (ne refl)
read_fields_past host bytes (suc n) i map ne h =
    unfold read_fields in rw (read_field_past host bytes i h)

-- A message that announces fields and whose body is shorter than two bytes is not refused, if the
-- length in its header is not longer than the body or so long that the sum with the header size
-- passes 2 ^ 32: the loop of `deserialize` reads behind the end of the data.
pub deserialize_short_body_faults :
    (host : Host) (h : SerializeHeader) (body : List ℕ) (d : SerializeCodec)
    → IsHeader h
    → length body < 2
    → add32 h.message_length 16 ≤ length body + 16
    → h.field_count ≢ 0
    → deserialize host (Header.Wire.wire h ++ body) d ≡ out_of_range
unfolding deserialize
deserialize_short_body_faults host h body d v short e ne =
    let size = length-append (Header.Wire.wire h) body in
    let head = Header.Wire.length-wire h in
    rw (
      get_message_header-wire host h body v,
      deserialize,
      le→ltb (length (Header.Wire.wire h ++ body)) (add32 h.message_length 16)
          (omega (arith, size, head)),
      read_fields_past host (Header.Wire.wire h ++ body) h.field_count 16 d.data_map_parsed ne
          (omega (arith, size, head)),
    )

-- What a receiver makes of a field that carries no value length and whose type tells none.
abbrev pub emptied : SerializeField → SerializeField
emptied f = record f { value_length = 0; value = [] }

wire-emptied :
    (f : SerializeField)
    → has_flag f.flag has_value_length ≡ false
    → wire f ≡ wire (emptied f) ++ f.value
unfolding wire wire_length
wire-emptied f h = rw h (simp (append_assoc, append-nil))

emptied-IsField : (f : SerializeField) → IsField f → IsField (emptied f)
emptied-IsField f v = record {
  name_counted = v.name_counted;
  name_fits = v.name_fits;
  type_fits = v.type_fits;
  flag_fits = v.flag_fits;
  value_counted = refl;
  fits = omega (arith, v.fits);
}

-- A `bool` and every other field of a type with no fixed length that is sent without its value
-- length is received with no value, and the receiver goes on at the first byte of the value.
pub read_field_unsized :
    (host : Host) (pre rest : List ℕ) (f : SerializeField)
    → IsField f
    → has_flag f.flag has_value_length ≡ false
    → get_data_type_length f.type ≡ 0
    → length pre + length (wire f) + 4 < 2 ^ 32
    → read_field host (pre ++ (wire f ++ rest)) (length pre)
      ≡ parsed (emptied f, length pre + (length (wire f) - length f.value))
read_field_unsized host pre rest f v h z small =
    let split = wire-emptied f h in
    let size = ap length split ∙ length-append (wire (emptied f)) f.value in
    rw (split, append_assoc (wire (emptied f)) f.value rest)
      (read_field-wire host pre (f.value ++ rest) (emptied f) (emptied-IsField f v) (λ _. sym z)
          (omega (arith, size))
        ∙ ap (λ (n : ℕ). parsed (emptied f, n))
            (omega (arith, length-append (wire (emptied f)) f.value)))
