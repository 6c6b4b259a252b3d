-- ===== src/Codec/Message/RoundTrip.antt =====
-- What one machine serializes another one reads.
use project_trans.Base.{ℕ, suc, ◌+◌, ◌^◌, ◌<◌, ◌≡◌, refl, sym, ap, ◌∙◌, arith}
use project_trans.Base.{le→ltb, Bool-cases, inl, inr, List, []}
use project_trans.Base.{◌∷◌, ◌++◌, append_assoc, append-nil, length, All, length-append}
use project_trans.Base.{some, take-append}
use project_trans.Binary.{Host}
use project_trans.Binary.Order.{to_local_byte_order-high_first}
use project_trans.Codec.DataType.{has_flag, has_value_length}
use project_trans.Codec.Parse.{parsed, add32}
use project_trans.Codec.Header
use project_trans.Codec.Header.{SerializeHeader}
use project_trans.Codec.Header.Wire.{from_serialized_byte_array-wire, IsHeader}
use project_trans.Codec.Field.{SerializeField}
use project_trans.Codec.Field.Wire.{IsField, IsSized, wire, wire_length, read_value_lem}
use project_trans.Codec.Field.RoundTrip.{
  length-wire, length-wire_length_with, length-wire_length_without,
}
use project_trans.Codec.Field.Reads.{
  read_name_length, read_name, read_type, read_flag, read_length_at,
}
use project_trans.Codec.Field.Reads.{read_value_bytes}
use project_trans.Codec.Message.{
  SerializeCodec, SerializeConfig, new, FieldMap, read_length, read_field,
}
use project_trans.Codec.Message.{read_fields, deserialize, get_message_header, message_header}
use project_trans.Codec.Message.{get_serialized_data_vector_build}
use project_trans.Codec.Message.Build.{wires, entries, Holds, new-Holds, IsAccepted, serialize_all}
use project_trans.Codec.Message.Build.{serialize_all-Holds, get_serialized-Holds, length-entries}

module _ (host : Host) (pre rest : List ℕ) (f : SerializeField) (v : IsField f)
    (sized : IsSized f) where
  read_length-wire :
      (i : ℕ)
      → i ≡ length pre + 4 + length f.name
      → i + 4 < 2 ^ 32
      → read_length host (pre ++ (wire f ++ rest)) f.type f.flag i
        ≡ parsed (f.value_length, i + length (wire_length f))
  unfolding read_length
  read_length-wire i e small = elim (Bool-cases (has_flag f.flag has_value_length)) [
    | inl h ↦
        rw
          (
            h,
            read_length_at pre rest f i h e,
            to_local_byte_order-high_first host 4 f.value_length
                (omega (arith, v.fits, v.value_counted)),
          )
          (ap (λ (n : ℕ). parsed (f.value_length, n)) (omega (arith, length-wire_length_with f h)))
    | inr h ↦
        rw (h, ← sized h)
          (ap (λ (n : ℕ). parsed (f.value_length, n))
            (omega (arith, length-wire_length_without f h)))
  ]

  -- One round of the loop reads the field and stops behind it.
  pub read_field-wire :
      length pre + length (wire f) + 4 < 2 ^ 32
      → read_field host (pre ++ (wire f ++ rest)) (length pre)
        ≡ parsed (f, length pre + length (wire f))
  unfolding read_field
  read_field-wire small =
      let size = length-wire f in
      let p = length pre in
      let i1 = add32 p 2 in
      let i2 = add32 i1 f.name_length in
      let i3 = add32 i2 1 in
      let i4 = add32 i3 1 in
      rw
        (
          read_name_length pre rest f p refl,
          to_local_byte_order-high_first host 2 f.name_length v.name_fits,
          read_name pre rest f i1 f.name_length (omega (arith, size)) v.name_counted,
          read_type pre rest f i2 (omega (arith, size, v.name_counted)),
          to_local_byte_order-high_first host 1 f.type v.type_fits,
          read_flag pre rest f i3 (omega (arith, size, v.name_counted)),
          to_local_byte_order-high_first host 1 f.flag v.flag_fits,
          read_length-wire i4 (omega (arith, size, v.name_counted))
              (omega (arith, size, v.name_counted)),
          read_value_bytes pre rest f (i4 + length (wire_length f)) f.value_length
              (omega (arith, size, v.name_counted)) v.value_counted,
          read_value_lem host f.type f.value f.value_length v.value_counted,
        )
        (ap (λ (n : ℕ). parsed (f, n)) (omega (arith, size, v.name_counted, v.value_counted)))

-- One round, where the field is known.
read_fields_step :
    (host : Host) (bytes : List ℕ) (n i j : ℕ) (map : FieldMap) (f : SerializeField)
    → read_field host bytes i ≡ parsed (f, j)
    → read_fields host bytes (suc n) i map ≡ read_fields host bytes n j (map ++ ((f.name, f) ∷ []))
unfolding read_fields
read_fields_step host bytes n i j map f e = rw e

-- The loop reads the fields that stand behind `pre`.
read_fields-wires :
    (host : Host) (fs : List SerializeField) (pre rest : List ℕ) (map : FieldMap)
    → All IsField fs
    → All IsSized fs
    → length pre + length (wires fs) + 4 < 2 ^ 32
    → read_fields host (pre ++ (wires fs ++ rest)) (length fs) (length pre) map
      ≡ parsed (map ++ entries fs)
unfolding wires entries
read_fields-wires host [] pre rest map v s small =
    unfold read_fields in ap parsed (sym (append-nil map))
read_fields-wires host (f ∷ fs) pre rest map (v, vs) (s, ss) small =
    let front = length-append (wire f) (wires fs) in
    let behind = length-append pre (wire f) in
    ap (λ b. read_fields host (pre ++ b) (suc (length fs)) (length pre) map)
      (append_assoc (wire f) (wires fs) rest)
    ∙ read_fields_step host _ (length fs) (length pre) (length pre + length (wire f)) map f
        (read_field-wire host pre (wires fs ++ rest) f v s (omega (arith, front)))
    ∙ rw
        (
          ← append_assoc pre (wire f) (wires fs ++ rest),
          ← behind,
          ← append_assoc map ((f.name, f) ∷ []) (entries fs),
        )
        (read_fields-wires host fs (pre ++ wire f) rest (map ++ ((f.name, f) ∷ [])) vs ss
          (omega (arith, front, behind)))

message_header-IsHeader : (c : SerializeCodec) → IsHeader (message_header c)
unfolding message_header
message_header-IsHeader c = omega arith

pub get_message_header-wire :
    (host : Host) (h : SerializeHeader) (body : List ℕ)
    → IsHeader h
    → get_message_header host (Header.Wire.wire h ++ body) ≡ some h
unfolding get_message_header
get_message_header-wire host h body v =
    rw
      (
        le→ltb (length (Header.Wire.wire h ++ body)) 16
            (omega (arith, length-append (Header.Wire.wire h) body, Header.Wire.length-wire h)),
        take-append (Header.Wire.wire h) body 16 (sym (Header.Wire.length-wire h)),
        ← append-nil (Header.Wire.wire h),
      )
      (from_serialized_byte_array-wire host h [] v)

-- A message whose header tells the length of its body is taken over.
deserialize_fields :
    (host : Host) (h : SerializeHeader) (body : List ℕ) (d : SerializeCodec) (map : FieldMap)
    → IsHeader h
    → h.message_length ≡ length body
    → length body + 16 < 2 ^ 32
    → read_fields host (Header.Wire.wire h ++ body) h.field_count 16 d.data_map_parsed ≡ parsed map
    → deserialize host (Header.Wire.wire h ++ body) d
      ≡ parsed (record d { byte_array_parsed = Header.Wire.wire h ++ body; data_map_parsed = map })
unfolding deserialize
deserialize_fields host h body d map v e small r = rw (
  get_message_header-wire host h body v,
  deserialize,
  le→ltb (length (Header.Wire.wire h ++ body)) (add32 h.message_length 16)
      (omega (arith, length-append (Header.Wire.wire h) body, Header.Wire.length-wire h)),
  r,
)

-- What a codec serializes: fields in order, within the limits of the code and of the formats.
pub record IsMessage (config : SerializeConfig) (fs : List SerializeField) : Type 0 where
  pub well_formed : All IsField fs
  pub sized : All IsSized fs
  pub accepted : All (IsAccepted config) fs
  pub few : length fs < 2 ^ 16
  pub small : length (wires fs) + 20 < 2 ^ 32

-- The message that `get_serialized_data_vector_build` returns after the fields are serialized.
unfoldable pub message : Host → SerializeConfig → List SerializeField → List ℕ
message host config fs =
    (get_serialized_data_vector_build host (serialize_all host fs (new config))).0

module _ (writer : Host) (config : SerializeConfig) (fs : List SerializeField)
    (m : IsMessage config fs) where
  built : Holds (serialize_all writer fs (new config)) fs
  unfolding new wires
  built =
      serialize_all-Holds writer fs [] (new config) (new-Holds config) m.well_formed m.accepted
        (omega (arith, m.small))

  -- A codec on any machine that deserializes the message built of well-formed fields within the
  -- limits (`IsMessage`), on any machine, reads no byte outside it and takes over exactly the fields
  -- that were serialized, in order, behind those that it has.
  pub deserialize-message :
      (reader : Host) (d : SerializeCodec)
      → deserialize reader (message writer config fs) d
        ≡ parsed (record d {
          byte_array_parsed = message writer config fs;
          data_map_parsed = d.data_map_parsed ++ entries fs;
        })
  unfolding message
  deserialize-message reader d =
      let c = serialize_all writer fs (new config) in
      let h = message_header c in
      let counted : h.field_count ≡ length fs =
        unfold message_header in (omega (arith, ap length built.map, length-entries fs, m.few)) in
      let sized : h.message_length ≡ length (wires fs) =
        unfold message_header in omega (arith, built.index, m.small) in
      rw (get_serialized-Holds writer c fs built) (
        deserialize_fields reader h (wires fs) d (d.data_map_parsed ++ entries fs)
          (message_header-IsHeader c) sized (omega (arith, m.small))
          (rw (append-nil, Header.Wire.length-wire h, ← counted) at
            (read_fields-wires reader fs (Header.Wire.wire h) [] d.data_map_parsed m.well_formed
              m.sized (omega (arith, m.small, Header.Wire.length-wire h)))))

  -- The message is a header that tells the length of the fields behind it, and the fields.
  pub message-wire :
      (h : SerializeHeader) × IsHeader h
      × (message writer config fs ≡ Header.Wire.wire h ++ wires fs)
      × (h.message_length ≡ length (wires fs))
  unfolding message
  message-wire =
      let c = serialize_all writer fs (new config) in
      (
        message_header c,
        message_header-IsHeader c,
        get_serialized-Holds writer c fs built,
        unfold message_header in omega (arith, built.index, m.small),
      )
