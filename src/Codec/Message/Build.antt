-- ===== src/Codec/Message/Build.antt =====
-- What a codec has built after some fields.
use project_trans.Base.{ℕ, suc, drop_all, ◌+◌, ◌^◌, ◌≤◌, ◌<◌, ◌≡◌, refl, sym, ap, ◌∙◌, arith, ltb}
use project_trans.Base.{ltb→le, le→ltb, Bool-cases, inl, inr, List, []}
use project_trans.Base.{◌∷◌, ◌++◌, append_assoc, append-nil, length, take, drop, All, length-append}
use project_trans.Base.{
  resize, replicate, length-resize, take-resize, resize-eq-take, drop-append_le,
}
use project_trans.Binary.{Host}
use project_trans.Binary.Buffer.{write_at, take-write_at, length-write_at}
use project_trans.Codec.Parse.{add32}
use project_trans.Codec.Header
use project_trans.Codec.Header.Wire.{write_header_lem}
use project_trans.Codec.Field
use project_trans.Codec.Field.{SerializeField}
use project_trans.Codec.Field.Wire.{IsField, wire, to_serialized_byte_array-wire}
use project_trans.Codec.Field.RoundTrip.{serialized_size-wire}
use project_trans.Codec.Message.{
  SerializeCodec, SerializeConfig, new, FieldMap, append_field, serialize,
}
use project_trans.Codec.Message.{ensure_rest_to_build, message_header, finalize_message_header}
use project_trans.Codec.Message.{get_serialized_data_vector_build}

-- The fields one after the other on the wire, and as entries of a map.
unfoldable pub wires : List SerializeField → List ℕ
wires [] = []
wires (f ∷ fs) = wire f ++ wires fs

unfoldable pub entries : List SerializeField → FieldMap
entries [] = []
entries (f ∷ fs) = (f.name, f) ∷ entries fs

pub wires-append : (fs gs : List SerializeField) → wires (fs ++ gs) ≡ wires fs ++ wires gs
unfolding wires
wires-append [] gs = refl
wires-append (f ∷ fs) gs =
    ap (λ l. wire f ++ l) (wires-append fs gs) ∙ sym (append_assoc (wire f) (wires fs) (wires gs))

pub wires_snoc :
    (fs : List SerializeField) (f : SerializeField) → wires (fs ++ (f ∷ [])) ≡ wires fs ++ wire f
unfolding wires
wires_snoc fs f = wires-append fs (f ∷ []) ∙ ap (λ l. wires fs ++ l) (append-nil (wire f))

pub entries-append : (fs gs : List SerializeField) → entries (fs ++ gs) ≡ entries fs ++ entries gs
unfolding entries
entries-append [] gs = refl
entries-append (f ∷ fs) gs = ap (λ l. (f.name, f) ∷ l) (entries-append fs gs)

pub length-entries : (fs : List SerializeField) → length (entries fs) ≡ length fs
unfolding entries
length-entries [] = refl
length-entries (f ∷ fs) = ap suc (length-entries fs)

-- The codec holds the header's place and the fields `fs`; behind the current index anything may stand.
pub record Holds (c : SerializeCodec) (fs : List SerializeField) : Type 0 where
  pub index : c.current_index ≡ 16 + length (wires fs)
  pub body : drop 16 (resize c.current_index 0 c.byte_array_build) ≡ wires fs
  pub map : c.data_map_build ≡ entries fs

pub new-Holds : (config : SerializeConfig) → Holds (new config) []
unfolding new wires entries
new-Holds config = record {
  index = refl;
  body =
      drop_all (resize 16 0 (replicate config.pre_allocated_size 0)) 16
        (omega (arith, length-resize {A = ℕ} 16 0 (replicate config.pre_allocated_size 0)));
  map = refl;
}

-- Making room keeps what is built, and there is room then.
module _ (c : SerializeCodec) (size : ℕ) (small : c.current_index + size < 2 ^ 32) where
  ensure_keeps :
      (c.current_index + size ≤ length (ensure_rest_to_build size c).byte_array_build)
      × (take c.current_index (ensure_rest_to_build size c).byte_array_build
          ≡ resize c.current_index 0 c.byte_array_build)
      × ((ensure_rest_to_build size c).data_map_build ≡ c.data_map_build)
  unfolding ensure_rest_to_build
  ensure_keeps =
      let request = add32 c.current_index size in
      elim (Bool-cases (ltb (length c.byte_array_build) request)) [
        | inl h ↦ rw h (
          omega (arith, length-resize request 0 c.byte_array_build),
          take-resize c.current_index request 0 c.byte_array_build (omega arith),
          refl,
        )
        | inr h ↦ rw h (
          omega (arith, ltb→le _ _ h),
          sym (resize-eq-take c.current_index 0 c.byte_array_build (omega (arith, ltb→le _ _ h))),
          refl,
        )
      ]

module _ (host : Host) (f : SerializeField) (v : IsField f) where
  pub append_field-Holds :
      (c : SerializeCodec) (fs : List SerializeField)
      → Holds c fs
      → 16 + length (wires fs) + length (wire f) < 2 ^ 32
      → Holds (append_field host f c) (fs ++ (f ∷ []))
  unfolding append_field wires entries
  append_field-Holds c fs h small =
      let size = serialized_size-wire f v in
      let ci = c.current_index in
      let (room, front, same) =
        ensure_keeps c (Field.serialized_size f) (omega (arith, h.index, size)) in
      let buffer = (ensure_rest_to_build (Field.serialized_size f) c).byte_array_build in
      let next : add32 ci (Field.serialized_size f) ≡ ci + length (wire f) =
        omega (arith, h.index, size) in
      let grown : resize (ci + length (wire f)) 0 (write_at buffer ci (wire f))
          ≡ resize ci 0 c.byte_array_build ++ wire f =
        resize-eq-take (ci + length (wire f)) 0 _
          (omega (arith, room, size, length-write_at buffer ci (wire f)))
        ∙ take-write_at buffer ci (ci + length (wire f)) (wire f) (omega (arith, room, size)) refl
        ∙ ap (λ l. l ++ wire f) front in
      record {
        index =
            next
            ∙ omega
                (arith, h.index, ap length (wires_snoc fs f), length-append (wires fs) (wire f));
        body =
            rw (next, to_serialized_byte_array-wire host f v, grown, wires_snoc)
              (drop-append_le (resize ci 0 c.byte_array_build) (wire f) 16
                  (omega (arith, h.index, length-resize ci 0 c.byte_array_build))
                ∙ ap (λ l. l ++ wire f) h.body);
        map = ap (λ l. l ++ ((f.name, f) ∷ [])) (same ∙ h.map) ∙ sym (entries-append fs (f ∷ []));
      }

-- What `serialize` accepts.
pub record IsAccepted (c : SerializeConfig) (f : SerializeField) : Type 0 where
  pub name_ok : f.name_length ≤ c.max_field_name_length
  pub value_ok : f.value_length ≤ c.max_field_value_length

pub serialize_accepted :
    (host : Host) (f : SerializeField) (c : SerializeCodec)
    → IsAccepted c.config f
    → serialize host f c ≡ append_field host f c
unfolding serialize
serialize_accepted host f c a = rw (le→ltb _ _ a.name_ok, le→ltb _ _ a.value_ok)

pub append_field-config :
    (host : Host) (f : SerializeField) (c : SerializeCodec)
    → (append_field host f c).config ≡ c.config
unfolding append_field ensure_rest_to_build
append_field-config host f c = ground arith

-- A list of fields is serialized one after the other.
unfoldable pub serialize_all : Host → List SerializeField → SerializeCodec → SerializeCodec
serialize_all host [] c = c
serialize_all host (f ∷ fs) c = serialize_all host fs (serialize host f c)

pub serialize_all-Holds :
    (host : Host) (gs fs : List SerializeField) (c : SerializeCodec)
    → Holds c fs
    → All IsField gs
    → All (IsAccepted c.config) gs
    → 16 + length (wires fs) + length (wires gs) < 2 ^ 32
    → Holds (serialize_all host gs c) (fs ++ gs)
unfolding serialize_all wires
serialize_all-Holds host [] fs c h v a small = rw append-nil h
serialize_all-Holds host (g ∷ gs) fs c h (v, vs) (a, as') small =
    rw (serialize_accepted host g c a) (
      rw (append_assoc fs (g ∷ []) gs) at (
        serialize_all-Holds host gs (fs ++ (g ∷ [])) (append_field host g c)
          (append_field-Holds host g v c fs h (omega (arith, length-append (wire g) (wires gs)))) vs
          (rw (append_field-config host g c) as')
          (omega (
            arith,
            length-append (wire g) (wires gs),
            ap length (wires_snoc fs g),
            length-append (wires fs) (wire g),
          ))))

-- The finished message: the header, and the fields behind it.
pub get_serialized-Holds :
    (host : Host) (c : SerializeCodec) (fs : List SerializeField)
    → Holds c fs
    → (get_serialized_data_vector_build host c).0 ≡ Header.Wire.wire (message_header c) ++ wires fs
unfolding get_serialized_data_vector_build finalize_message_header
get_serialized-Holds host c fs h =
    write_header_lem host (message_header c) (resize c.current_index 0 c.byte_array_build)
      (omega (arith, h.index, length-resize c.current_index 0 c.byte_array_build))
    ∙ ap (λ l. Header.Wire.wire (message_header c) ++ l) h.body
