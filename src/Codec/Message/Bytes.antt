-- ===== src/Codec/Message/Bytes.antt =====
-- The bytes of a message are bytes: numbers below 256.
use project_trans.Base.{ℕ, ◌+◌, ◌≡◌, subst, sym, ◌∙◌, arith, ltb, true, false}
use project_trans.Base.{Bool, ltb→lt, Bool-cases, inl, inr, ◌&&◌, All, List, [], ◌∷◌, ◌++◌, length}
use project_trans.Base.{ap, length-append, reverse}
use mathlib.Core.List.{reverse-cons}
use project_trans.Binary.{Host, little, big, IsByte, to_byte_array, low_first}
use project_trans.Binary.Order.{high_first, low_first-IsByte}
use project_trans.Codec.DataType.{has_flag, has_value_length}
use project_trans.Codec.Header
use project_trans.Codec.Header.{SerializeHeader}
use project_trans.Codec.Field.{SerializeField}
use project_trans.Codec.Field.Wire.{wire, wire_length}
use project_trans.Codec.ArrayValue
use project_trans.Codec.Message.{default_config, value_field, string_field}
use project_trans.Codec.Message.Build.{wires}
use project_trans.Codec.Message.RoundTrip.{IsMessage, message, message-wire}
use project_trans.Codec.Message.Elements.RoundTrip.{vector_field, elements_form, elements_wire}

abbrev pub AllBytes : List ℕ → Type 0
AllBytes bs = All IsByte bs

pub AllBytes-append : (xs ys : List ℕ) → AllBytes xs → AllBytes ys → AllBytes (xs ++ ys)
AllBytes-append [] ys p q = q
AllBytes-append (x ∷ xs) ys (p, ps) q = (p, AllBytes-append xs ys ps q)

AllBytes-reverse : (xs : List ℕ) → AllBytes xs → AllBytes (reverse xs)
AllBytes-reverse [] p = tt
AllBytes-reverse (x ∷ xs) (p, ps) =
    subst AllBytes (sym (reverse-cons x xs))
      (AllBytes-append (reverse xs) (x ∷ []) (AllBytes-reverse xs ps) (p, tt))

high_first-AllBytes : (w n : ℕ) → AllBytes (high_first w n)
unfolding high_first
high_first-AllBytes w n = AllBytes-reverse (low_first w n) (low_first-IsByte w n)

to_byte_array-AllBytes : (host : Host) (w n : ℕ) → AllBytes (to_byte_array host w n)
unfolding to_byte_array
to_byte_array-AllBytes little w n = low_first-IsByte w n
to_byte_array-AllBytes big w n = AllBytes-reverse (low_first w n) (low_first-IsByte w n)

-- A decision for texts that are written out.
abbrev pub all_bytes : List ℕ → Bool
all_bytes [] = true
all_bytes (b ∷ bs) = ltb b 256 && all_bytes bs

and_true : (a b : Bool) → (a && b) ≡ true → (a ≡ true) × (b ≡ true)
and_true true b e = (λ i. true, e)
and_true false b e = absurd (cc e)

pub all_bytes-AllBytes : (bs : List ℕ) → all_bytes bs ≡ true → AllBytes bs
all_bytes-AllBytes [] e = tt
all_bytes-AllBytes (b ∷ bs) e =
    let (first, rest) = and_true (ltb b 256) (all_bytes bs) e in
    (ltb→lt b 256 first, all_bytes-AllBytes bs rest)

wire_length-AllBytes : (f : SerializeField) → AllBytes (wire_length f)
unfolding wire_length
wire_length-AllBytes f = elim (Bool-cases (has_flag f.flag has_value_length)) [
  | inl e ↦ rw e (high_first-AllBytes 4 f.value_length)
  | inr e ↦ rw e tt
]

-- A field whose name and value are bytes.
pub record IsByteField (f : SerializeField) : Type 0 where
  pub name_bytes : AllBytes f.name
  pub value_bytes : AllBytes f.value

wire-AllBytes : (f : SerializeField) → IsByteField f → AllBytes (wire f)
unfolding wire
wire-AllBytes f v = AllBytes-append _ _ (high_first-AllBytes 2 f.name_length) (
    AllBytes-append _ _ v.name_bytes (
      AllBytes-append _ _ (high_first-AllBytes 1 f.type) (
        AllBytes-append _ _ (high_first-AllBytes 1 f.flag)
          (AllBytes-append _ _ (wire_length-AllBytes f) v.value_bytes))))

wires-AllBytes : (fs : List SerializeField) → All IsByteField fs → AllBytes (wires fs)
unfolding wires
wires-AllBytes [] v = tt
wires-AllBytes (f ∷ fs) (v, vs) = AllBytes-append _ _ (wire-AllBytes f v) (wires-AllBytes fs vs)

header-AllBytes : (h : SerializeHeader) → AllBytes (Header.Wire.wire h)
unfolding Header.Wire.wire
header-AllBytes h = AllBytes-append _ _ (high_first-AllBytes 4 h.magic_number) (
    AllBytes-append _ _ (high_first-AllBytes 1 h.version) (
      AllBytes-append _ _ (high_first-AllBytes 4 h.message_length) (
        AllBytes-append _ _ (high_first-AllBytes 1 h.flag) (
          AllBytes-append _ _ (high_first-AllBytes 4 h.checksum)
            (high_first-AllBytes 2 h.field_count)))))

pub value_field-IsByteField :
    (host : Host) (type w n : ℕ) (name : List ℕ)
    → AllBytes name
    → IsByteField (value_field host type w n name)
unfolding value_field
value_field-IsByteField host type w n name p = record {
  name_bytes = p;
  value_bytes = to_byte_array-AllBytes host w n;
}

pub string_field-IsByteField :
    (text name : List ℕ) → AllBytes name → AllBytes text → IsByteField (string_field text name)
unfolding string_field
string_field-IsByteField text name p q = record { name_bytes = p; value_bytes = q }

elements_wire-AllBytes : (w : ℕ) (xs : List ℕ) → AllBytes (elements_wire w xs)
unfolding elements_wire
elements_wire-AllBytes w [] = tt
elements_wire-AllBytes w (x ∷ xs) =
    AllBytes-append _ _ (high_first-AllBytes w x) (elements_wire-AllBytes w xs)

pub vector_field-IsByteField :
    (type w : ℕ) (xs name : List ℕ) → AllBytes name → IsByteField (vector_field type w xs name)
unfolding vector_field ArrayValue.Wire.wire elements_form ArrayValue.Wire.lengths_wire
vector_field-IsByteField type w xs name p = record {
  name_bytes = p;
  value_bytes = AllBytes-append _ _ (high_first-AllBytes 1 type) (
      AllBytes-append _ _ (high_first-AllBytes 4 (length xs)) (
        AllBytes-append _ _ (high_first-AllBytes 1 0) (
          AllBytes-append _ _ (AllBytes-append _ [] (high_first-AllBytes 4 w) tt)
            (elements_wire-AllBytes w xs))));
}

module _ (host : Host) (fs : List SerializeField) (m : IsMessage default_config fs) where
  pub message-AllBytes : All IsByteField fs → AllBytes (message host default_config fs)
  message-AllBytes v =
      let (h, _, e, _) = message-wire host default_config fs m in
      subst AllBytes (sym e)
        (AllBytes-append (Header.Wire.wire h) (wires fs) (header-AllBytes h) (wires-AllBytes fs v))

  pub length-message : length (message host default_config fs) ≡ 16 + length (wires fs)
  length-message =
      let (h, _, e, _) = message-wire host default_config fs m in
      ap length e
      ∙ length-append (Header.Wire.wire h) (wires fs)
      ∙ omega (arith, Header.Wire.length-wire h)
