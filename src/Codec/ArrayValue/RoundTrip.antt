-- ===== src/Codec/ArrayValue/RoundTrip.antt =====
-- An array that is written is read back.
use project_trans.Base.{ℕ, suc, ◌+◌, ◌*◌, ◌%◌, ◌^◌, ◌≤◌, ◌<◌, ◌≡◌, refl, sym, ap, subst, ◌∙◌, arith}
use project_trans.Base.{if◌then◌else◌, le→leb, Bool-cases}
use project_trans.Base.{inl, inr, some, All, length-append}
use project_trans.Base.{List, [], ◌∷◌, ◌++◌, length, append_assoc, append-nil}
use project_trans.Binary.{Host}
use project_trans.Binary.Buffer.{read_at}
use project_trans.Binary.Buffer.{ensure_enough_to_read_lem, read_at-append}
use project_trans.Binary.Order.{high_first, length-high_first}
use project_trans.Binary.Order.{to_local_byte_order-high_first}
use project_trans.Codec.DataType.{has_flag}
use project_trans.Codec.Parse.{Parse, parsed, add32, ◌>>=◌}
use project_trans.Codec.ArrayValue.{SerializeArrayValue, is_element_length_variable}
use project_trans.Codec.ArrayValue.{read_lengths, read_one_length, to_serialized_byte_array}
use project_trans.Codec.ArrayValue.{from_serialized_byte_array}
use project_trans.Codec.ArrayValue.Wire.{sum, lengths_wire, wire, IsArray, length-lengths_wire}
use project_trans.Codec.ArrayValue.Wire.{length-wire, to_serialized_byte_array-wire}

-- What is read behind `pre`.
read_high_first :
    (host : Host) (pre rest : List ℕ) (w n i : ℕ)
    → i ≡ length pre
    → read_at (pre ++ (high_first w n ++ rest)) i w ≡ some (high_first w n)
read_high_first host pre rest w n i e =
    read_at-append pre (high_first w n) rest i w e (sym (length-high_first w n))

-- One round of the loop, where the rest is known.
read_lengths_step :
    (host : Host) (bytes ns : List ℕ) (count need i total n a b c : ℕ)
    → add32 need 4 ≤ length bytes
    → read_at bytes i 4 ≡ some (high_first 4 n)
    → n < 256 ^ 4
    → read_lengths host bytes count (add32 need 4) (add32 i 4) (add32 total n)
      ≡ parsed (ns, a, b, c)
    → read_lengths host bytes (suc count) need i total ≡ parsed (n ∷ ns, a, b, c)
unfolding read_lengths
read_lengths_step host bytes ns count need i total n a b c room r fit rest = rw (
  ensure_enough_to_read_lem bytes (add32 need 4) room,
  r,
  to_local_byte_order-high_first host 4 n fit,
  rest,
)

abbrev state : List ℕ → ℕ → ℕ → ℕ → Parse (List ℕ × ℕ × ℕ × ℕ)
state ns a b c = parsed (ns, a, b, c)

same_state :
    (ns : List ℕ) {a a' b b' c c' : ℕ}
    → a ≡ a'
    → b ≡ b'
    → c ≡ c'
    → state ns a b c ≡ state ns a' b' c'
same_state ns e f g = λ j. state ns (e j) (f j) (g j)

read_lengths-wire :
    (host : Host) (ns pre rest : List ℕ) (need i total : ℕ)
    → All (λ n. n < 256 ^ 4) ns
    → i ≡ length pre
    → need ≡ i
    → i + 4 * length ns < 2 ^ 32
    → total + sum ns < 2 ^ 32
    → read_lengths host (pre ++ (lengths_wire ns ++ rest)) (length ns) need i total
      ≡ parsed (ns, i + 4 * length ns, i + 4 * length ns, total + sum ns)
unfolding lengths_wire sum
read_lengths-wire host [] pre rest need i total fits e k s t =
    unfold read_lengths in same_state [] (omega arith) (omega arith) (omega arith)
read_lengths-wire host (n ∷ ns) pre rest need i total (fit, fits) e k s t =
    let size = length-append pre (high_first 4 n) in
    let four = length-high_first 4 n in
    let whole : pre ++ ((high_first 4 n ++ lengths_wire ns) ++ rest)
        ≡ (pre ++ high_first 4 n) ++ (lengths_wire ns ++ rest) =
      simp append_assoc in
    let back : (pre ++ high_first 4 n) ++ (lengths_wire ns ++ rest)
        ≡ pre ++ (high_first 4 n ++ (lengths_wire ns ++ rest)) =
      simp append_assoc in
    let long = length-append (pre ++ high_first 4 n) (lengths_wire ns ++ rest) in
    let there : add32 i 4 ≡ length (pre ++ high_first 4 n) = omega (arith, size, four) in
    rw whole (
      read_lengths_step host _ ns (length ns) need i total n _ _ _ (omega (arith, long, size, four))
        (ap (λ b. read_at b i 4) back ∙ read_high_first host pre (lengths_wire ns ++ rest) 4 n i e)
        fit
        (read_lengths-wire host ns (pre ++ high_first 4 n) rest (add32 need 4) (add32 i 4)
          (add32 total n) fits there (omega arith) (omega arith) (omega arith))
      ∙ same_state (n ∷ ns) (omega arith) (omega arith) (omega arith))

read_one_length-wire :
    (host : Host) (pre rest : List ℕ) (n count : ℕ)
    → length pre ≡ 6
    → n < 256 ^ 4
    → n * count < 2 ^ 32
    → read_one_length host (pre ++ (lengths_wire (n ∷ []) ++ rest)) count 6 6
      ≡ state (n ∷ []) 10 10 (n * count)
unfolding read_one_length lengths_wire
read_one_length-wire host pre rest n count six fit small =
    let tidy : pre ++ ((high_first 4 n ++ []) ++ rest) ≡ pre ++ (high_first 4 n ++ rest) =
      simp append-nil in
    rw
      (
        tidy,
        ensure_enough_to_read_lem (pre ++ (high_first 4 n ++ rest)) 10 (
            omega (
              arith,
              length-append pre (high_first 4 n ++ rest),
              length-append (high_first 4 n) rest,
              length-high_first 4 n,
            )),
        read_high_first host pre rest 4 n 6 (sym six),
        to_local_byte_order-high_first host 4 n fit,
      )
      (same_state (n ∷ []) refl refl (omega arith))

one_fits : {n : ℕ} {ns : List ℕ} → ns ≡ n ∷ [] → All (λ m. m < 256 ^ 4) ns → n < 256 ^ 4
one_fits e fits = (subst (All (λ m. m < 256 ^ 4)) e fits).0

-- The part behind the flag, whichever branch reads it.
read_part-wire :
    (host : Host) (a : SerializeArrayValue) (pre : List ℕ)
    → IsArray a
    → length pre ≡ 6
    → (if has_flag a.flag is_element_length_variable
        then read_lengths host
            (pre ++ (lengths_wire a.element_value_length ++ a.element_value))
            a.element_count
            6
            6
            0
        else read_one_length host
            (pre ++ (lengths_wire a.element_value_length ++ a.element_value))
            a.element_count
            6
            6)
      ≡ parsed (
        a.element_value_length,
        6 + 4 * length a.element_value_length,
        6 + 4 * length a.element_value_length,
        length a.element_value,
      )
read_part-wire host a pre v six =
    let ns = a.element_value_length in
    elim (Bool-cases (has_flag a.flag is_element_length_variable)) [
      | inl h ↦
          let (count, total) = v.counted h in
          rw (h, ← count)
            (read_lengths-wire host ns pre a.element_value 6 6 0 v.lengths_fit (sym six) refl
                (omega (arith, v.fits)) (omega (arith, v.fits))
              ∙ same_state ns refl refl (omega arith))
      | inr h ↦
          let (n, one, total) = v.uniform h in
          rw h (
            subst
              (λ ms.
                read_one_length host (pre ++ (lengths_wire ms ++ a.element_value)) a.element_count 6
                  6
                ≡ state ms (6 + 4 * length ms) (6 + 4 * length ms) (length a.element_value))
              (sym one)
              (read_one_length-wire host pre a.element_value n a.element_count six
                  (one_fits one v.lengths_fit) (omega (arith, v.fits))
                ∙ same_state (n ∷ []) refl refl total))
    ]

module _ (host : Host) (a : SerializeArrayValue) (v : IsArray a) where
  abbrev t1 : List ℕ
  t1 = high_first 1 a.element_type

  abbrev c4 : List ℕ
  c4 = high_first 4 a.element_count

  abbrev f1 : List ℕ
  f1 = high_first 1 a.flag

  abbrev tail : List ℕ
  tail = lengths_wire a.element_value_length ++ a.element_value

  front_size : length (t1 ++ (c4 ++ f1)) ≡ 6
  front_size = simp (length-append, length-high_first)

  at_type : read_at (wire a) 0 1 ≡ some t1
  unfolding wire
  at_type = read_high_first host [] (c4 ++ (f1 ++ tail)) 1 a.element_type 0 refl

  at_count : read_at (wire a) 1 4 ≡ some c4
  unfolding wire
  at_count =
      read_high_first host t1 (f1 ++ tail) 4 a.element_count 1
        (sym (length-high_first 1 a.element_type))

  at_flag : read_at (wire a) 5 1 ≡ some f1
  unfolding wire
  at_flag =
      ap (λ b. read_at b 5 1) (simp append_assoc)
      ∙ read_high_first host (t1 ++ c4) tail 1 a.flag 5 (simp (length-append, length-high_first))

  at_value :
      read_at (wire a) (6 + 4 * length a.element_value_length) (length a.element_value)
      ≡ some a.element_value
  unfolding wire
  at_value =
      ap (λ b. read_at b (6 + 4 * length a.element_value_length) (length a.element_value))
        (simp (append_assoc, append-nil))
      ∙ read_at-append (t1 ++ (c4 ++ (f1 ++ lengths_wire a.element_value_length))) a.element_value
          [] (6 + 4 * length a.element_value_length) (length a.element_value)
          (simp (length-append, length-high_first)
            (omega (arith, length-lengths_wire a.element_value_length)))
          refl

  regroup : wire a ≡ (t1 ++ (c4 ++ f1)) ++ tail
  unfolding wire
  regroup = simp append_assoc

  at_lengths :
      (if has_flag a.flag is_element_length_variable
        then read_lengths host (wire a) a.element_count 6 6 0
        else read_one_length host (wire a) a.element_count 6 6)
      ≡ state a.element_value_length
          (6 + 4 * length a.element_value_length)
          (6 + 4 * length a.element_value_length)
          (length a.element_value)
  at_lengths =
      ap
        (λ b.
          if has_flag a.flag is_element_length_variable
          then read_lengths host b a.element_count 6 6 0
          else read_one_length host b a.element_count 6 6)
        regroup
      ∙ read_part-wire host a (t1 ++ (c4 ++ f1)) v front_size

  -- The wire form of a well-formed array is read back as the array.
  pub from_serialized_byte_array-wire : from_serialized_byte_array host (wire a) ≡ parsed a
  unfolding from_serialized_byte_array
  from_serialized_byte_array-wire =
      let size = length-wire a in
      let total = 6 + 4 * length a.element_value_length + length a.element_value in
      rw (
        le→leb 10 (length (wire a)) (omega (arith, size, v.some_length)),
        ensure_enough_to_read_lem (wire a) 1 (omega (arith, size)),
        at_type,
        to_local_byte_order-high_first host 1 a.element_type v.type_fits,
        ensure_enough_to_read_lem (wire a) 5 (omega (arith, size)),
        at_count,
        to_local_byte_order-high_first host 4 a.element_count v.count_fits,
        ensure_enough_to_read_lem (wire a) 6 (omega (arith, size)),
        at_flag,
        to_local_byte_order-high_first host 1 a.flag v.flag_fits,
        at_lengths,
        ensure_enough_to_read_lem (wire a) (total % 2 ^ 32) (omega (arith, size)),
        at_value,
      )

-- The bytes that one machine writes for an array whose members fit their types and agree with each
-- other (`IsArray`) are read on any machine as the same array.
pub from_serialized_byte_array-to_serialized_byte_array :
    (writer reader : Host) (a : SerializeArrayValue)
    → IsArray a
    → (to_serialized_byte_array writer a >>= from_serialized_byte_array reader) ≡ parsed a
from_serialized_byte_array-to_serialized_byte_array writer reader a v =
    rw (to_serialized_byte_array-wire writer a v) (from_serialized_byte_array-wire reader a v)
