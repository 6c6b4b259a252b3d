-- ===== src/Codec/ArrayValue/Wire.antt =====
-- What an array is on the wire, and that it is written so.
use project_trans.Base.{ℕ, suc, ◌+◌, ◌*◌, ◌%◌, ◌^◌, ◌≤◌, ◌<◌, ◌≡◌, refl, sym, ap, ◌∙◌, arith}
use project_trans.Base.{ltb, ◌==◌, not, ◌&&◌, true, false, if◌then◌else◌, Bool-cases}
use project_trans.Base.{inl, inr, lt→ltb, eq→==, All, length-append, take_all}
use project_trans.Base.{List, [], ◌∷◌, ◌++◌, length, take, replicate, append_assoc, append-nil}
use project_trans.Base.{length-replicate, Bool}
use project_trans.Binary.{Host}
use project_trans.Binary.Buffer.{write_at_filled}
use project_trans.Binary.Order.{high_first, length-high_first, to_network_byte_order-high_first}
use project_trans.Codec.DataType.{has_flag}
use project_trans.Codec.Parse.{parsed, add32}
use project_trans.Codec.ArrayValue.{SerializeArrayValue, is_element_length_variable}
use project_trans.Codec.ArrayValue.{serialized_size, put, write_lengths, write_one_length}
use project_trans.Codec.ArrayValue.{to_serialized_byte_array}

unfoldable pub sum : List ℕ → ℕ
sum [] = 0
sum (n ∷ ns) = n + sum ns

-- The lengths on the wire, and an array: its type, its count, its flag, its lengths and its value.
unfoldable pub lengths_wire : List ℕ → List ℕ
lengths_wire [] = []
lengths_wire (n ∷ ns) = high_first 4 n ++ lengths_wire ns

unfoldable pub wire : SerializeArrayValue → List ℕ
wire a =
    high_first 1 a.element_type
    ++ (high_first 4 a.element_count
        ++ (high_first 1 a.flag ++ (lengths_wire a.element_value_length ++ a.element_value)))

-- Every member fits its type; the flag, the number of lengths and the lengths agree with the value.
pub record IsArray (a : SerializeArrayValue) : Type 0 where
  pub type_fits : a.element_type < 256 ^ 1
  pub count_fits : a.element_count < 256 ^ 4
  pub flag_fits : a.flag < 256 ^ 1
  pub lengths_fit : All (λ n. n < 256 ^ 4) a.element_value_length
  pub some_length : 1 ≤ length a.element_value_length
  pub counted :
      has_flag a.flag is_element_length_variable ≡ true
      → (length a.element_value_length ≡ a.element_count)
        × (sum a.element_value_length ≡ length a.element_value)
  pub uniform :
      has_flag a.flag is_element_length_variable ≡ false
      → (n : ℕ) × (a.element_value_length ≡ n ∷ []) × (n * a.element_count ≡ length a.element_value)
  pub fits : 4 * length a.element_value_length + length a.element_value + 16 < 2 ^ 32

pub length-lengths_wire : (ns : List ℕ) → length (lengths_wire ns) ≡ 4 * length ns
unfolding lengths_wire
length-lengths_wire [] = refl
length-lengths_wire (n ∷ ns) = omega (
  arith,
  length-append (high_first 4 n) (lengths_wire ns),
  length-high_first 4 n,
  length-lengths_wire ns,
)

pub length-wire :
    (a : SerializeArrayValue)
    → length (wire a) ≡ 6 + 4 * length a.element_value_length + length a.element_value
unfolding wire
length-wire a =
    simp (length-append, length-high_first)
      (omega (arith, length-lengths_wire a.element_value_length))

-- One number extends the filled part of a buffer with room for it.
put_filled :
    (host : Host) (bytes done : List ℕ) (w n need i j total : ℕ)
    → take i bytes ≡ done
    → length bytes ≡ total
    → need ≤ total
    → j ≡ i + w
    → j ≤ total
    → (take j (put host w n need i bytes) ≡ done ++ high_first w n)
      × (length (put host w n need i bytes) ≡ total)
unfolding put
put_filled host bytes done w n need i j total e l s k m =
    rw (to_network_byte_order-high_first host w n) (
      write_at_filled bytes done (high_first w n) need i j total e l s
        (omega (arith, length-high_first w n)) (omega (arith, length-high_first w n)))

-- The loop writes the lengths and keeps its counters.
record Filled (state : List ℕ × ℕ × ℕ) (done : List ℕ) (i total : ℕ) : Type 0 where
  prefix : take i state.0 ≡ done
  size : length state.0 ≡ total
  needed : state.1 ≡ i
  index : state.2 ≡ i

write_lengths-Filled :
    (host : Host) (ns bytes done : List ℕ) (need i total : ℕ)
    → take i bytes ≡ done
    → length bytes ≡ total
    → need ≡ i
    → i + 4 * length ns ≤ total
    → total < 2 ^ 32
    → Filled
        (write_lengths host ns bytes need i)
        (done ++ lengths_wire ns)
        (i + 4 * length ns)
        total
unfolding write_lengths lengths_wire
write_lengths-Filled host [] bytes done need i total e l k m s = record {
  prefix = ap (λ j. take j bytes) (omega arith) ∙ e ∙ sym (append-nil done);
  size = l;
  needed = k ∙ omega arith;
  index = omega arith;
}
write_lengths-Filled host (n ∷ ns) bytes done need i total e l k m s =
    let (front, size) =
      put_filled host bytes done 4 n (add32 need 4) i (add32 i 4) total e l (omega arith)
        (omega arith) (omega arith) in
    let rest =
      write_lengths-Filled host ns _ (done ++ high_first 4 n) (add32 need 4) (add32 i 4) total front
        size (omega arith) (omega arith) s in
    let there : add32 i 4 + 4 * length ns ≡ i + 4 * suc (length ns) = omega arith in
    record {
      prefix =
          ap (λ j. take j (write_lengths host (n ∷ ns) bytes need i).0) (sym there)
          ∙ rest.prefix
          ∙ append_assoc done (high_first 4 n) (lengths_wire ns);
      size = rest.size;
      needed = rest.needed ∙ there;
      index = rest.index ∙ there;
    }

-- Where there is a length, both branches write what the loop writes.
write_part :
    (host : Host) (ns bytes : List ℕ) (need i : ℕ)
    → 1 ≤ length ns
    → (if ltb 1 (length ns)
        then parsed (write_lengths host ns bytes need i)
        else write_one_length host ns bytes need i)
      ≡ parsed (write_lengths host ns bytes need i)
unfolding write_lengths write_one_length
write_part host [] bytes need i h = absurd (omega arith)
write_part host (n ∷ []) bytes need i h = refl
write_part host (n ∷ (m ∷ ns)) bytes need i h = rw (lt→ltb 1 (suc (suc (length ns))) (omega arith))

-- The test for too few lengths passes.
consistent :
    (a : SerializeArrayValue)
    → IsArray a
    → (ltb 1 (length a.element_value_length)
        && not (a.element_count == length a.element_value_length))
      ≡ false
consistent a v = elim (Bool-cases (has_flag a.flag is_element_length_variable)) [
  | inl h ↦
      let (count, _) = v.counted h in
      rw (eq→== a.element_count (length a.element_value_length) (sym count)) (and_no _)
  | inr h ↦ let (n, one, _) = v.uniform h in rw one
]
  where
    and_no : (b : Bool) → (b && false) ≡ false
    and_no true = refl
    and_no false = refl

-- `to_serialized_byte_array` writes the wire form.
pub to_serialized_byte_array-wire :
    (host : Host) (a : SerializeArrayValue)
    → IsArray a
    → to_serialized_byte_array host a ≡ parsed (wire a)
unfolding to_serialized_byte_array serialized_size wire
to_serialized_byte_array-wire host a v =
    let ns = a.element_value_length in
    let total = 6 + 4 * length ns + length a.element_value in
    let s1 =
      put_filled host (replicate (serialized_size a) 0) [] 1 a.element_type 1 0 1 total refl
        (length-replicate _ 0 ∙ omega (arith, v.fits)) (omega arith) refl (omega arith) in
    let s2 =
      put_filled host _ _ 4 a.element_count 5 1 5 total s1.0 s1.1 (omega (arith, v.some_length))
        refl (omega (arith, v.some_length)) in
    let s3 =
      put_filled host _ _ 1 a.flag 6 5 6 total s2.0 s2.1 (omega (arith, v.some_length)) refl
        (omega (arith, v.some_length)) in
    let s4 =
      write_lengths-Filled host ns _ _ 6 6 total s3.0 s3.1 refl (omega arith)
        (omega (arith, v.fits)) in
    let i = 6 + 4 * length ns in
    let (front, size) =
      write_at_filled _ _ a.element_value ((i + length a.element_value) % 2 ^ 32) i total total
        s4.prefix s4.size (omega (arith, v.fits)) (omega arith) (omega arith) in
    rw (consistent a v, write_part host ns _ 6 6 v.some_length, s4.index, s4.needed)
      (ap parsed (sym (take_all _ total (omega (arith, size))) ∙ front ∙ simp append_assoc))
