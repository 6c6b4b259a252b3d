-- ===== src/Codec/Header/Wire.antt =====
-- What a header is on the wire, and that it is read back.
use project_trans.Base.{ℕ, ◌+◌, ◌^◌, ◌≤◌, ◌<◌, ◌≡◌, refl, sym, ap, ap₂, ◌∙◌, arith, ltb, le→ltb}
use project_trans.Base.{some, false, List, [], ◌++◌, append_assoc, append-nil, length}
use project_trans.Base.{take, drop, replicate, length-append, take-append, drop-append}
use project_trans.Base.{take-append-drop}
use project_trans.Binary.{Host, to_network_byte_order}
use project_trans.Binary.Buffer.{write_at, length-write_at, take-write_at, drop-write_at}
use project_trans.Binary.Order.{high_first, length-high_first, to_network_byte_order-high_first}
use project_trans.Binary.Order.{to_local_byte_order-high_first}
use project_trans.Codec.Header.{SerializeHeader, write_header, read_number}
use project_trans.Codec.Header.{to_serialized_byte_array, from_serialized_byte_array}

-- Every member fits its type.
pub record IsHeader (h : SerializeHeader) : Type 0 where
  pub magic_fits : h.magic_number < 256 ^ 4
  pub version_fits : h.version < 256 ^ 1
  pub length_fits : h.message_length < 256 ^ 4
  pub flag_fits : h.flag < 256 ^ 1
  pub checksum_fits : h.checksum < 256 ^ 4
  pub count_fits : h.field_count < 256 ^ 2

-- The sixteen bytes of a header: its members one after the other, each highest byte first.
unfoldable pub wire : SerializeHeader → List ℕ
wire h =
    high_first 4 h.magic_number
    ++ (high_first 1 h.version
        ++ (high_first 4 h.message_length
            ++ (high_first 1 h.flag ++ (high_first 4 h.checksum ++ high_first 2 h.field_count))))

pub length-wire : (h : SerializeHeader) → length (wire h) ≡ 16
unfolding wire
length-wire h = simp (length-append, length-high_first)

-- One write extends the part of the buffer that is filled, and leaves what is behind it alone.
fill :
    (host : Host) (bytes done : List ℕ) (i w n j : ℕ)
    → take i bytes ≡ done
    → i + w ≤ length bytes
    → j ≡ i + w
    → (take j (write_at bytes i (to_network_byte_order host w n)) ≡ done ++ high_first w n)
      × (length (write_at bytes i (to_network_byte_order host w n)) ≡ length bytes)
      × ((k : ℕ)
          → j ≤ k
          → drop k (write_at bytes i (to_network_byte_order host w n)) ≡ drop k bytes)
fill host bytes done i w n j e h g = rw (to_network_byte_order-high_first host w n) (
  take-write_at bytes i j (high_first w n) (omega (arith, length-high_first w n))
        (omega (arith, length-high_first w n))
      ∙ ap (λ l. l ++ high_first w n) e,
  length-write_at bytes i (high_first w n),
  λ k le. drop-write_at bytes i k (high_first w n) (omega (arith, length-high_first w n)),
)

module _ (host : Host) (h : SerializeHeader) (bytes : List ℕ) (room : 16 ≤ length bytes) where
  -- The buffer after each write, and how far it is filled.
  header_writes :
      (take 16 (write_header host h bytes) ≡ wire h)
      × (drop 16 (write_header host h bytes) ≡ drop 16 bytes)
  unfolding write_header wire
  header_writes =
      let s1 = fill host bytes [] 0 4 h.magic_number 4 refl (omega arith) refl in
      let s2 = fill host _ _ 4 1 h.version 5 s1.0 (omega (arith, s1.1)) refl in
      let s3 = fill host _ _ 5 4 h.message_length 9 s2.0 (omega (arith, s1.1, s2.1)) refl in
      let s4 = fill host _ _ 9 1 h.flag 10 s3.0 (omega (arith, s1.1, s2.1, s3.1)) refl in
      let s5 = fill host _ _ 10 4 h.checksum 14 s4.0 (omega (arith, s1.1, s2.1, s3.1, s4.1)) refl in
      let s6 =
        fill host _ _ 14 2 h.field_count 16 s5.0 (omega (arith, s1.1, s2.1, s3.1, s4.1, s5.1))
          refl in
      (
        s6.0 ∙ simp append_assoc,
        s6.2 16 (omega arith)
            ∙ s5.2 16 (omega arith)
            ∙ s4.2 16 (omega arith)
            ∙ s3.2 16 (omega arith)
            ∙ s2.2 16 (omega arith)
            ∙ s1.2 16 (omega arith),
      )

  -- Six writes fill the first sixteen bytes, and leave the rest alone.
  pub write_header_lem : write_header host h bytes ≡ wire h ++ drop 16 bytes
  write_header_lem =
      sym (take-append-drop 16 (write_header host h bytes))
      ∙ ap₂ ◌++◌ header_writes.0 header_writes.1

pub to_serialized_byte_array-wire :
    (host : Host) (h : SerializeHeader) → to_serialized_byte_array host h ≡ wire h
unfolding to_serialized_byte_array
to_serialized_byte_array-wire host h =
    write_header_lem host h (replicate 16 0) (omega arith) ∙ append-nil (wire h)

-- A number that stands behind `pre` is read back.
pub read_number-high_first :
    (host : Host) (pre rest : List ℕ) (i w n : ℕ)
    → i ≡ length pre
    → n < 256 ^ w
    → read_number host w (pre ++ (high_first w n ++ rest)) i ≡ n
read_number-high_first host pre rest i w n e h =
    rw
      (
        drop-append pre (high_first w n ++ rest) i e,
        take-append (high_first w n) rest w (sym (length-high_first w n)),
      )
      (to_local_byte_order-high_first host w n h)

-- The bytes behind a header do not matter.
pub from_serialized_byte_array-wire :
    (host : Host) (h : SerializeHeader) (rest : List ℕ)
    → IsHeader h
    → from_serialized_byte_array host (wire h ++ rest) ≡ some h
unfolding from_serialized_byte_array wire
from_serialized_byte_array-wire host h rest v = rw long (λ i. some (record {
  magic_number = m1 i;
  version = m2 i;
  message_length = m3 i;
  flag = m4 i;
  checksum = m5 i;
  field_count = m6 i;
}))
  where
    b1 : List ℕ
    b1 = high_first 4 h.magic_number

    b2 : List ℕ
    b2 = high_first 1 h.version

    b3 : List ℕ
    b3 = high_first 4 h.message_length

    b4 : List ℕ
    b4 = high_first 1 h.flag

    b5 : List ℕ
    b5 = high_first 4 h.checksum

    b6 : List ℕ
    b6 = high_first 2 h.field_count

    all : List ℕ
    all = (b1 ++ (b2 ++ (b3 ++ (b4 ++ (b5 ++ b6))))) ++ rest

    long : ltb (length all) 16 ≡ false
    long = le→ltb _ _ (rw (length-append (wire h) rest) (omega (arith, length-wire h)))

    at :
        (pre post : List ℕ) (i w n : ℕ)
        → all ≡ pre ++ (high_first w n ++ post)
        → i ≡ length pre
        → n < 256 ^ w
        → read_number host w all i ≡ n
    at pre post i w n e k l =
        ap (λ b. read_number host w b i) e ∙ read_number-high_first host pre post i w n k l

    m1 : read_number host 4 all 0 ≡ h.magic_number
    m1 =
        at [] (b2 ++ (b3 ++ (b4 ++ (b5 ++ (b6 ++ rest))))) 0 4 _ (simp append_assoc) refl
          v.magic_fits

    m2 : read_number host 1 all 4 ≡ h.version
    m2 =
        at b1 (b3 ++ (b4 ++ (b5 ++ (b6 ++ rest)))) 4 1 _ (simp append_assoc)
          (simp (length-append, length-high_first)) v.version_fits

    m3 : read_number host 4 all 5 ≡ h.message_length
    m3 =
        at (b1 ++ b2) (b4 ++ (b5 ++ (b6 ++ rest))) 5 4 _ (simp append_assoc)
          (simp (length-append, length-high_first)) v.length_fits

    m4 : read_number host 1 all 9 ≡ h.flag
    m4 =
        at (b1 ++ (b2 ++ b3)) (b5 ++ (b6 ++ rest)) 9 1 _ (simp append_assoc)
          (simp (length-append, length-high_first)) v.flag_fits

    m5 : read_number host 4 all 10 ≡ h.checksum
    m5 =
        at (b1 ++ (b2 ++ (b3 ++ b4))) (b6 ++ rest) 10 4 _ (simp append_assoc)
          (simp (length-append, length-high_first)) v.checksum_fits

    m6 : read_number host 2 all 14 ≡ h.field_count
    m6 =
        at (b1 ++ (b2 ++ (b3 ++ (b4 ++ b5)))) rest 14 2 _ (simp append_assoc)
          (simp (length-append, length-high_first)) v.count_fits

-- The bytes that one machine writes for a header whose members fit their types, whatever follows
-- them, are read on any machine as the same header.
pub from_serialized-to_serialized :
    (writer reader : Host) (h : SerializeHeader) (rest : List ℕ)
    → IsHeader h
    → from_serialized_byte_array reader (to_serialized_byte_array writer h ++ rest) ≡ some h
from_serialized-to_serialized writer reader h rest v =
    rw (to_serialized_byte_array-wire writer h) (from_serialized_byte_array-wire reader h rest v)
