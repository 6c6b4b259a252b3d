-- ===== src/Codec/Field/Reads.antt =====
-- Where the parts of a field stand in a buffer that holds its wire form behind `pre`.
use project_trans.Base.{ℕ, ◌+◌, ◌≡◌, sym, ap, ◌∙◌, arith, true, some, List, ◌++◌, append_assoc}
use project_trans.Base.{length, length-append}
use project_trans.Binary.Buffer.{read_at, read_at-append}
use project_trans.Binary.Order.{high_first, length-high_first}
use project_trans.Codec.DataType.{has_flag, has_value_length}
use project_trans.Codec.Field.{SerializeField}
use project_trans.Codec.Field.Wire.{wire, wire_length}

-- A part that is known to stand between two others.
read_part :
    (whole pre mid post : List ℕ) (i n : ℕ)
    → whole ≡ pre ++ (mid ++ post)
    → i ≡ length pre
    → n ≡ length mid
    → read_at whole i n ≡ some mid
read_part whole pre mid post i n e k l =
    ap (λ b. read_at b i n) e ∙ read_at-append pre mid post i n k l

ruleset sizes = (length-append, length-high_first)

module _ (pre rest : List ℕ) (f : SerializeField) where
  abbrev whole : List ℕ
  whole = pre ++ (wire f ++ rest)

  abbrev n2 : List ℕ
  n2 = high_first 2 f.name_length

  abbrev t1 : List ℕ
  t1 = high_first 1 f.type

  abbrev f1 : List ℕ
  f1 = high_first 1 f.flag

  pub read_name_length : (i : ℕ) → i ≡ length pre → read_at whole i 2 ≡ some n2
  unfolding wire
  read_name_length i e =
      read_part whole pre n2 (f.name ++ (t1 ++ (f1 ++ (wire_length f ++ (f.value ++ rest))))) i 2
        (simp append_assoc) e (sym (length-high_first 2 f.name_length))

  pub read_name :
      (i n : ℕ) → i ≡ length pre + 2 → n ≡ length f.name → read_at whole i n ≡ some f.name
  unfolding wire
  read_name i n e k =
      read_part whole (pre ++ n2) f.name (t1 ++ (f1 ++ (wire_length f ++ (f.value ++ rest)))) i n
        (simp append_assoc) (e ∙ simp sizes) k

  pub read_type : (i : ℕ) → i ≡ length pre + 2 + length f.name → read_at whole i 1 ≡ some t1
  unfolding wire
  read_type i e =
      read_part whole (pre ++ (n2 ++ f.name)) t1 (f1 ++ (wire_length f ++ (f.value ++ rest))) i 1
        (simp append_assoc) (e ∙ simp sizes (omega arith)) (sym (length-high_first 1 f.type))

  pub read_flag : (i : ℕ) → i ≡ length pre + 3 + length f.name → read_at whole i 1 ≡ some f1
  unfolding wire
  read_flag i e =
      read_part whole (pre ++ (n2 ++ (f.name ++ t1))) f1 (wire_length f ++ (f.value ++ rest)) i 1
        (simp append_assoc) (e ∙ simp sizes (omega arith)) (sym (length-high_first 1 f.flag))

  pub read_length_at :
      (i : ℕ)
      → has_flag f.flag has_value_length ≡ true
      → i ≡ length pre + 4 + length f.name
      → read_at whole i 4 ≡ some (high_first 4 f.value_length)
  unfolding wire wire_length
  read_length_at i h e =
      read_part whole (pre ++ (n2 ++ (f.name ++ (t1 ++ f1)))) (high_first 4 f.value_length)
        (f.value ++ rest) i 4 (rw h (simp append_assoc)) (e ∙ simp sizes (omega arith))
        (sym (length-high_first 4 f.value_length))

  pub read_value_bytes :
      (i n : ℕ)
      → i ≡ length pre + 4 + length f.name + length (wire_length f)
      → n ≡ length f.value
      → read_at whole i n ≡ some f.value
  unfolding wire
  read_value_bytes i n e k =
      read_part whole (pre ++ (n2 ++ (f.name ++ (t1 ++ (f1 ++ wire_length f))))) f.value rest i n
        (simp append_assoc) (e ∙ simp sizes (omega arith)) k
