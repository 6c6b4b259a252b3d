-- ===== src/Condition/Text/Match.antt =====
-- What a text looks like that matches a pattern, and what the code compares.
use project_trans.Base.{ℕ, ◌+◌, ◌-◌, ◌%◌, ◌^◌, ◌≤◌, ◌<◌, ◌≡◌, refl, sym, ap, ◌∙◌, arith, ◌==◌}
use project_trans.Base.{
  true, false, not, Option, none, some, List, ◌++◌, length, take, drop, eq→==, take-append,
  drop-append, length-append, take-append-drop,
}
use project_trans.Condition.Text.{
  WildcardText, MatchPattern, exact_match, partial_match, prefix_match, suffix_match, regex_match,
  unknown, is_equal, is_other_length, size_sub,
}
use project_trans.Condition.Text.Compare.{
  folded, length-folded, folded-take, folded-drop, is_equal_sound, is_equal_complete, Contains,
}

drop-length : (a b : List ℕ) → drop (length a) (a ++ b) ≡ b
drop-length a b = drop-append a b (length a) refl

take-length : (a b : List ℕ) → take (length a) (a ++ b) ≡ a
take-length a b = take-append a b (length a) refl

-- What the sizes that the code computes are, where they do not wrap.
other_length :
    (r m n : ℕ) → r < 2 ^ 64 → m + n < 2 ^ 64 → (r == ((m + n) % 2 ^ 64)) ≡ (r == (m + n))
other_length r m n h k = ground arith

pub size_sub_eq : (a b : ℕ) → a < 2 ^ 64 → b ≤ a → size_sub a b ≡ a - b
size_sub_eq a b h k = ground arith

abbrev pub IsLong : Option ℕ → List ℕ → Type 0
IsLong none xs = Unit
IsLong (some n) xs = length xs ≡ n

abbrev pub AtLeast : Option ℕ → ℕ → Type 0
AtLeast none n = Unit
AtLeast (some m) n = m ≤ n

abbrev pub AtMost : Option ℕ → ℕ → Type 0
AtMost none n = Unit
AtMost (some m) n = n ≤ m

-- The sizes that the code adds do not wrap.
abbrev pub Fits : Option ℕ → ℕ → Type 0
Fits none m = Unit
Fits (some n) m = m + n < 2 ^ 64

-- A context of the right length.
module _ (t : WildcardText) (text rest : List ℕ) (small : length text < 2 ^ 64) where
  not_other_length :
      (c : Option ℕ)
      → Fits c (length t.text)
      → length text ≡ length t.text + length rest
      → IsLong c rest
      → is_other_length c t text ≡ false
  not_other_length none fit h l = refl
  not_other_length (some n) fit h l =
      rw
        (
          other_length (length text) (length t.text) n small fit,
          eq→== (length text) (length t.text + n) (omega (arith, h, l)),
        )
        refl

  other_length-IsLong :
      (c : Option ℕ)
      → Fits c (length t.text)
      → length text ≡ length t.text + length rest
      → is_other_length c t text ≡ false
      → IsLong c rest
  other_length-IsLong none fit h e = tt
  other_length-IsLong (some n) fit h e =
      long (length text) (length t.text) (length rest) n h
        (rw (other_length (length text) (length t.text) n small fit) at e)
    where
      long : (a m r n : ℕ) → a ≡ m + r → not (a == (m + n)) ≡ false → r ≡ n
      long a m r n h e = ground arith

module _ (tolower : ℕ → ℕ) where
  abbrev pub Shape : MatchPattern → WildcardText → List ℕ → Type 0
  Shape exact_match t text = folded tolower t text ≡ folded tolower t t.text
  Shape prefix_match t text =
      (rest : List ℕ) × (folded tolower t text ≡ (folded tolower t t.text ++ rest))
      × IsLong t.back_context_length rest
  Shape suffix_match t text =
      (rest : List ℕ) × (folded tolower t text ≡ (rest ++ folded tolower t t.text))
      × IsLong t.front_context_length rest
  Shape partial_match t text = Contains (folded tolower t text) (folded tolower t t.text)
  Shape regex_match t text = ⊥
  Shape unknown t text = ⊥

  abbrev pub Matches : WildcardText → List ℕ → Type 0
  Matches t text =
      AtLeast t.min_length (length text)
      × AtMost t.max_length (length text)
      × Shape t.match_pattern t text

  -- The lengths of the parts of a text.
  pub parts_length :
      (t : WildcardText) (text a b : List ℕ)
      → folded tolower t text ≡ (a ++ b)
      → length text ≡ length a + length b
  parts_length t text a b e = sym (length-folded tolower t text) ∙ ap length e ∙ length-append a b

  module _ (t : WildcardText) (text : List ℕ) (small : length text < 2 ^ 64) where
    module _ (c : Option ℕ) (fit : Fits c (length t.text)) where
      pub prefix_shape :
          length t.text ≤ length text
          → is_other_length c t text ≡ false
          → is_equal tolower t (take (length t.text) text) t.text ≡ true
          → (rest : List ℕ) × (folded tolower t text ≡ (folded tolower t t.text ++ rest))
            × IsLong c rest
      prefix_shape h o e =
          let n = length t.text in
          let rest = drop n (folded tolower t text) in
          let same =
            sym (take-append-drop n (folded tolower t text))
            ∙ ap (λ l. l ++ rest)
                (sym (folded-take tolower t n text)
                  ∙ is_equal_sound tolower t (take n text) t.text e) in
          let len = parts_length t text (folded tolower t t.text) rest same in
          (
            rest,
            same,
            other_length-IsLong t text rest small c fit (rw (length-folded tolower t t.text) at len)
                o,
          )

      pub suffix_shape :
          length t.text ≤ length text
          → is_other_length c t text ≡ false
          → is_equal tolower t (drop (length text - length t.text) text) t.text ≡ true
          → (rest : List ℕ) × (folded tolower t text ≡ (rest ++ folded tolower t t.text))
            × IsLong c rest
      suffix_shape h o e =
          let n = length text - length t.text in
          let rest = take n (folded tolower t text) in
          let same =
            sym (take-append-drop n (folded tolower t text))
            ∙ ap (λ l. rest ++ l)
                (sym (folded-drop tolower t n text)
                  ∙ is_equal_sound tolower t (drop n text) t.text e) in
          let len = parts_length t text rest (folded tolower t t.text) same in
          (
            rest,
            same,
            other_length-IsLong t text rest small c fit
                (omega (arith, rw (length-folded tolower t t.text) at len)) o,
          )

      pub shape_prefix :
          (rest : List ℕ)
          → folded tolower t text ≡ (folded tolower t t.text ++ rest)
          → IsLong c rest
          → (is_other_length c t text ≡ false)
            × (is_equal tolower t (take (length t.text) text) t.text ≡ true)
      shape_prefix rest e l =
          let len = parts_length t text (folded tolower t t.text) rest e in
          let n = length-folded tolower t t.text in
          (
            not_other_length t text rest small c fit (rw n at len) l,
            is_equal_complete tolower t (take (length t.text) text) t.text (
                folded-take tolower t (length t.text) text
                ∙ ap (take (length t.text)) e
                ∙ take-append (folded tolower t t.text) rest (length t.text) (sym n)),
          )

      pub shape_suffix :
          (rest : List ℕ)
          → folded tolower t text ≡ (rest ++ folded tolower t t.text)
          → IsLong c rest
          → (is_other_length c t text ≡ false)
            × (is_equal tolower t (drop (length text - length t.text) text) t.text ≡ true)
      shape_suffix rest e l =
          let len = parts_length t text rest (folded tolower t t.text) e in
          let n = length-folded tolower t t.text in
          let d = length text - length t.text in
          let dr : d ≡ length rest = omega (arith, len, n) in
          (
            not_other_length t text rest small c fit (omega (arith, len, n)) l,
            is_equal_complete tolower t (drop d text) t.text (
                folded-drop tolower t d text
                ∙ ap (drop d) e
                ∙ drop-append rest (folded tolower t t.text) d dr),
          )
