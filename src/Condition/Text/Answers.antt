-- ===== src/Condition/Text/Answers.antt =====
-- What each pattern answers.
use project_trans.Base.{
  ℕ, ◌-◌, ◌^◌, ◌≤◌, ◌<◌, ◌≡◌, refl, sym, ap, ap₂, ◌∙◌, arith, ltb, if◌then◌else◌, inl, inr,
}
use project_trans.Base.{
  Bool, true, false, Bool-cases, Option, none, some, List, [], ◌∷◌, ◌++◌, length, drop,
  length-append, le→ltb,
}
use project_trans.Condition.Text.{
  WildcardText, MatchPattern, exact_match, partial_match, prefix_match, suffix_match, regex_match,
  unknown, find_part, to_lower_string, is_equal, match_by, is_prefix_match, is_suffix_match,
  is_partial_match, is_other_length,
}
use project_trans.Condition.Text.Compare.{
  folded, length-folded, is_equal_sound, is_equal_complete, Contains, find_sound, find_complete,
}
use project_trans.Condition.Text.Match.{
  Shape, Fits, prefix_shape, suffix_shape, shape_prefix, shape_suffix, parts_length, size_sub_eq,
}

-- A proposition, or its negation.
abbrev pub Answers : Bool → Type 0 → Type 0
Answers true P = P
Answers false P = ¬ P

pub answer : (P : Type 0) (b : Bool) → (b ≡ true → P) → (P → b ≡ true) → Answers b P
answer P true f g = f refl
answer P false f g = λ p. cc (g p)

module _ (tolower : ℕ → ℕ) where
  -- What `is_partial_match` reads is the folded text.
  sensitive :
      (t : WildcardText) (xs : List ℕ) → t.is_case_sensitive ≡ true → folded tolower t xs ≡ xs
  sensitive t [] e = refl
  sensitive t (x ∷ xs) e = rw e (ap (λ l. x ∷ l) (sensitive t xs e))

  insensitive :
      (t : WildcardText) (xs : List ℕ)
      → t.is_case_sensitive ≡ false
      → folded tolower t xs ≡ to_lower_string tolower xs
  unfolding to_lower_string
  insensitive t [] e = refl
  insensitive t (x ∷ xs) e = rw e (ap (λ l. tolower x ∷ l) (insensitive t xs e))

  copy_folded :
      (t : WildcardText) (xs : List ℕ)
      → (if t.is_case_sensitive then xs else to_lower_string tolower xs) ≡ folded tolower t xs
  copy_folded t xs = elim (Bool-cases t.is_case_sensitive) [
    | inl e ↦ ap (λ b. if b then xs else to_lower_string tolower xs) e ∙ sym (sensitive t xs e)
    | inr e ↦ ap (λ b. if b then xs else to_lower_string tolower xs) e ∙ sym (insensitive t xs e)
  ]

  abbrev found : Option ℕ → Bool
  found none = false
  found (some n) = true

  found-some : (o : Option ℕ) → found o ≡ true → (n : ℕ) × (o ≡ some n)
  found-some none e = cc e
  found-some (some n) e = (n, refl)

  is_partial_match-found :
      (t : WildcardText) (text : List ℕ)
      → is_partial_match tolower t text
        ≡ found (find_part (folded tolower t text) (folded tolower t t.text))
  is_partial_match-found t text =
      ap₂ (λ a b. found (find_part a b)) (copy_folded t text) (copy_folded t t.text)

  partial_answers :
      (t : WildcardText) (text : List ℕ)
      → Answers
          (is_partial_match tolower t text)
          (Contains (folded tolower t text) (folded tolower t t.text))
  partial_answers t text =
      let xs = folded tolower t text in
      let ys = folded tolower t t.text in
      rw (is_partial_match-found t text) (
        answer (Contains xs ys) (found (find_part xs ys))
          (λ e. let (n, f) = found-some (find_part xs ys) e in find_sound xs ys n f)
          (λ c. let (a, b, same) = c in let (n, f) = find_complete a ys b in rw same (ap found f)))

  module _ (t : WildcardText) (text : List ℕ) (small : length text < 2 ^ 64)
      (long : length t.text ≤ length text) where
    prefix_answers :
        Fits t.back_context_length (length t.text)
        → Answers (is_prefix_match tolower t text) (Shape tolower prefix_match t text)
    prefix_answers fit =
        answer (Shape tolower prefix_match t text) (is_prefix_match tolower t text)
          (λ e. elim (Bool-cases (is_other_length t.back_context_length t text)) [
            | inl o ↦ cc (rw o at e)
            | inr o ↦ prefix_shape tolower t text small t.back_context_length fit long o (rw o at e)
          ])
          (λ s.
            let (rest, same, l) = s in
            let (o, e) = shape_prefix tolower t text small t.back_context_length fit rest same l in
            rw o e)

    -- `is_suffix_match` reads no character before the start of a text that is long enough.
    suffix_answers :
        Fits t.front_context_length (length t.text)
        → (b : Bool) × (is_suffix_match tolower t text ≡ some b)
          × Answers b (Shape tolower suffix_match t text)
    suffix_answers fit =
        let n = length text - length t.text in
        let pos = size_sub_eq (length text) (length t.text) small long in
        let inside : ltb (length text) n ≡ false = le→ltb (length text) n (omega arith) in
        let equal = is_equal tolower t (drop n text) t.text in
        elim (Bool-cases (is_other_length t.front_context_length t text)) [
          | inl o ↦ (
            false,
            rw o refl,
            λ s.
                let (rest, same, l) = s in
                let (p, _) =
                  shape_suffix tolower t text small t.front_context_length fit rest same l in
                cc (o, p),
          )
          | inr o ↦ (
            equal,
            rw (o, pos, inside) refl,
            answer (Shape tolower suffix_match t text) equal
                (suffix_shape tolower t text small t.front_context_length fit long o)
                (λ s.
                  let (rest, same, l) = s in
                  (shape_suffix tolower t text small t.front_context_length fit rest same l).1),
          )
        ]

    pub match_by-Shape :
        (p : MatchPattern)
        → Fits t.back_context_length (length t.text)
        → Fits t.front_context_length (length t.text)
        → (b : Bool) × (match_by tolower p t text ≡ some b) × Answers b (Shape tolower p t text)
    unfolding match_by
    match_by-Shape exact_match back front = (
      is_equal tolower t text t.text,
      refl,
      answer (Shape tolower exact_match t text) (is_equal tolower t text t.text)
          (is_equal_sound tolower t text t.text) (is_equal_complete tolower t text t.text),
    )
    match_by-Shape partial_match back front =
        (is_partial_match tolower t text, refl, partial_answers t text)
    match_by-Shape prefix_match back front =
        (is_prefix_match tolower t text, refl, prefix_answers back)
    match_by-Shape suffix_match back front = suffix_answers front
    match_by-Shape regex_match back front = (false, refl, λ s. s)
    match_by-Shape unknown back front = (false, refl, λ s. s)

  -- A text that matches is as long as the pattern.
  pub Shape-length :
      (p : MatchPattern) (t : WildcardText) (text : List ℕ)
      → Shape tolower p t text
      → length t.text ≤ length text
  Shape-length exact_match t text e =
      omega (arith, length-folded tolower t text, length-folded tolower t t.text, ap length e)
  Shape-length prefix_match t text (rest, same, l) = omega (
    arith,
    length-folded tolower t t.text,
    parts_length tolower t text (folded tolower t t.text) rest same,
  )
  Shape-length suffix_match t text (rest, same, l) = omega (
    arith,
    length-folded tolower t t.text,
    parts_length tolower t text rest (folded tolower t t.text) same,
  )
  Shape-length partial_match t text (a, b, same) = omega (
    arith,
    length-folded tolower t t.text,
    length-append (folded tolower t t.text) b,
    parts_length tolower t text a (folded tolower t t.text ++ b) same,
  )
  Shape-length regex_match t text s = absurd s
  Shape-length unknown t text s = absurd s
