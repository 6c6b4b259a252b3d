-- ===== src/Condition/Text/Verdict.antt =====
-- A text condition answers what its pattern says.
use project_trans.Base.{ℕ, ◌^◌, ◌≤◌, ◌<◌, ◌≡◌, refl, arith, ltb, leb, if◌then◌else◌, inl, inr}
use project_trans.Base.{
  Bool, true, false, not, Bool-cases, Option, none, some, List, length, leb→le, leb→lt,
}
use project_trans.Condition.Text.{WildcardText, is_match, is_all_match}
use project_trans.Condition.Text.Match.{Shape, Matches, AtLeast, AtMost, Fits}
use project_trans.Condition.Text.Answers.{Answers, answer, match_by-Shape, Shape-length}

by_rule :
    (i : Bool) (o : Option Bool) (b : Bool)
    → o ≡ some b
    → (if i then o else elim o [ none ↦ none | some c ↦ some (not c) ])
      ≡ some (if i then b else not b)
by_rule true o b e = e
by_rule false o b e = rw e refl

module _ (tolower : ℕ → ℕ) where
  too_short :
      (m : Option ℕ) (n : ℕ)
      → Answers (not (elim m [ none ↦ false | some k ↦ ltb n k ])) (AtLeast m n)
  too_short none n = tt
  too_short (some k) n =
      answer (k ≤ n) (not (ltb n k)) (λ e. ground (arith, e)) (λ h. ground (arith, h))

  too_long :
      (m : Option ℕ) (n : ℕ)
      → Answers (not (elim m [ none ↦ false | some k ↦ ltb k n ])) (AtMost m n)
  too_long none n = tt
  too_long (some k) n =
      answer (n ≤ k) (not (ltb k n)) (λ e. ground (arith, e)) (λ h. ground (arith, h))

  holds_if : (P : Type 0) (b : Bool) → b ≡ false → Answers (not b) P → P
  holds_if P true e a = cc e
  holds_if P false e a = a

  fails_if : (P : Type 0) (b : Bool) → b ≡ true → Answers (not b) P → ¬ P
  fails_if P true e a = a
  fails_if P false e a = cc e

  module _ (t : WildcardText) (text : List ℕ) (small : length text < 2 ^ 64) where
    module _ (back : Fits t.back_context_length (length t.text))
        (front : Fits t.front_context_length (length t.text)) where
      all_match :
          (b : Bool) × (is_all_match tolower t text ≡ some b) × Answers b (Matches tolower t text)
      unfolding is_all_match
      all_match =
          let n = length text in
          let low = too_short t.min_length n in
          let high = too_long t.max_length n in
          let least = AtLeast t.min_length n in
          let most = AtMost t.max_length n in
          let is_low : Bool = elim t.min_length [ none ↦ false | some k ↦ ltb n k ] in
          let is_high : Bool = elim t.max_length [ none ↦ false | some k ↦ ltb k n ] in
          elim (Bool-cases is_low) [
            | inl e ↦ (false, rw e refl, λ m. fails_if least is_low e low m.0)
            | inr e ↦ elim (Bool-cases is_high) [
              | inl f ↦ (false, rw (e, f) refl, λ m. fails_if most is_high f high m.1)
              | inr f ↦ elim (Bool-cases (leb (length t.text) n)) [
                | inl g ↦
                    let (b, same, a) =
                      match_by-Shape tolower t text small (leb→le (length t.text) n g)
                        t.match_pattern back front in
                    (
                      b,
                      rw (e, f, g) same,
                      with_bounds b least most (Shape tolower t.match_pattern t text)
                          (holds_if least is_low e low) (holds_if most is_high f high) a,
                    )
                | inr g ↦ (
                  false,
                  rw (e, f, g) refl,
                  λ m.
                      let h = Shape-length tolower t.match_pattern t text m.2 in
                      let k = leb→lt (length t.text) n g in omega (arith, h, k),
                )
              ]
            ]
          ]
        where
          with_bounds : (b : Bool) (L M S : Type 0) → L → M → Answers b S → Answers b (L × M × S)
          with_bounds true L M S l m s = (l, m, s)
          with_bounds false L M S l m s = λ x. s x.2

      -- If the lengths that the code adds fit `std::size_t`, `is_match` throws for no text, and answers
      -- whether the text matches: whether it has a length within the bounds and the shape of the pattern,
      -- whatever the case if the condition is not sensitive to it. No text has the shape of a regular
      -- expression or of an unknown pattern. A condition that is not an included rule answers the
      -- opposite.
      pub is_match-Matches :
          (b : Bool) × (is_match tolower t text ≡ some (if t.is_included_rule then b else not b))
          × Answers b (Matches tolower t text)
      unfolding is_match
      is_match-Matches =
          let (b, same, a) = all_match in
          (b, by_rule t.is_included_rule (is_all_match tolower t text) b same, a)
