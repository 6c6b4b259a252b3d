-- ===== src/Condition/Text/Compare.antt =====
-- How the condition compares texts: `is_equal` and `find`.
use project_trans.Base.{ℕ, zero, suc, ◌≡◌, refl, ap, arith, ◌==◌, inl, inr}
use project_trans.Base.{
  true, Bool-cases, some, List, [], ◌∷◌, ◌++◌, length, take, drop, ==→eq, eq→==, Option-cases,
}
use project_trans.Condition.Text.{
  WildcardText, find_part, starts_with, fold_char, equal_loop, is_equal,
}

module _ (tolower : ℕ → ℕ) where
  -- The text as the condition reads it: with or without the case.
  abbrev pub folded : WildcardText → List ℕ → List ℕ
  folded t [] = []
  folded t (c ∷ cs) = fold_char tolower t c ∷ folded t cs

  pub length-folded : (t : WildcardText) (xs : List ℕ) → length (folded t xs) ≡ length xs
  length-folded t [] = refl
  length-folded t (x ∷ xs) = ap suc (length-folded t xs)

  pub folded-take :
      (t : WildcardText) (n : ℕ) (xs : List ℕ) → folded t (take n xs) ≡ take n (folded t xs)
  folded-take t zero xs = refl
  folded-take t (suc n) [] = refl
  folded-take t (suc n) (x ∷ xs) = ap (λ l. fold_char tolower t x ∷ l) (folded-take t n xs)

  pub folded-drop :
      (t : WildcardText) (n : ℕ) (xs : List ℕ) → folded t (drop n xs) ≡ drop n (folded t xs)
  folded-drop t zero xs = refl
  folded-drop t (suc n) [] = refl
  folded-drop t (suc n) (x ∷ xs) = folded-drop t n xs

  equal_loop_sound :
      (t : WildcardText) (xs ys : List ℕ)
      → length xs ≡ length ys
      → equal_loop tolower t xs ys ≡ true
      → folded t xs ≡ folded t ys
  unfolding equal_loop
  equal_loop_sound t [] [] h e = refl
  equal_loop_sound t [] (y ∷ ys) h e = absurd (omega (arith, h))
  equal_loop_sound t (x ∷ xs) [] h e = absurd (omega (arith, h))
  equal_loop_sound t (x ∷ xs) (y ∷ ys) h e =
      elim (Bool-cases (fold_char tolower t x == fold_char tolower t y)) [
        | inl f ↦
            let same = ==→eq (fold_char tolower t x) (fold_char tolower t y) f in
            let rest = equal_loop_sound t xs ys (omega (arith, h)) (rw f at e) in cc (same, rest)
        | inr f ↦ cc (rw f at e)
      ]

  equal_loop_complete :
      (t : WildcardText) (xs ys : List ℕ)
      → folded t xs ≡ folded t ys
      → (equal_loop tolower t xs ys ≡ true) × (length xs ≡ length ys)
  unfolding equal_loop
  equal_loop_complete t [] [] e = (refl, refl)
  equal_loop_complete t [] (y ∷ ys) e = cc e
  equal_loop_complete t (x ∷ xs) [] e = cc e
  equal_loop_complete t (x ∷ xs) (y ∷ ys) e =
      let same : fold_char tolower t x ≡ fold_char tolower t y = cc e in
      let (rest, l) = equal_loop_complete t xs ys (cc e) in
      (rw (eq→== (fold_char tolower t x) (fold_char tolower t y) same) rest, ap suc l)

  pub is_equal_sound :
      (t : WildcardText) (xs ys : List ℕ)
      → is_equal tolower t xs ys ≡ true
      → folded t xs ≡ folded t ys
  is_equal_sound t xs ys e = elim (Bool-cases (length xs == length ys)) [
    | inl f ↦ equal_loop_sound t xs ys (==→eq (length xs) (length ys) f) (rw f at e)
    | inr f ↦ cc (rw f at e)
  ]

  pub is_equal_complete :
      (t : WildcardText) (xs ys : List ℕ)
      → folded t xs ≡ folded t ys
      → is_equal tolower t xs ys ≡ true
  is_equal_complete t xs ys e =
      let (same, l) = equal_loop_complete t xs ys e in rw (eq→== (length xs) (length ys) l) same

starts_with_sound : (xs ys : List ℕ) → starts_with xs ys ≡ true → (b : List ℕ) × (xs ≡ (ys ++ b))
starts_with_sound xs [] e = (xs, refl)
starts_with_sound [] (y ∷ ys) e = cc e
starts_with_sound (x ∷ xs) (y ∷ ys) e = elim (Bool-cases (x == y)) [
  | inl f ↦
      let (b, same) = starts_with_sound xs ys (rw f at e) in
      let h = ==→eq x y f in (b, cc (h, same))
  | inr f ↦ cc (rw f at e)
]

starts_with-append : (ys b : List ℕ) → starts_with (ys ++ b) ys ≡ true
starts_with-append [] b = refl
starts_with-append (y ∷ ys) b = rw (eq→== y y refl) (starts_with-append ys b)

-- The rest of a text that starts with the part, behind what comes before it.
abbrev pub Contains : List ℕ → List ℕ → Type 0
Contains xs ys = (a : List ℕ) × (b : List ℕ) × (xs ≡ (a ++ (ys ++ b)))

pub find_sound : (xs ys : List ℕ) (n : ℕ) → find_part xs ys ≡ some n → Contains xs ys
unfolding find_part
find_sound [] ys n e = elim (Bool-cases (starts_with [] ys)) [
  | inl f ↦ let (b, same) = starts_with_sound [] ys f in ([], b, same)
  | inr f ↦ cc (rw f at e)
]
find_sound (x ∷ xs) ys n e = elim (Bool-cases (starts_with (x ∷ xs) ys)) [
  | inl f ↦ let (b, same) = starts_with_sound (x ∷ xs) ys f in ([], b, same)
  | inr f ↦ elim (Option-cases (find_part xs ys)) [
    | inl g ↦ cc (rw (f, g) at e)
    | inr (m, g) ↦ let (a, b, same) = find_sound xs ys m g in (x ∷ a, b, ap (λ l. x ∷ l) same)
  ]
]

pub find_complete : (a ys b : List ℕ) → (n : ℕ) × (find_part (a ++ (ys ++ b)) ys ≡ some n)
unfolding find_part
find_complete [] [] [] = (0, refl)
find_complete [] [] (x ∷ b) = (0, refl)
find_complete [] (y ∷ ys) b = (0, rw (eq→== y y refl, starts_with-append ys b) refl)
find_complete (x ∷ a) ys b = elim (Bool-cases (starts_with (x ∷ (a ++ (ys ++ b))) ys)) [
  | inl f ↦ (0, rw f refl)
  | inr f ↦ let (n, e) = find_complete a ys b in (suc n, rw (f, e) refl)
]
