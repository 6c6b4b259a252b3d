-- ===== src/Condition/Interval/Cut.antt =====
-- Difference.
use project_trans.Base.{
  ◌≢◌, min, max, suc, sym, ap₂, ◌∙◌, ltb→lt, ltb→le, ne→==, eq→==, ℕ, ◌*◌, ◌≤◌, ◌<◌, ◌≡◌, refl,
  arith, ltb, leb,
}
use project_trans.Base.{
  Bool-cases, Bool, true, false, not, ◌&&◌, ◌||◌, ◌⊎◌, inl, inr, List, [], ◌∷◌,
}
use project_trans.Condition.Interval.{
  is_intersect, get_difference, covers, Interval, is_in_range, cut_out,
}
use project_trans.Condition.Interval.Keys.{
  less_equal-low, less_equal-high, order, limited, low, high, less-low, less-high, equals-low,
  equals-high,
}
use project_trans.Condition.Interval.Keys.{in_limited, interval-limited}
use project_trans.Condition.Interval.Meet.{intersect_is}
use project_trans.Condition.Interval.Cases.{apart, overlaps}

abbrev pub holds_any : List Interval → ℕ → Bool
holds_any [] x = false
holds_any (s ∷ ss) x = is_in_range s x || holds_any ss x

-- Where a piece ends, as a number.
pub high-not : (v : ℕ) (o : Bool) → high v (not o) ≡ low v o
high-not v true = refl
high-not v false = refl

pub low-not : (v : ℕ) (o : Bool) → low v (not o) ≡ high v o
low-not v true = refl
low-not v false = refl

pub low_le : (v w : ℕ) (o p : Bool) → low v o ≤ low w p → v ≤ w
low_le v w true true h = omega arith
low_le v w true false h = omega arith
low_le v w false true h = omega arith
low_le v w false false h = omega arith

pub high_le : (v w : ℕ) (o p : Bool) → high v o ≤ high w p → v ≤ w
high_le v w true true h = omega arith
high_le v w true false h = omega arith
high_le v w false true h = omega arith
high_le v w false false h = omega arith

-- The same of numbers: the pieces before and behind, or one of them.
module _ (l r i j y : ℕ) (h : l < j) (h' : i < r) where
  abbrev outside : Bool
  outside = (leb l y && ltb y r) && not (leb i y && ltb y j)

  both_pieces : l ≤ i → j ≤ r → ((leb l y && ltb y i) || ((leb j y && ltb y r) || false)) ≡ outside
  both_pieces a b = ground arith

  piece_before : l ≤ i → ltb j r ≡ false → j ≤ r → ((leb l y && ltb y i) || false) ≡ outside
  piece_before a e b = ground arith

  piece_behind : ltb l i ≡ false → l ≤ i → j ≤ r → ((leb j y && ltb y r) || false) ≡ outside
  piece_behind e a b = ground arith

module _ (v w i j : ℕ) (o p a b : Bool) (x : ℕ) where
  cut :
      low v o ≤ low i a
      → high j b ≤ high w p
      → low v o < high j b
      → low i a < high w p
      → (low v o < low i a) ⊎ (high j b < high w p)
      → holds_any (cut_out (limited v o w p) (limited i a j b)) x ≡ (
          (leb (low v o) (2 * x) && ltb (2 * x) (high w p))
          && not (leb (low i a) (2 * x) && ltb (2 * x) (high j b)))
  unfolding cut_out
  cut l r l' r' proper =
      let before = interval-limited v i o (not a) (low_le v i o a l) in
      let behind = interval-limited j w (not b) p (high_le j w b p r) in
      let L = low v o in
      let R = high w p in
      let I = low i a in
      let J = high j b in
      rw
        (
          before,
          behind,
          less-low v i o a,
          less-high j w b p,
          equals-low i v a o,
          equals-high j w b p,
        )
        (elim (Bool-cases (ltb L I)) [
          | inl e ↦ elim (Bool-cases (ltb J R)) [
            | inl f ↦
                rw
                  (
                    e,
                    f,
                    in_limited v i x o (not a),
                    in_limited j w x (not b) p,
                    high-not i a,
                    low-not j b,
                  )
                  (both_pieces L R I J (2 * x) l' r' l r)
            | inr f ↦
                rw
                  (
                    e,
                    f,
                    ne→== I L (omega (arith, ltb→lt L I e)),
                    eq→== J R (omega (arith, ltb→le J R f)),
                    in_limited v i x o (not a),
                    high-not i a,
                  )
                  (piece_before L R I J (2 * x) l' r' l f r)
          ]
          | inr e ↦
              rw
                (
                  e,
                  eq→== I L (omega (arith, ltb→le L I e)),
                  in_limited j w x (not b) p,
                  low-not j b,
                )
                (piece_behind L R I J (2 * x) l' r' e l r)
        ])

-- What the ends of the intersection are to those of the intervals.
pub cut_numbers :
    (l r l' r' i j y : ℕ)
    → i ≡ max l l'
    → j ≡ min r r'
    → l' < r
    → l < r'
    → l ≤ suc r
    → l' ≤ suc r'
    → (leb l' l && leb r r') ≡ false
    → (l ≤ i)
      × (j ≤ r)
      × (l < j)
      × (i < r)
      × ((l < i) ⊎ (j < r))
      × (((leb l y && ltb y r) && not (leb i y && ltb y j))
          ≡ ((leb l y && ltb y r) && not (leb l' y && ltb y r')))
cut_numbers l r l' r' i j y a b c d e f g =
    (ground arith, ground arith, ground arith, ground arith, ground arith, ground arith)

module _ (v w v' w' : ℕ) (o p o' p' : Bool) (x : ℕ) (h : v ≤ w) (h' : v' ≤ w') where
  difference_apart :
      is_intersect (limited v o w p) (limited v' o' w' p') ≡ false
      → holds_any (get_difference (limited v o w p) (limited v' o' w' p')) x
        ≡ (is_in_range (limited v o w p) x && not (is_in_range (limited v' o' w' p') x))
  unfolding get_difference
  difference_apart e =
      let no = apart v w v' w' h h' o p o' p' e in
      rw (e, in_limited v w x o p, in_limited v' w' x o' p')
        (numbers (low v o) (high w p) (low v' o') (high w' p') (2 * x) no)
    where
      numbers :
          (l r l' r' y : ℕ)
          → (r ≤ l') ⊎ (r' ≤ l)
          → ((leb l y && ltb y r) || false) ≡ ((leb l y && ltb y r) && not (leb l' y && ltb y r'))
      numbers l r l' r' y away = ground arith

  difference_covered :
      is_intersect (limited v o w p) (limited v' o' w' p') ≡ true
      → covers (limited v' o' w' p') (limited v o w p) ≡ true
      → holds_any (get_difference (limited v o w p) (limited v' o' w' p')) x
        ≡ (is_in_range (limited v o w p) x && not (is_in_range (limited v' o' w' p') x))
  unfolding get_difference
  difference_covered e c =
      rw (e, c, in_limited v w x o p, in_limited v' w' x o' p', in_limited 0 0 x true true)
        (numbers (low v o) (high w p) (low v' o') (high w' p') (2 * x)
          (rw (less_equal-low v' v o' o, less_equal-high w w' p p') at c))
    where
      numbers :
          (l r l' r' y : ℕ)
          → (leb l' l && leb r r') ≡ true
          → ((leb 1 y && ltb y 0) || false) ≡ ((leb l y && ltb y r) && not (leb l' y && ltb y r'))
      numbers l r l' r' y c = ground arith

  difference_cut :
      low v o ≢ high w p
      → low v' o' ≢ high w' p'
      → is_intersect (limited v o w p) (limited v' o' w' p') ≡ true
      → covers (limited v' o' w' p') (limited v o w p) ≡ false
      → holds_any (get_difference (limited v o w p) (limited v' o' w' p')) x
        ≡ (is_in_range (limited v o w p) x && not (is_in_range (limited v' o' w' p') x))
  unfolding get_difference
  difference_cut n n' e c =
      let (i, a, j, b, is, _, l, r) = intersect_is v w v' w' o p o' p' x h h' e in
      let (m, m') = overlaps v w v' w' h h' o p o' p' n n' e in
      let (q1, q2, q3, q4, q5, same) =
        cut_numbers (low v o) (high w p) (low v' o') (high w' p') (low i a) (high j b) (2 * x) l r m
          m' (order v w o p h) (order v' w' o' p' h')
          (rw (less_equal-low v' v o' o, less_equal-high w w' p p') at c) in
      rw (e, c, is)
        (cut v w i j o p a b x q1 q2 q3 q4 q5
          ∙ same
          ∙ sym (ap₂ (λ a b. a && not b) (in_limited v w x o p) (in_limited v' w' x o' p')))

  -- The difference of two intervals with a value on both sides, neither of which is half open at one
  -- value, holds the values of the first that the second does not hold.
  pub difference :
      low v o ≢ high w p
      → low v' o' ≢ high w' p'
      → holds_any (get_difference (limited v o w p) (limited v' o' w' p')) x
        ≡ (is_in_range (limited v o w p) x && not (is_in_range (limited v' o' w' p') x))
  difference n n' = elim (Bool-cases (is_intersect (limited v o w p) (limited v' o' w' p'))) [
    | inr e ↦ difference_apart e
    | inl e ↦ elim (Bool-cases (covers (limited v' o' w' p') (limited v o w p))) [
      | inl c ↦ difference_covered e c
      | inr c ↦ difference_cut n n' e c
    ]
  ]
