-- ===== src/Condition/Interval/Meet.antt =====
-- Intersection and union.
use project_trans.Base.{suc, ◌≤◌, max, min, ℕ, ◌*◌, ◌≤◌, ◌≡◌, refl, ap, arith, ltb, leb}
use project_trans.Base.{
  Bool-cases, ◌≢◌, Bool, true, false, ◌&&◌, ◌||◌, Option, none, some, inl, inr,
}
use project_trans.Condition.Interval.Cases.{Touches, meets, apart, touches}
use project_trans.Condition.Interval.{
  is_intersect, is_disjoint, Interval, try_get_intersect, try_get_union, is_in_range,
}
use project_trans.Condition.Interval.Keys.{
  limited, low, high, less_equal-low, greater_equal-high, in_limited, interval-limited, order,
}

abbrev pub holds : Option Interval → ℕ → Bool
holds none x = false
holds (some s) x = is_in_range s x

-- The same of numbers.
within_both :
    (l r l' r' y : ℕ)
    → (leb (max l l') y && ltb y (min r r')) ≡ ((leb l y && ltb y r) && (leb l' y && ltb y r'))
within_both l r l' r' y = ground arith

within_either :
    (l r l' r' y : ℕ)
    → Touches l r l' r'
    → l ≤ suc r
    → l' ≤ suc r'
    → (leb (min l l') y && ltb y (max r r')) ≡ ((leb l y && ltb y r) || (leb l' y && ltb y r'))
within_either l r l' r' y t a b = ground arith

module _ (v w v' w' : ℕ) (o p o' p' : Bool) (x : ℕ) (h : v ≤ w) (h' : v' ≤ w') where
  -- The intersection, where the intervals intersect.
  pub intersect_is :
      is_intersect (limited v o w p) (limited v' o' w' p') ≡ true
      → (i : ℕ) × (a : Bool) × (j : ℕ) × (b : Bool) × (try_get_intersect
            (limited v o w p)
            (limited v' o' w' p')
          ≡ some (limited i a j b))
        × (i ≤ j)
        × (low i a ≡ max (low v o) (low v' o'))
        × (high j b ≡ min (high w p) (high w' p'))
  unfolding try_get_intersect
  intersect_is e =
      let (m, m') = meets v w v' w' h h' o p o' p' e in
      rw (e, less_equal-low v v' o o', greater_equal-high w w' p p')
        (elim (Bool-cases (leb (low v o) (low v' o'))) [
          | inl l ↦ elim (Bool-cases (leb (high w' p') (high w p))) [
            | inl r ↦ (
              v',
              o',
              w',
              p',
              rw (l, r) (ap some (interval-limited v' w' o' p' h')),
              h',
              ground arith,
              ground arith,
            )
            | inr r ↦ (
              v',
              o',
              w,
              p,
              rw (l, r) (ap some (interval-limited v' w o' p m)),
              m,
              ground arith,
              ground arith,
            )
          ]
          | inr l ↦ elim (Bool-cases (leb (high w' p') (high w p))) [
            | inl r ↦ (
              v,
              o,
              w',
              p',
              rw (l, r) (ap some (interval-limited v w' o p' m')),
              m',
              ground arith,
              ground arith,
            )
            | inr r ↦ (
              v,
              o,
              w,
              p,
              rw (l, r) (ap some (interval-limited v w o p h)),
              h,
              ground arith,
              ground arith,
            )
          ]
        ])

  pub intersect_none :
      is_intersect (limited v o w p) (limited v' o' w' p') ≡ false
      → try_get_intersect (limited v o w p) (limited v' o' w' p') ≡ none
  unfolding try_get_intersect
  intersect_none e = rw e refl

  -- The intersection of two intervals with a value on both sides, or none, holds the values that both
  -- hold.
  pub intersect :
      holds (try_get_intersect (limited v o w p) (limited v' o' w' p')) x
      ≡ (is_in_range (limited v o w p) x && is_in_range (limited v' o' w' p') x)
  intersect = elim (Bool-cases (is_intersect (limited v o w p) (limited v' o' w' p'))) [
    | inl e ↦
        let (i, a, j, b, is, _, l, r) = intersect_is e in
        rw (is, in_limited i j x a b, in_limited v w x o p, in_limited v' w' x o' p', l, r)
          (within_both (low v o) (high w p) (low v' o') (high w' p') (2 * x))
    | inr e ↦
        let no = apart v w v' w' h h' o p o' p' e in
        rw (intersect_none e, in_limited v w x o p, in_limited v' w' x o' p') (ground arith)
  ]

  -- The union, where the intervals are not disjoint.
  pub union_is :
      low v o ≢ high w p
      → low v' o' ≢ high w' p'
      → is_disjoint (limited v o w p) (limited v' o' w' p') ≡ false
      → (i : ℕ) × (a : Bool) × (j : ℕ) × (b : Bool) × (try_get_union
            (limited v o w p)
            (limited v' o' w' p')
          ≡ some (limited i a j b))
        × (i ≤ j)
        × (low i a ≡ min (low v o) (low v' o'))
        × (high j b ≡ max (high w p) (high w' p'))
  unfolding try_get_union
  union_is n n' e =
      let ((m, m'), _) = touches v w v' w' h h' o p o' p' n n' e in
      rw (e, less_equal-low v v' o o', greater_equal-high w w' p p')
        (elim (Bool-cases (leb (low v o) (low v' o'))) [
          | inl l ↦ elim (Bool-cases (leb (high w' p') (high w p))) [
            | inl r ↦ (
              v,
              o,
              w,
              p,
              rw (l, r) (ap some (interval-limited v w o p h)),
              h,
              ground arith,
              ground arith,
            )
            | inr r ↦ (
              v,
              o,
              w',
              p',
              rw (l, r) (ap some (interval-limited v w' o p' m')),
              m',
              ground arith,
              ground arith,
            )
          ]
          | inr l ↦ elim (Bool-cases (leb (high w' p') (high w p))) [
            | inl r ↦ (
              v',
              o',
              w,
              p,
              rw (l, r) (ap some (interval-limited v' w o' p m)),
              m,
              ground arith,
              ground arith,
            )
            | inr r ↦ (
              v',
              o',
              w',
              p',
              rw (l, r) (ap some (interval-limited v' w' o' p' h')),
              h',
              ground arith,
              ground arith,
            )
          ]
        ])

  -- The union of two intervals with a value on both sides that are not disjoint, neither of which is
  -- half open at one value, holds the values that one of them holds.
  pub union :
      low v o ≢ high w p
      → low v' o' ≢ high w' p'
      → is_disjoint (limited v o w p) (limited v' o' w' p') ≡ false
      → holds (try_get_union (limited v o w p) (limited v' o' w' p')) x
        ≡ (is_in_range (limited v o w p) x || is_in_range (limited v' o' w' p') x)
  union n n' e =
      let (_, no_gap) = touches v w v' w' h h' o p o' p' n n' e in
      let (i, a, j, b, is, _, l, r) = union_is n n' e in
      rw (is, in_limited i j x a b, in_limited v w x o p, in_limited v' w' x o' p', l, r)
        (within_either (low v o) (high w p) (low v' o') (high w' p') (2 * x) no_gap
          (order v w o p h) (order v' w' o' p' h'))
