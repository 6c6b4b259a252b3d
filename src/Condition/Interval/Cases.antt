-- ===== src/Condition/Interval/Cases.antt =====
-- What the tests on two intervals say, in numbers.
use project_trans.Base.{◌<◌, ℕ, ◌≤◌, ◌≡◌, arith, Bool, true, false, ◌⊎◌, ◌≢◌}
use project_trans.Condition.Interval.{is_disjoint, is_intersect}
use project_trans.Condition.Interval.Keys.{limited, low, high}

-- Two intervals that intersect overlap in values.
abbrev pub Meets : ℕ → ℕ → ℕ → ℕ → Type 0
Meets v w v' w' = (v' ≤ w) × (v ≤ w')

-- Two intervals that do not have no number in common.
abbrev pub Apart : ℕ → ℕ → ℕ → ℕ → Type 0
Apart l r l' r' = (r ≤ l') ⊎ (r' ≤ l)

-- Two intervals that are not disjoint leave no gap.
abbrev pub Touches : ℕ → ℕ → ℕ → ℕ → Type 0
Touches l r l' r' = ((l' ≤ r) × (l ≤ r')) ⊎ (r ≡ l') ⊎ (r' ≡ l)

module _ (v w v' w' : ℕ) (h : v ≤ w) (h' : v' ≤ w') where
  pub meets :
      (o p o' p' : Bool)
      → is_intersect (limited v o w p) (limited v' o' w' p') ≡ true
      → Meets v w v' w'
  meets true true true true e = ground arith
  meets true true true false e = ground arith
  meets true true false true e = ground arith
  meets true true false false e = ground arith
  meets true false true true e = ground arith
  meets true false true false e = ground arith
  meets true false false true e = ground arith
  meets true false false false e = ground arith
  meets false true true true e = ground arith
  meets false true true false e = ground arith
  meets false true false true e = ground arith
  meets false true false false e = ground arith
  meets false false true true e = ground arith
  meets false false true false e = ground arith
  meets false false false true e = ground arith
  meets false false false false e = ground arith

  pub apart :
      (o p o' p' : Bool)
      → is_intersect (limited v o w p) (limited v' o' w' p') ≡ false
      → Apart (low v o) (high w p) (low v' o') (high w' p')
  apart true true true true e = ground arith
  apart true true true false e = ground arith
  apart true true false true e = ground arith
  apart true true false false e = ground arith
  apart true false true true e = ground arith
  apart true false true false e = ground arith
  apart true false false true e = ground arith
  apart true false false false e = ground arith
  apart false true true true e = ground arith
  apart false true true false e = ground arith
  apart false true false true e = ground arith
  apart false true false false e = ground arith
  apart false false true true e = ground arith
  apart false false true false e = ground arith
  apart false false false true e = ground arith
  apart false false false false e = ground arith

  pub touches :
      (o p o' p' : Bool)
      → low v o ≢ high w p
      → low v' o' ≢ high w' p'
      → is_disjoint (limited v o w p) (limited v' o' w' p') ≡ false
      → Meets v w v' w' × Touches (low v o) (high w p) (low v' o') (high w' p')
  touches true true true true n n' e = ground arith
  touches true true true false n n' e = ground arith
  touches true true false true n n' e = ground arith
  touches true true false false n n' e = ground arith
  touches true false true true n n' e = ground arith
  touches true false true false n n' e = ground arith
  touches true false false true n n' e = ground arith
  touches true false false false n n' e = ground arith
  touches false true true true n n' e = ground arith
  touches false true true false n n' e = ground arith
  touches false true false true n n' e = ground arith
  touches false true false false n n' e = ground arith
  touches false false true true n n' e = ground arith
  touches false false true false n n' e = ground arith
  touches false false false true n n' e = ground arith
  touches false false false false n n' e = ground arith

  pub overlaps :
      (o p o' p' : Bool)
      → low v o ≢ high w p
      → low v' o' ≢ high w' p'
      → is_intersect (limited v o w p) (limited v' o' w' p') ≡ true
      → (low v' o' < high w p) × (low v o < high w' p')
  overlaps true true true true n n' e = ground arith
  overlaps true true true false n n' e = ground arith
  overlaps true true false true n n' e = ground arith
  overlaps true true false false n n' e = ground arith
  overlaps true false true true n n' e = ground arith
  overlaps true false true false n n' e = ground arith
  overlaps true false false true n n' e = ground arith
  overlaps true false false false n n' e = ground arith
  overlaps false true true true n n' e = ground arith
  overlaps false true true false n n' e = ground arith
  overlaps false true false true n n' e = ground arith
  overlaps false true false false n n' e = ground arith
  overlaps false false true true n n' e = ground arith
  overlaps false false true false n n' e = ground arith
  overlaps false false false true n n' e = ground arith
  overlaps false false false false n n' e = ground arith
