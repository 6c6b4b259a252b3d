-- ===== src/Condition/Range/Member.antt =====
-- The values that a set of intervals holds.
use project_trans.Base.{ℕ, ◌*◌, ◌≤◌, ◌≡◌, arith, ltb, leb, if◌then◌else◌, Bool-cases, inl, inr}
use project_trans.Base.{Bool, true, false, ◌&&◌, ◌||◌, List, [], ◌∷◌, All}
use project_trans.Condition.Interval
use project_trans.Condition.Interval.{is_intersect, Interval, less_than, try_get_intersect}
use project_trans.Condition.Interval.Meet.{holds, intersect}
use project_trans.Condition.Interval.Keys.{limited, low, high, less-low, less-high, in_limited}
use project_trans.Condition.Range.{insert, is_in_range}

-- An interval with a value on both sides.
pub record IsLimited (s : Interval) : Type 0 where
  pub v : ℕ
  pub o : Bool
  pub w : ℕ
  pub p : Bool
  pub order : v ≤ w
  pub form : s ≡ limited v o w p

-- Intervals that the set takes for the same hold the same values.
same_numbers :
    (l r l' r' y : ℕ)
    → (if ltb l l' then true else (if ltb l' l then false else ltb r r')) ≡ false
    → (if ltb l' l then true else (if ltb l l' then false else ltb r' r)) ≡ false
    → (leb l y && ltb y r) ≡ (leb l' y && ltb y r')
same_numbers l r l' r' y a b = ground arith

same_values_limited :
    (v w v' w' x : ℕ) (o p o' p' : Bool)
    → less_than (limited v o w p) (limited v' o' w' p') ≡ false
    → less_than (limited v' o' w' p') (limited v o w p) ≡ false
    → Interval.is_in_range (limited v o w p) x ≡ Interval.is_in_range (limited v' o' w' p') x
same_values_limited v w v' w' x o p o' p' a b =
    rw (in_limited v w x o p, in_limited v' w' x o' p')
      (same_numbers (low v o) (high w p) (low v' o') (high w' p') (2 * x)
        (rw (less-low v v' o o', less-low v' v o' o, less-high w w' p p') at a)
        (rw (less-low v v' o o', less-low v' v o' o, less-high w' w p' p) at b))

same_values :
    (s t : Interval) (x : ℕ)
    → IsLimited s
    → IsLimited t
    → less_than s t ≡ false
    → less_than t s ≡ false
    → Interval.is_in_range s x ≡ Interval.is_in_range t x
same_values s t x a b = rw (a.form, b.form) (same_values_limited a.v a.w b.v b.w x a.o a.p b.o b.p)

-- Inserting an interval adds its values.
pub insert-is_in_range :
    (s : Interval) (set : List Interval) (x : ℕ)
    → IsLimited s
    → All IsLimited set
    → is_in_range (insert s set) x ≡ (Interval.is_in_range s x || is_in_range set x)
unfolding insert is_in_range
insert-is_in_range s [] x a all = ground arith
insert-is_in_range s (t ∷ ts) x a (b, all) = elim (Bool-cases (less_than s t)) [
  | inl e ↦ rw (e, is_in_range) (ground arith)
  | inr e ↦ elim (Bool-cases (less_than t s)) [
    | inl f ↦ rw (e, f, is_in_range) (ground (arith, insert-is_in_range s ts x a all))
    | inr f ↦ rw (e, f, is_in_range) (ground (arith, same_values s t x a b e f))
  ]
]

-- The intersection of two limited intervals holds what both hold.
pub both_hold :
    (s new : Interval) (x : ℕ)
    → IsLimited s
    → IsLimited new
    → holds (try_get_intersect s new) x ≡ (Interval.is_in_range s x && Interval.is_in_range new x)
both_hold s new x a b =
    rw (a.form, b.form) (intersect a.v a.w b.v b.w a.o a.p b.o b.p x a.order b.order)
