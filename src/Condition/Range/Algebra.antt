-- ===== src/Condition/Range/Algebra.antt =====
-- The operations of `RangeCondition` on sets of proper intervals, as operations on sets of values.
use project_trans.Base.{
  ℕ, ◌≡◌, refl, ◌∙◌, arith, Bool-cases, inl, inr, Bool, not, ◌&&◌, ◌||◌, List, [], ◌∷◌, All,
}
use project_trans.Condition.Interval
use project_trans.Condition.Interval.{Interval, is_empty}
use project_trans.Condition.Interval.Proper.{IsProper, empty-IsProper}
use project_trans.Condition.Range.Proper.{
  insert-IsProper, insert_holds, and_loop-IsProper, and_loop_holds, not_loop-IsProper,
  not_loop_holds, simplify_loop-IsProper, simplify_loop_holds,
}
use project_trans.Condition.Range.{
  ConditionRelation, and, or, not_, is_in_range, simplify, add_range, add_ranges, get_union_range,
  get_intersect_range, get_difference_range, intersect_loop, and_single_interval,
  or_single_interval, not_single_interval,
}

simplify-IsProper : (set : List Interval) → All IsProper set → All IsProper (simplify set)
unfolding simplify
simplify-IsProper [] all = tt
simplify-IsProper (s ∷ []) (a, all) = elim (Bool-cases (is_empty s)) [
  | inl e ↦ rw e tt
  | inr e ↦ rw e (a, tt)
]
simplify-IsProper (s ∷ t ∷ rest) (a, all) = simplify_loop-IsProper s (t ∷ rest) [] a all tt

-- `simplify` keeps the values of a set of proper intervals.
pub simplify-is_in_range :
    (set : List Interval) (x : ℕ)
    → All IsProper set
    → is_in_range (simplify set) x ≡ is_in_range set x
unfolding simplify is_in_range
simplify-is_in_range [] x all = refl
simplify-is_in_range (s ∷ []) x (a, all) = elim (Bool-cases (is_empty s)) [
  | inl e ↦ rw (e, is_in_range) (ground (arith, empty-IsProper s x a e))
  | inr e ↦ rw (e, is_in_range) refl
]
simplify-is_in_range (s ∷ t ∷ rest) x (a, all) =
    simplify_loop_holds s (t ∷ rest) [] x a all tt ∙ ground arith

-- What a relation makes of two answers.
abbrev pub combine : ConditionRelation → Bool → Bool → Bool
combine and a b = a && b
combine or a b = a || b
combine not_ a b = a && not b

module _ (new : Interval) (set : List Interval) (n : IsProper new) (all : All IsProper set) where
  add_range-IsProper : (relation : ConditionRelation) → All IsProper (add_range relation new set)
  unfolding add_range and_single_interval or_single_interval not_single_interval
  add_range-IsProper and = simplify-IsProper _ (and_loop-IsProper new set [] n all tt)
  add_range-IsProper or = simplify-IsProper _ (insert-IsProper new set n all)
  add_range-IsProper not_ = simplify-IsProper _ (not_loop-IsProper new set [] n all tt)

  add_range-is_in_range :
      (relation : ConditionRelation) (x : ℕ)
      → is_in_range (add_range relation new set) x
        ≡ combine relation (is_in_range set x) (Interval.is_in_range new x)
  unfolding add_range and_single_interval or_single_interval not_single_interval is_in_range
  add_range-is_in_range and x =
      simplify-is_in_range _ x (and_loop-IsProper new set [] n all tt)
      ∙ and_loop_holds new set [] x n all tt
      ∙ ground arith
  add_range-is_in_range or x =
      simplify-is_in_range _ x (insert-IsProper new set n all)
      ∙ insert_holds new set x n all
      ∙ ground arith
  add_range-is_in_range not_ x =
      simplify-is_in_range _ x (not_loop-IsProper new set [] n all tt)
      ∙ not_loop_holds new set [] x n all tt
      ∙ ground arith

add_ranges-IsProper :
    (relation : ConditionRelation) (new set : List Interval)
    → All IsProper new
    → All IsProper set
    → All IsProper (add_ranges relation new set)
unfolding add_ranges
add_ranges-IsProper relation [] set n all = all
add_ranges-IsProper relation (s ∷ new) set (a, n) all =
    add_ranges-IsProper relation new _ n (add_range-IsProper s set a all relation)

union_holds :
    (new set : List Interval) (x : ℕ)
    → All IsProper new
    → All IsProper set
    → is_in_range (add_ranges or new set) x ≡ (is_in_range set x || is_in_range new x)
unfolding add_ranges is_in_range
union_holds [] set x n all = ground arith
union_holds (s ∷ new) set x (a, n) all =
    union_holds new (add_range or s set) x n (add_range-IsProper s set a all or)
    ∙ (ground (arith, add_range-is_in_range s set a all or x))

difference_holds :
    (new set : List Interval) (x : ℕ)
    → All IsProper new
    → All IsProper set
    → is_in_range (add_ranges not_ new set) x ≡ (is_in_range set x && not (is_in_range new x))
unfolding add_ranges is_in_range
difference_holds [] set x n all = ground arith
difference_holds (s ∷ new) set x (a, n) all =
    difference_holds new (add_range not_ s set) x n (add_range-IsProper s set a all not_)
    ∙ (ground (arith, add_range-is_in_range s set a all not_ x))

intersect_holds :
    (set other result : List Interval) (x : ℕ)
    → All IsProper set
    → All IsProper other
    → All IsProper result
    → is_in_range (intersect_loop set other result) x
      ≡ ((is_in_range set x && is_in_range other x) || is_in_range result x)
unfolding intersect_loop is_in_range
intersect_holds set [] result x all n r = ground arith
intersect_holds set (s ∷ other) result x all (a, n) r =
    let part = add_range and s set in
    let proper = add_range-IsProper s set a all and in
    intersect_holds set other (add_ranges or part result) x all n
      (add_ranges-IsProper or part result proper r)
    ∙ (ground (arith, union_holds part result x proper r, add_range-is_in_range s set a all and x))

module _ (set other : List Interval) (x : ℕ) (all : All IsProper set) (n : All IsProper other) where
  -- On sets of proper intervals, which have a value on both sides and are not half open at one value,
  -- `get_union_range`, `get_intersect_range` and `get_difference_range` answer for each value what the
  -- union, the intersection and the difference of the two sets of values answer.
  pub range_algebra :
      (is_in_range (get_union_range set other) x ≡ (is_in_range set x || is_in_range other x))
      × (is_in_range (get_intersect_range set other) x ≡ (is_in_range set x && is_in_range other x))
      × (is_in_range (get_difference_range set other) x
          ≡ (is_in_range set x && not (is_in_range other x)))
  unfolding get_union_range get_intersect_range get_difference_range is_in_range
  range_algebra = (
    union_holds other set x n all,
    intersect_holds set other [] x all n tt ∙ ground arith,
    difference_holds other set x n all,
  )
