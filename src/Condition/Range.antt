-- ===== src/Condition/Range.antt =====
-- `RangeCondition` of common/include/danejoe/condition/range_condition.hpp.
pub mod Member
pub mod Proper
pub mod Algebra
mod Tests
use project_trans.Base.{
  ℕ, if◌then◌else◌, Bool, true, false, not, ◌&&◌, ◌||◌, Option, none, some, List, [], ◌∷◌, ◌++◌,
}
use project_trans.Condition.Interval
use project_trans.Condition.Interval.{
  Interval, is_empty, less_than, try_get_intersect, try_get_union, get_difference,
}
use project_trans.Condition.Interval.{point_interval}

pub data ConditionRelation : Type 0 where
  and or not_ : ConditionRelation

-- A `std::set` of intervals is the list of its elements in its order. An element that neither comes
-- before nor after another is not inserted a second time.
unfoldable pub insert : Interval → List Interval → List Interval
insert s [] = s ∷ []
insert s (t ∷ ts) =
    let rest = insert s ts in
    if less_than s t then s ∷ t ∷ ts else (if less_than t s then t ∷ rest else t ∷ ts)

unfoldable pub insert_all : List Interval → List Interval → List Interval
insert_all [] set = set
insert_all (s ∷ ss) set = insert_all ss (insert s set)

-- `RangeCondition(value)`.
abbrev pub of_interval : Interval → List Interval
of_interval s = if is_empty s then [] else s ∷ []

unfoldable pub or_single_interval : Interval → List Interval → List Interval
or_single_interval new set = insert new set

-- The loops build a new set: `result` is what it holds already.
unfoldable pub and_loop : Interval → List Interval → List Interval → List Interval
and_loop new [] result = result
and_loop new (s ∷ ss) result =
    and_loop new ss (elim (try_get_intersect s new) [ none ↦ result | some i ↦ insert i result ])

unfoldable pub and_single_interval : Interval → List Interval → List Interval
and_single_interval new set = and_loop new set []

unfoldable pub not_loop : Interval → List Interval → List Interval → List Interval
not_loop new [] result = result
not_loop new (s ∷ ss) result = not_loop new ss (insert_all (get_difference s new) result)

unfoldable pub not_single_interval : Interval → List Interval → List Interval
not_single_interval new set = not_loop new set []

-- The loop of `simplify`: `current` is what was merged so far.
unfoldable pub simplify_loop : Interval → List Interval → List Interval → List Interval
simplify_loop current [] result = if is_empty current then result else insert current result
simplify_loop current (next ∷ rest) result =
    let skipped = simplify_loop next rest result in
    let kept = simplify_loop next rest (insert current result) in
    if is_empty current then skipped else elim (try_get_union current next) [
      | some merged ↦ simplify_loop merged rest result
      | none ↦ kept
    ]

unfoldable pub simplify : List Interval → List Interval
simplify [] = []
simplify (s ∷ []) = if is_empty s then [] else s ∷ []
simplify (s ∷ t ∷ rest) = simplify_loop s (t ∷ rest) []

unfoldable pub add_range : ConditionRelation → Interval → List Interval → List Interval
add_range and new set = simplify (and_single_interval new set)
add_range or new set = simplify (or_single_interval new set)
add_range not_ new set = simplify (not_single_interval new set)

-- `add_range(range, relation)`: one interval after the other.
unfoldable pub add_ranges : ConditionRelation → List Interval → List Interval → List Interval
add_ranges relation [] set = set
add_ranges relation (s ∷ ss) set = add_ranges relation ss (add_range relation s set)

unfoldable pub get_union_range : List Interval → List Interval → List Interval
get_union_range set other = add_ranges or other set

unfoldable pub get_difference_range : List Interval → List Interval → List Interval
get_difference_range set other = add_ranges not_ other set

-- The loop of `get_intersect_range`.
unfoldable pub intersect_loop : List Interval → List Interval → List Interval → List Interval
intersect_loop set [] result = result
intersect_loop set (s ∷ ss) result =
    intersect_loop set ss (add_ranges or (add_range and s set) result)

unfoldable pub get_intersect_range : List Interval → List Interval → List Interval
get_intersect_range set other = intersect_loop set other []

unfoldable pub is_in_range : List Interval → ℕ → Bool
is_in_range [] x = false
is_in_range (s ∷ ss) x = if Interval.is_in_range s x then true else is_in_range ss x

-- `is_in_range(interval)`.
unfoldable pub covers : List Interval → Interval → Bool
covers [] o = false
covers (s ∷ ss) o = if Interval.covers s o then true else covers ss o

-- `is_in_range(range)`.
unfoldable pub covers_all : List Interval → List Interval → Bool
covers_all set [] = true
covers_all set (o ∷ os) = if covers set o then covers_all set os else false

unfoldable pub get_values_in_range : List Interval → List ℕ → List ℕ
get_values_in_range set [] = []
get_values_in_range set (x ∷ xs) =
    let rest = get_values_in_range set xs in if is_in_range set x then x ∷ rest else rest

unfoldable pub get_values_not_in_range : List Interval → List ℕ → List ℕ
get_values_not_in_range set [] = []
get_values_not_in_range set (x ∷ xs) =
    let rest = get_values_not_in_range set xs in if is_in_range set x then rest else x ∷ rest
