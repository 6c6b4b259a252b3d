-- ===== src/Condition/Range/Tests.antt =====
-- Ranges of one and two intervals.
use project_trans.Condition.Range.{is_in_range}
use project_trans.Condition.Interval.Proper.{IsProper}
use project_trans.Condition.Range.Algebra.{range_algebra}
use project_trans.Condition.Range.{get_union_range, get_intersect_range, get_difference_range}
use project_trans.Base.{All, not, ◌||◌, arith, ◌&&◌, ◌≡◌, refl, true, false, List, [], ◌∷◌}
use project_trans.Condition.Interval.{
  Interval, try_get_intersect, try_get_union, get_difference, cut_out,
}
use project_trans.Condition.Interval.Keys.{limited}
use project_trans.Condition.Range.{or, not_, add_range, simplify, simplify_loop, insert, insert_all}
use project_trans.Condition.Range.{or_single_interval, not_single_interval, not_loop}

-- [1, 5) and [5, 9] become one interval, which loses [3, 4].
abbrev ten : List Interval
ten = limited 1 false 9 false ∷ []

merged : add_range or (limited 5 false 9 false) (limited 1 false 5 true ∷ []) ≡ ten
unfolding add_range simplify simplify_loop insert or_single_interval try_get_union
merged = refl

cut :
    add_range not_ (limited 3 false 4 false) ten
    ≡ limited 1 false 3 true ∷ limited 4 true 9 false ∷ []
unfolding add_range simplify simplify_loop insert insert_all not_single_interval not_loop
    get_difference cut_out try_get_intersect try_get_union
cut = refl

abbrev hole : List Interval
hole = limited 3 false 4 false ∷ limited 8 true 12 true ∷ []

ten-IsProper : All IsProper ten
ten-IsProper = (
  record {
    v = 1;
    o = false;
    w = 9;
    p = false;
    order = omega arith;
    ends = λ q. omega (arith, q);
    form = refl;
  },
  tt,
)

hole-IsProper : All IsProper hole
hole-IsProper = (
  record {
    v = 3;
    o = false;
    w = 4;
    p = false;
    order = omega arith;
    ends = λ q. omega (arith, q);
    form = refl;
  },
  (
    record {
      v = 8;
      o = true;
      w = 12;
      p = true;
      order = omega arith;
      ends = λ q. omega (arith, q);
      form = refl;
    },
    tt,
  ),
)

range_algebra_example :
    (is_in_range (get_union_range ten hole) 8 ≡ (is_in_range ten 8 || is_in_range hole 8))
    × (is_in_range (get_intersect_range ten hole) 8 ≡ (is_in_range ten 8 && is_in_range hole 8))
    × (is_in_range (get_difference_range ten hole) 8
        ≡ (is_in_range ten 8 && not (is_in_range hole 8)))
range_algebra_example = range_algebra ten hole 8 ten-IsProper hole-IsProper
