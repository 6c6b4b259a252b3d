-- ===== src/Condition/Interval/Tests.antt =====
-- Concrete intervals.
use project_trans.Base.{◌≡◌, arith, true, false, none, some, ◌&&◌, not}
use project_trans.Condition.Endpoint.{endpoint, unlimited, left, right}
use project_trans.Condition.Interval.{
  try_get_intersect, try_get_union, get_difference, is_in_range, half_line, of_endpoints,
}
use project_trans.Condition.Interval.Keys.{limited}
use project_trans.Condition.Interval.Cut.{holds_any, difference}
use project_trans.Condition.Interval.Faults.{half_lines_meet}

difference_example :
    holds_any (get_difference (limited 1 false 9 false) (limited 3 true 5 false)) 3
    ≡ (is_in_range (limited 1 false 9 false) 3 && not (is_in_range (limited 3 true 5 false) 3))
difference_example =
    difference 1 9 3 5 false false true false 3 (omega arith) (omega arith) (λ e. omega arith)
      (λ e. omega arith)

half_lines_meet_example :
    let s = half_line (endpoint (some 5) false right) in
    let t = half_line (endpoint (some 3) false left) in
    (try_get_intersect s t ≡ none)
    × (try_get_union s t ≡ some (of_endpoints (unlimited left) (unlimited right)))
half_lines_meet_example = half_lines_meet 5 3 false false
