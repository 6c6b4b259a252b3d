-- ===== src/Condition/Interval/Faults.antt =====
-- Half lines: every endpoint without a value meets every other one of the other side.
use project_trans.Base.{ℕ, ◌≡◌, refl, Bool, none, some}
use project_trans.Condition.Endpoint.{endpoint, unlimited, left, right}
use project_trans.Condition.Interval.{of_endpoints, try_get_intersect, try_get_union, half_line}

-- `(-∞, v]` and `[w, +∞)`, whatever v and w are, have no intersection, and their union is the whole
-- line: with w ≤ v they share the values between, and with v + 1 < w the union holds v + 1.
pub half_lines_meet :
    (v w : ℕ) (o p : Bool)
    → let s = half_line (endpoint (some v) o right) in
      let t = half_line (endpoint (some w) p left) in
      (try_get_intersect s t ≡ none)
      × (try_get_union s t ≡ some (of_endpoints (unlimited left) (unlimited right)))
unfolding try_get_intersect try_get_union
half_lines_meet v w o p = (refl, refl)
