-- ===== src/Condition/Interval.antt =====
-- `SingleInterval` of common/include/danejoe/condition/single_interval.hpp.
pub mod Keys
pub mod Cases
pub mod Meet
pub mod Proper
pub mod Cut
pub mod Pieces
pub mod Faults
mod Tests
use project_trans.Base.{
  ℕ, ltb, ◌==◌, if◌then◌else◌, Bool, true, false, not, ◌&&◌, ◌||◌, Option, none, some,
}
use project_trans.Base.{List, [], ◌∷◌}
use project_trans.Condition.Endpoint
use project_trans.Condition.Endpoint.{
  Endpoint, endpoint, unlimited, BoundarySide, left, right, same_side, same_value,
}
use project_trans.Condition.Endpoint.{
  same_bool, equals, less, less_equal, greater_equal, greater, is_limited,
}
use project_trans.Condition.Endpoint.{get_adjacent_endpoint}

pub data IntervalState : Type 0 where
  empty whole fixed_left fixed_right fixed_both : IntervalState

pub record IntervalBoundary : Type 0 where
  pub value : Option ℕ
  pub is_open : Bool

pub record Interval : Type 0 where
  pub state : IntervalState
  pub left : Endpoint
  pub right : Endpoint

abbrev pub init_state : Endpoint → Endpoint → IntervalState
init_state l r =
    if is_limited l
    then (if is_limited r
        then (if same_value l.value r.value && l.is_open && r.is_open then empty else fixed_both)
        else fixed_left)
    else (if is_limited r then fixed_right else whole)

-- The two endpoints, and the state that they have.
abbrev pub of_endpoints : Endpoint → Endpoint → Interval
of_endpoints l r = record { state = init_state l r; left = l; right = r }

-- Is there a value on both sides, and is the left one larger?
abbrev pub is_reversed : Option ℕ → Option ℕ → Bool
is_reversed (some v) (some w) = ltb w v
is_reversed v w = false

-- The constructor from two boundaries, which swaps them if they are the wrong way round.
abbrev pub interval : IntervalBoundary → IntervalBoundary → Interval
interval l r =
    if is_reversed l.value r.value
    then of_endpoints (endpoint r.value r.is_open left) (endpoint l.value l.is_open right)
    else of_endpoints (endpoint l.value l.is_open left) (endpoint r.value r.is_open right)

-- `SingleInterval()`, `SingleInterval(endpoint)` and `SingleInterval(point)`.
abbrev pub empty_interval : Interval
empty_interval = of_endpoints (endpoint (some 0) true left) (endpoint (some 0) true right)

abbrev pub half_line : Endpoint → Interval
half_line p =
    of_endpoints (if same_side p.side left then p else unlimited left)
      (if same_side p.side right then p else unlimited right)

abbrev pub point_interval : ℕ → Interval
point_interval v = of_endpoints (endpoint (some v) false left) (endpoint (some v) false right)

abbrev pub boundary : Endpoint → IntervalBoundary
boundary p = record { value = p.value; is_open = p.is_open }

abbrev pub is_equals : Interval → Interval → Bool
is_equals s o = equals s.left o.left && equals s.right o.right

-- `operator<`, by which `std::set` orders intervals.
abbrev pub less_than : Interval → Interval → Bool
less_than s o =
    if less s.left o.left
    then true
    else (if less o.left s.left then false else less s.right o.right)

abbrev pub greater_than : Interval → Interval → Bool
greater_than s o = not (less_than s o) && not (is_equals s o)

abbrev pub is_empty : Interval → Bool
is_empty s = elim s.state [ empty ↦ true | _ ↦ false ]

abbrev pub is_in_range : Interval → ℕ → Bool
is_in_range s x = Endpoint.is_in_range s.left x && Endpoint.is_in_range s.right x

-- `is_in_range(other)`: does this interval hold the other?
abbrev pub covers : Interval → Interval → Bool
covers s o = less_equal s.left o.left && less_equal o.right s.right

abbrev pub is_adjacent : Interval → Interval → Bool
is_adjacent s o =
    equals (get_adjacent_endpoint s.left) o.right || equals (get_adjacent_endpoint s.right) o.left

abbrev pub is_disjoint : Interval → Interval → Bool
is_disjoint s o =
    if is_adjacent s o
    then false
    else (if greater s.left o.right
        then (if same_value s.left.value o.right.value
            then s.left.is_open && o.right.is_open
            else true)
        else (if less s.right o.left
            then (if same_value s.right.value o.left.value
                then s.right.is_open && o.left.is_open
                else true)
            else false))

abbrev pub is_intersect : Interval → Interval → Bool
is_intersect s o = not (is_disjoint s o) && not (is_adjacent s o)

abbrev pub is_point : Interval → Bool
is_point s =
    is_limited s.left
    && is_limited s.right
    && same_value s.left.value s.right.value
    && same_bool s.left.is_open s.right.is_open
    && not s.left.is_open

abbrev pub can_merge_with : Interval → Interval → Bool
can_merge_with s o = not (is_disjoint s o)

unfoldable pub try_get_intersect : Interval → Interval → Option Interval
try_get_intersect s o =
    if is_intersect s o
    then some (
        interval (boundary (if less_equal s.left o.left then o.left else s.left))
          (boundary (if greater_equal s.right o.right then o.right else s.right)))
    else none

unfoldable pub try_get_union : Interval → Interval → Option Interval
try_get_union s o =
    if can_merge_with s o
    then some (
        interval (boundary (if less_equal s.left o.left then s.left else o.left))
          (boundary (if greater_equal s.right o.right then s.right else o.right)))
    else none

-- The part of `get_difference` behind its tests: `i` is the intersection.
unfoldable pub cut_out : Interval → Interval → List Interval
cut_out s i =
    let before = interval (boundary s.left) (boundary (get_adjacent_endpoint i.left)) in
    let behind = interval (boundary (get_adjacent_endpoint i.right)) (boundary s.right) in
    if greater i.left s.left && less i.right s.right
    then before ∷ behind ∷ []
    else (if equals i.left s.left
        then behind ∷ []
        else (if equals i.right s.right then before ∷ [] else []))

unfoldable pub get_difference : Interval → Interval → List Interval
get_difference s o =
    if is_intersect s o
    then (if covers o s
        then empty_interval ∷ []
        else elim (try_get_intersect s o) [ none ↦ empty_interval ∷ [] | some i ↦ cut_out s i ])
    else s ∷ []
