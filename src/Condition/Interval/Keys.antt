-- ===== src/Condition/Interval/Keys.antt =====
-- Endpoints as numbers: twice the value, and one more where the endpoint stands behind it. Then the
-- comparisons of the code are comparisons of numbers.
use project_trans.Base.{suc, ℕ, ◌*◌, ◌≤◌, ◌≡◌, refl, ap₂, arith, ltb, le→ltb, leb, ◌==◌}
use project_trans.Base.{Bool, true, false, ◌&&◌, some}
use project_trans.Condition.Endpoint
use project_trans.Condition.Endpoint.{
  Endpoint, endpoint, left, right, equals, less, less_equal, greater_equal, get_adjacent_endpoint,
}
use project_trans.Condition.Interval.{interval, is_in_range, Interval, of_endpoints}

-- The endpoint as a number.
abbrev pub low : ℕ → Bool → ℕ
low v true = suc (2 * v)
low v false = 2 * v

abbrev pub high : ℕ → Bool → ℕ
high v true = 2 * v
high v false = suc (2 * v)

-- An interval with a value on both sides.
abbrev pub limited : ℕ → Bool → ℕ → Bool → Interval
limited v o w p = of_endpoints (endpoint (some v) o left) (endpoint (some w) p right)

pub in_low :
    (v x : ℕ) (o : Bool) → Endpoint.is_in_range (endpoint (some v) o left) x ≡ leb (low v o) (2 * x)
in_low v x true = ground arith
in_low v x false = ground arith

pub in_high :
    (v x : ℕ) (o : Bool)
    → Endpoint.is_in_range (endpoint (some v) o right) x ≡ ltb (2 * x) (high v o)
in_high v x true = ground arith
in_high v x false = ground arith

pub less-low :
    (v w : ℕ) (o p : Bool)
    → less (endpoint (some v) o left) (endpoint (some w) p left) ≡ ltb (low v o) (low w p)
less-low v w true true = ground arith
less-low v w true false = ground arith
less-low v w false true = ground arith
less-low v w false false = ground arith

pub less-high :
    (v w : ℕ) (o p : Bool)
    → less (endpoint (some v) o right) (endpoint (some w) p right) ≡ ltb (high v o) (high w p)
less-high v w true true = ground arith
less-high v w true false = ground arith
less-high v w false true = ground arith
less-high v w false false = ground arith

pub equals-low :
    (v w : ℕ) (o p : Bool)
    → equals (endpoint (some v) o left) (endpoint (some w) p left) ≡ (low v o == low w p)
equals-low v w true true = ground arith
equals-low v w true false = ground arith
equals-low v w false true = ground arith
equals-low v w false false = ground arith

pub equals-high :
    (v w : ℕ) (o p : Bool)
    → equals (endpoint (some v) o right) (endpoint (some w) p right) ≡ (high v o == high w p)
equals-high v w true true = ground arith
equals-high v w true false = ground arith
equals-high v w false true = ground arith
equals-high v w false false = ground arith

pub less_equal-low :
    (v w : ℕ) (o p : Bool)
    → less_equal (endpoint (some v) o left) (endpoint (some w) p left) ≡ leb (low v o) (low w p)
less_equal-low v w o p = rw (less-low v w o p, equals-low v w o p) (ground arith)

pub greater_equal-high :
    (v w : ℕ) (o p : Bool)
    → greater_equal (endpoint (some v) o right) (endpoint (some w) p right)
      ≡ leb (high w p) (high v o)
greater_equal-high v w o p = rw (less-high w v p o, equals-high v w o p) (ground arith)

pub less_equal-high :
    (v w : ℕ) (o p : Bool)
    → less_equal (endpoint (some v) o right) (endpoint (some w) p right) ≡ leb (high v o) (high w p)
less_equal-high v w o p = rw (less-high v w o p, equals-high v w o p) (ground arith)

pub in_limited :
    (v w x : ℕ) (o p : Bool)
    → is_in_range (limited v o w p) x ≡ (leb (low v o) (2 * x) && ltb (2 * x) (high w p))
in_limited v w x o p = ap₂ ◌&&◌ (in_low v x o) (in_high w x p)

-- The constructor keeps two boundaries that are in order.
pub interval-limited :
    (v w : ℕ) (o p : Bool)
    → v ≤ w
    → interval (record { value = some v; is_open = o }) (record { value = some w; is_open = p })
      ≡ limited v o w p
interval-limited v w o p h = rw (le→ltb w v h) refl

-- The left end is at most one behind the right one, in an interval such as (v, v).
pub order : (v w : ℕ) (o p : Bool) → v ≤ w → low v o ≤ suc (high w p)
order v w true true h = omega arith
order v w true false h = omega arith
order v w false true h = omega arith
order v w false false h = omega arith
