-- ===== src/Condition/Endpoint.antt =====
-- `EndpointRange` of common/include/danejoe/condition/endpoint_range.hpp.
use project_trans.Base.{
  ℕ, ltb, ◌==◌, if◌then◌else◌, Bool, true, false, not, ◌&&◌, ◌||◌, Option, none, some,
}
use project_trans.Base.{List, [], ◌∷◌}

pub data BoundarySide : Type 0 where
  left right unknown : BoundarySide

abbrev pub same_side : BoundarySide → BoundarySide → Bool
same_side left left = true
same_side right right = true
same_side unknown unknown = true
same_side a b = false

-- `Endpoint` is `EndpointRange<T>`: a value of `none` is the infinity of the side.
pub record Endpoint : Type 0 where
  pub value : Option ℕ
  pub is_open : Bool
  pub side : BoundarySide

-- The constructor of three arguments: an endpoint without a value is open.
abbrev pub endpoint : Option ℕ → Bool → BoundarySide → Endpoint
endpoint none is_open side = record { value = none; is_open = true; side = side }
endpoint (some v) is_open side = record { value = some v; is_open = is_open; side = side }

-- `EndpointRange(side)`.
abbrev pub unlimited : BoundarySide → Endpoint
unlimited side = record { value = none; is_open = true; side = side }

abbrev pub same_value : Option ℕ → Option ℕ → Bool
same_value none none = true
same_value (some v) (some w) = v == w
same_value a b = false

abbrev pub same_bool : Bool → Bool → Bool
same_bool true b = b
same_bool false b = not b

abbrev pub has_value : Option ℕ → Bool
has_value none = false
has_value (some v) = true

-- `operator==`.
abbrev pub equals : Endpoint → Endpoint → Bool
equals a b = same_value a.value b.value && same_bool a.is_open b.is_open && same_side a.side b.side

-- `operator<` behind its first test, by the two values.
abbrev pub less_by : Option ℕ → Option ℕ → Endpoint → Endpoint → Bool
less_by none none a b = same_side a.side left && same_side b.side right
less_by (some v) (some w) a b =
    if v == w
    then (if same_side a.side b.side
        then (if same_side a.side left then not a.is_open else a.is_open)
        else same_side a.side right)
    else ltb v w
less_by v w a b =
    if same_side a.side b.side
    then (if same_side a.side left then not (has_value v) else has_value v)
    else same_side a.side left

-- `operator<`, and the three that stand on it.
abbrev pub less : Endpoint → Endpoint → Bool
less a b = if equals a b then false else less_by a.value b.value a b

abbrev pub greater : Endpoint → Endpoint → Bool
greater a b = less b a

abbrev pub less_equal : Endpoint → Endpoint → Bool
less_equal a b = less a b || equals a b

abbrev pub greater_equal : Endpoint → Endpoint → Bool
greater_equal a b = greater a b || equals a b

abbrev pub is_in_range : Endpoint → ℕ → Bool
is_in_range a x = elim a.value [
  | none ↦ true
  | some v ↦
      if same_side a.side right
      then (if ltb x v then true else (if ltb v x then false else not a.is_open))
      else (if ltb x v then false else (if ltb v x then true else not a.is_open))
]

abbrev pub is_limited : Endpoint → Bool
is_limited a = has_value a.value

-- The endpoint of the other side that meets this one. The constructor opens it if it has no value.
abbrev pub get_adjacent_endpoint : Endpoint → Endpoint
get_adjacent_endpoint a =
    endpoint a.value (not a.is_open) (if same_side a.side left then right else left)

abbrev pub is_adjacent_with : Endpoint → Endpoint → Bool
is_adjacent_with a b = equals (get_adjacent_endpoint a) b

abbrev pub get_values_in_range : Endpoint → List ℕ → List ℕ
get_values_in_range a [] = []
get_values_in_range a (x ∷ xs) =
    let rest = get_values_in_range a xs in if is_in_range a x then x ∷ rest else rest

abbrev pub get_values_not_in_range : Endpoint → List ℕ → List ℕ
get_values_not_in_range a [] = []
get_values_not_in_range a (x ∷ xs) =
    let rest = get_values_not_in_range a xs in if is_in_range a x then rest else x ∷ rest
