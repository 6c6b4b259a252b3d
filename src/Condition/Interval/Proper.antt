-- ===== src/Condition/Interval/Proper.antt =====
-- Intervals that are not half open at one value, and that intersection, union and difference keep so.
use project_trans.Base.{ℕ, min, max, ◌≤◌, ◌<◌, ◌≡◌, ◌≢◌, refl, sym, ◌∙◌, arith, some-injective}
use project_trans.Base.{Bool, true, false, ◌||◌, Bool-cases, inl, inr, none, some}
use project_trans.Condition.Interval.{
  Interval, is_disjoint, is_intersect, is_empty, is_in_range, try_get_intersect, try_get_union,
}
use project_trans.Condition.Interval.Keys.{limited, low, high}
use project_trans.Condition.Interval.Cases.{overlaps}
use project_trans.Condition.Interval.Meet.{union, intersect_is, intersect_none, union_is}

pub record IsProper (s : Interval) : Type 0 where
  pub v : ℕ
  pub o : Bool
  pub w : ℕ
  pub p : Bool
  pub order : v ≤ w
  pub ends : low v o ≢ high w p
  pub form : s ≡ limited v o w p

-- The ends of a union differ where those of its parts do.
join_ends :
    (v w v' w' : ℕ)
    → v ≤ w
    → v' ≤ w'
    → (o p o' p' : Bool) → low v o ≢ high w p
    → low v' o' ≢ high w' p'
    → is_disjoint (limited v o w p) (limited v' o' w' p') ≡ false
    → min (low v o) (low v' o') ≢ max (high w p) (high w' p')
join_ends v w v' w' h h' true true true true n n' e q = ground arith
join_ends v w v' w' h h' true true true false n n' e q = ground arith
join_ends v w v' w' h h' true true false true n n' e q = ground arith
join_ends v w v' w' h h' true true false false n n' e q = ground arith
join_ends v w v' w' h h' true false true true n n' e q = ground arith
join_ends v w v' w' h h' true false true false n n' e q = ground arith
join_ends v w v' w' h h' true false false true n n' e q = ground arith
join_ends v w v' w' h h' true false false false n n' e q = ground arith
join_ends v w v' w' h h' false true true true n n' e q = ground arith
join_ends v w v' w' h h' false true true false n n' e q = ground arith
join_ends v w v' w' h h' false true false true n n' e q = ground arith
join_ends v w v' w' h h' false true false false n n' e q = ground arith
join_ends v w v' w' h h' false false true true n n' e q = ground arith
join_ends v w v' w' h h' false false true false n n' e q = ground arith
join_ends v w v' w' h h' false false false true n n' e q = ground arith
join_ends v w v' w' h h' false false false false n n' e q = ground arith

meet_ends : (l r l' r' : ℕ) → l ≢ r → l' ≢ r' → l' < r → l < r' → max l l' ≢ min r r'
meet_ends l r l' r' a b c d q = ground arith

-- An interval that the code takes to be empty holds nothing.
is_empty-holds :
    (v w x : ℕ) (o p : Bool)
    → is_empty (limited v o w p) ≡ true
    → is_in_range (limited v o w p) x ≡ false
is_empty-holds v w x true true e = ground arith
is_empty-holds v w x true false e = ground arith
is_empty-holds v w x false true e = ground arith
is_empty-holds v w x false false e = ground arith

meet-IsProper :
    (v w v' w' : ℕ) (o p o' p' : Bool) (i : Interval)
    → v ≤ w
    → v' ≤ w'
    → low v o ≢ high w p
    → low v' o' ≢ high w' p'
    → try_get_intersect (limited v o w p) (limited v' o' w' p') ≡ some i
    → IsProper i
meet-IsProper v w v' w' o p o' p' i h h' n n' e =
    elim (Bool-cases (is_intersect (limited v o w p) (limited v' o' w' p'))) [
      | inl m ↦
          let (a, c, b, d, is, le, l, r) = intersect_is v w v' w' o p o' p' 0 h h' m in
          let (k, k') = overlaps v w v' w' h h' o p o' p' n n' m in
          record {
            v = a;
            o = c;
            w = b;
            p = d;
            order = le;
            ends = rw (l, r) (meet_ends (low v o) (high w p) (low v' o') (high w' p') n n' k k');
            form = some-injective _ _ (sym e ∙ is);
          }
      | inr m ↦ cc (e, intersect_none v w v' w' o p o' p' 0 h h' m)
    ]

union_none : (s t : Interval) → is_disjoint s t ≡ true → try_get_union s t ≡ none
unfolding try_get_union
union_none s t e = rw e refl

join-IsProper :
    (v w v' w' : ℕ) (o p o' p' : Bool) (i : Interval) (x : ℕ)
    → v ≤ w
    → v' ≤ w'
    → low v o ≢ high w p
    → low v' o' ≢ high w' p'
    → try_get_union (limited v o w p) (limited v' o' w' p') ≡ some i
    → IsProper i
      × (is_in_range i x ≡ (is_in_range (limited v o w p) x || is_in_range (limited v' o' w' p') x))
join-IsProper v w v' w' o p o' p' i x h h' n n' e =
    elim (Bool-cases (is_disjoint (limited v o w p) (limited v' o' w' p'))) [
      | inl m ↦ cc (e, union_none (limited v o w p) (limited v' o' w' p') m)
      | inr m ↦
          let (a, c, b, d, is, le, l, r) = union_is v w v' w' o p o' p' 0 h h' n n' m in
          (
            record {
              v = a;
              o = c;
              w = b;
              p = d;
              order = le;
              ends = rw (l, r) (join_ends v w v' w' h h' o p o' p' n n' m);
              form = some-injective _ _ (sym e ∙ is);
            },
            rw e at (union v w v' w' o p o' p' x h h' n n' m),
          )
    ]

-- The same for any proper intervals.
pub intersect-IsProper :
    (s t i : Interval) → IsProper s → IsProper t → try_get_intersect s t ≡ some i → IsProper i
intersect-IsProper s t i a b e =
    meet-IsProper a.v a.w b.v b.w a.o a.p b.o b.p i a.order b.order a.ends b.ends
      (rw (a.form, b.form) at e)

pub union-IsProper :
    (s t i : Interval) (x : ℕ)
    → IsProper s
    → IsProper t
    → try_get_union s t ≡ some i
    → IsProper i × (is_in_range i x ≡ (is_in_range s x || is_in_range t x))
union-IsProper s t i x a b e =
    rw (a.form, b.form)
      (join-IsProper a.v a.w b.v b.w a.o a.p b.o b.p i x a.order b.order a.ends b.ends
        (rw (a.form, b.form) at e))

pub empty-IsProper :
    (s : Interval) (x : ℕ) → IsProper s → is_empty s ≡ true → is_in_range s x ≡ false
empty-IsProper s x a e = rw a.form (is_empty-holds a.v a.w x a.o a.p (rw a.form at e))
