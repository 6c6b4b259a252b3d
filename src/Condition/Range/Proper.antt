-- ===== src/Condition/Range/Proper.antt =====
-- Sets of proper intervals: what each step of `RangeCondition` holds, and that it leaves proper intervals.
use project_trans.Base.{ℕ, ◌≡◌, refl, ◌∙◌, arith, Bool-cases, inl, inr, not, ◌&&◌, ◌||◌, List, []}
use project_trans.Base.{◌∷◌, All, Option-cases}
use project_trans.Condition.Interval
use project_trans.Condition.Interval.{
  Interval, less_than, is_empty, try_get_intersect, try_get_union, get_difference,
}
use project_trans.Condition.Interval.Proper.{
  IsProper, intersect-IsProper, union-IsProper, empty-IsProper,
}
use project_trans.Condition.Interval.Pieces.{get_difference-IsProper, get_difference-holds}
use project_trans.Condition.Interval.Cut.{holds_any}
use project_trans.Condition.Range.Member.{IsLimited, insert-is_in_range, both_hold}
use project_trans.Condition.Range.{
  insert, insert_all, is_in_range, and_loop, not_loop, simplify_loop,
}

proper-IsLimited : (s : Interval) → IsProper s → IsLimited s
proper-IsLimited s a = record { v = a.v; o = a.o; w = a.w; p = a.p; order = a.order; form = a.form }

set-IsLimited : (set : List Interval) → All IsProper set → All IsLimited set
set-IsLimited [] all = tt
set-IsLimited (s ∷ set) (a, all) = (proper-IsLimited s a, set-IsLimited set all)

pub insert-IsProper :
    (s : Interval) (set : List Interval)
    → IsProper s
    → All IsProper set
    → All IsProper (insert s set)
unfolding insert
insert-IsProper s [] a all = (a, tt)
insert-IsProper s (t ∷ ts) a (b, all) = elim (Bool-cases (less_than s t)) [
  | inl e ↦ rw e (a, (b, all))
  | inr e ↦ elim (Bool-cases (less_than t s)) [
    | inl f ↦ rw (e, f) (b, insert-IsProper s ts a all)
    | inr f ↦ rw (e, f) (b, all)
  ]
]

pub insert_holds :
    (s : Interval) (set : List Interval) (x : ℕ)
    → IsProper s
    → All IsProper set
    → is_in_range (insert s set) x ≡ (Interval.is_in_range s x || is_in_range set x)
insert_holds s set x a all =
    insert-is_in_range s set x (proper-IsLimited s a) (set-IsLimited set all)

pub insert_all-IsProper :
    (new set : List Interval)
    → All IsProper new
    → All IsProper set
    → All IsProper (insert_all new set)
unfolding insert_all
insert_all-IsProper [] set n all = all
insert_all-IsProper (s ∷ new) set (a, n) all =
    insert_all-IsProper new (insert s set) n (insert-IsProper s set a all)

insert_all-holds :
    (new set : List Interval) (x : ℕ)
    → All IsProper new
    → All IsProper set
    → is_in_range (insert_all new set) x ≡ (holds_any new x || is_in_range set x)
unfolding insert_all
insert_all-holds [] set x n all = refl
insert_all-holds (s ∷ new) set x (a, n) all =
    insert_all-holds new (insert s set) x n (insert-IsProper s set a all)
    ∙ ground (arith, insert_holds s set x a all)

pub and_loop-IsProper :
    (new : Interval) (set result : List Interval)
    → IsProper new
    → All IsProper set
    → All IsProper result
    → All IsProper (and_loop new set result)
unfolding and_loop
and_loop-IsProper new [] result n all r = r
and_loop-IsProper new (s ∷ set) result n (a, all) r =
    elim (Option-cases (try_get_intersect s new)) [
      | inl e ↦ rw e (and_loop-IsProper new set result n all r)
      | inr (i, e) ↦ rw e (
          and_loop-IsProper new set (insert i result) n all
            (insert-IsProper i result (intersect-IsProper s new i a n e) r))
    ]

pub and_loop_holds :
    (new : Interval) (set result : List Interval) (x : ℕ)
    → IsProper new
    → All IsProper set
    → All IsProper result
    → is_in_range (and_loop new set result) x
      ≡ ((is_in_range set x && Interval.is_in_range new x) || is_in_range result x)
unfolding and_loop is_in_range
and_loop_holds new [] result x n all r = refl
and_loop_holds new (s ∷ set) result x n (a, all) r =
    let both = both_hold s new x (proper-IsLimited s a) (proper-IsLimited new n) in
    elim (Option-cases (try_get_intersect s new)) [
      | inl e ↦ rw e (and_loop_holds new set result x n all r ∙ ground (arith, rw e at both))
      | inr (i, e) ↦
          let l = intersect-IsProper s new i a n e in
          rw e (
            and_loop_holds new set (insert i result) x n all (insert-IsProper i result l r)
            ∙ ground (arith, rw e at both, insert_holds i result x l r))
    ]

pub not_loop-IsProper :
    (new : Interval) (set result : List Interval)
    → IsProper new
    → All IsProper set
    → All IsProper result
    → All IsProper (not_loop new set result)
unfolding not_loop
not_loop-IsProper new [] result n all r = r
not_loop-IsProper new (s ∷ set) result n (a, all) r =
    not_loop-IsProper new set (insert_all (get_difference s new) result) n all
      (insert_all-IsProper (get_difference s new) result (get_difference-IsProper s new a n) r)

pub not_loop_holds :
    (new : Interval) (set result : List Interval) (x : ℕ)
    → IsProper new
    → All IsProper set
    → All IsProper result
    → is_in_range (not_loop new set result) x
      ≡ ((is_in_range set x && not (Interval.is_in_range new x)) || is_in_range result x)
unfolding not_loop is_in_range
not_loop_holds new [] result x n all r = refl
not_loop_holds new (s ∷ set) result x n (a, all) r =
    let pieces = get_difference s new in
    let proper = get_difference-IsProper s new a n in
    not_loop_holds new set (insert_all pieces result) x n all
      (insert_all-IsProper pieces result proper r)
    ∙ ground (arith, insert_all-holds pieces result x proper r, get_difference-holds s new x a n)

pub simplify_loop-IsProper :
    (current : Interval) (rest result : List Interval)
    → IsProper current
    → All IsProper rest
    → All IsProper result
    → All IsProper (simplify_loop current rest result)
unfolding simplify_loop
simplify_loop-IsProper current [] result c all r = elim (Bool-cases (is_empty current)) [
  | inl e ↦ rw e r
  | inr e ↦ rw e (insert-IsProper current result c r)
]
simplify_loop-IsProper current (next ∷ rest) result c (a, all) r =
    elim (Bool-cases (is_empty current)) [
      | inl e ↦ rw e (simplify_loop-IsProper next rest result a all r)
      | inr e ↦ elim (Option-cases (try_get_union current next)) [
        | inl f ↦
            rw (e, f)
              (simplify_loop-IsProper next rest (insert current result) a all
                (insert-IsProper current result c r))
        | inr (m, f) ↦
            rw (e, f)
              (simplify_loop-IsProper m rest result (union-IsProper current next m 0 c a f).0 all r)
      ]
    ]

pub simplify_loop_holds :
    (current : Interval) (rest result : List Interval) (x : ℕ)
    → IsProper current
    → All IsProper rest
    → All IsProper result
    → is_in_range (simplify_loop current rest result) x
      ≡ ((Interval.is_in_range current x || is_in_range rest x) || is_in_range result x)
unfolding simplify_loop is_in_range
simplify_loop_holds current [] result x c all r = elim (Bool-cases (is_empty current)) [
  | inl e ↦ rw (e, is_in_range) (ground (arith, empty-IsProper current x c e))
  | inr e ↦ rw (e, is_in_range) (ground (arith, insert_holds current result x c r))
]
simplify_loop_holds current (next ∷ rest) result x c (a, all) r =
    elim (Bool-cases (is_empty current)) [
      | inl e ↦
          rw (e, is_in_range)
            (simplify_loop_holds next rest result x a all r
              ∙ ground (arith, empty-IsProper current x c e))
      | inr e ↦ elim (Option-cases (try_get_union current next)) [
        | inl f ↦
            rw (e, f, is_in_range)
              (simplify_loop_holds next rest (insert current result) x a all
                  (insert-IsProper current result c r)
                ∙ ground (arith, insert_holds current result x c r))
        | inr (m, f) ↦
            let (p, h) = union-IsProper current next m x c a f in
            rw (e, f, is_in_range) (simplify_loop_holds m rest result x p all r ∙ ground (arith, h))
      ]
    ]
