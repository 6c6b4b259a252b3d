-- ===== src/Condition/Interval/Pieces.antt =====
-- The pieces of `get_difference` for proper intervals: each is proper, and together they hold the difference.
use project_trans.Base.{◌≢◌, ltb→lt, ltb→le, ne→==, eq→==, ℕ, ◌≤◌, ◌<◌, ◌≡◌, refl, arith, ltb, ◌⊎◌}
use project_trans.Base.{Bool-cases, Bool, true, not, ◌&&◌, inl, inr, All}
use project_trans.Condition.Interval.{
  is_intersect, get_difference, covers, Interval, is_in_range, cut_out,
}
use project_trans.Condition.Interval.Keys.{
  less_equal-low, less_equal-high, order, limited, low, high, less-low, less-high, equals-low,
  equals-high, interval-limited,
}
use project_trans.Condition.Interval.Meet.{intersect_is}
use project_trans.Condition.Interval.Cases.{overlaps}
use project_trans.Condition.Interval.Proper.{IsProper}
use project_trans.Condition.Interval.Cut.{
  holds_any, high-not, low-not, low_le, high_le, cut_numbers, difference,
}

proper : (v w : ℕ) (o p : Bool) → v ≤ w → low v o ≢ high w p → IsProper (limited v o w p)
proper v w o p h n = record { v = v; o = o; w = w; p = p; order = h; ends = n; form = refl }

lt→ne : (a b : ℕ) → a < b → a ≢ b
lt→ne a b h q = omega (arith, h, q)

module _ (v w i j : ℕ) (o p a b : Bool) where
  cut_out-IsProper :
      low v o ≤ low i a
      → high j b ≤ high w p
      → low v o < high j b
      → low i a < high w p
      → (low v o < low i a) ⊎ (high j b < high w p)
      → All IsProper (cut_out (limited v o w p) (limited i a j b))
  unfolding cut_out
  cut_out-IsProper l r l' r' some_left =
      let before = interval-limited v i o (not a) (low_le v i o a l) in
      let behind = interval-limited j w (not b) p (high_le j w b p r) in
      let L = low v o in
      let R = high w p in
      let I = low i a in
      let J = high j b in
      let is_before =
        λ (h : L < I). proper v i o (not a) (low_le v i o a l) (rw (high-not i a) (lt→ne L I h)) in
      let is_behind =
        λ (h : J < R). proper j w (not b) p (high_le j w b p r) (rw (low-not j b) (lt→ne J R h)) in
      rw
        (
          before,
          behind,
          less-low v i o a,
          less-high j w b p,
          equals-low i v a o,
          equals-high j w b p,
        )
        (elim (Bool-cases (ltb L I)) [
          | inl e ↦ elim (Bool-cases (ltb J R)) [
            | inl f ↦ rw (e, f) (is_before (ltb→lt L I e), (is_behind (ltb→lt J R f), tt))
            | inr f ↦
                rw
                  (
                    e,
                    f,
                    ne→== I L (omega (arith, ltb→lt L I e)),
                    eq→== J R (omega (arith, ltb→le J R f)),
                  )
                  (is_before (ltb→lt L I e), tt)
          ]
          | inr e ↦
              rw (e, eq→== I L (omega (arith, ltb→le L I e)))
                (is_behind (ground (arith, ltb→le L I e)), tt)
        ])

module _ (v w v' w' : ℕ) (o p o' p' : Bool) (h : v ≤ w) (h' : v' ≤ w') where
  pieces_limited :
      low v o ≢ high w p
      → low v' o' ≢ high w' p'
      → All IsProper (get_difference (limited v o w p) (limited v' o' w' p'))
  unfolding get_difference
  pieces_limited n n' = elim (Bool-cases (is_intersect (limited v o w p) (limited v' o' w' p'))) [
    | inr e ↦ rw e (proper v w o p h n, tt)
    | inl e ↦ elim (Bool-cases (covers (limited v' o' w' p') (limited v o w p))) [
      | inl c ↦ rw (e, c) (proper 0 0 true true (omega arith) (λ q. omega (arith, q)), tt)
      | inr c ↦
          let (i, a, j, b, is, _, l, r) = intersect_is v w v' w' o p o' p' 0 h h' e in
          let (m, m') = overlaps v w v' w' h h' o p o' p' n n' e in
          let (q1, q2, q3, q4, q5, _) =
            cut_numbers (low v o) (high w p) (low v' o') (high w' p') (low i a) (high j b) 0 l r m
              m' (order v w o p h) (order v' w' o' p' h')
              (rw (less_equal-low v' v o' o, less_equal-high w w' p p') at c) in
          rw (e, c, is) (cut_out-IsProper v w i j o p a b q1 q2 q3 q4 q5)
    ]
  ]

pub get_difference-IsProper :
    (s t : Interval) → IsProper s → IsProper t → All IsProper (get_difference s t)
get_difference-IsProper s t a b =
    rw (a.form, b.form)
      (pieces_limited a.v a.w b.v b.w a.o a.p b.o b.p a.order b.order a.ends b.ends)

pub get_difference-holds :
    (s t : Interval) (x : ℕ)
    → IsProper s
    → IsProper t
    → holds_any (get_difference s t) x ≡ (is_in_range s x && not (is_in_range t x))
get_difference-holds s t x a b =
    rw (a.form, b.form) (difference a.v a.w b.v b.w a.o a.p b.o b.p x a.order b.order a.ends b.ends)
