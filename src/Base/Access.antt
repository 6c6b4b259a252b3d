-- ===== src/Base/Access.antt =====
-- Vectors as lists: reads, writes and `resize`. A read out of range is `none` and a write out of
-- range changes nothing; in C++ both are undefined, and the theorems about callers exclude them.
use Prim.Native.Nat.{ℕ, zero, suc, ◌≤◌, ◌<◌}
use mathlib.Core.Path.{◌≡◌, refl, ap}
use mathlib.Core.Logic.{◌≢◌, ◌⊎◌, inl, inr}
use mathlib.Core.List.{List, [], ◌∷◌}
use mathlib.Core.Option.{Option, none, some}
use native.Mathlib.Omega.{arith}
use project_trans.Base.Lists.{length, take}

module _ {ℓ} {A : Type ℓ} where
  abbrev pub get_elem? : List A → ℕ → Option A
  get_elem? [] i = none
  get_elem? (x ∷ xs) zero = some x
  get_elem? (x ∷ xs) (suc i) = get_elem? xs i

  abbrev pub get_or : List A → ℕ → A → A
  get_or [] i d = d
  get_or (x ∷ xs) zero d = x
  get_or (x ∷ xs) (suc i) d = get_or xs i d

  abbrev pub set : List A → ℕ → A → List A
  set [] i v = []
  set (x ∷ xs) zero v = v ∷ xs
  set (x ∷ xs) (suc i) v = x ∷ set xs i v

  abbrev pub replicate : ℕ → A → List A
  replicate zero v = []
  replicate (suc n) v = v ∷ replicate n v

  -- `vector::resize(n)`: cut, or fill up with `v`.
  abbrev pub resize : ℕ → A → List A → List A
  resize zero v xs = []
  resize (suc n) v [] = v ∷ resize n v []
  resize (suc n) v (x ∷ xs) = x ∷ resize n v xs

  pub length-set : (xs : List A) (i : ℕ) (v : A) → length (set xs i v) ≡ length xs
  length-set [] i v = refl
  length-set (x ∷ xs) zero v = refl
  length-set (x ∷ xs) (suc i) v = ap suc (length-set xs i v)

  pub length-resize : (n : ℕ) (v : A) (xs : List A) → length (resize n v xs) ≡ n
  length-resize zero v xs = refl
  length-resize (suc n) v [] = ap suc (length-resize n v [])
  length-resize (suc n) v (x ∷ xs) = ap suc (length-resize n v xs)

  pub resize-eq-take : (n : ℕ) (v : A) (xs : List A) → n ≤ length xs → resize n v xs ≡ take n xs
  resize-eq-take zero v xs h = refl
  resize-eq-take (suc n) v [] h = absurd (omega arith)
  resize-eq-take (suc n) v (x ∷ xs) h = ap (λ l. x ∷ l) (resize-eq-take n v xs (omega arith))

  pub get_elem?-eq-get_or :
      (xs : List A) (i : ℕ) (d : A) → i < length xs → get_elem? xs i ≡ some (get_or xs i d)
  get_elem?-eq-get_or [] i d h = absurd (omega arith)
  get_elem?-eq-get_or (x ∷ xs) zero d h = refl
  get_elem?-eq-get_or (x ∷ xs) (suc i) d h = get_elem?-eq-get_or xs i d (omega arith)

  pub get_or-set_self :
      (xs : List A) (i : ℕ) (v d : A) → i < length xs → get_or (set xs i v) i d ≡ v
  get_or-set_self [] i v d h = absurd (omega arith)
  get_or-set_self (x ∷ xs) zero v d h = refl
  get_or-set_self (x ∷ xs) (suc i) v d h = get_or-set_self xs i v d (omega arith)

  pub get_or-set_ne :
      (xs : List A) {i j : ℕ} (v d : A) → i ≢ j → get_or (set xs i v) j d ≡ get_or xs j d
  get_or-set_ne [] v d h = refl
  get_or-set_ne (x ∷ xs) {i = zero} {j = zero} v d h = absurd (h refl)
  get_or-set_ne (x ∷ xs) {i = zero} {j = suc j} v d h = refl
  get_or-set_ne (x ∷ xs) {i = suc i} {j = zero} v d h = refl
  get_or-set_ne (x ∷ xs) {i = suc i} {j = suc j} v d h = get_or-set_ne xs v d (λ e. h (ap suc e))

  pub length-replicate : (n : ℕ) (v : A) → length (replicate n v) ≡ n
  length-replicate zero v = refl
  length-replicate (suc n) v = ap suc (length-replicate n v)

  -- A vector that was made longer still begins with what a shorter `resize` gives.
  pub take-resize : (m n : ℕ) (v : A) (xs : List A) → m ≤ n → take m (resize n v xs) ≡ resize m v xs
  take-resize zero n v xs h = refl
  take-resize (suc m) zero v xs h = absurd (omega arith)
  take-resize (suc m) (suc n) v [] h = ap (λ l. v ∷ l) (take-resize m n v [] (omega arith))
  take-resize (suc m) (suc n) v (x ∷ xs) h = ap (λ l. x ∷ l) (take-resize m n v xs (omega arith))

pub Option-cases {ℓ} : {A : Type ℓ} (o : Option A) → (o ≡ none) ⊎ ((a : A) × (o ≡ some a))
Option-cases none = inl refl
Option-cases (some a) = inr (a, refl)
