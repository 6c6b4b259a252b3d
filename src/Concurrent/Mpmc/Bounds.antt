-- ===== src/Concurrent/Mpmc/Bounds.antt =====
-- The bound of the queue, and what a closed queue does.
use project_trans.Base.{ℕ, zero, suc, ◌-◌, ◌≤◌, ◌≡◌, arith, Bool-cases, inl, inr}
use project_trans.Base.{Bool, true, false, min}
use project_trans.Base.{List, [], ◌∷◌, ◌++◌, length, take, drop, length-append, All}
use project_trans.Base.{length-take}
use project_trans.Concurrent.Mpmc.{Queue, Call, pop, try_pop}
use project_trans.Concurrent.Mpmc.{
  pop_timed, front, close, pop_n, try_pop_n, push, push_range, set_max_size,
}
use project_trans.Concurrent.Mpmc.{take_item, pop_rounds, step}
use project_trans.Concurrent.Mpmc.{
  try_pop_n_section, push_section, push_range_section, front_section,
}
use project_trans.Concurrent.Mpmc.Sched.{run}

-- Does the call change the bound?
unfoldable pub is_resize {ℓ} : {A : Type ℓ} → Call A → Bool
is_resize (set_max_size n) = true
is_resize call = false

module _ {ℓ} {A : Type ℓ} where
  length-drop_le : (n : ℕ) (xs : List A) → length (drop n xs) ≤ length xs
  length-drop_le zero xs = omega arith
  length-drop_le (suc n) [] = omega arith
  length-drop_le (suc n) (x ∷ xs) = omega (arith, length-drop_le n xs)

  abbrev pub IsBounded : Queue A → Type 0
  IsBounded q = length q.items ≤ q.max_size

  pop_rounds-IsBounded :
      (left : ℕ) (result : List A) (q : Queue A) (xs : List A)
      → length xs ≤ q.max_size
      → IsBounded (pop_rounds left result q xs).queue
  unfolding pop_rounds
  pop_rounds-IsBounded zero result q xs h = h
  pop_rounds-IsBounded (suc left) result q [] h = elim (Bool-cases q.is_running) [
    | inl r ↦ rw r (omega arith)
    | inr r ↦ rw r (omega arith)
  ]
  pop_rounds-IsBounded (suc left) result q (x ∷ xs) h =
      pop_rounds-IsBounded left (result ++ (x ∷ [])) q xs (omega arith)

  step-IsBounded :
      (call : Call A) (q : Queue A)
      → is_resize call ≡ false
      → IsBounded q
      → IsBounded (step call q).queue
  unfolding step take_item front_section try_pop_n_section push_section push_range_section is_resize
  step-IsBounded pop q e h = ground arith
  step-IsBounded try_pop q e h = ground arith
  step-IsBounded pop_timed q e h = ground arith
  step-IsBounded front q e h = ground arith
  step-IsBounded close q e h = h
  step-IsBounded (pop_n left result) q e h = pop_rounds-IsBounded left result q q.items h
  step-IsBounded (try_pop_n n) q e h = omega (arith, length-drop_le n q.items)
  step-IsBounded (push x) q e h = ground (arith, length-append q.items (x ∷ []))
  step-IsBounded (push_range [] p) q e h = h
  step-IsBounded (push_range (x ∷ xs) p) q e h =
      let k = min (length (x ∷ xs)) (q.max_size - length q.items) in
      ground (arith, length-append q.items (take k (x ∷ xs)), length-take k (x ∷ xs))
  step-IsBounded (set_max_size n) q e h = cc (e)

  -- As long as the bound is not changed, the queue never holds more than `max_size` items.
  pub run-IsBounded :
      (calls : List (Call A)) (q : Queue A)
      → All (λ call. is_resize call ≡ false) calls
      → IsBounded q
      → IsBounded (run calls q)
  unfolding run
  run-IsBounded [] q all h = h
  run-IsBounded (call ∷ calls) q (e, all) h =
      run-IsBounded calls (step call q).queue all (step-IsBounded call q e h)
