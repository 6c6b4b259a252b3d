-- ===== src/Concurrent/Mpmc/Fifo.antt =====
-- The queue is first in, first out, bounded, and takes nothing after it was closed.
use project_trans.Base.{ℕ, zero, suc, ◌-◌, ◌≡◌, refl, sym, ap, ◌∙◌, arith, Bool-cases, inl, inr}
use project_trans.Base.{subst, ◌||◌, ltb, Bool, true, false, min}
use project_trans.Base.{List, [], ◌∷◌, ◌++◌, length, take, drop, append-nil, append_assoc}
use project_trans.Base.{take-append-drop, length-drop, drop-append, if◌then◌else◌}
use project_trans.Concurrent.Mpmc.{
  empty_cv, full_cv, notify_one, notify_all, Queue, Call, pop, try_pop,
}
use project_trans.Concurrent.Mpmc.{
  pop_timed, front, close, pop_n, try_pop_n, push, push_range, set_max_size,
}
use project_trans.Concurrent.Mpmc.{pushed, again, Outcome}
use project_trans.Concurrent.Mpmc.{ends, blocks, take_item, pop_rounds, step}
use project_trans.Concurrent.Mpmc.{
  try_pop_n_section, push_section, push_range_section, front_section,
}
use project_trans.Concurrent.Mpmc.Sched.{taken, put, lost, run_out, run_in, run}

module _ {ℓ} {A : Type ℓ} where
  -- What a section moves, in one equation.
  abbrev Moves : Call A → Queue A → Type ℓ
  Moves call q =
      let o = step call q in
      q.items ++ put call o.next ≡ (taken call o.next ++ lost call q o.next) ++ o.queue.items

  drop-length-append : (xs ys : List A) → drop (length xs) (xs ++ ys) ≡ ys
  drop-length-append xs ys = drop-append xs ys (length xs) refl

  -- `pop(nums)`, whatever was collected before the section: `fresh` was collected in it.
  pop_rounds-Moves :
      (n left : ℕ) (held fresh : List A) (q : Queue A) (xs : List A)
      → q.items ≡ fresh ++ xs
      → let o = pop_rounds left (held ++ fresh) q xs in
        q.items ++ []
        ≡ (taken (pop_n n held) o.next ++ lost (pop_n n held) q o.next) ++ o.queue.items
  unfolding pop_rounds taken lost
  pop_rounds-Moves n zero held fresh q xs e =
      simp append-nil (e ∙ ap (λ l. l ++ xs) (sym (drop-length-append held fresh)))
  pop_rounds-Moves n (suc left) held fresh q [] e = elim (Bool-cases q.is_running) [
    | inl r ↦
        rw (r, taken, lost)
          (simp append-nil (e ∙ append-nil fresh ∙ sym (drop-length-append held fresh)))
    | inr r ↦ rw (r, taken, lost) (simp append-nil refl)
  ]
  pop_rounds-Moves n (suc left) held fresh q (x ∷ xs) e =
      subst
        (λ all.
          let o = pop_rounds left all q xs in
          q.items ++ []
          ≡ (taken (pop_n n held) o.next ++ lost (pop_n n held) q o.next) ++ o.queue.items)
        (sym (append_assoc held fresh (x ∷ [])))
        (pop_rounds-Moves n left held (fresh ++ (x ∷ [])) q xs
          (e ∙ sym (append_assoc fresh (x ∷ []) xs)))

  -- A queue by its fields, for the proofs that split on them.
  abbrev mk : List A → ℕ → Bool → Queue A
  mk xs m r = record { items = xs; max_size = m; is_running = r }

  take-Moves :
      (xs : List A) (m : ℕ) (r : Bool)
      → Moves pop (mk xs m r)
        × Moves try_pop (mk xs m r)
        × Moves pop_timed (mk xs m r)
        × Moves front (mk xs m r)
  unfolding step take_item taken put lost front_section
  take-Moves [] m true = (refl, refl, refl, refl)
  take-Moves [] m false = (refl, refl, refl, refl)
  take-Moves (x ∷ xs) m r = let same = ap (λ l. x ∷ l) (append-nil xs) in (same, same, same, same)

  push-Moves : (x : A) (xs : List A) (m : ℕ) (r : Bool) → Moves (push x) (mk xs m r)
  unfolding step push_section taken put lost
  push-Moves x xs m false = append-nil xs
  push-Moves x xs m true =
      elim (ltb (length xs) m)
        as (λ b.
          let o =
            if b || false
            then ends (mk (xs ++ (x ∷ [])) m true) (pushed true) (notify_one empty_cv ∷ [])
            else blocks (mk xs m true) full_cv (push x) in
          xs ++ put (push x) o.next
          ≡ (taken (push x) o.next ++ lost (push x) (mk xs m true) o.next) ++ o.queue.items) [
            | true ↦ refl
            | false ↦ append-nil xs
          ]

  push_range-Moves :
      (ys : List A) (p : Bool) (xs : List A) (m : ℕ) (r : Bool)
      → Moves (push_range ys p) (mk xs m r)
  unfolding step push_range_section taken put lost
  push_range-Moves [] p xs m r = append-nil xs
  push_range-Moves (y ∷ ys) p xs m false = append-nil xs
  push_range-Moves (y ∷ ys) p xs m true =
      let k = min (length (y ∷ ys)) (m - length xs) in
      elim (ltb (length xs) m)
        as (λ b.
          let o : Outcome A =
            if b || false
            then record {
              queue = mk (xs ++ take k (y ∷ ys)) m true;
              next = again (push_range (drop k (y ∷ ys)) true);
              notes = notify_all empty_cv ∷ [];
            }
            else blocks (mk xs m true) full_cv (push_range (y ∷ ys) p) in
          xs ++ put (push_range (y ∷ ys) p) o.next
          ≡ (taken (push_range (y ∷ ys) p) o.next
              ++ lost (push_range (y ∷ ys) p) (mk xs m true) o.next)
            ++ o.queue.items) [
              | true ↦ ap (λ n. xs ++ take n (y ∷ ys)) (omega (arith, length-drop k (y ∷ ys)))
              | false ↦ append-nil xs
            ]

  step-Moves : (call : Call A) (q : Queue A) → Moves call q
  unfolding step taken put lost try_pop_n_section
  step-Moves pop q = (take-Moves q.items q.max_size q.is_running).0
  step-Moves try_pop q = (take-Moves q.items q.max_size q.is_running).1
  step-Moves pop_timed q = (take-Moves q.items q.max_size q.is_running).2
  step-Moves front q = (take-Moves q.items q.max_size q.is_running).3
  step-Moves close q = append-nil q.items
  step-Moves (pop_n left result) q =
      rw (append-nil result) at (pop_rounds-Moves left left result [] q q.items refl)
  step-Moves (try_pop_n n) q =
      append-nil q.items
      ∙ sym (take-append-drop n q.items)
      ∙ ap (λ l. l ++ drop n q.items) (sym (append-nil (take n q.items)))
  step-Moves (push x) q = push-Moves x q.items q.max_size q.is_running
  step-Moves (push_range xs is_pushed) q =
      push_range-Moves xs is_pushed q.items q.max_size q.is_running
  step-Moves (set_max_size n) q = append-nil q.items

  -- First in, first out: whatever sections run and in whatever order, what the queue held and what
  -- was put in, one behind the other, is what was taken out (by its callers or for nobody, see
  -- `lost`) and then what it holds at the end.
  pub run-Fifo :
      (calls : List (Call A)) (q : Queue A)
      → q.items ++ run_in calls q ≡ run_out calls q ++ (run calls q).items
  unfolding run_in run_out run
  run-Fifo [] q = append-nil q.items
  run-Fifo (call ∷ calls) q =
      let o = step call q in
      let out = taken call o.next ++ lost call q o.next in
      sym (append_assoc q.items (put call o.next) (run_in calls o.queue))
      ∙ ap (λ l. l ++ run_in calls o.queue) (step-Moves call q)
      ∙ append_assoc out o.queue.items (run_in calls o.queue)
      ∙ ap (λ l. out ++ l) (run-Fifo calls o.queue)
      ∙ sym (append_assoc out (run_out calls o.queue) (run calls o.queue).items)
