-- ===== src/Concurrent/Mpmc/Wake.antt =====
-- Waiting and waking up: what a closed queue does, and who is notified.
use project_trans.Base.{leb→le, ℕ, zero, suc, ◌<◌, ◌≡◌, refl, sym, ap, ◌∙◌, arith}
use project_trans.Base.{subst, Bool, true, false, lt→ltb}
use project_trans.Base.{List, [], ◌∷◌, ◌++◌, length, drop}
use project_trans.Base.{length-drop}
use project_trans.Concurrent.Mpmc.{empty_cv, full_cv, Queue, Call, pop, try_pop}
use project_trans.Concurrent.Mpmc.{
  pop_timed, front, close, pop_n, try_pop_n, push, push_range, set_max_size,
}
use project_trans.Concurrent.Mpmc.{Next, waits, Outcome}
use project_trans.Concurrent.Mpmc.{is_full, can_pop, can_push, take_item, pop_rounds, step}
use project_trans.Concurrent.Mpmc.{
  try_pop_n_section, push_section, push_range_section, front_section,
}
use project_trans.Concurrent.Mpmc.Sched.{put, run, notified}

module _ {ℓ} {A : Type ℓ} where
  unfoldable pub is_waiting : Next A → Bool
  is_waiting (waits cv call) = true
  is_waiting next = false

  -- What a section on a closed queue with these items leaves: the items are a rest of what was there.
  abbrev pub StaysClosed : List A → Call A → Outcome A → Type ℓ
  StaysClosed xs call o =
      (o.queue.is_running ≡ false)
      × (is_waiting o.next ≡ false)
      × ((n : ℕ) × (o.queue.items ≡ drop n xs))
      × (put call o.next ≡ [])

  pop_rounds_closed :
      (n left : ℕ) (held result : List A) (q : Queue A) (xs : List A)
      → q.is_running ≡ false
      → StaysClosed xs (pop_n n held) (pop_rounds left result q xs)
  unfolding pop_rounds is_waiting put
  pop_rounds_closed n zero held result q xs e = (e, refl, (0, refl), refl)
  pop_rounds_closed n (suc left) held result q [] e =
      rw (e, is_waiting, put) (refl, refl, (0, refl), refl)
  pop_rounds_closed n (suc left) held result q (x ∷ xs) e =
      let (closed, awake, (k, rest), nothing) =
        pop_rounds_closed n left held (result ++ (x ∷ [])) q xs e in
      (closed, awake, (suc k, rest), nothing)

  closed_pops :
      (xs : List A) (m : ℕ)
      → let q : Queue A = record { items = xs; max_size = m; is_running = false } in
        StaysClosed xs pop (step pop q)
        × StaysClosed xs try_pop (step try_pop q)
        × StaysClosed xs pop_timed (step pop_timed q)
        × StaysClosed xs front (step front q)
  unfolding step take_item front_section is_waiting put
  closed_pops [] m = (
    (refl, refl, (0, refl), refl),
    (refl, refl, (0, refl), refl),
    (refl, refl, (0, refl), refl),
    (refl, refl, (0, refl), refl),
  )
  closed_pops (x ∷ xs) m = (
    (refl, refl, (1, refl), refl),
    (refl, refl, (1, refl), refl),
    (refl, refl, (1, refl), refl),
    (refl, refl, (0, refl), refl),
  )

  step-StaysClosed :
      (call : Call A) (xs : List A) (m : ℕ)
      → StaysClosed xs call (step call (record { items = xs; max_size = m; is_running = false }))
  unfolding step try_pop_n_section push_section push_range_section is_waiting put
  step-StaysClosed pop xs m = (closed_pops xs m).0
  step-StaysClosed try_pop xs m = (closed_pops xs m).1
  step-StaysClosed pop_timed xs m = (closed_pops xs m).2
  step-StaysClosed front xs m = (closed_pops xs m).3
  step-StaysClosed close xs m = (refl, refl, (0, refl), refl)
  step-StaysClosed (pop_n left result) xs m = pop_rounds_closed left left result result _ xs refl
  step-StaysClosed (try_pop_n n) xs m = (refl, refl, (n, refl), refl)
  step-StaysClosed (push x) xs m = (refl, refl, (0, refl), refl)
  step-StaysClosed (push_range [] p) xs m = (refl, refl, (0, refl), refl)
  step-StaysClosed (push_range (x ∷ ys) p) xs m = (refl, refl, (0, refl), refl)
  step-StaysClosed (set_max_size n) xs m = (refl, refl, (0, refl), refl)

  step_closed :
      (call : Call A) (q : Queue A) → q.is_running ≡ false → StaysClosed q.items call (step call q)
  step_closed call q e =
      subst
        (λ r.
          StaysClosed q.items call
            (step call (record { items = q.items; max_size = q.max_size; is_running = r })))
        (sym e) (step-StaysClosed call q.items q.max_size)

  drop-drop : (m n : ℕ) (xs : List A) → (k : ℕ) × (drop m (drop n xs) ≡ drop k xs)
  drop-drop m zero xs = (m, refl)
  drop-drop m (suc n) [] = (m, refl)
  drop-drop m (suc n) (x ∷ xs) = let (k, e) = drop-drop m n xs in (suc k, e)

  run_closed_items :
      (calls : List (Call A)) (q : Queue A)
      → q.is_running ≡ false
      → ((run calls q).is_running ≡ false) × ((n : ℕ) × ((run calls q).items ≡ drop n q.items))
  unfolding run
  run_closed_items [] q e = (e, (0, refl))
  run_closed_items (c ∷ calls) q e =
      let (stays, _, (k, rest), _) = step_closed c q e in
      let (closed, (n, left)) = run_closed_items calls (step c q).queue stays in
      let (j, both) = drop-drop n k q.items in (closed, (j, left ∙ ap (drop n) rest ∙ both))

  -- Once the queue is closed it stays closed: whatever sections run, its items are a rest of what it
  -- held, without some from the front. The section of the call that comes next does not wait either; it
  -- leaves a rest of these items and tells its caller of no item that it has put in.
  pub run_closed :
      (calls : List (Call A)) (q : Queue A) (call : Call A)
      → q.is_running ≡ false
      → ((run calls q).is_running ≡ false)
        × ((n : ℕ) × ((run calls q).items ≡ drop n q.items))
        × StaysClosed (run calls q).items call (step call (run calls q))
  run_closed calls q call e =
      let (closed, rest) = run_closed_items calls q e in
      (closed, rest, step_closed call (run calls q) closed)

  -- Does the section let a push go on, where none could before?
  abbrev pub Frees : Call A → Queue A → Type 0
  Frees call q = (can_push q ≡ false) × (can_push (step call q).queue ≡ true)

  -- Does it let a pop go on?
  abbrev pub Fills : Call A → Queue A → Type 0
  Fills call q = (can_pop q ≡ false) × (can_pop (step call q).queue ≡ true)

  -- The two batch pops, which are left out below.
  unfoldable pub is_batch_pop : Call A → Bool
  is_batch_pop (pop_n left result) = true
  is_batch_pop (try_pop_n n) = true
  is_batch_pop call = false

  -- No wake-up of a pusher is lost by a call other than the batch pops.
  pub step_wakes_push :
      (call : Call A) (q : Queue A)
      → is_batch_pop call ≡ false
      → Frees call q
      → notified full_cv (step call q).notes ≡ true
  unfolding step take_item front_section push_section push_range_section is_batch_pop
  step_wakes_push pop q e (before, after) = ground arith
  step_wakes_push try_pop q e (before, after) = ground arith
  step_wakes_push pop_timed q e (before, after) = ground arith
  step_wakes_push front q e (before, after) = ground arith
  step_wakes_push close q e (before, after) = refl
  step_wakes_push (pop_n left result) q e _ = cc (e)
  step_wakes_push (try_pop_n n) q e _ = cc (e)
  step_wakes_push (push x) q e (before, after) = ground arith
  step_wakes_push (push_range [] p) q e (before, after) = cc (before, after)
  step_wakes_push (push_range (x ∷ xs) p) q e (before, after) = ground arith
  step_wakes_push (set_max_size n) q e (before, after) = ground arith

  pop_rounds_fills :
      (left : ℕ) (result : List A) (q : Queue A)
      → can_pop q ≡ false
      → can_pop (pop_rounds left result q []).queue ≡ false
  unfolding pop_rounds
  pop_rounds_fills zero result q e = ground arith
  pop_rounds_fills (suc left) result q e = ground arith

  can_pop-false : (q : Queue A) → can_pop q ≡ false → (q.items ≡ []) × (q.is_running ≡ true)
  can_pop-false q e = ground arith

  pop_n_fills :
      (left : ℕ) (result : List A) (q : Queue A)
      → can_pop q ≡ false
      → can_pop (pop_rounds left result q q.items).queue ≡ false
  pop_n_fills left result q e =
      subst (λ xs. can_pop (pop_rounds left result q xs).queue ≡ false) (sym (can_pop-false q e).0)
        (pop_rounds_fills left result q e)

  drop_nil : (n : ℕ) → drop {A = A} n [] ≡ []
  drop_nil zero = refl
  drop_nil (suc n) = refl

  try_pop_n_fills :
      (n : ℕ) (q : Queue A) → can_pop q ≡ false → can_pop (step (try_pop_n n) q).queue ≡ false
  unfolding step try_pop_n_section
  try_pop_n_fills n q e =
      let (nil, runs) = can_pop-false q e in
      subst
        (λ xs.
          can_pop (record { items = xs; max_size = q.max_size; is_running = q.is_running }) ≡ false)
        (sym (ap (drop n) nil ∙ drop_nil n)) (rw runs refl)

  -- No wake-up of a popper is lost by any call.
  pub step_wakes_pop :
      (call : Call A) (q : Queue A) → Fills call q → notified empty_cv (step call q).notes ≡ true
  unfolding step take_item front_section push_section push_range_section try_pop_n_section
  step_wakes_pop pop q (before, after) = ground arith
  step_wakes_pop try_pop q (before, after) = ground arith
  step_wakes_pop pop_timed q (before, after) = ground arith
  step_wakes_pop front q (before, after) = ground arith
  step_wakes_pop close q (before, after) = refl
  step_wakes_pop (pop_n left result) q (before, after) =
      cc (after, pop_n_fills left result q before)
  step_wakes_pop (try_pop_n n) q (before, after) = cc (after, try_pop_n_fills n q before)
  step_wakes_pop (push x) q (before, after) = ground arith
  step_wakes_pop (push_range [] p) q (before, after) = cc (before, after)
  step_wakes_pop (push_range (x ∷ xs) p) q (before, after) = ground arith
  step_wakes_pop (set_max_size n) q (before, after) = ground arith

  -- `try_pop(nums)` of a full queue that holds fewer items than wanted empties it and notifies nobody,
  -- though a push can go on then.
  pub try_pop_n_silent :
      (n : ℕ) (q : Queue A)
      → 0 < q.max_size
      → q.is_running ≡ true
      → is_full q ≡ true
      → length q.items < n
      → Frees (try_pop_n n) q × ((step (try_pop_n n) q).notes ≡ [])
  unfolding step try_pop_n_section
  try_pop_n_silent n q pos runs full few = (
    (
      ground (arith, leb→le q.max_size (length q.items) full),
      ground (arith, length-drop n q.items),
    ),
    rw (lt→ltb (length q.items) n few) refl,
  )

  pop_rounds_silent :
      (left : ℕ) (result : List A) (q : Queue A) (xs : List A)
      → q.is_running ≡ true
      → length xs < left
      → ((pop_rounds left result q xs).queue.items ≡ [])
        × ((pop_rounds left result q xs).notes ≡ [])
        × (is_waiting (pop_rounds left result q xs).next ≡ true)
  unfolding pop_rounds is_waiting
  pop_rounds_silent zero result q xs runs few = absurd (omega arith)
  pop_rounds_silent (suc left) result q [] runs few = rw (runs, is_waiting) (refl, refl, refl)
  pop_rounds_silent (suc left) result q (x ∷ xs) runs few =
      pop_rounds_silent left (result ++ (x ∷ [])) q xs runs (omega arith)

  -- `pop(nums)` of a running queue that holds fewer items than wanted takes them all, notifies nobody
  -- and waits for more.
  pub pop_n_silent :
      (left : ℕ) (result : List A) (q : Queue A)
      → q.is_running ≡ true
      → length q.items < left
      → let o = step (pop_n left result) q in
        (o.queue.items ≡ []) × (o.notes ≡ []) × (is_waiting o.next ≡ true)
  unfolding step
  pop_n_silent left result q runs few = pop_rounds_silent left result q q.items runs few
