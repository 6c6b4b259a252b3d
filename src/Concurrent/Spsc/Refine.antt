-- ===== src/Concurrent/Spsc/Refine.antt =====
-- A valid ring is a bounded first-in first-out queue to a thread that runs alone.
use project_trans.Base.{
  ℕ, zero, suc, ◌+◌, ◌-◌, ◌%◌, ◌^◌, ◌≤◌, ◌<◌, ◌≡◌, refl, sym, ap, ap₂, ◌∙◌, arith, Bool-cases,
}
use project_trans.Base.{
  inl, inr, ◌==◌, true, Option, none, some, ◌⊎◌, ==→eq, ==→ne, eq→==, ne→==, ◌≢◌,
}
use project_trans.Base.{List, [], ◌∷◌, ◌++◌, length}
use project_trans.Base.{
  if◌then◌else◌, get_or, set, get_or-set_self, get_or-set_ne, length-set, length-replicate,
}
use project_trans.Concurrent.Spsc.{
  Ring, next_index, new, is_empty, is_full, push, pop_reserve, pop_read,
}
use project_trans.Concurrent.Spsc.{pop}

-- `i` is the `k`th index from `t` on, round the ring.
abbrev IsAt : ℕ → ℕ → ℕ → ℕ → Type 0
IsAt cap t k i = (i < cap) × ((i ≡ t + k) ⊎ (i + cap ≡ t + k))

next_lem :
    (cap t : ℕ)
    → t < cap
    → cap < 2 ^ 32
    → (next_index cap t < cap) × ((next_index cap t ≡ t + 1) ⊎ (next_index cap t + cap ≡ t + 1))
unfolding next_index
next_lem cap t h small = elim (Bool-cases (((t + 1) % 2 ^ 32) == cap)) [
  | inl e ↦ rw e (omega arith, inr (omega (arith, ==→eq _ _ e)))
  | inr e ↦ rw e (omega (arith, ==→ne _ _ e), inl (omega arith))
]

module _ {ℓ} {A : Type ℓ} (d : A) where
  -- The `n` slots from `t` on.
  abbrev pub window : List A → ℕ → ℕ → ℕ → List A
  window slots cap t zero = []
  window slots cap t (suc n) = get_or slots t d ∷ window slots cap (next_index cap t) n

  pub length-window : (slots : List A) (cap t n : ℕ) → length (window slots cap t n) ≡ n
  length-window slots cap t zero = refl
  length-window slots cap t (suc n) = ap suc (length-window slots cap (next_index cap t) n)

  window-set :
      (slots : List A) (cap t n i : ℕ) (x : A)
      → length slots ≡ cap
      → cap < 2 ^ 32
      → t < cap
      → n < cap
      → IsAt cap t n i
      → window (set slots i x) cap t (suc n) ≡ window slots cap t n ++ (x ∷ [])
  window-set slots cap t zero i x l small ht hn at =
      ap (λ a. a ∷ [])
        (ap (λ j. get_or (set slots i x) j d) {x = t} {y = i} (grind arith)
          ∙ get_or-set_self slots i x d (grind arith))
  window-set slots cap t (suc n) i x l small ht hn at =
      ap₂ ◌∷◌ (get_or-set_ne slots x d (λ e. grind arith)) (
        window-set slots cap (next_index cap t) n i x l small (next_lem cap t ht small).0
          (omega arith) (at.0, grind (arith, next_lem cap t ht small)))

  pub record IsValid (r : Ring A) : Type 0 where
    pub small : r.capacity < 2 ^ 32
    pub slots_length : length r.slots ≡ r.capacity
    pub size_le : r.current_size ≤ r.capacity
    pub tail_lt : 0 < r.capacity → r.tail_index < r.capacity
    pub head_at : 0 < r.capacity → IsAt r.capacity r.tail_index r.current_size r.head_index

  -- The items of a ring, oldest first.
  abbrev pub contents : Ring A → List A
  contents r = window r.slots r.capacity r.tail_index r.current_size

  pub new-IsValid : (capacity : ℕ) → capacity < 2 ^ 32 → IsValid (new d capacity)
  unfolding new
  new-IsValid capacity h = record {
    small = h;
    slots_length = length-replicate capacity d;
    size_le = omega arith;
    tail_lt = λ p. p;
    head_at = λ p. (p, inl refl);
  }

  push-IsValid : (x : A) (r : Ring A) → IsValid r → IsValid (push x r)
  unfolding push is_full
  push-IsValid x r v = elim (Bool-cases (r.current_size == r.capacity)) [
    | inl e ↦ rw e v
    | inr e ↦
        let room : r.current_size < r.capacity = omega (arith, v.size_le, ==→ne _ _ e) in
        let (lt, at) = v.head_at (omega arith) in
        let (next_lt, next_at) = next_lem r.capacity r.head_index lt v.small in
        rw e (record {
          small = v.small;
          slots_length = length-set r.slots r.head_index x ∙ v.slots_length;
          size_le = omega arith;
          tail_lt = v.tail_lt;
          head_at = λ p. (next_lt, grind (arith, v.tail_lt p));
        })
  ]

  -- The two outcomes of `push` and of `pop`.
  pop-none : (r : Ring A) → r.current_size ≡ 0 → pop d r ≡ (none, r)
  unfolding pop pop_reserve is_empty
  pop-none r e = rw (eq→== r.current_size 0 e, pop) refl

  popped : Ring A → Ring A
  popped r = record r {
    tail_index = next_index r.capacity r.tail_index;
    current_size = r.current_size - 1;
  }

  pop-some :
      (r : Ring A) → r.current_size ≢ 0 → pop d r ≡ (some (get_or r.slots r.tail_index d), popped r)
  unfolding pop pop_reserve is_empty pop_read popped
  pop-some r n = rw (ne→== r.current_size 0 n, pop) refl

  popped-IsValid : (r : Ring A) → IsValid r → r.current_size ≢ 0 → IsValid (popped r)
  unfolding popped
  popped-IsValid r v n =
      let lt = v.tail_lt (omega (arith, v.size_le)) in
      let (next_lt, next_at) = next_lem r.capacity r.tail_index lt v.small in
      record {
        small = v.small;
        slots_length = v.slots_length;
        size_le = omega (arith, v.size_le);
        tail_lt = λ p. next_lt;
        head_at = λ p. ((v.head_at p).0, grind (arith, (v.head_at p).1));
      }

-- The queue that a ring of capacity `cap` stands for: a push to a full one is dropped.
abbrev pub queue_push {ℓ} : {A : Type ℓ} → ℕ → A → List A → List A
queue_push cap x q = if length q == cap then q else q ++ (x ∷ [])

abbrev pub queue_pop {ℓ} : {A : Type ℓ} → List A → Option A × List A
queue_pop [] = (none, [])
queue_pop (x ∷ q) = (some x, q)

module _ {ℓ} {A : Type ℓ} (d : A) where
  push_refines :
      (x : A) (r : Ring A)
      → IsValid d r
      → contents d (push x r) ≡ queue_push r.capacity x (contents d r)
  unfolding push is_full
  push_refines x r v =
      rw (length-window d r.slots r.capacity r.tail_index r.current_size)
        (elim (Bool-cases (r.current_size == r.capacity)) [
          | inl e ↦ rw e refl
          | inr e ↦
              let room : r.current_size < r.capacity = omega (arith, v.size_le, ==→ne _ _ e) in
              rw (e, plus_one r.current_size)
                (window-set d r.slots r.capacity r.tail_index r.current_size r.head_index x
                  v.slots_length v.small (v.tail_lt (omega arith)) room (v.head_at (omega arith)))
        ])
    where
      plus_one : (n : ℕ) → n + 1 ≡ suc n
      plus_one n = omega arith

  contents_nil : (r : Ring A) → r.current_size ≡ 0 → contents d r ≡ []
  contents_nil r e = ap (window d r.slots r.capacity r.tail_index) e

  contents_cons :
      (r : Ring A)
      → r.current_size ≢ 0
      → contents d r ≡ get_or r.slots r.tail_index d ∷ contents d (popped d r)
  unfolding popped
  contents_cons r n =
      ap (window d r.slots r.capacity r.tail_index) {x = r.current_size}
        {y = suc (r.current_size - 1)} (omega arith)

  -- What `pop` gives, and what it leaves.
  abbrev PopRefines : Ring A → Option A × Ring A → Type ℓ
  PopRefines r (x, r') = ((x, contents d r') ≡ queue_pop (contents d r)) × IsValid d r'

  pop_refines : (r : Ring A) → IsValid d r → PopRefines r (pop d r)
  pop_refines r v = elim (Bool-cases (r.current_size == 0)) [
    | inl e ↦
        let nil = contents_nil r (==→eq _ _ e) in rw (pop-none d r (==→eq _ _ e)) (rw nil refl, v)
    | inr e ↦
        rw (pop-some d r (==→ne _ _ e))
          (ap queue_pop (sym (contents_cons r (==→ne _ _ e))), popped-IsValid d r v (==→ne _ _ e))
  ]

-- What one thread does to the ring.
pub data Op {ℓ} (A : Type ℓ) : Type ℓ where
  op_push : A → Op A
  op_pop : Op A

module _ {ℓ} {A : Type ℓ} (d : A) where
  -- The results of the pops, and the items at the end: of the ring, and of the queue.
  unfoldable pub run : List (Op A) → Ring A → List (Option A) × List A
  run [] r = ([], contents d r)
  run (op_push x ∷ ops) r = run ops (push x r)
  run (op_pop ∷ ops) r = let (x, r') = pop d r in let (xs, end) = run ops r' in (x ∷ xs, end)

  unfoldable pub queue_run : ℕ → List (Op A) → List A → List (Option A) × List A
  queue_run cap [] q = ([], q)
  queue_run cap (op_push x ∷ ops) q = queue_run cap ops (queue_push cap x q)
  queue_run cap (op_pop ∷ ops) q =
      let (x, q') = queue_pop q in let (xs, end) = queue_run cap ops q' in (x ∷ xs, end)

  capacity-push : (x : A) (r : Ring A) → (push x r).capacity ≡ r.capacity
  unfolding push
  capacity-push x r = ground arith

  capacity-pop : (r : Ring A) → (pop d r).1.capacity ≡ r.capacity
  unfolding pop pop_reserve
  capacity-pop r = ground arith

  -- No sequence of pushes and pops, each ended before the next begins, tells a valid ring from the
  -- bounded queue of its items, in which a push to a full queue is dropped.
  pub run_refines :
      (ops : List (Op A)) (r : Ring A)
      → IsValid d r
      → run ops r ≡ queue_run r.capacity ops (contents d r)
  unfolding run queue_run
  run_refines [] r v = refl
  run_refines (op_push x ∷ ops) r v =
      run_refines ops (push x r) (push-IsValid d x r v)
      ∙ ap₂ (λ c q. queue_run c ops q) (capacity-push x r) (push_refines d x r v)
  run_refines (op_pop ∷ ops) r v =
      let (e, valid) = pop_refines d r v in
      ap (λ p. ((pop d r).0 ∷ p.0, p.1))
        (run_refines ops (pop d r).1 valid
          ∙ ap (λ c. queue_run c ops (contents d (pop d r).1)) (capacity-pop r))
      ∙ ap (λ p. let (xs, end) = queue_run r.capacity ops p.1 in (p.0 ∷ xs, end)) e

  -- A push of the producer between the two parts of a pop: on a valid full ring with a slot at least,
  -- the pop returns the item that was pushed in place of the oldest one.
  pub pop_overtaken :
      (x : A) (r : Ring A)
      → IsValid d r
      → 0 < r.capacity
      → is_full r ≡ true
      → (r' : Ring A) × (pop_reserve r ≡ some (r.tail_index, r'))
        × (pop_read d r.tail_index (push x r') ≡ x)
  unfolding pop_reserve pop_read push is_full is_empty popped
  pop_overtaken x r v pos full =
      let size : r.current_size ≡ r.capacity = ==→eq _ _ full in
      let same : r.head_index ≡ r.tail_index = grind (arith, v.head_at pos, v.tail_lt pos) in
      (
        popped d r,
        rw (ne→== r.current_size 0 (λ e. omega arith)) refl,
        rw (ne→== (r.current_size - 1) r.capacity (λ e. omega arith), same)
            (get_or-set_self r.slots r.tail_index x d
              (omega (arith, v.slots_length, v.tail_lt pos))),
      )
