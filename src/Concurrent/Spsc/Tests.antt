-- ===== src/Concurrent/Spsc/Tests.antt =====
-- A ring of two slots.
use project_trans.Base.{inr, ℕ, ◌≡◌, refl, arith, List, [], ◌∷◌, some, true}
use project_trans.Concurrent.Spsc.{Ring, new, push, pop_reserve, pop_read, is_full}
use project_trans.Concurrent.Spsc.Refine.{
  Op, op_push, op_pop, run, queue_run, contents, run_refines, new-IsValid,
}
use project_trans.Concurrent.Spsc.Refine.{IsValid, pop_overtaken}

abbrev ops : List (Op ℕ)
ops = op_push 5 ∷ op_push 6 ∷ op_push 7 ∷ op_pop ∷ op_push 8 ∷ op_pop ∷ op_pop ∷ op_pop ∷ []

abbrev fresh : Ring ℕ
unfolding new
fresh = new 0 2

fresh-IsValid : IsValid 0 fresh
unfolding fresh
fresh-IsValid = new-IsValid 0 2 (omega arith)

run_refines_example : run 0 ops fresh ≡ queue_run 0 fresh.capacity ops (contents 0 fresh)
run_refines_example = run_refines 0 ops fresh fresh-IsValid

abbrev two : Ring ℕ
two = record { head_index = 0; tail_index = 0; slots = 5 ∷ 6 ∷ []; current_size = 2; capacity = 2 }

two-IsValid : IsValid 0 two
two-IsValid = record {
  small = omega arith;
  slots_length = refl;
  size_le = omega arith;
  tail_lt = λ p. p;
  head_at = λ p. (p, inr refl);
}

two_full : is_full two ≡ true
unfolding is_full
two_full = refl

pop_overtaken_example :
    (r' : Ring ℕ) × (pop_reserve two ≡ some (two.tail_index, r'))
    × (pop_read 0 two.tail_index (push 7 r') ≡ 7)
pop_overtaken_example = pop_overtaken 0 7 two two-IsValid (omega arith) two_full
