-- ===== src/Client/Block/Tests.antt =====
-- Files of a few bytes.
use project_trans.Base.{ℕ, ◌≡◌, refl, arith, Bool, true, Option, none, some, List, [], ◌∷◌, length}
use project_trans.Client.Block.{
  BlockEntity, ClientFileEntity, BlockParam, add, add_loop, next_block,
}
use project_trans.Client.Block.Parts.{IsParts, holding, once, add_each, add-IsParts, add-none}

-- A repository that takes every block.
abbrev insert_block : BlockEntity → List BlockEntity → Bool × List BlockEntity
insert_block b r = (true, b ∷ r)

abbrev ten_bytes : ClientFileEntity
ten_bytes = record { file_id = 7; file_size = 10 }

abbrev by_four : BlockParam
by_four = record { block_bytes = 4 }

abbrev by_none : BlockParam
by_none = record { block_bytes = 0 }

abbrev inserted : Option (Bool × List BlockEntity) → ℕ
inserted none = 0
inserted (some r) = length r.1

three_blocks : inserted (add insert_block 4 ten_bytes 1 by_four []) ≡ 3
unfolding add add_loop next_block
three_blocks = refl

add-IsParts_example :
    (bs : List BlockEntity) × IsParts ten_bytes 1 by_four 0 bs
    × ((x : ℕ) → holding x bs ≡ once x ten_bytes 0)
    × (add insert_block 11 ten_bytes 1 by_four [] ≡ some (add_each insert_block bs []))
add-IsParts_example = add-IsParts insert_block ten_bytes 1 by_four (omega arith) []

add-none_example : add insert_block 5 ten_bytes 1 by_none [] ≡ none
add-none_example = add-none insert_block (λ b r. refl) ten_bytes 1 by_none 5 [] refl (omega arith)
