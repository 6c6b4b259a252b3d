-- ===== src/Binary/Tests.antt =====
-- Concrete runs of the byte order functions.
use project_trans.Base.{◌≡◌, refl, [], ◌∷◌}
use project_trans.Binary.{
  little, big, to_network_byte_order, to_local_byte_order, to_byte_array, low_first, from_low_first,
}

magic_bytes : to_network_byte_order little 4 0x01020304 ≡ 1 ∷ 2 ∷ 3 ∷ 4 ∷ []
unfolding to_network_byte_order
magic_bytes = refl

read_back : to_local_byte_order big 2 (1 ∷ 2 ∷ []) ≡ 0x0102
unfolding to_local_byte_order from_low_first
read_back = refl

-- A value that is copied without conversion differs between machines.
copied : to_byte_array little 2 1 ≡ 1 ∷ 0 ∷ []
unfolding to_byte_array low_first
copied = refl
