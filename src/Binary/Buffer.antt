-- ===== src/Binary/Buffer.antt =====
-- Reads and writes of byte vectors at an index: `memcpy` into `data() + index`, the range constructor
-- from `begin() + index`, and common/include/danejoe/common/core/memory_util.hpp.
use project_trans.Base.{ℕ, zero, suc, ◌+◌, ◌≤◌, ◌<◌, ◌≡◌, refl, ap, ◌∙◌, arith, leb, if◌then◌else◌}
use project_trans.Base.{Bool, true, false, Option, none, some, List, [], ◌∷◌, ◌++◌}
use project_trans.Base.{length, take, drop, resize, length-append, take-append, drop-append}

-- `memcpy(data.data() + i, bytes.data(), bytes.size())`; bytes past the end of `data` are not written.
unfoldable pub write_at : List ℕ → ℕ → List ℕ → List ℕ
write_at [] i bytes = []
write_at (x ∷ xs) (suc i) bytes = x ∷ write_at xs i bytes
write_at (x ∷ xs) zero [] = x ∷ xs
write_at (x ∷ xs) zero (b ∷ bytes) = b ∷ write_at xs zero bytes

-- `vector(data.begin() + i, data.begin() + i + n)`; `none` for a range that does not lie in `data`.
unfoldable pub read_at : List ℕ → ℕ → ℕ → Option (List ℕ)
read_at bytes i n = if leb (i + n) (length bytes) then some (take n (drop i bytes)) else none

-- `ensure_enough_capacity`
unfoldable pub ensure_enough_capacity : List ℕ → ℕ → List ℕ
ensure_enough_capacity bytes size = if leb size (length bytes) then bytes else resize size 0 bytes

-- `ensure_enough_to_read`
unfoldable pub ensure_enough_to_read : List ℕ → ℕ → Bool
ensure_enough_to_read bytes size = if leb size (length bytes) then true else false

pub length-write_at :
    (xs : List ℕ) (i : ℕ) (bytes : List ℕ) → length (write_at xs i bytes) ≡ length xs
unfolding write_at
length-write_at [] i bytes = refl
length-write_at (x ∷ xs) (suc i) bytes = ap suc (length-write_at xs i bytes)
length-write_at (x ∷ xs) zero [] = refl
length-write_at (x ∷ xs) zero (b ∷ bytes) = ap suc (length-write_at xs zero bytes)

-- What stands before the end of the written range: the old bytes up to `i`, then the new ones.
pub take-write_at :
    (xs : List ℕ) (i n : ℕ) (bytes : List ℕ)
    → i + length bytes ≤ length xs
    → n ≡ i + length bytes
    → take n (write_at xs i bytes) ≡ take i xs ++ bytes
unfolding write_at
take-write_at [] zero n [] h e = ap (λ k. take {A = ℕ} k []) e
take-write_at [] zero n (b ∷ bytes) h e = absurd (omega arith)
take-write_at [] (suc i) n bytes h e = absurd (omega arith)
take-write_at (x ∷ xs) (suc i) zero bytes h e = absurd (omega arith)
take-write_at (x ∷ xs) (suc i) (suc n) bytes h e =
    ap (λ l. x ∷ l) (take-write_at xs i n bytes (omega arith) (omega arith))
take-write_at (x ∷ xs) zero zero [] h e = refl
take-write_at (x ∷ xs) zero (suc n) [] h e = absurd (omega arith)
take-write_at (x ∷ xs) zero zero (b ∷ bytes) h e = absurd (omega arith)
take-write_at (x ∷ xs) zero (suc n) (b ∷ bytes) h e =
    ap (λ l. b ∷ l) (take-write_at xs zero n bytes (omega arith) (omega arith))

-- A write leaves what stands behind it alone.
pub drop-write_at :
    (xs : List ℕ) (i n : ℕ) (bytes : List ℕ)
    → i + length bytes ≤ n
    → drop n (write_at xs i bytes) ≡ drop n xs
unfolding write_at
drop-write_at [] i n bytes h = refl
drop-write_at (x ∷ xs) (suc i) zero bytes h = absurd (omega arith)
drop-write_at (x ∷ xs) (suc i) (suc n) bytes h = drop-write_at xs i n bytes (omega arith)
drop-write_at (x ∷ xs) zero n [] h = refl
drop-write_at (x ∷ xs) zero zero (b ∷ bytes) h = absurd (omega arith)
drop-write_at (x ∷ xs) zero (suc n) (b ∷ bytes) h = drop-write_at xs zero n bytes (omega arith)

pub ensure_enough_capacity_lem :
    (bytes : List ℕ) (size : ℕ) → size ≤ length bytes → ensure_enough_capacity bytes size ≡ bytes
unfolding ensure_enough_capacity
ensure_enough_capacity_lem bytes size h = ground arith

pub ensure_enough_to_read_lem :
    (bytes : List ℕ) (size : ℕ) → size ≤ length bytes → ensure_enough_to_read bytes size ≡ true
unfolding ensure_enough_to_read
ensure_enough_to_read_lem bytes size h = ground arith

-- A write behind the filled part of a buffer with enough room extends that part.
pub write_at_filled :
    (bytes done new : List ℕ) (size i j total : ℕ)
    → take i bytes ≡ done
    → length bytes ≡ total
    → size ≤ total
    → i + length new ≤ total
    → j ≡ i + length new
    → (take j (write_at (ensure_enough_capacity bytes size) i new) ≡ done ++ new)
      × (length (write_at (ensure_enough_capacity bytes size) i new) ≡ total)
write_at_filled bytes done new size i j total e l s h k =
    rw (ensure_enough_capacity_lem bytes size (omega arith)) (
      take-write_at bytes i j new (omega arith) k ∙ ap (λ p. p ++ new) e,
      length-write_at bytes i new ∙ l,
    )

-- What stands between two parts is read.
pub read_at-append :
    (pre mid post : List ℕ) (i n : ℕ)
    → i ≡ length pre
    → n ≡ length mid
    → read_at (pre ++ (mid ++ post)) i n ≡ some mid
unfolding read_at
read_at-append pre mid post i n e k =
    rw (drop-append pre (mid ++ post) i e, take-append mid post n k)
      (ground (arith, length-append pre (mid ++ post), length-append mid post))

-- A range that does not lie in the buffer.
pub read_at_past : (bytes : List ℕ) (i n : ℕ) → length bytes < i + n → read_at bytes i n ≡ none
unfolding read_at
read_at_past bytes i n h = ground arith
