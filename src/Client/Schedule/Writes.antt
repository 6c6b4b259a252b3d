-- ===== src/Client/Schedule/Writes.antt =====
-- The loop of writes of one response: the bytes of the block are in the file behind it.
use project_trans.Base.{
  ℕ, zero, suc, ◌+◌, ◌-◌, ◌≤◌, ◌<◌, ◌≡◌, refl, sym, ap, ◌∙◌, arith, ltb, Bool-cases, inl, inr,
}
use project_trans.Base.{
  Option, none, some, List, [], ◌∷◌, ◌++◌, length, take, drop, get_or, ltb→le, le→ltb, eq→==, ne→==,
  ◌⊎◌, ◌≢◌,
}
use project_trans.Base.{take-append_split, drop_add}
use project_trans.Client.Schedule.{DestFile, wrote, write_loop, write_bytes}

-- Each answer is at most what was asked for, as `QIODevice::write` promises, and the last makes up the rest.
abbrev pub IsWhole : List (Option ℕ) → ℕ → Type 0
IsWhole [] rest = rest ≡ 0
IsWhole (none ∷ answers) rest = ⊥
IsWhole (some n ∷ answers) rest = (n ≤ rest) × IsWhole answers (rest - n)

-- Each answer is at most what was asked for, and may be negative.
abbrev pub IsLimited : List (Option ℕ) → ℕ → Type 0
IsLimited [] rest = Unit
IsLimited (none ∷ answers) rest = Unit
IsLimited (some n ∷ answers) rest = (n ≤ rest) × IsLimited answers (rest - n)

-- The file holds the bytes from `start` on, and elsewhere what it held.
abbrev pub IsWritten : ℕ → List ℕ → (ℕ → ℕ) → (ℕ → ℕ) → Type 0
IsWritten start bytes old new =
    ((i : ℕ) → i < length bytes → new (start + i) ≡ get_or bytes i 0)
    × ((k : ℕ) → (k < start) ⊎ (start + length bytes ≤ k) → new k ≡ old k)

write_bytes_outside :
    (bs : List ℕ) (f : DestFile) (k : ℕ)
    → (k < f.position) ⊎ (f.position + length bs ≤ k)
    → (write_bytes bs f).content k ≡ f.content k
unfolding write_bytes
write_bytes_outside [] f k h = refl
write_bytes_outside (b ∷ bs) f k h =
    write_bytes_outside bs _ k (further f.position (length bs) k h)
    ∙ rw (ne→== k f.position (apart f.position (length bs) k h)) refl
  where
    further : (p n k : ℕ) → (k < p) ⊎ (p + suc n ≤ k) → (k < suc p) ⊎ (suc p + n ≤ k)
    further p n k h = ground arith

    apart : (p n k : ℕ) → (k < p) ⊎ (p + suc n ≤ k) → k ≢ p
    apart p n k h = λ q. ground (arith, h, q)

write_bytes_inside :
    (bs : List ℕ) (f : DestFile) (i : ℕ)
    → i < length bs
    → (write_bytes bs f).content (f.position + i) ≡ get_or bs i 0
unfolding write_bytes
write_bytes_inside [] f i h = absurd (omega (arith, h))
write_bytes_inside (b ∷ bs) f zero h =
    write_bytes_outside bs _ (f.position + 0) (inl (omega arith))
    ∙ rw (eq→== (f.position + 0) f.position (omega arith)) refl
write_bytes_inside (b ∷ bs) f (suc i) h =
    ap (write_bytes (b ∷ bs) f).content (omega arith) ∙ write_bytes_inside bs _ i (omega (arith, h))

pub write_bytes-IsWritten :
    (bs : List ℕ) (f : DestFile) → IsWritten f.position bs f.content (write_bytes bs f).content
write_bytes-IsWritten bs f = (write_bytes_inside bs f, write_bytes_outside bs f)

-- Writing bytes and then others is writing both.
write_bytes-append :
    (xs ys : List ℕ) (f : DestFile) → write_bytes ys (write_bytes xs f) ≡ write_bytes (xs ++ ys) f
unfolding write_bytes
write_bytes-append [] ys f = refl
write_bytes-append (x ∷ xs) ys f = write_bytes-append xs ys _

next_write :
    (bytes : List ℕ) (has rest n : ℕ) (f : DestFile)
    → n ≤ rest
    → write_bytes (take (rest - n) (drop (has + n) bytes)) (write_bytes (take n (drop has bytes)) f)
      ≡ write_bytes (take rest (drop has bytes)) f
next_write bytes has rest n f h =
    write_bytes-append (take n (drop has bytes)) (take (rest - n) (drop (has + n) bytes)) f
    ∙ ap (λ l. write_bytes l f)
        (rw (drop_add has n bytes) (take-append_split n rest (drop has bytes) h))

nothing_left :
    (bytes : List ℕ) (has rest : ℕ) (f : DestFile)
    → rest ≡ 0
    → f ≡ write_bytes (take rest (drop has bytes)) f
unfolding write_bytes
nothing_left bytes has rest f z = rw z refl

-- A loop that ends well has written the rest of the block, if no write writes more than it was given.
pub write_loop-wrote :
    (bytes : List ℕ) (answers : List (Option ℕ)) (has rest : ℕ) (f g : DestFile)
    → IsLimited answers rest
    → write_loop bytes answers has rest f ≡ wrote g
    → g ≡ write_bytes (take rest (drop has bytes)) f
unfolding write_loop
write_loop-wrote bytes [] has rest f g l e = elim (Bool-cases (ltb 0 rest)) [
  | inl b ↦ cc (rw b at e)
  | inr b ↦
      let same : f ≡ g = cc (rw b at e) in
      sym same ∙ nothing_left bytes has rest f (omega (arith, ltb→le 0 rest b))
]
write_loop-wrote bytes (none ∷ answers) has rest f g l e = elim (Bool-cases (ltb 0 rest)) [
  | inl b ↦ cc (rw b at e)
  | inr b ↦
      let same : f ≡ g = cc (rw b at e) in
      sym same ∙ nothing_left bytes has rest f (omega (arith, ltb→le 0 rest b))
]
write_loop-wrote bytes (some n ∷ answers) has rest f g (h, l) e = elim (Bool-cases (ltb 0 rest)) [
  | inl b ↦
      write_loop-wrote bytes answers (has + n) (rest - n) (write_bytes (take n (drop has bytes)) f)
        g l (rw b at e)
      ∙ next_write bytes has rest n f h
  | inr b ↦
      let same : f ≡ g = cc (rw b at e) in
      sym same ∙ nothing_left bytes has rest f (omega (arith, ltb→le 0 rest b))
]

-- Answers that make up the block end the loop well.
pub write_loop-IsWhole :
    (bytes : List ℕ) (answers : List (Option ℕ)) (has rest : ℕ) (f : DestFile)
    → IsWhole answers rest
    → write_loop bytes answers has rest f ≡ wrote (write_bytes (take rest (drop has bytes)) f)
unfolding write_loop
write_loop-IsWhole bytes [] has rest f w =
    rw (le→ltb 0 rest (omega (arith, w))) (ap wrote (nothing_left bytes has rest f w))
write_loop-IsWhole bytes (none ∷ answers) has rest f w = absurd w
write_loop-IsWhole bytes (some n ∷ answers) has rest f (h, w) = elim (Bool-cases (ltb 0 rest)) [
  | inl b ↦ rw b (
      write_loop-IsWhole bytes answers (has + n) (rest - n)
        (write_bytes (take n (drop has bytes)) f) w
      ∙ ap wrote (next_write bytes has rest n f h))
  | inr b ↦ rw b (ap wrote (nothing_left bytes has rest f (omega (arith, ltb→le 0 rest b))))
]
