-- ===== src/Codec/Parse.antt =====
-- The outcome of a parser: a value, `std::nullopt`, or a read outside the buffer, which is undefined
-- behaviour in C++ and which the theorems exclude or exhibit.
use project_trans.Base.{ℕ, ◌+◌, ◌%◌, ◌^◌, Bool, true, false, Option, none, some, List}
use project_trans.Binary.Buffer.{read_at}

pub data Parse {ℓ} (A : Type ℓ) : Type ℓ where
  parsed : A → Parse A
  rejected : Parse A
  out_of_range : Parse A

infixl 5 ◌>>=◌ ◌>>◌
abbrev pub ◌>>=◌ {ℓ κ} : {A : Type ℓ} {B : Type κ} → Parse A → (A → Parse B) → Parse B
parsed a >>= f = f a
rejected >>= f = rejected
out_of_range >>= f = out_of_range

abbrev pub ◌>>◌ {ℓ} : {B : Type ℓ} → Parse (Unit {0}) → Parse B → Parse B
m >> k = m >>= λ _. k

-- `if (!test) return std::nullopt;`
abbrev pub require : Bool → Parse (Unit {0})
require true = parsed tt
require false = rejected

abbrev pub in_range {ℓ} : {A : Type ℓ} → Option A → Parse A
in_range none = out_of_range
in_range (some a) = parsed a

-- The bytes `i … i + n - 1`.
abbrev pub read_bytes : List ℕ → ℕ → ℕ → Parse (List ℕ)
read_bytes bytes i n = in_range (read_at bytes i n)

-- `uint32_t` addition
abbrev pub add32 : ℕ → ℕ → ℕ
add32 a b = (a + b) % 2 ^ 32
