-- ===== src/Binary/Order.antt =====
-- What goes over the wire does not depend on the machine, and is read back.
use project_trans.Base.{ℕ, zero, suc, ◌*◌, ◌/◌, ◌^◌, ◌<◌, ◌≡◌, refl, ap, sym, ◌∙◌}
use project_trans.Base.{some, arith, List, [], ◌∷◌, reverse, append-nil, length, take}
use project_trans.Base.{take_all, length-reverse, All}
use mathlib.Core.List.{reverse-reverse}
use project_trans.Binary.{Host, little, big, IsByte, low_first, from_low_first}
use project_trans.Binary.{get_local_byte_order, little_endian}
use project_trans.Binary.{swap_elements}
use project_trans.Binary.{to_network_byte_order, to_local_byte_order, to_byte_array}
use project_trans.Binary.{to_network_byte_order_data, to_local_byte_order_bytes, data_of}

pub length-low_first : (w n : ℕ) → length (low_first w n) ≡ w
unfolding low_first
length-low_first zero n = refl
length-low_first (suc w) n = ap suc (length-low_first w (n / 256))

pub low_first-IsByte : (w n : ℕ) → All IsByte (low_first w n)
unfolding low_first
low_first-IsByte zero n = tt
low_first-IsByte (suc w) n = (omega arith, low_first-IsByte w (n / 256))

pub from_low_first-low_first : (w n : ℕ) → n < 256 ^ w → from_low_first (low_first w n) ≡ n
unfolding low_first from_low_first
from_low_first-low_first zero n h = omega arith
from_low_first-low_first (suc w) n h =
    omega (arith, from_low_first-low_first w (n / 256) (omega arith))

-- The bytes of a number, highest first: what the network order is.
unfoldable pub high_first : ℕ → ℕ → List ℕ
high_first w n = reverse (low_first w n)

pub length-high_first : (w n : ℕ) → length (high_first w n) ≡ w
unfolding high_first
length-high_first w n = length-reverse (low_first w n) ∙ length-low_first w n

-- One element is turned round whole.
swap_one : (w : ℕ) (bytes : List ℕ) → length bytes ≡ w → swap_elements w 1 bytes ≡ reverse bytes
unfolding swap_elements
swap_one w bytes h = rw append-nil (ap reverse (take_all bytes w (omega arith)))

take_one : (w : ℕ) (bytes : List ℕ) → length bytes ≡ w → take (w * 1) bytes ≡ bytes
take_one w bytes h = take_all bytes (w * 1) (omega arith)

-- The code finds out the order of the machine it runs on.
pub get_local_byte_order_little : get_local_byte_order little ≡ little_endian
unfolding get_local_byte_order
get_local_byte_order_little = refl

-- Every machine writes the same bytes for a number: highest first.
pub to_network_byte_order-high_first :
    (host : Host) (w n : ℕ) → to_network_byte_order host w n ≡ high_first w n
unfolding to_network_byte_order high_first
to_network_byte_order-high_first little w n = swap_one w (low_first w n) (length-low_first w n)
to_network_byte_order-high_first big w n =
    take_one w (reverse (low_first w n)) (length-high_first w n)

pub to_local_byte_order-high_first :
    (host : Host) (w n : ℕ) → n < 256 ^ w → to_local_byte_order host w (high_first w n) ≡ n
unfolding to_local_byte_order high_first
to_local_byte_order-high_first little w n h =
    ap from_low_first (
      swap_one w (reverse (low_first w n)) (length-high_first w n)
      ∙ reverse-reverse (low_first w n))
    ∙ from_low_first-low_first w n h
to_local_byte_order-high_first big w n h =
    ap (λ l. from_low_first (reverse l))
      (take_one w (reverse (low_first w n)) (length-high_first w n))
    ∙ ap from_low_first (reverse-reverse (low_first w n))
    ∙ from_low_first-low_first w n h

-- A number of `w` bytes that one machine writes in network order is what any machine reads from
-- those bytes, and the bytes are the same on all machines.
pub to_local-to_network :
    (writer reader : Host) (w n : ℕ)
    → n < 256 ^ w
    → (to_local_byte_order reader w (to_network_byte_order writer w n) ≡ n)
      × (to_network_byte_order writer w n ≡ to_network_byte_order reader w n)
to_local-to_network writer reader w n h = (
  ap (to_local_byte_order reader w) (to_network_byte_order-high_first writer w n)
      ∙ to_local_byte_order-high_first reader w n h,
  to_network_byte_order-high_first writer w n ∙ sym (to_network_byte_order-high_first reader w n),
)

-- On elements of one byte the conversion is a copy, on every machine.
swap_bytes : (bytes : List ℕ) (count : ℕ) → swap_elements 1 count bytes ≡ take count bytes
unfolding swap_elements
swap_bytes bytes zero = refl
swap_bytes [] (suc count) = swap_bytes [] count ∙ take_all [] count (omega arith)
swap_bytes (b ∷ bytes) (suc count) = ap (λ l. b ∷ l) (swap_bytes bytes count)

pub to_network_byte_order_data_lem :
    (host : Host) (bytes : List ℕ) (count : ℕ)
    → to_network_byte_order_data host (data_of bytes) count ≡ take count bytes
unfolding to_network_byte_order_data
to_network_byte_order_data_lem host [] zero = refl
to_network_byte_order_data_lem host [] (suc count) = refl
to_network_byte_order_data_lem little (b ∷ bs) count = swap_bytes (b ∷ bs) count
to_network_byte_order_data_lem big (b ∷ bs) count = ap (λ k. take k (b ∷ bs)) (omega arith)

pub to_local_byte_order_bytes_lem :
    (host : Host) (bytes : List ℕ) (count : ℕ)
    → to_local_byte_order_bytes host (some bytes) count ≡ take count bytes
unfolding to_local_byte_order_bytes
to_local_byte_order_bytes_lem little bytes count = swap_bytes bytes count
to_local_byte_order_bytes_lem big bytes count = ap (λ k. take k bytes) (omega arith)

pub length-to_byte_array : (host : Host) (w n : ℕ) → length (to_byte_array host w n) ≡ w
unfolding to_byte_array high_first
length-to_byte_array little w n = length-low_first w n
length-to_byte_array big w n = length-high_first w n
