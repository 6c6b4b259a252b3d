-- ===== src/Binary.antt =====
-- Byte order: common/include/danejoe/common/binary/byte_order.hpp, byte_order.cpp and
-- byte_array.hpp. A byte is a number below 256, and an object of `w` bytes is seen through its object
-- representation, which depends on the machine.
pub mod Buffer
pub mod Order
mod Tests
use project_trans.Base.{ℕ, zero, suc, ◌+◌, ◌*◌, ◌/◌, ◌%◌, ◌<◌, leb, ◌==◌, if◌then◌else◌, length}
use project_trans.Base.{Bool, true, false, Option, none, some, List, [], ◌∷◌, ◌++◌, reverse}
use project_trans.Base.{take, drop, get_or, replicate}

-- The machine that runs the code: where it puts the lowest byte of a number.
pub data Host : Type 0 where
  little big : Host

-- `enum class ByteOrder`
pub data ByteOrder : Type 0 where
  unknown little_endian big_endian : ByteOrder

abbrev pub IsByte : ℕ → Type 0
IsByte b = b < 256

-- The `w` bytes of `n`, lowest first, and the number that bytes stand for.
unfoldable pub low_first : ℕ → ℕ → List ℕ
low_first zero n = []
low_first (suc w) n = (n % 256) ∷ low_first w (n / 256)

unfoldable pub from_low_first : List ℕ → ℕ
from_low_first [] = 0
from_low_first (b ∷ bs) = b + 256 * from_low_first bs

-- The object representation on a machine.
unfoldable pub object_bytes : Host → ℕ → ℕ → List ℕ
object_bytes little w n = low_first w n
object_bytes big w n = reverse (low_first w n)

unfoldable pub object_value : Host → List ℕ → ℕ
object_value little bs = from_low_first bs
object_value big bs = from_low_first (reverse bs)

-- The function keeps its answer in a static variable, which later calls return again: the machine
-- does not change, so neither does the answer.
unfoldable pub get_local_byte_order : Host → ByteOrder
unfolding object_bytes low_first
get_local_byte_order host =
    if get_or (object_bytes host 2 1) 0 0 == 1 then little_endian else big_endian

-- `DANEJOE_NETWORK_BYTE_ORDER`
abbrev pub network_byte_order : ByteOrder
network_byte_order = big_endian

same_order : ByteOrder → ByteOrder → Bool
same_order unknown unknown = true
same_order little_endian little_endian = true
same_order big_endian big_endian = true
same_order _ _ = false

unfoldable pub is_network_byte_order : Host → Bool
unfolding get_local_byte_order same_order
is_network_byte_order host = same_order (get_local_byte_order host) network_byte_order

-- What `convert_byte_order` does behind its guards, on `count` elements of `size` bytes: the bytes that
-- it writes to `dest`. Where the orders differ the bytes of each element are turned round.
swap_elements : ℕ → ℕ → List ℕ → List ℕ
swap_elements size zero bytes = []
swap_elements size (suc count) bytes =
    reverse (take size bytes) ++ swap_elements size count (drop size bytes)

unfoldable pub convert_elements : Host → ℕ → ℕ → List ℕ → List ℕ
unfolding is_network_byte_order swap_elements
convert_elements host size count bytes =
    if is_network_byte_order host then take (size * count) bytes else swap_elements size count bytes

-- `convert_byte_order(dest, data, count)` from a pointer, which is `none` when it is null: the bytes
-- that it writes, or `none` where it returns at once. `dest` is null only where there is nothing to write.
unfoldable pub convert_byte_order : Host → ℕ → ℕ → Option (List ℕ) → Option (List ℕ)
unfolding convert_elements
convert_byte_order host size count none = none
convert_byte_order host size count (some bytes) = some (convert_elements host size count bytes)

-- `data()` of a vector: one without elements has no storage, and the pointer is null.
abbrev pub data_of : List ℕ → Option (List ℕ)
data_of [] = none
data_of (b ∷ bs) = some (b ∷ bs)

-- `to_network_byte_order(dest, value)` for a number of `w` bytes: the bytes that it writes.
unfoldable pub to_network_byte_order : Host → ℕ → ℕ → List ℕ
unfolding convert_elements object_bytes
to_network_byte_order host w n = convert_elements host w 1 (object_bytes host w n)

-- `to_local_byte_order(&value, src)` from bytes that are there: the number of `w` bytes that it reads.
unfoldable pub to_local_byte_order : Host → ℕ → List ℕ → ℕ
unfolding convert_elements object_value
to_local_byte_order host w bytes = object_value host (convert_elements host w 1 bytes)

-- The same from a pointer: a number that was `old` keeps its value if the pointer is null.
unfoldable pub to_local_byte_order_data : Host → ℕ → Option (List ℕ) → ℕ → ℕ
unfolding convert_byte_order object_value
to_local_byte_order_data host w src old = elim (convert_byte_order host w 1 src) [
  | none ↦ old
  | some bytes ↦ object_value host bytes
]

-- `to_network_byte_order(dest, data, count)` for bytes: what it writes, which is nothing if the pointer
-- is null.
unfoldable pub to_network_byte_order_data : Host → Option (List ℕ) → ℕ → List ℕ
unfolding convert_byte_order
to_network_byte_order_data host src count = elim (convert_byte_order host 1 count src) [
  | none ↦ []
  | some bytes ↦ bytes
]

-- `to_local_byte_order(data, count)`: a vector of `count` zeros, over which the bytes are written.
unfoldable pub to_local_byte_order_bytes : Host → Option (List ℕ) → ℕ → List ℕ
unfolding convert_byte_order
to_local_byte_order_bytes host src count = elim (convert_byte_order host 1 count src) [
  | none ↦ replicate count 0
  | some bytes ↦ bytes
]

-- `to_byte_array(value)` copies the object representation.
unfoldable pub to_byte_array : Host → ℕ → ℕ → List ℕ
unfolding object_bytes
to_byte_array host w n = object_bytes host w n

-- `try_cast<T>(bytes)` reads a number of `w` bytes from the front.
unfoldable pub try_cast : Host → ℕ → List ℕ → Option ℕ
unfolding object_value
try_cast host w bytes =
    if leb w (length bytes) then some (object_value host (take w bytes)) else none
