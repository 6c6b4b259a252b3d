-- ===== src/Codec/DataType.antt =====
-- `enum class DataType : uint8_t` and `enum class …Flag : uint8_t`. A value is the underlying byte: the
-- code reads enums straight from the wire, so every byte occurs, also one without an enumerator.
use Prim.Native.Nat.{bit_and}
use project_trans.Base.{ℕ, ◌==◌, if◌then◌else◌, Bool}
use project_trans.Base.{◌||◌}

-- The enumerators, in the order of their declaration.
abbrev pub object : ℕ
object = 0

abbrev pub uint8 : ℕ
uint8 = 1

abbrev pub int8 : ℕ
int8 = 2

abbrev pub uint16 : ℕ
uint16 = 3

abbrev pub int16 : ℕ
int16 = 4

abbrev pub uint32 : ℕ
uint32 = 5

abbrev pub int32 : ℕ
int32 = 6

abbrev pub uint64 : ℕ
uint64 = 7

abbrev pub int64 : ℕ
int64 = 8

abbrev pub float : ℕ
float = 9

abbrev pub double : ℕ
double = 10

abbrev pub bool : ℕ
bool = 11

abbrev pub string : ℕ
string = 12

abbrev pub byte_array : ℕ
byte_array = 13

abbrev pub map_type : ℕ
map_type = 14

abbrev pub array : ℕ
array = 15

abbrev pub dictionary : ℕ
dictionary = 16

-- `get_data_type_length`
unfoldable pub get_data_type_length : ℕ → ℕ
get_data_type_length t =
    if t == uint8
    then 1
    else (if t == int8
        then 1
        else (if t == uint16
            then 2
            else (if t == int16
                then 2
                else (if t == uint32
                    then 4
                    else (if t == int32
                        then 4
                        else (if t == uint64
                            then 8
                            else (if t == int64
                                then 8
                                else (if t == float
                                    then 4
                                    else (if t == double then 8 else 0)))))))))

-- The types whose values the field code copies with no conversion.
unfoldable pub is_raw : ℕ → Bool
is_raw t = t == string || t == byte_array || t == dictionary || t == array || t == map_type

-- `has_flag(dest_set, src_set)`
unfoldable pub has_flag : ℕ → ℕ → Bool
has_flag dest_set src_set = bit_and src_set dest_set == src_set

-- `SerializeFieldFlag::HasValueLength`
abbrev pub has_value_length : ℕ
has_value_length = 1
