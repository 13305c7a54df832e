-- ===== src/Gguf/Values.antt =====
-- Typed values: `_read_value`, `_read_array` and `_FIXED_FORMATS`.
use jaull.Base.{ℕ, zero, suc, Bool, not, Option, none, some, List, leb, ◌==◌, if◌then◌else◌}
use jaull.Base.Int.{ℤ}
use jaull.Gguf.Bytes.{little, signed}
use jaull.Gguf.Cursor.{Reader, ◌>>=◌, pure, refuse, guard, read, read_u32, read_u64, read_string}

-- A float is kept as its bytes.
mutual
  pub data Value : Type 0 where
    integer : ℤ → Value
    floating : List ℕ → Value
    boolean : Bool → Value
    text : List ℕ → Value
    array : Values → Value

  pub data Values : Type 0 where
    no_values : Values
    value : Value → Values → Values

-- The kind of a `struct` format.
pub data Format : Type 0 where
  unsigned twos_complement real truth : Format

abbrev pub type_string : ℕ
type_string = 8

abbrev pub type_array : ℕ
type_array = 9

-- `_FIXED_FORMATS.get(type_id)`
unfoldable pub fixed_format : ℕ → Option (Format × ℕ)
fixed_format type_id =
    if type_id == 0
    then some (Format.unsigned, 1)
    else if type_id == 1
    then some (Format.twos_complement, 1)
    else if type_id == 2
    then some (Format.unsigned, 2)
    else if type_id == 3
    then some (Format.twos_complement, 2)
    else if type_id == 4
    then some (Format.unsigned, 4)
    else if type_id == 5
    then some (Format.twos_complement, 4)
    else if type_id == 6
    then some (Format.real, 4)
    else if type_id == 7
    then some (Format.truth, 1)
    else if type_id == 10
    then some (Format.unsigned, 8)
    else if type_id == 11
    then some (Format.twos_complement, 8)
    else if type_id == 12
    then some (Format.real, 8)
    else none

unfoldable pub unpack : Format → List ℕ → Value
unfolding little signed
unpack Format.unsigned raw = Value.integer (ℤ.pos (little raw))
unpack Format.twos_complement raw = Value.integer (signed raw)
unpack Format.real raw = Value.floating raw
unpack Format.truth raw = Value.boolean (not (little raw == 0))

-- `read_fixed`, where an unknown type is the error of both callers.
unfoldable pub read_fixed : Option (Format × ℕ) → Reader Value
unfolding unpack read
read_fixed none = refuse
read_fixed (some (format, size)) = read size >>= λ raw. pure (unpack format raw)

unfoldable pub read_elements : ℕ → Reader Value → Reader Values
read_elements zero element = pure Values.no_values
read_elements (suc count) element = do
  v ← element
  vs ← read_elements count element
  pure (Values.value v vs)

unfoldable pub read_element : ℕ → Reader Values → Reader Value
unfolding read_string read_fixed fixed_format
read_element inner_type nested =
    if inner_type == type_string
    then (read_string >>= λ s. pure (Value.text s))
    else if inner_type == type_array
    then (nested >>= λ vs. pure (Value.array vs))
    else read_fixed (fixed_format inner_type)

-- On the levels of nesting that are left; the source counts from 0 and refuses beyond 32.
unfoldable pub read_array : ℕ → Reader Values
unfolding read_u32 read_u64 read_elements read_element
read_array zero = refuse
read_array (suc left) = do
  inner_type ← read_u32
  count ← read_u64
  guard (leb count 10000000) (read_elements count (read_element inner_type (read_array left)))

unfoldable pub read_value : Reader Value
unfolding read_u32 read_array read_element
read_value = read_u32 >>= λ type_id. read_element type_id (read_array 33)
