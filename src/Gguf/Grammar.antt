-- ===== src/Gguf/Grammar.antt =====
-- The format itself, as relations between values and their bytes, independent of the reader.
use jaull.Base.{ℕ, zero, suc, ◌≤◌, ◌≡◌, true, some, List, [], ◌∷◌, ◌++◌, length, codes}
use jaull.Gguf.Bytes.{little, decode_utf8}
use jaull.Gguf.Values.{Value, Values, Format, fixed_format, unpack, type_string, type_array}
use jaull.Gguf.Header.{Text, is_supported_version}

-- A little-endian number in so many bytes.
abbrev pub IsNumber : ℕ → ℕ → List ℕ → Type 0
IsNumber size n raw = (length raw ≡ size) × (little raw ≡ n)

-- A length in eight bytes and as many bytes of UTF-8.
abbrev pub IsString : Text → List ℕ → Type 0
IsString text bytes =
    (size : List ℕ) × (raw : List ℕ) × (bytes ≡ size ++ raw)
    × IsNumber 8 (length raw) size
    × (length raw ≤ 1000000)
    × (decode_utf8 raw ≡ some text)

-- An element of a type; the first index is how many levels of arrays may follow.
mutual
  pub data IsElement : ℕ → ℕ → Value → List ℕ → Type 0 where
    fixed_value :
        (left type_id : ℕ) (v : Value) (raw : List ℕ) (format : Format)
        → fixed_format type_id ≡ some (format, length raw)
        → v ≡ unpack format raw
        → IsElement left type_id v raw
    string_value :
        (left type_id : ℕ) (v : Value) (bytes : List ℕ) (text : Text)
        → type_id ≡ type_string
        → v ≡ Value.text text
        → IsString text bytes
        → IsElement left type_id v bytes
    array_value :
        (left type_id : ℕ) (v : Value) (bytes : List ℕ) (vs : Values)
        → type_id ≡ type_array
        → v ≡ Value.array vs
        → IsArray left vs bytes
        → IsElement left type_id v bytes

  pub data IsArray : ℕ → Values → List ℕ → Type 0 where
    array_of :
        (left : ℕ) (vs : Values) (bytes : List ℕ) (inner_type count : ℕ)
        (type_bytes count_bytes body : List ℕ)
        → bytes ≡ type_bytes ++ (count_bytes ++ body)
        → IsNumber 4 inner_type type_bytes
        → IsNumber 8 count count_bytes
        → count ≤ 10000000
        → IsElements left inner_type count vs body
        → IsArray (suc left) vs bytes

  pub data IsElements : ℕ → ℕ → ℕ → Values → List ℕ → Type 0 where
    no_elements : (left inner_type : ℕ) → IsElements left inner_type zero Values.no_values []
    next_element :
        (left inner_type count : ℕ) (v : Value) (vs : Values) (bytes first rest : List ℕ)
        → bytes ≡ first ++ rest
        → IsElement left inner_type v first
        → IsElements left inner_type count vs rest
        → IsElements left inner_type (suc count) (Values.value v vs) bytes

-- A type in four bytes and an element of it, with at most 33 levels of arrays.
abbrev pub IsValue : Value → List ℕ → Type 0
IsValue v bytes =
    (type_id : ℕ) × (type_bytes : List ℕ) × (body : List ℕ) × (bytes ≡ type_bytes ++ body)
    × IsNumber 4 type_id type_bytes
    × IsElement 33 type_id v body

-- The entries of the metadata block, a key and a value each.
abbrev pub AreEntries : List (Text × Value) → List ℕ → Type 0
AreEntries [] bytes = bytes ≡ []
AreEntries ((key, v) ∷ entries) bytes =
    (key_bytes : List ℕ) × (value_bytes : List ℕ) × (rest : List ℕ) × (bytes
      ≡ key_bytes ++ (value_bytes ++ rest))
    × IsString key key_bytes
    × IsValue v value_bytes
    × AreEntries entries rest

-- The metadata block of a file: magic, version, counts and entries.
abbrev pub IsMetadata : ℕ → List (Text × Value) → List ℕ → Type 0
IsMetadata tensors entries bytes =
    (version : ℕ) × (version_bytes : List ℕ) × (tensor_bytes : List ℕ) × (count_bytes : List ℕ)
    × (body : List ℕ) × (bytes
        ≡ codes "GGUF" ++ (version_bytes ++ (tensor_bytes ++ (count_bytes ++ body))))
    × IsNumber 4 version version_bytes
    × (is_supported_version version ≡ true)
    × IsNumber 8 tensors tensor_bytes
    × IsNumber 8 (length entries) count_bytes
    × (length entries ≤ 100000)
    × AreEntries entries body
