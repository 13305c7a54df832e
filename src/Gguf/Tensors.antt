-- ===== src/Gguf/Tensors.antt =====
-- `read_local_tensor_index`: the tensor descriptors of a verified local file, and src/jaull/domain/
-- gguf.py. What `fstat` says before and after, and the bytes of the file, are inputs.
pub mod Payloads
pub mod Descriptors
pub mod Layout
use Prim.Native.Nat.{bit_and}
use jaull.Base.{
  ℕ, zero, suc, ◌+◌, ◌-◌, ◌*◌, ◌/◌, ◌%◌, String, Bool, true, false, not, ◌&&◌, ◌||◌, Option, none,
  some, List, [], ◌∷◌, ◌++◌, length, any, all, is_some, or_default, codes, same_codes, lowers_to,
  ltb, leb, ◌==◌, if◌then◌else◌,
}
use jaull.Base.Int.{ℤ}
use jaull.Gguf.Cursor.{
  Cursor, Reader, Outcome, ◌>>=◌, pure, refuse, guard, read, read_u32, read_u64, read_string,
}
use jaull.Gguf.Values.{Value}
use jaull.Gguf.Header.{Text, Dict, Scan, lookup, read_metadata, str_or_none}

pub record GgufTensor : Type 0 where
  pub name : Text
  pub dimensions : List ℕ
  pub type_id : ℕ
  pub offset : ℕ
  pub size_bytes : ℕ

pub record GgufTensorIndex : Type 0 where
  pub architecture : Option Text
  pub block_count : Option ℕ
  pub alignment : ℕ
  pub data_offset : ℕ
  pub file_size_bytes : ℕ
  pub tensors : List GgufTensor

-- The fields of a `ModelArtifact` that are checked.
pub record ModelArtifact : Type 0 where
  pub format : String
  pub local_path : Option String
  pub size_bytes : Option ℕ
  pub is_downloaded : Bool
  pub is_verified : Bool

pub record LocalFile : Type 0 where
  pub contents : List ℕ
  pub size_before : ℕ
  pub modified_before : ℕ
  pub size_after : ℕ
  pub modified_after : ℕ

-- `_TENSOR_BLOCK_LAYOUTS.get(type_id)`: elements of a block, and stored bytes.
unfoldable pub block_layout : ℕ → Option (ℕ × ℕ)
block_layout type_id =
    if type_id == 0
    then some (1, 4)
    else if type_id == 1
    then some (1, 2)
    else if type_id == 2
    then some (32, 18)
    else if type_id == 3
    then some (32, 20)
    else if type_id == 6
    then some (32, 22)
    else if type_id == 7
    then some (32, 24)
    else if type_id == 8
    then some (32, 34)
    else if type_id == 10
    then some (256, 84)
    else if type_id == 11
    then some (256, 110)
    else if type_id == 12
    then some (256, 144)
    else if type_id == 13
    then some (256, 176)
    else if type_id == 14
    then some (256, 210)
    else if type_id == 15
    then some (256, 292)
    else none

abbrev pub prod : List ℕ → ℕ
prod [] = 1
prod (d ∷ ds) = d * prod ds

abbrev pub first_dimension : List ℕ → ℕ
first_dimension [] = 0
first_dimension (d ∷ ds) = d

unfoldable pub read_dimensions : ℕ → Reader (List ℕ)
unfolding read_u64
read_dimensions zero = pure []
read_dimensions (suc n) = do d ← read_u64; ds ← read_dimensions n; pure (d ∷ ds)

-- The descriptor, once its fields are read.
unfoldable pub describe : ℕ → Text → List ℕ → ℕ → ℕ → Option (ℕ × ℕ) → Reader GgufTensor
describe alignment name dimensions type_id offset none = refuse
describe alignment name dimensions type_id offset (some (elements, size)) =
    guard (first_dimension dimensions % elements == 0) (
      pure (record {
        name = name;
        dimensions = dimensions;
        type_id = type_id;
        offset = offset;
        size_bytes = prod dimensions / elements * size;
      }))

unfoldable pub is_new_name : Text → List Text → Bool
is_new_name name names = not (length name == 0) && not (any (λ other. same_codes other name) names)

-- The type and the offset of a descriptor.
unfoldable pub read_place : ℕ → Text → List ℕ → Reader GgufTensor
unfolding read_u32 read_u64 describe block_layout
read_place alignment name dimensions = do
  type_id ← read_u32
  offset ← read_u64
  guard (all (λ d. ltb 0 d) dimensions && (offset % alignment == 0))
      (describe alignment name dimensions type_id offset (block_layout type_id))

unfoldable pub read_shape : ℕ → Text → Reader GgufTensor
unfolding read_u32 read_dimensions read_place
read_shape alignment name = do
  count ← read_u32
  dimensions ← guard (leb 1 count && leb count 4) (read_dimensions count)
  read_place alignment name dimensions

-- One descriptor, with the names before it.
unfoldable pub read_tensor : ℕ → List Text → Reader GgufTensor
unfolding read_string is_new_name read_shape
read_tensor alignment names =
    read_string >>= λ name. guard (is_new_name name names) (read_shape alignment name)

unfoldable pub read_tensors : ℕ → ℕ → List Text → Reader (List GgufTensor)
unfolding read_tensor
read_tensors zero alignment names = pure []
read_tensors (suc count) alignment names = do
  t ← read_tensor alignment names
  ts ← read_tensors count alignment (t.name ∷ names)
  pure (t ∷ ts)

-- `sorted(tensors, key=offset)`, which is stable.
unfoldable pub insert_by_offset : GgufTensor → List GgufTensor → List GgufTensor
insert_by_offset t [] = t ∷ []
insert_by_offset t (u ∷ us) =
    if ltb u.offset t.offset then u ∷ insert_by_offset t us else t ∷ u ∷ us

unfoldable pub sort_by_offset : List GgufTensor → List GgufTensor
unfolding insert_by_offset
sort_by_offset [] = []
sort_by_offset (t ∷ ts) = insert_by_offset t (sort_by_offset ts)

-- The loop over the sorted tensors: no overlap, and nothing beyond the file.
unfoldable pub payloads_fit : ℕ → ℕ → ℕ → List GgufTensor → Bool
payloads_fit data_offset file_size previous_end [] = true
payloads_fit data_offset file_size previous_end (t ∷ ts) =
    leb previous_end t.offset
    && leb (data_offset + (t.offset + t.size_bytes)) file_size
    && payloads_fit data_offset file_size (t.offset + t.size_bytes) ts

abbrev pub is_one : List ℕ → Bool
is_one raw =
    same_codes raw (0 ∷ 0 ∷ 0x80 ∷ 0x3f ∷ [])
    || same_codes raw (0 ∷ 0 ∷ 0 ∷ 0 ∷ 0 ∷ 0 ∷ 0xf0 ∷ 0x3f ∷ [])

-- Either sign of zero.
abbrev pub is_zero : List ℕ → Bool
is_zero [] = false
is_zero (b ∷ []) = (b == 0) || (b == 0x80)
is_zero (b ∷ bs) = (b == 0) && is_zero bs

-- `value == 1` and `value == 0` in Python, where `True` is 1 and a float may be equal to an integer.
unfoldable pub equals_one : Option Value → Bool
equals_one none = true
equals_one (some (Value.integer (ℤ.pos n))) = n == 1
equals_one (some (Value.boolean b)) = b
equals_one (some (Value.floating raw)) = is_one raw
equals_one (some _) = false

unfoldable pub equals_zero : Option Value → Bool
equals_zero none = true
equals_zero (some (Value.integer (ℤ.pos n))) = n == 0
equals_zero (some (Value.boolean b)) = not b
equals_zero (some (Value.floating raw)) = is_zero raw
equals_zero (some _) = false

-- A power of two up to 4096; 32 if the file does not say.
unfoldable pub alignment_of : Option Value → Option ℕ
alignment_of none = some 32
alignment_of (some (Value.integer (ℤ.pos a))) =
    if ltb 0 a && leb a 4096 && (bit_and a (a - 1) == 0) then some a else none
alignment_of (some _) = none

abbrev pub positive_int : Option Value → Option ℕ
positive_int (some (Value.integer (ℤ.pos n))) = if ltb 0 n then some n else none
positive_int _ = none

-- `f"{header.architecture}.block_count"`, where a missing architecture is written None.
unfoldable pub block_count_of : Dict → Option ℕ
unfolding lookup
block_count_of kv = positive_int (
    lookup
      (or_default (str_or_none (lookup (codes "general.architecture") kv)) (codes "None")
        ++ b'.' ∷ codes "block_count")
      kv)

pub data Indexed : Type 0 where
  index : GgufTensorIndex → Indexed
  incomplete invalid : Indexed

-- The checks after the descriptors.
unfoldable pub lay_out : LocalFile → Dict → ℕ → List GgufTensor → Cursor → Indexed
unfolding payloads_fit sort_by_offset block_count_of
lay_out file kv alignment tensors c =
    let data_offset = (c.offset + alignment - 1) / alignment * alignment in
    if payloads_fit data_offset file.size_before 0 (sort_by_offset tensors)
      && (file.size_before == file.size_after)
      && (file.modified_before == file.modified_after)
    then Indexed.index (record {
      architecture = str_or_none (lookup (codes "general.architecture") kv);
      block_count = block_count_of kv;
      alignment = alignment;
      data_offset = data_offset;
      file_size_bytes = file.size_before;
      tensors = tensors;
    })
    else Indexed.invalid

unfoldable pub after_tensors : LocalFile → Dict → ℕ → Outcome (List GgufTensor) → Indexed
unfolding lay_out
after_tensors file kv alignment (Outcome.ok tensors c) = lay_out file kv alignment tensors c
after_tensors file kv alignment Outcome.incomplete = Indexed.incomplete
after_tensors file kv alignment Outcome.invalid = Indexed.invalid

unfoldable pub with_alignment : LocalFile → ℕ → Dict → Cursor → Option ℕ → Indexed
unfolding after_tensors read_tensors
with_alignment file count kv c none = Indexed.invalid
with_alignment file count kv c (some alignment) =
    after_tensors file kv alignment (read_tensors count alignment [] c)

unfoldable pub after_metadata : LocalFile → Scan → Indexed
unfolding with_alignment equals_one equals_zero alignment_of lookup
after_metadata file (Scan.finished count kv c) =
    if ltb 0 count
      && leb count 100000
      && equals_one (lookup (codes "split.count") kv)
      && equals_zero (lookup (codes "split.no") kv)
    then with_alignment file count kv c (alignment_of (lookup (codes "general.alignment") kv))
    else Indexed.invalid
after_metadata file (Scan.cut kv reading) = Indexed.incomplete
after_metadata file Scan.broken = Indexed.invalid

unfoldable pub after_magic_bytes : LocalFile → Outcome (List ℕ) → Indexed
unfolding after_metadata read_metadata
after_magic_bytes file (Outcome.ok magic c) =
    if same_codes magic (codes "GGUF")
    then after_metadata file (read_metadata c)
    else Indexed.invalid
after_magic_bytes file Outcome.incomplete = Indexed.incomplete
after_magic_bytes file Outcome.invalid = Indexed.invalid

abbrev pub same_size : Option ℕ → ℕ → Bool
same_size none size = true
same_size (some expected) size = expected == size

-- The checks on the artifact.
unfoldable pub is_verified_local : ModelArtifact → ℕ → Bool
is_verified_local artifact size =
    lowers_to "gguf" artifact.format
    && is_some artifact.local_path
    && artifact.is_downloaded
    && artifact.is_verified
    && same_size artifact.size_bytes size

unfoldable pub read_local_tensor_index : ModelArtifact → LocalFile → Indexed
unfolding after_magic_bytes read is_verified_local
read_local_tensor_index artifact file =
    if is_verified_local artifact file.size_before
    then after_magic_bytes file
        (read 4 (record { rest = file.contents; offset = 0; is_stream = true }))
    else Indexed.invalid
