-- ===== src/Gguf/Header.antt =====
-- `parse_header`: the metadata entries and the fields that are taken from them. A dictionary is a list
-- of entries with different keys; an assignment replaces the value of a key that is there.
use jaull.Base.{
  ℕ, zero, suc, String, Bool, true, false, ◌&&◌, ◌||◌, Option, none, some, List, [], ◌∷◌, ◌++◌,
  length, take, drop, all, codes, same_codes, starts_with, ltb, leb, ◌==◌, if◌then◌else◌,
}
use jaull.Base.Int.{ℤ}
use jaull.Gguf.Cursor.{
  Cursor, Reader, Outcome, ◌>>=◌, pure, refuse, guard, read_u32, read_u64, read_string,
}
use jaull.Gguf.Values.{Value, read_value}

abbrev pub Text : Type 0
Text = List ℕ

abbrev pub Dict : Type 0
Dict = List (Text × Value)

unfoldable pub lookup : Text → Dict → Option Value
lookup key [] = none
lookup key ((k, v) ∷ kv) = if same_codes k key then some v else lookup key kv

unfoldable pub assign : Text → Value → Dict → Dict
assign key v [] = (key, v) ∷ []
assign key v ((k, w) ∷ kv) = if same_codes k key then (k, v) ∷ kv else (k, w) ∷ assign key v kv

-- How the reading of the entries ends. A cut has the entries so far and the key whose value was being
-- read, if it was known.
pub data Scan : Type 0 where
  finished : ℕ → Dict → Cursor → Scan
  cut : Dict → Option Text → Scan
  broken : Scan

pub data Entry : Type 0 where
  entry : Text → Value → Cursor → Entry
  cut_at : Option Text → Entry
  bad : Entry

unfoldable pub with_value : Text → Outcome Value → Entry
with_value key (Outcome.ok v c) = Entry.entry key v c
with_value key Outcome.incomplete = Entry.cut_at (some key)
with_value key Outcome.invalid = Entry.bad

unfoldable pub with_key : Outcome Text → Entry
unfolding with_value read_value
with_key (Outcome.ok key c) = with_value key (read_value c)
with_key Outcome.incomplete = Entry.cut_at none
with_key Outcome.invalid = Entry.bad

-- One round of the loop.
unfoldable pub read_entry : Cursor → Entry
unfolding with_key read_string
read_entry c = with_key (read_string c)

unfoldable pub read_entries : ℕ → ℕ → Dict → Cursor → Scan
unfolding read_entry
read_entries tensors zero kv c = Scan.finished tensors kv c
read_entries tensors (suc count) kv c = elim (read_entry c) [
  | Entry.entry key v c' ↦ read_entries tensors count (assign key v kv) c'
  | Entry.cut_at reading ↦ Scan.cut kv reading
  | Entry.bad ↦ Scan.broken
]

abbrev pub is_supported_version : ℕ → Bool
is_supported_version version = (version == 2) || (version == 3)

-- The counts of tensors and of entries.
unfoldable pub read_counts : Reader (ℕ × ℕ)
unfolding read_u32 read_u64
read_counts = do
  version ← read_u32
  tensors ← (if is_supported_version version then read_u64 else refuse)
  count ← read_u64
  guard (leb count 100000) (pure (tensors, count))

unfoldable pub with_counts : Outcome (ℕ × ℕ) → Scan
unfolding read_entries
with_counts (Outcome.ok (tensors, count) c) = read_entries tensors count [] c
with_counts Outcome.incomplete = Scan.cut [] none
with_counts Outcome.invalid = Scan.broken

unfoldable pub read_metadata : Cursor → Scan
unfolding read_counts with_counts
read_metadata c = with_counts (read_counts c)

abbrev pub str_or_none : Option Value → Option Text
str_or_none (some (Value.text (c ∷ s))) = some (c ∷ s)
str_or_none _ = none

abbrev pub int_or_none : Option Value → Option ℤ
int_or_none (some (Value.integer z)) = some z
int_or_none _ = none

pub record GgufHeaderMetadata : Type 0 where
  pub architecture : Option Text
  pub name : Option Text
  pub quantization_version : Option ℤ
  pub file_type : Option ℤ
  pub context_length : Option ℤ
  pub embedding_length : Option ℤ
  pub block_count : Option ℤ
  pub head_count : Option ℤ
  pub head_count_kv : Option ℤ
  pub rope_dim : Option ℤ
  pub size_label : Option Text
  pub source_repository : Option Text
  pub is_complete : Bool
  pub raw_kv : Dict

-- `raw_kv.get(f"{architecture}.{name}")`, or nothing without an architecture.
unfoldable pub arch_key : Option Text → String → Dict → Option Value
unfolding lookup
arch_key none name kv = none
arch_key (some architecture) name kv = lookup (architecture ++ b'.' ∷ codes name) kv

unfoldable pub build_header : Dict → Bool → GgufHeaderMetadata
unfolding lookup arch_key
build_header kv complete =
    let architecture = str_or_none (lookup (codes "general.architecture") kv) in
    record {
      architecture = architecture;
      name = str_or_none (lookup (codes "general.name") kv);
      quantization_version = int_or_none (lookup (codes "general.quantization_version") kv);
      file_type = int_or_none (lookup (codes "general.file_type") kv);
      context_length = int_or_none (arch_key architecture "context_length" kv);
      embedding_length = int_or_none (arch_key architecture "embedding_length" kv);
      block_count = int_or_none (arch_key architecture "block_count" kv);
      head_count = int_or_none (arch_key architecture "attention.head_count" kv);
      head_count_kv = int_or_none (arch_key architecture "attention.head_count_kv" kv);
      rope_dim = int_or_none (arch_key architecture "rope.dimension_count" kv);
      size_label = str_or_none (lookup (codes "general.size_label") kv);
      source_repository = str_or_none (lookup (codes "general.source.huggingface.repository") kv);
      is_complete = complete;
      raw_kv = kv;
    }

abbrev pub estimate_keys : List String
estimate_keys =
    "context_length" ∷ "embedding_length" ∷ "block_count" ∷ "attention.head_count"
    ∷ "attention.head_count_kv" ∷ []

-- `type(value) is int`
abbrev pub is_integer : Option Value → Bool
is_integer (some (Value.integer z)) = true
is_integer _ = false

unfoldable pub has_keys_of : Option Text → Dict → Bool
unfolding arch_key
has_keys_of none kv = false
has_keys_of (some architecture) kv =
    all (λ name. is_integer (arch_key (some architecture) name kv)) estimate_keys

unfoldable pub has_estimate_keys : Dict → Bool
unfolding has_keys_of lookup
has_estimate_keys kv = has_keys_of (str_or_none (lookup (codes "general.architecture") kv)) kv

unfoldable pub cut_inside_tokenizer : Option Text → Bool
cut_inside_tokenizer none = false
cut_inside_tokenizer (some key) = starts_with (codes "tokenizer.") key

pub data Parsed : Type 0 where
  header : GgufHeaderMetadata → Parsed
  not_gguf incomplete invalid : Parsed

unfoldable pub settle : Scan → Parsed
unfolding build_header has_estimate_keys cut_inside_tokenizer
settle (Scan.finished tensors kv c) = Parsed.header (build_header kv true)
settle (Scan.cut kv reading) =
    if cut_inside_tokenizer reading && has_estimate_keys kv
    then Parsed.header (build_header kv false)
    else Parsed.incomplete
settle Scan.broken = Parsed.invalid

abbrev pub after_magic : List ℕ → Cursor
after_magic contents = record { rest = drop 4 contents; offset = 4; is_stream = false }

unfoldable pub parse_header : List ℕ → Parsed
unfolding settle read_metadata
parse_header contents =
    if ltb (length contents) 4
    then Parsed.incomplete
    else if same_codes (take 4 contents) (codes "GGUF")
    then settle (read_metadata (after_magic contents))
    else Parsed.not_gguf
