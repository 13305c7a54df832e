-- ===== src/Tests/Headers.antt =====
-- Runs of the GGUF reader and of the range fetch.
use mathlib.Core.List.{append-nil}
use jaull.Base.{
  ℕ, ◌≡◌, String, refl, ap, Bool, true, false, none, some, Option, List, [], ◌∷◌, ◌++◌, length,
  take, codes, arith,
}
use jaull.Base.Int.{ℤ}
use jaull.Gguf.Cursor.{max_header_download_bytes}
use jaull.Gguf.Values.{Value, Format}
use jaull.Gguf.Header.{Text, GgufHeaderMetadata, Parsed, parse_header, build_header}
use jaull.Gguf.Prefix.{is_final, parse_header_prefix}
use jaull.Gguf.Partial.{SameEstimate}
use jaull.Gguf.Agreement.{repeats_no_key}
use jaull.Gguf.Grammar.{IsMetadata, IsElement}
use jaull.Gguf.RoundTrip.{assign_all, parse_header-IsMetadata}
use jaull.Gguf.Tensors.{GgufTensorIndex, ModelArtifact, LocalFile, Indexed, read_local_tensor_index}
use jaull.Gguf.Tensors.Layout.{IsLaidOut, read_local_tensor_index-IsLaidOut}
use jaull.Ranges.Client.{Reply, fetch_range, read_capped, content_range_start}
use jaull.Ranges.Fetch.{HeaderFetchResult, fetch_gguf_header}
use jaull.Ranges.Bounded.{IsWithin, fetch_gguf_header-IsWithin}
use jaull.Ranges.Found.{Serves, fetch_gguf_header_finds}

-- Small numbers, little-endian.
abbrev pub u32 : ℕ → List ℕ
u32 n = n ∷ 0 ∷ 0 ∷ 0 ∷ []

abbrev pub u64 : ℕ → List ℕ
u64 n = n ∷ 0 ∷ 0 ∷ 0 ∷ 0 ∷ 0 ∷ 0 ∷ 0 ∷ []

abbrev pub string_bytes : String → List ℕ
string_bytes s = u64 (length (codes s)) ++ codes s

abbrev pub number_entry : String → ℕ → List ℕ
number_entry key n = string_bytes key ++ (u32 4 ++ u32 n)

abbrev pub text_entry : String → String → List ℕ
text_entry key s = string_bytes key ++ (u32 8 ++ string_bytes s)

abbrev pub start : ℕ → ℕ → List ℕ
start tensors count = codes "GGUF" ++ (u32 3 ++ (u64 tensors ++ u64 count))

-- The keys of the estimate, and the tokenizer after them.
abbrev pub known_part : List ℕ
known_part =
    start 0 7
    ++ (text_entry "general.architecture" "x"
        ++ (number_entry "x.context_length" 64
            ++ (number_entry "x.embedding_length" 8
                ++ (number_entry "x.block_count" 2
                    ++ (number_entry "x.attention.head_count" 4
                        ++ (number_entry "x.attention.head_count_kv" 2
                            ++ string_bytes "tokenizer.model"))))))

abbrev pub tokenizer_value : List ℕ
tokenizer_value = u32 8 ++ string_bytes "llama"

abbrev pub whole_file : List ℕ
whole_file = known_part ++ tokenizer_value

abbrev pub header_of : Parsed → GgufHeaderMetadata
header_of (Parsed.header h) = h
header_of _ = build_header [] false

abbrev pub partial_header : GgufHeaderMetadata
partial_header = header_of (parse_header known_part)

abbrev pub whole_header : GgufHeaderMetadata
whole_header = header_of (parse_header whole_file)

pub cut_in_tokenizer : parse_header known_part ≡ Parsed.header partial_header
unfolding parse_header jaull.Gguf.Bytes.decode_utf8 jaull.Base.starts_with jaull.Gguf.Header.assign
cut_in_tokenizer = refl

partial_is_incomplete : partial_header.is_complete ≡ false
unfolding parse_header jaull.Gguf.Bytes.decode_utf8 jaull.Base.starts_with jaull.Gguf.Header.assign
partial_is_incomplete = refl

pub read_whole : parse_header whole_file ≡ Parsed.header whole_header
unfolding parse_header jaull.Gguf.Bytes.decode_utf8 jaull.Base.starts_with jaull.Gguf.Header.assign
read_whole = refl

context_is_read : whole_header.context_length ≡ some (ℤ.pos 64)
unfolding parse_header jaull.Gguf.Bytes.decode_utf8 jaull.Base.starts_with jaull.Gguf.Header.assign
context_is_read = refl

cut_in_key : parse_header (take 40 whole_file) ≡ Parsed.incomplete
unfolding parse_header jaull.Gguf.Bytes.decode_utf8 jaull.Base.starts_with jaull.Gguf.Header.assign
cut_in_key = refl

wrong_version : parse_header (codes "GGUF" ++ u32 1) ≡ Parsed.invalid
unfolding parse_header jaull.Gguf.Bytes.decode_utf8 jaull.Base.starts_with jaull.Gguf.Header.assign
wrong_version = refl

parse_header_prefix_example : parse_header (whole_file ++ 1 ∷ 2 ∷ []) ≡ parse_header whole_file
unfolding parse_header is_final jaull.Gguf.Bytes.decode_utf8
parse_header_prefix_example = parse_header_prefix whole_file (1 ∷ 2 ∷ []) refl

pub whole_fresh : repeats_no_key whole_file ≡ true
unfolding repeats_no_key jaull.Gguf.Header.read_counts jaull.Gguf.Bytes.decode_utf8
whole_fresh = refl

-- One entry, a byte.
abbrev byte_entry : List (Text × Value)
byte_entry = (codes "a", Value.integer (ℤ.pos 7)) ∷ []

abbrev byte_file : List ℕ
byte_file = start 5 1 ++ (string_bytes "a" ++ (u32 0 ++ (7 ∷ [])))

byte_file-IsMetadata : IsMetadata 5 byte_entry byte_file
unfolding jaull.Gguf.Bytes.little jaull.Gguf.Bytes.decode_utf8 jaull.Gguf.Values.fixed_format
    jaull.Gguf.Values.unpack
byte_file-IsMetadata = (
  3,
  u32 3,
  u64 5,
  u64 1,
  string_bytes "a" ++ (u32 0 ++ (7 ∷ [])),
  refl,
  (refl, refl),
  refl,
  (refl, refl),
  (refl, refl),
  omega arith,
  (
    string_bytes "a",
    u32 0 ++ (7 ∷ []),
    [],
    refl,
    (u64 1, codes "a", refl, (refl, refl), omega arith, refl),
    (
      0,
      u32 0,
      7 ∷ [],
      refl,
      (refl, refl),
      IsElement.fixed_value 33 0 (Value.integer (ℤ.pos 7)) (7 ∷ []) Format.unsigned refl refl,
    ),
    refl,
  ),
)

parse_header-IsMetadata_example :
    parse_header (byte_file ++ 9 ∷ [])
    ≡ Parsed.header (build_header (assign_all byte_entry []) true)
parse_header-IsMetadata_example =
    parse_header-IsMetadata 5 byte_entry byte_file (9 ∷ []) byte_file-IsMetadata

abbrev server : ℕ → Reply
server size = Reply.answer 206 [] (whole_file ∷ [])

range_of_proxy : content_range_start (codes " bytes 12-99/*") ≡ some 12
unfolding content_range_start
range_of_proxy = refl

range_of_items : content_range_start (codes "items 0-9/10") ≡ none
unfolding content_range_start
range_of_items = refl

fetch_gguf_header-IsWithin_example :
    (r : HeaderFetchResult) × (fetch_gguf_header (fetch_range server) ≡ some r) × IsWithin server r
fetch_gguf_header-IsWithin_example = fetch_gguf_header-IsWithin server

server-Serves : Serves whole_file server
unfolding jaull.Ranges.Client.range_was_honored
server-Serves size =
    (206, [], whole_file ∷ [], refl, refl, refl, ap (λ xs. take size xs) (append-nil whole_file))

fits_budget : parse_header (take max_header_download_bytes whole_file) ≡ Parsed.header whole_header
unfolding parse_header jaull.Gguf.Bytes.decode_utf8 jaull.Base.starts_with jaull.Gguf.Header.assign
fits_budget = refl

budget_fresh : repeats_no_key (take max_header_download_bytes whole_file) ≡ true
unfolding repeats_no_key jaull.Gguf.Header.read_counts jaull.Gguf.Bytes.decode_utf8
budget_fresh = refl

fetch_gguf_header_finds_example :
    (r : HeaderFetchResult) × (h' : GgufHeaderMetadata) × (fetch_gguf_header (fetch_range server)
      ≡ some r)
    × (r.header ≡ some h')
    × SameEstimate h' whole_header
fetch_gguf_header_finds_example =
    fetch_gguf_header_finds whole_file server server-Serves fits_budget budget_fresh

abbrev artifact : ModelArtifact
artifact = record {
  format = "gguf";
  local_path = some "m.gguf";
  size_bytes = none;
  is_downloaded = true;
  is_verified = true;
}

-- A float tensor of four elements, and one of two after it.
abbrev tensor_bytes : String → ℕ → ℕ → List ℕ
tensor_bytes name elements offset =
    string_bytes name ++ (u32 1 ++ (u64 elements ++ (u32 0 ++ u64 offset)))

abbrev local_file : LocalFile
local_file = record {
  contents = start 2 0 ++ (tensor_bytes "t" 4 32 ++ tensor_bytes "u" 2 0);
  size_before = 200;
  modified_before = 1;
  size_after = 200;
  modified_after = 1;
}

abbrev empty_index : GgufTensorIndex
empty_index = record {
  architecture = none;
  block_count = none;
  alignment = 32;
  data_offset = 0;
  file_size_bytes = 0;
  tensors = [];
}

abbrev index_or : Indexed → GgufTensorIndex
index_or (Indexed.index i) = i
index_or _ = empty_index

abbrev local_index : GgufTensorIndex
local_index = index_or (read_local_tensor_index artifact local_file)

local_accepted : read_local_tensor_index artifact local_file ≡ Indexed.index local_index
unfolding read_local_tensor_index jaull.Gguf.Bytes.decode_utf8 jaull.Base.lowers_to
local_accepted = refl

two_tensors : length local_index.tensors ≡ 2
unfolding read_local_tensor_index jaull.Gguf.Bytes.decode_utf8 jaull.Base.lowers_to
two_tensors = refl

overlap_refused :
    read_local_tensor_index artifact (record local_file {
      contents = start 2 0 ++ (tensor_bytes "t" 9 0 ++ tensor_bytes "u" 2 32);
    })
    ≡ Indexed.invalid
unfolding read_local_tensor_index jaull.Gguf.Bytes.decode_utf8 jaull.Base.lowers_to
overlap_refused = refl

read_local_tensor_index-IsLaidOut_example : IsLaidOut local_index
read_local_tensor_index-IsLaidOut_example =
    read_local_tensor_index-IsLaidOut artifact local_file local_accepted
