-- ===== src/Merge/Agreement.antt =====
-- Headers of one file give one configuration.
use jaull.Base.{◌≡◌, refl, true, Option, some, List, ◌++◌, ℕ}
use jaull.Gguf.Header.{GgufHeaderMetadata, Parsed, parse_header}
use jaull.Gguf.Partial.{SameEstimate}
use jaull.Gguf.Agreement.{repeats_no_key, parse_header-SameEstimate}
use jaull.Merge.{
  BaseConfig, attention_key, header_fields, merged_flags, merged_config, enriched, merge,
}

-- Two headers that agree on what the estimate reads, the attention lengths included, merge to the same
-- configuration, from the same sources and with the same conflicts.
pub merge_same :
    (h h' : GgufHeaderMetadata) (base : Option BaseConfig)
    → SameEstimate h h'
    → attention_key "attention.key_length" h ≡ attention_key "attention.key_length" h'
    → attention_key "attention.value_length" h ≡ attention_key "attention.value_length" h'
    → merge (some h) base ≡ merge (some h') base
unfolding merge enriched header_fields merged_flags merged_config
merge_same h h' base same key value =
    rw
      (
        key, value, same.architecture, same.context_length, same.embedding_length, same.block_count,
        same.head_count, same.head_count_kv,
      )
      refl

-- Whatever header a prefix of the file gives, and whatever header a longer part gives, if no key of the
-- file is repeated and both state the same key and value lengths of the attention, they merge with any
-- base configuration to the same configuration, with the same sources and conflicts.
pub merge-parse_header :
    (contents more : List ℕ) (base : Option BaseConfig) {h h' : GgufHeaderMetadata}
    → parse_header contents ≡ Parsed.header h
    → parse_header (contents ++ more) ≡ Parsed.header h'
    → repeats_no_key (contents ++ more) ≡ true
    → attention_key "attention.key_length" h ≡ attention_key "attention.key_length" h'
    → attention_key "attention.value_length" h ≡ attention_key "attention.value_length" h'
    → merge (some h) base ≡ merge (some h') base
merge-parse_header contents more base {h} {h'} e e' fresh key value =
    merge_same h h' base (parse_header-SameEstimate contents more e e' fresh) key value
