-- ===== src/Tests/Merges.antt =====
-- Runs of the merge of a header with the base configuration.
use jaull.Base.{
  ℕ, ◌≡◌, refl, String, Bool, true, false, none, some, Option, List, [], ◌∷◌, ◌++◌, map, codes,
}
use jaull.Base.Int.{ℤ}
use jaull.Gguf.Header.{Text, GgufHeaderMetadata, Parsed, parse_header, build_header}
use jaull.Merge.{BaseConfig, EnrichedConfig, attention_key, merge}
use jaull.Merge.Agreement.{merge-parse_header}
use jaull.Samples.{sample_config}
use jaull.Tests.Headers.{
  string_bytes, number_entry, text_entry, start, known_part, tokenizer_value, header_of,
  partial_header, whole_header, cut_in_tokenizer, read_whole, whole_fresh,
}

abbrev base : BaseConfig
base = record { config = sample_config; max_position_embeddings = some 32 }

abbrev conflicts : Option EnrichedConfig → List String
conflicts none = []
conflicts (some e) = e.conflicts

abbrev head_dim : Option EnrichedConfig → Option ℤ
head_dim none = none
head_dim (some e) = e.config.head_dim

same_key_length :
    attention_key "attention.key_length" partial_header
    ≡ attention_key "attention.key_length" whole_header
unfolding attention_key parse_header jaull.Gguf.Bytes.decode_utf8 jaull.Gguf.Header.assign
    jaull.Base.starts_with
same_key_length = refl

same_value_length :
    attention_key "attention.value_length" partial_header
    ≡ attention_key "attention.value_length" whole_header
unfolding attention_key parse_header jaull.Gguf.Bytes.decode_utf8 jaull.Gguf.Header.assign
    jaull.Base.starts_with
same_value_length = refl

merge-parse_header_example :
    merge (some partial_header) (some base) ≡ merge (some whole_header) (some base)
merge-parse_header_example =
    merge-parse_header known_part tokenizer_value (some base) cut_in_tokenizer read_whole
      whole_fresh same_key_length same_value_length

nothing_to_merge : merge none none ≡ none
unfolding merge
nothing_to_merge = refl

-- A file whose tokenizer is followed by the key length of the attention.
abbrev late_part : List ℕ
late_part =
    start 0 8
    ++ (text_entry "general.architecture" "x"
        ++ (number_entry "x.context_length" 64
            ++ (number_entry "x.embedding_length" 8
                ++ (number_entry "x.block_count" 2
                    ++ (number_entry "x.attention.head_count" 4
                        ++ (number_entry "x.attention.head_count_kv" 2
                            ++ string_bytes "tokenizer.model"))))))

abbrev late_file : List ℕ
late_file = late_part ++ (tokenizer_value ++ number_entry "x.attention.key_length" 16)

-- The part that ends in the tokenizer is accepted, and loses the length that the whole file states.
late_length_lost : head_dim (merge (some (header_of (parse_header late_part))) none) ≡ none
unfolding merge attention_key parse_header jaull.Gguf.Bytes.decode_utf8 jaull.Base.starts_with
    jaull.Gguf.Header.assign
late_length_lost = refl

late_length_read :
    head_dim (merge (some (header_of (parse_header late_file))) none) ≡ some (ℤ.pos 16)
unfolding merge attention_key parse_header jaull.Gguf.Bytes.decode_utf8 jaull.Base.starts_with
    jaull.Gguf.Header.assign
late_length_read = refl
