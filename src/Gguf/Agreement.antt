-- ===== src/Gguf/Agreement.antt =====
-- Two headers of one file agree on what the memory estimate reads.
use jaull.Base.{
  ℕ, ◌≤◌, ◌≡◌, ◌≢◌, Bool, true, false, ◌&&◌, Option, some, List, [], ◌++◌, length, take,
  drop-append, ltb, Bool-cases, and_cases, arith, refl, inl, inr, ◌⊎◌, same_codes, codes, sym, ◌∙◌,
  ap,
}
use jaull.Gguf.Cursor.{Outcome}
use jaull.Gguf.Header.{
  Text, Dict, Scan, GgufHeaderMetadata, Parsed, read_counts, with_counts, read_metadata, settle,
  parse_header, after_magic, build_header, cut_inside_tokenizer, has_estimate_keys, lookup,
  has_keys_of,
}
use jaull.Gguf.Stable.{extend, Extends}
use jaull.Gguf.Prefix.{read_counts-IsStable, parse_header_prefix, is_final}
use jaull.Gguf.Partial.{
  Keeps, no_repeats, scan_dict, cut-Keeps, SameEstimate, build_header-SameEstimate,
}

fresh_after : Outcome (ℕ × ℕ) → Bool
unfolding no_repeats
fresh_after (Outcome.ok (tensors, count) c) = no_repeats count [] c
fresh_after Outcome.incomplete = true
fresh_after Outcome.invalid = true

-- No two entries of the file have the same key.
unfoldable pub repeats_no_key : List ℕ → Bool
unfolding fresh_after
repeats_no_key contents = fresh_after (read_counts (after_magic contents))

empty_has_no_keys : has_estimate_keys [] ≡ false
unfolding has_estimate_keys has_keys_of lookup
empty_has_no_keys = refl

cut_dict :
    {kv kv0 : Dict} {reading reading' : Option Text}
    → Scan.cut kv reading ≡ Scan.cut kv0 reading'
    → kv ≡ kv0
cut_dict e = cc

broken-ne-cut : {kv0 : Dict} {reading : Option Text} → Scan.broken ≢ Scan.cut kv0 reading
broken-ne-cut e = cc

true-ne-false : true ≢ false
true-ne-false e = cc

with_counts-Keeps :
    (more : List ℕ) (short long : Outcome (ℕ × ℕ)) (kv0 kv' : Dict) (reading : Option Text)
    → Extends more short long
    → with_counts short ≡ Scan.cut kv0 reading
    → has_estimate_keys kv0 ≡ true
    → fresh_after long ≡ true
    → scan_dict (with_counts long) ≡ some kv'
    → Keeps kv0 kv'
unfolding with_counts fresh_after
with_counts-Keeps more (Outcome.ok (tensors, count) c) long kv0 kv' reading x e h f s =
    cut-Keeps tensors count [] kv0 kv' reading c more e (rw (x) at f) (rw (x) at s)
with_counts-Keeps more Outcome.incomplete long kv0 kv' reading x e h f s =
    absurd (true-ne-false (sym h ∙ ap has_estimate_keys (sym (cut_dict e)) ∙ empty_has_no_keys))
with_counts-Keeps more Outcome.invalid long kv0 kv' reading x e h f s = absurd (broken-ne-cut e)

header-eq : {h h' : GgufHeaderMetadata} → Parsed.header h ≡ Parsed.header h' → h ≡ h'
header-eq e = cc

incomplete-ne-header : {h : GgufHeaderMetadata} → Parsed.incomplete ≢ Parsed.header h
incomplete-ne-header e = cc

invalid-ne-header : {h : GgufHeaderMetadata} → Parsed.invalid ≢ Parsed.header h
invalid-ne-header e = cc

not_gguf-ne-header : {h : GgufHeaderMetadata} → Parsed.not_gguf ≢ Parsed.header h
not_gguf-ne-header e = cc

-- How a header comes about.
settle_cases :
    (s : Scan) {h : GgufHeaderMetadata}
    → settle s ≡ Parsed.header h
    → (kv : Dict) × (complete : Bool) × (scan_dict s ≡ some kv)
      × (h ≡ build_header kv complete)
      × ((complete ≡ true)
          ⊎ ((reading : Option Text) × (s ≡ Scan.cut kv reading) × (has_estimate_keys kv ≡ true)))
unfolding settle scan_dict
settle_cases (Scan.finished tensors kv c) {h} e =
    let same : h ≡ build_header kv true = ground arith in (kv, true, refl, same, inl refl)
settle_cases (Scan.cut kv reading) {h} e =
    elim (Bool-cases (cut_inside_tokenizer reading && has_estimate_keys kv)) [
      | inl partial ↦
          let same : h ≡ build_header kv false = header-eq (sym (rw (partial) at e)) in
          (kv, false, refl, same, inr (reading, refl, (and_cases _ _ partial).1))
      | inr missing ↦ absurd (incomplete-ne-header (rw (missing) at e))
    ]
settle_cases Scan.broken e = absurd (invalid-ne-header e)

parse_header_scan :
    (contents : List ℕ) {h : GgufHeaderMetadata}
    → parse_header contents ≡ Parsed.header h
    → (4 ≤ length contents) × (settle (read_metadata (after_magic contents)) ≡ Parsed.header h)
unfolding parse_header
parse_header_scan contents {h} e = elim (Bool-cases (ltb (length contents) 4)) [
  | inl short ↦ absurd (incomplete-ne-header (rw (short) at e))
  | inr enough ↦ elim (Bool-cases (same_codes (take 4 contents) (codes "GGUF"))) [
    | inr other ↦ absurd (not_gguf-ne-header (rw (enough, other) at e))
    | inl gguf ↦ (ground arith, rw (enough, gguf) at e)
  ]
]

SameEstimate-refl : (h : GgufHeaderMetadata) → SameEstimate h h
SameEstimate-refl h = record {
  architecture = refl;
  context_length = refl;
  embedding_length = refl;
  block_count = refl;
  head_count = refl;
  head_count_kv = refl;
}

-- Whatever header a prefix of the file gives, complete or cut inside the tokenizer, and whatever
-- header a longer part gives, if no key of the file is repeated they have the same architecture,
-- context length, embedding length, block count and head counts.
pub parse_header-SameEstimate :
    (contents more : List ℕ) {h h' : GgufHeaderMetadata}
    → parse_header contents ≡ Parsed.header h
    → parse_header (contents ++ more) ≡ Parsed.header h'
    → repeats_no_key (contents ++ more) ≡ true
    → SameEstimate h h'
unfolding repeats_no_key is_final read_metadata build_header
parse_header-SameEstimate contents more {h} {h'} e e' fresh =
    let (enough, s) = parse_header_scan contents e in
    let (_, s') = parse_header_scan (contents ++ more) e' in
    let (kv, complete, d, built, how) = settle_cases _ s in
    let (kv', complete', d', built', _) = settle_cases _ s' in
    let rest : after_magic (contents ++ more) ≡ extend (after_magic contents) more =
      ap (λ r. record { rest = r; offset = 4; is_stream = false })
        (drop-append 4 contents more enough) in
    elim how [
      | inl whole ↦
          let final : is_final (parse_header contents) ≡ true = rw (e, built) whole in
          let same : h ≡ h' =
            header-eq (sym e ∙ sym (parse_header_prefix contents more final) ∙ e') in
          rw (← same) (SameEstimate-refl h)
      | inr (reading, cut, keys) ↦
          let keeps =
            with_counts-Keeps more (read_counts (after_magic contents)) _ kv kv' reading
              (read_counts-IsStable (after_magic contents) more) cut keys
              (sym (ap (λ c. fresh_after (read_counts c)) rest) ∙ fresh)
              (sym (ap (λ c. scan_dict (with_counts (read_counts c))) rest) ∙ d') in
          rw (built, built') (build_header-SameEstimate kv kv' complete complete' keeps keys)
    ]
