-- ===== src/Gguf/Prefix.antt =====
-- A header that was read from a prefix of the file to its end is the header of the file.
use jaull.Base.{
  ℕ, zero, suc, ◌≡◌, Bool, true, false, Option, List, [], ◌++◌, length, take, drop, take-append,
  drop-append, length-append, ltb, leb, if◌then◌else◌, Bool-cases, arith, ◌≢◌, refl, inl, inr, ◌⊎◌,
  same_codes, codes, ◌&&◌,
}
use jaull.Gguf.Cursor.{Cursor, Outcome, read_u32, read_u64, read_string, refuse}
use jaull.Gguf.Values.{Value, read_value}
use jaull.Gguf.Header.{
  Text, Dict, Scan, Entry, Parsed, with_value, with_key, read_entry, read_entries, read_counts,
  with_counts, read_metadata, settle, parse_header, after_magic, assign, is_supported_version,
  build_header, cut_inside_tokenizer, has_estimate_keys,
}
use jaull.Gguf.Stable.{
  extend, Extends, IsStable, >>=-IsStable, if-IsStable, guard-IsStable, pure-IsStable,
  refuse-IsStable, read_u32-IsStable, read_u64-IsStable, read_string-IsStable, read_value-IsStable,
}

abbrev EntryExtends : List ℕ → Entry → Entry → Type 0
EntryExtends more (Entry.entry key v c) longer = longer ≡ Entry.entry key v (extend c more)
EntryExtends more Entry.bad longer = longer ≡ Entry.bad
EntryExtends more (Entry.cut_at reading) longer = Unit {0}

with_value-Extends :
    (more : List ℕ) (key : Text) (short long : Outcome Value)
    → Extends more short long
    → EntryExtends more (with_value key short) (with_value key long)
unfolding with_value
with_value-Extends more key (Outcome.ok v c) long e = rw (e) refl
with_value-Extends more key Outcome.incomplete long e = tt
with_value-Extends more key Outcome.invalid long e = rw (e) refl

with_key-Extends :
    (more : List ℕ) (short long : Outcome Text)
    → Extends more short long
    → EntryExtends more (with_key short) (with_key long)
unfolding with_key
with_key-Extends more (Outcome.ok key c) long e =
    rw (e) (with_value-Extends more key (read_value c) _ (read_value-IsStable c more))
with_key-Extends more Outcome.incomplete long e = tt
with_key-Extends more Outcome.invalid long e = rw (e) refl

pub read_entry_extends :
    (c : Cursor) (more : List ℕ) → EntryExtends more (read_entry c) (read_entry (extend c more))
unfolding read_entry
read_entry_extends c more = with_key-Extends more (read_string c) _ (read_string-IsStable c more)

abbrev pub ScanExtends : List ℕ → Scan → Scan → Type 0
ScanExtends more (Scan.finished tensors kv c) longer =
    longer ≡ Scan.finished tensors kv (extend c more)
ScanExtends more Scan.broken longer = longer ≡ Scan.broken
ScanExtends more (Scan.cut kv reading) longer = Unit {0}

-- The three ends of a round, with their equation.
pub Entry-cases :
    (e : Entry)
    → ((key : Text) × (v : Value) × (c : Cursor) × (e ≡ Entry.entry key v c))
      ⊎ ((reading : Option Text) × (e ≡ Entry.cut_at reading))
      ⊎ (e ≡ Entry.bad)
Entry-cases (Entry.entry key v c) = inl (key, v, c, refl)
Entry-cases (Entry.cut_at reading) = inr (inl (reading, refl))
Entry-cases Entry.bad = inr (inr refl)

read_entries_extends :
    (tensors count : ℕ) (kv : Dict) (c : Cursor) (more : List ℕ)
    → ScanExtends more
        (read_entries tensors count kv c)
        (read_entries tensors count kv (extend c more))
unfolding read_entries
read_entries_extends tensors zero kv c more = refl
read_entries_extends tensors (suc count) kv c more = elim (Entry-cases (read_entry c)) [
  | inl (key, v, c', e) ↦
      let longer : read_entry (extend c more) ≡ Entry.entry key v (extend c' more) =
        rw (e) at (read_entry_extends c more) in
      rw (e, longer, read_entries) (read_entries_extends tensors count (assign key v kv) c' more)
  | inr (inl (reading, e)) ↦ rw (e, read_entries) tt
  | inr (inr e) ↦
      let longer : read_entry (extend c more) ≡ Entry.bad = rw (e) at (read_entry_extends c more) in
      rw (e, longer, read_entries) refl
]

with_counts-Extends :
    (more : List ℕ) (short long : Outcome (ℕ × ℕ))
    → Extends more short long
    → ScanExtends more (with_counts short) (with_counts long)
unfolding with_counts
with_counts-Extends more (Outcome.ok (tensors, count) c) long e =
    rw (e) (read_entries_extends tensors count [] c more)
with_counts-Extends more Outcome.incomplete long e = tt
with_counts-Extends more Outcome.invalid long e = rw (e) refl

pub read_counts-IsStable : IsStable read_counts
unfolding read_counts
read_counts-IsStable = >>=-IsStable read_u32 _ read_u32-IsStable (λ version.
    >>=-IsStable (if is_supported_version version then read_u64 else refuse) _
      (if-IsStable (is_supported_version version) read_u64 refuse read_u64-IsStable refuse-IsStable)
      (λ tensors.
        >>=-IsStable read_u64 _ read_u64-IsStable
          (λ count. guard-IsStable (leb count 100000) _ (pure-IsStable (tensors, count)))))

pub read_metadata_extends :
    (c : Cursor) (more : List ℕ)
    → ScanExtends more (read_metadata c) (read_metadata (extend c more))
unfolding read_metadata
read_metadata_extends c more =
    with_counts-Extends more (read_counts c) _ (read_counts-IsStable c more)

-- Reading more could not change the result.
unfoldable pub is_final : Parsed → Bool
is_final (Parsed.header h) = h.is_complete
is_final Parsed.not_gguf = true
is_final Parsed.invalid = true
is_final Parsed.incomplete = false

false-ne-true : false ≢ true
false-ne-true e = cc

settle_extends :
    (more : List ℕ) (short long : Scan)
    → ScanExtends more short long
    → is_final (settle short) ≡ true
    → settle long ≡ settle short
unfolding settle is_final build_header
settle_extends more (Scan.finished tensors kv c) long e h = rw (e) refl
settle_extends more Scan.broken long e h = rw (e) refl
settle_extends more (Scan.cut kv reading) long e h =
    elim (Bool-cases (cut_inside_tokenizer reading && has_estimate_keys kv)) [
      | inl partial ↦ absurd (false-ne-true (rw (partial) at h))
      | inr missing ↦ absurd (false-ne-true (rw (missing) at h))
    ]

-- If a prefix of the file parses to a complete header, is not a GGUF file or is refused as invalid,
-- then so is every longer part of the file, with the same header.
pub parse_header_prefix :
    (contents more : List ℕ)
    → is_final (parse_header contents) ≡ true
    → parse_header (contents ++ more) ≡ parse_header contents
unfolding parse_header is_final
parse_header_prefix contents more h = elim (Bool-cases (ltb (length contents) 4)) [
  | inl short ↦ absurd (false-ne-true (rw (short) at h))
  | inr enough ↦
      let longer : ltb (length (contents ++ more)) 4 ≡ false =
        ground (arith, length-append contents more) in
      let magic : take 4 (contents ++ more) ≡ take 4 contents =
        take-append 4 contents more (ground arith) in
      let rest : drop 4 (contents ++ more) ≡ drop 4 contents ++ more =
        drop-append 4 contents more (ground arith) in
      elim (Bool-cases (same_codes (take 4 contents) (codes "GGUF"))) [
        | inr other ↦ rw (enough, longer, magic, other) refl
        | inl gguf ↦
            rw (enough, longer, magic, rest, gguf)
              (settle_extends more (read_metadata (after_magic contents)) _
                (read_metadata_extends (after_magic contents) more) (rw (enough, gguf) at h))
      ]
]
