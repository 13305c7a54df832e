-- ===== src/Gguf/Partial.antt =====
-- A partial header, cut inside the tokenizer, has what the memory estimate reads of the file.
use jaull.Base.{
  ℕ, zero, suc, ◌≡◌, ◌≢◌, Bool, true, false, not, ◌&&◌, Option, none, some, is_some, List, [], ◌∷◌,
  if◌then◌else◌, Bool-cases, and_cases, Option-cases, arith, refl, inl, inr, same_codes,
  same_codes-eq, same_codes_refl, codes, sym, ◌∙◌, ap,
}
use jaull.Gguf.Cursor.{Cursor}
use jaull.Gguf.Values.{Value}
use jaull.Gguf.Header.{
  Text, Dict, Scan, Entry, GgufHeaderMetadata, lookup, assign, read_entry, read_entries,
  build_header, has_estimate_keys, has_keys_of, arch_key, str_or_none, int_or_none, is_integer,
}
use jaull.Gguf.Stable.{extend}
use jaull.Gguf.Prefix.{Entry-cases, read_entry_extends}

true-ne-false : true ≢ false
true-ne-false e = cc

pub lookup-assign :
    (j key : Text) (v : Value) (kv : Dict)
    → lookup j (assign key v kv) ≡ (if same_codes key j then some v else lookup j kv)
unfolding lookup assign
lookup-assign j key v [] = refl
lookup-assign j key v ((k, w) ∷ kv) = elim (Bool-cases (same_codes k key)) [
  | inl same ↦ let e : k ≡ key = same_codes-eq k key same in rw (same, ← e) (ground arith)
  | inr other ↦ rw (other) (elim (Bool-cases (same_codes k j)) [
    | inl here ↦
        let is : k ≡ j = same_codes-eq k j here in
        elim (Bool-cases (same_codes key j)) [
          | inl there ↦
              let k_key : k ≡ key = is ∙ sym (same_codes-eq key j there) in
              absurd (true-ne-false (sym (same_codes_refl key) ∙ (rw (k_key) at other)))
          | inr apart ↦ rw (here, apart) refl
        ]
    | inr later ↦ rw (later) (lookup-assign j key v kv)
  ])
]

none-ne-some : {v : Value} → none ≢ some v
none-ne-some e = cc

-- Every binding of the first is one of the second.
abbrev pub Keeps : Dict → Dict → Type 0
Keeps kv kv' = (j : Text) (v : Value) → lookup j kv ≡ some v → lookup j kv' ≡ some v

assign-Keeps :
    (key : Text) (w : Value) (kv : Dict) → lookup key kv ≡ none → Keeps kv (assign key w kv)
assign-Keeps key w kv fresh j v e = elim (Bool-cases (same_codes key j)) [
  | inl same ↦
      let is : key ≡ j = same_codes-eq key j same in
      absurd (none-ne-some (sym fresh ∙ ap (λ t. lookup t kv) is ∙ e))
  | inr other ↦ rw (lookup-assign j key w kv, other) e
]

-- No entry that is still to be read has a key that was read before it.
unfoldable pub no_repeats : ℕ → Dict → Cursor → Bool
unfolding read_entry lookup assign
no_repeats zero kv c = true
no_repeats (suc count) kv c = elim (read_entry c) [
  | Entry.entry key v c' ↦ not (is_some (lookup key kv)) && no_repeats count (assign key v kv) c'
  | Entry.cut_at reading ↦ true
  | Entry.bad ↦ true
]

-- The entries of a scan that did not fail.
unfoldable pub scan_dict : Scan → Option Dict
scan_dict (Scan.finished tensors kv c) = some kv
scan_dict (Scan.cut kv reading) = some kv
scan_dict Scan.broken = none

some-eq : {kv kv' : Dict} → some kv ≡ some kv' → kv ≡ kv'
some-eq e = cc

none-ne-some_dict : {kv : Dict} → none ≢ some kv
none-ne-some_dict e = cc

fresh_rest :
    (key : Text) (kv : Dict) (b : Bool)
    → (not (is_some (lookup key kv)) && b) ≡ true
    → (lookup key kv ≡ none) × (b ≡ true)
fresh_rest key kv b h = ground arith

read_entries-Keeps :
    (tensors count : ℕ) (kv kv' : Dict) (c : Cursor)
    → no_repeats count kv c ≡ true
    → scan_dict (read_entries tensors count kv c) ≡ some kv'
    → Keeps kv kv'
unfolding read_entries no_repeats scan_dict
read_entries-Keeps tensors zero kv kv' c h e j v found = rw (← some-eq e) found
read_entries-Keeps tensors (suc count) kv kv' c h e j v found = elim (Entry-cases (read_entry c)) [
  | inl (key, w, c', r) ↦
      let (fresh, rest) = fresh_rest key kv _ (rw (r, no_repeats) at h) in
      read_entries-Keeps tensors count (assign key w kv) kv' c' rest (rw (r, read_entries) at e) j v
        (assign-Keeps key w kv fresh j v found)
  | inr (inl (reading, r)) ↦ rw (← some-eq (rw (r, read_entries) at e)) found
  | inr (inr r) ↦ absurd (none-ne-some_dict (rw (r, read_entries) at e))
]

cut-ne-finished :
    {kv kv0 : Dict} {reading : Option Text} {tensors : ℕ} {c : Cursor}
    → Scan.finished tensors kv c ≢ Scan.cut kv0 reading
cut-ne-finished e = cc

cut-eq :
    {kv kv0 : Dict} {reading reading' : Option Text}
    → Scan.cut kv reading ≡ Scan.cut kv0 reading'
    → kv ≡ kv0
cut-eq e = cc

broken-ne-cut : {kv0 : Dict} {reading : Option Text} → Scan.broken ≢ Scan.cut kv0 reading
broken-ne-cut e = cc

-- The entries of the longer input keep those before the cut.
pub cut-Keeps :
    (tensors count : ℕ) (kv kv0 kv' : Dict) (reading : Option Text) (c : Cursor) (more : List ℕ)
    → read_entries tensors count kv c ≡ Scan.cut kv0 reading
    → no_repeats count kv (extend c more) ≡ true
    → scan_dict (read_entries tensors count kv (extend c more)) ≡ some kv'
    → Keeps kv0 kv'
unfolding read_entries no_repeats scan_dict
cut-Keeps tensors zero kv kv0 kv' reading c more e h s = absurd (cut-ne-finished e)
cut-Keeps tensors (suc count) kv kv0 kv' reading c more e h s = elim (Entry-cases (read_entry c)) [
  | inl (key, w, c', r) ↦
      let longer : read_entry (extend c more) ≡ Entry.entry key w (extend c' more) =
        rw (r) at (read_entry_extends c more) in
      let (fresh, rest) = fresh_rest key kv _ (rw (longer, no_repeats) at h) in
      cut-Keeps tensors count (assign key w kv) kv0 kv' reading c' more (rw (r, read_entries) at e)
        rest (rw (longer, read_entries) at s)
  | inr (inl (reading', r)) ↦
      let same : kv ≡ kv0 = cut-eq (rw (r, read_entries) at e) in
      rw (← same) (read_entries-Keeps tensors (suc count) kv kv' (extend c more) h s)
  | inr (inr r) ↦ absurd (broken-ne-cut (rw (r, read_entries) at e))
]

-- What the memory estimate reads of a header.
pub record SameEstimate (h h' : GgufHeaderMetadata) : Type 0 where
  pub architecture : h.architecture ≡ h'.architecture
  pub context_length : h.context_length ≡ h'.context_length
  pub embedding_length : h.embedding_length ≡ h'.embedding_length
  pub block_count : h.block_count ≡ h'.block_count
  pub head_count : h.head_count ≡ h'.head_count
  pub head_count_kv : h.head_count_kv ≡ h'.head_count_kv

is_integer_kept :
    (key : Text) (kv kv' : Dict)
    → Keeps kv kv'
    → is_integer (lookup key kv) ≡ true
    → lookup key kv ≡ lookup key kv'
is_integer_kept key kv kv' keeps h = elim (Option-cases (lookup key kv)) [
  | inl nothing ↦ absurd (true-ne-false (sym (rw (nothing) at h)))
  | inr (v, e) ↦ e ∙ sym (keeps key v e)
]

str_kept :
    (key : Text) (kv kv' : Dict)
    → Keeps kv kv'
    → str_or_none (lookup key kv) ≢ none
    → lookup key kv ≡ lookup key kv'
str_kept key kv kv' keeps h = elim (Option-cases (lookup key kv)) [
  | inl nothing ↦ absurd (h (rw (nothing) refl))
  | inr (v, e) ↦ e ∙ sym (keeps key v e)
]

has_keys_architecture :
    (architecture : Option Text) (kv : Dict)
    → has_keys_of architecture kv ≡ true
    → architecture ≢ none
unfolding has_keys_of
has_keys_architecture none kv h e = true-ne-false (sym h)
has_keys_architecture (some a) kv h e = cc

keys_kept :
    (architecture : Option Text) (kv kv' : Dict)
    → Keeps kv kv'
    → has_keys_of architecture kv ≡ true
    → (arch_key architecture "context_length" kv ≡ arch_key architecture "context_length" kv')
      × (arch_key architecture "embedding_length" kv ≡ arch_key architecture "embedding_length" kv')
      × (arch_key architecture "block_count" kv ≡ arch_key architecture "block_count" kv')
      × (arch_key architecture "attention.head_count" kv
          ≡ arch_key architecture "attention.head_count" kv')
      × (arch_key architecture "attention.head_count_kv" kv
          ≡ arch_key architecture "attention.head_count_kv" kv')
unfolding has_keys_of arch_key
keys_kept none kv kv' keeps h = absurd (true-ne-false (sym h))
keys_kept (some a) kv kv' keeps h =
    let (a1, h1) = and_cases _ _ h in
    let (a2, h2) = and_cases _ _ h1 in
    let (a3, h3) = and_cases _ _ h2 in
    let (a4, h4) = and_cases _ _ h3 in
    let (a5, _) = and_cases _ _ h4 in
    (
      is_integer_kept _ kv kv' keeps a1,
      is_integer_kept _ kv kv' keeps a2,
      is_integer_kept _ kv kv' keeps a3,
      is_integer_kept _ kv kv' keeps a4,
      is_integer_kept _ kv kv' keeps a5,
    )

pub build_header-SameEstimate :
    (kv kv' : Dict) (complete complete' : Bool)
    → Keeps kv kv'
    → has_estimate_keys kv ≡ true
    → SameEstimate (build_header kv complete) (build_header kv' complete')
unfolding build_header has_estimate_keys
build_header-SameEstimate kv kv' complete complete' keeps h =
    let found = has_keys_architecture _ kv h in
    let named = str_kept (codes "general.architecture") kv kv' keeps found in
    let (e1, e2, e3, e4, e5) = keys_kept _ kv kv' keeps h in
    record {
      architecture = rw (named) refl;
      context_length = rw (← named) (ap int_or_none e1);
      embedding_length = rw (← named) (ap int_or_none e2);
      block_count = rw (← named) (ap int_or_none e3);
      head_count = rw (← named) (ap int_or_none e4);
      head_count_kv = rw (← named) (ap int_or_none e5);
    }
