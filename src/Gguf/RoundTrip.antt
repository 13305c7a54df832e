-- ===== src/Gguf/RoundTrip.antt =====
-- A file of the format parses to its entries.
use jaull.Base.{
  ℕ, ◌≤◌, ◌≡◌, true, false, List, [], ◌∷◌, ◌++◌, length, codes, ltb, leb, le→leb, arith, refl, ap,
  ◌∙◌,
}
use mathlib.Core.List.{append_assoc}
use jaull.Gguf.Cursor.{Cursor, read_u32, read_u64}
use jaull.Gguf.Values.{Value}
use jaull.Gguf.Header.{
  Text, Dict, Scan, Entry, Parsed, assign, with_value, with_key, read_entry, read_entries,
  read_counts, with_counts, read_metadata, settle, build_header, parse_header, is_supported_version,
}
use jaull.Gguf.Grammar.{IsNumber, IsString, IsValue, AreEntries, IsMetadata}
use jaull.Gguf.Accepts.{
  Accepts, >>=-Accepts, pure-Accepts, read_u32-Accepts, read_u64-Accepts, read_string-Accepts,
  read_value-Accepts,
}

-- The assignments of the entries, in order.
abbrev pub assign_all : List (Text × Value) → Dict → Dict
assign_all [] kv = kv
assign_all ((key, v) ∷ entries) kv = assign_all entries (assign key v kv)

read_entry_lem :
    (key : Text) (v : Value) (key_bytes value_bytes rest : List ℕ) (c : Cursor)
    → IsString key key_bytes
    → IsValue v value_bytes
    → c.is_stream ≡ false
    → c.rest ≡ key_bytes ++ (value_bytes ++ rest)
    → (c' : Cursor) × (read_entry c ≡ Entry.entry key v c')
      × (c'.is_stream ≡ false)
      × (c'.rest ≡ rest)
unfolding read_entry with_key with_value
read_entry_lem key v key_bytes value_bytes rest c k w s e =
    let (c1, e1, s1, r1) = read_string-Accepts key key_bytes k c (value_bytes ++ rest) s e in
    let (c2, e2, s2, r2) = read_value-Accepts v value_bytes w c1 rest s1 r1 in
    (c2, rw (e1, e2) refl, s2, r2)

read_entries_lem :
    (tensors : ℕ) (entries : List (Text × Value)) (kv : Dict) (bytes rest : List ℕ) (c : Cursor)
    → AreEntries entries bytes
    → c.is_stream ≡ false
    → c.rest ≡ bytes ++ rest
    → (c' : Cursor) × (read_entries tensors (length entries) kv c
        ≡ Scan.finished tensors (assign_all entries kv) c')
      × (c'.rest ≡ rest)
unfolding read_entries
read_entries_lem tensors [] kv bytes rest c empty s e = (c, refl, e ∙ ap (λ xs. xs ++ rest) empty)
read_entries_lem tensors ((key, v) ∷ entries) kv bytes rest c
      (key_bytes, value_bytes, others, split, k, w, more) s e =
    let whole : c.rest ≡ key_bytes ++ (value_bytes ++ (others ++ rest)) =
      e
      ∙ ap (λ xs. xs ++ rest) split
      ∙ append_assoc key_bytes (value_bytes ++ others) rest
      ∙ ap (λ xs. key_bytes ++ xs) (append_assoc value_bytes others rest) in
    let (c1, e1, s1, r1) =
      read_entry_lem key v key_bytes value_bytes (others ++ rest) c k w s whole in
    let (c2, e2, r2) =
      read_entries_lem tensors entries (assign key v kv) others rest c1 more s1 r1 in
    (c2, rw (e1, read_entries) e2, r2)

read_counts-Accepts :
    (version tensors count : ℕ) (version_bytes tensor_bytes count_bytes : List ℕ)
    → IsNumber 4 version version_bytes
    → is_supported_version version ≡ true
    → IsNumber 8 tensors tensor_bytes
    → IsNumber 8 count count_bytes
    → count ≤ 100000
    → Accepts read_counts (tensors, count) (version_bytes ++ (tensor_bytes ++ (count_bytes ++ [])))
unfolding read_counts
read_counts-Accepts version tensors count version_bytes tensor_bytes count_bytes v supported t n
      fits =
    let plausible : leb count 100000 ≡ true = le→leb _ _ fits in
    >>=-Accepts read_u32 _ version (tensors, count) version_bytes
      (tensor_bytes ++ (count_bytes ++ [])) (read_u32-Accepts version version_bytes v)
      (rw (supported) (
        >>=-Accepts read_u64 _ tensors (tensors, count) tensor_bytes (count_bytes ++ [])
          (read_u64-Accepts tensors tensor_bytes t)
          (>>=-Accepts read_u64 _ count (tensors, count) count_bytes []
            (read_u64-Accepts count count_bytes n)
            (rw (plausible) (pure-Accepts (tensors, count))))))

-- Whatever entries a metadata block of version 2 or 3 holds, and whatever follows it, the file that
-- starts with it parses to the complete header of these entries, assigned in order.
pub parse_header-IsMetadata :
    (tensors : ℕ) (entries : List (Text × Value)) (bytes rest : List ℕ)
    → IsMetadata tensors entries bytes
    → parse_header (bytes ++ rest) ≡ Parsed.header (build_header (assign_all entries []) true)
unfolding parse_header read_metadata with_counts settle
parse_header-IsMetadata tensors entries bytes rest
      (
        version, version_bytes, tensor_bytes, count_bytes, body, split, v, supported, t, n, fits,
        es,
      ) =
    let tail = version_bytes ++ (tensor_bytes ++ (count_bytes ++ (body ++ rest))) in
    let whole : bytes ++ rest ≡ codes "GGUF" ++ tail =
      ap (λ xs. xs ++ rest) split ∙ simp append_assoc in
    let c : Cursor = record { rest = tail; offset = 4; is_stream = false } in
    let (c1, e1, s1, r1) =
      read_counts-Accepts version tensors (length entries) version_bytes tensor_bytes count_bytes v
        supported t n fits c (body ++ rest) refl (simp append_assoc) in
    let (c2, e2, r2) = read_entries_lem tensors entries [] body rest c1 es s1 r1 in
    let enough : ltb (length (codes "GGUF" ++ tail)) 4 ≡ false = ground arith in
    rw (whole, enough, e1, e2) refl
