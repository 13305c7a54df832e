-- ===== src/Gguf/Tensors/Layout.antt =====
-- Where the tensors of an accepted file lie.
use jaull.Base.{
  ℕ, ◌+◌, ◌-◌, ◌*◌, ◌/◌, ◌%◌, ◌≤◌, ◌≡◌, ◌≢◌, Bool, true, false, ◌&&◌, Option, none, some, List, [],
  All, ◌==◌, if◌then◌else◌, Bool-cases, and_cases, arith, refl, inl, inr,
}
use jaull.Gguf.Cursor.{Cursor, Outcome, read}
use jaull.Gguf.Header.{Dict, Scan, read_metadata}
use jaull.Gguf.Tensors.Payloads.{
  Pairwise, HasOtherName, IsApart, Ends, payloads_fit_lem, sort-All, sort-Pairwise,
}
use jaull.Gguf.Tensors.Descriptors.{IsDescribed, read_tensors_lem}
use jaull.Gguf.Tensors.{
  is_verified_local, GgufTensor, GgufTensorIndex, ModelArtifact, LocalFile, Indexed, read_tensors,
  sort_by_offset, payloads_fit, lay_out, after_tensors, with_alignment, after_metadata,
  after_magic_bytes, read_local_tensor_index,
}

pub record IsLaidOut (index : GgufTensorIndex) : Type 0 where
  pub apart : Pairwise IsApart index.tensors
  pub distinct : Pairwise HasOtherName index.tensors
  pub described : All (IsDescribed index.alignment) index.tensors
  pub within :
      All (λ t. index.data_offset + (t.offset + t.size_bytes) ≤ index.file_size_bytes) index.tensors
  pub data_aligned : index.data_offset % index.alignment ≡ 0

index-eq : {i j : GgufTensorIndex} → Indexed.index i ≡ Indexed.index j → i ≡ j
index-eq e = cc

invalid-ne-index : {i : GgufTensorIndex} → Indexed.invalid ≢ Indexed.index i
invalid-ne-index e = cc

incomplete-ne-index : {i : GgufTensorIndex} → Indexed.incomplete ≢ Indexed.index i
incomplete-ne-index e = cc

rounded_up : (n alignment : ℕ) → n / alignment * alignment % alignment ≡ 0
rounded_up n alignment = grind arith

lay_out-IsLaidOut :
    (file : LocalFile) (kv : Dict) (alignment : ℕ) (tensors : List GgufTensor) (c : Cursor)
    {i : GgufTensorIndex}
    → Pairwise HasOtherName tensors
    → All (IsDescribed alignment) tensors
    → lay_out file kv alignment tensors c ≡ Indexed.index i
    → IsLaidOut i
unfolding lay_out
lay_out-IsLaidOut file kv alignment tensors c distinct described e =
    let data_offset = (c.offset + alignment - 1) / alignment * alignment in
    elim (Bool-cases (
      payloads_fit data_offset file.size_before 0 (sort_by_offset tensors)
      && (file.size_before == file.size_after)
      && (file.modified_before == file.modified_after))) [
        | inr bad ↦ absurd (invalid-ne-index (rw (bad) at e))
        | inl good ↦
            let (same_size, _) = and_cases _ _ good in
            let (fit, _) = and_cases _ _ same_size in
            let (_, pairs, ends) =
              payloads_fit_lem data_offset file.size_before 0 (sort_by_offset tensors) fit in
            let same = index-eq (rw (good) at e) in
            rw (← same) (record {
              apart = sort-Pairwise tensors pairs;
              distinct = distinct;
              described = described;
              within = sort-All (Ends data_offset file.size_before) tensors ends;
              data_aligned = rounded_up (c.offset + alignment - 1) alignment;
            })
      ]

after_tensors-IsLaidOut :
    (file : LocalFile) (kv : Dict) (alignment : ℕ) (o : Outcome (List GgufTensor))
    {i : GgufTensorIndex}
    → ((ts : List GgufTensor) (c : Cursor)
        → o ≡ Outcome.ok ts c
        → Pairwise HasOtherName ts × All (IsDescribed alignment) ts)
    → after_tensors file kv alignment o ≡ Indexed.index i
    → IsLaidOut i
unfolding after_tensors
after_tensors-IsLaidOut file kv alignment (Outcome.ok ts c) h e =
    let (distinct, described) = h ts c refl in
    lay_out-IsLaidOut file kv alignment ts c distinct described e
after_tensors-IsLaidOut file kv alignment Outcome.incomplete h e = absurd (incomplete-ne-index e)
after_tensors-IsLaidOut file kv alignment Outcome.invalid h e = absurd (invalid-ne-index e)

with_alignment-IsLaidOut :
    (file : LocalFile) (count : ℕ) (kv : Dict) (c : Cursor) (alignment : Option ℕ)
    {i : GgufTensorIndex}
    → with_alignment file count kv c alignment ≡ Indexed.index i
    → IsLaidOut i
unfolding with_alignment
with_alignment-IsLaidOut file count kv c none e = absurd (invalid-ne-index e)
with_alignment-IsLaidOut file count kv c (some alignment) e =
    after_tensors-IsLaidOut file kv alignment (read_tensors count alignment [] c)
      (λ ts c' read.
        let (_, distinct, described) = read_tensors_lem count alignment [] c read in
        (distinct, described))
      e

if-index :
    (b : Bool) (x : Indexed) {i : GgufTensorIndex}
    → (if b then x else Indexed.invalid) ≡ Indexed.index i
    → x ≡ Indexed.index i
if-index true x e = e
if-index false x e = absurd (invalid-ne-index e)

after_metadata-IsLaidOut :
    (file : LocalFile) (s : Scan) {i : GgufTensorIndex}
    → after_metadata file s ≡ Indexed.index i
    → IsLaidOut i
unfolding after_metadata
after_metadata-IsLaidOut file (Scan.finished count kv c) e =
    with_alignment-IsLaidOut file count kv c _ (if-index _ _ e)
after_metadata-IsLaidOut file (Scan.cut kv reading) e = absurd (incomplete-ne-index e)
after_metadata-IsLaidOut file Scan.broken e = absurd (invalid-ne-index e)

after_magic_bytes-IsLaidOut :
    (file : LocalFile) (o : Outcome (List ℕ)) {i : GgufTensorIndex}
    → after_magic_bytes file o ≡ Indexed.index i
    → IsLaidOut i
unfolding after_magic_bytes
after_magic_bytes-IsLaidOut file (Outcome.ok magic c) e =
    after_metadata-IsLaidOut file (read_metadata c) (if-index _ _ e)
after_magic_bytes-IsLaidOut file Outcome.incomplete e = absurd (incomplete-ne-index e)
after_magic_bytes-IsLaidOut file Outcome.invalid e = absurd (invalid-ne-index e)

-- The index of an accepted file has tensors with different names, whose payloads do not overlap and
-- end within the file; every payload starts at a multiple of the alignment, as their common base does,
-- and its size is that of the whole blocks of its type.
pub read_local_tensor_index-IsLaidOut :
    (artifact : ModelArtifact) (file : LocalFile) {i : GgufTensorIndex}
    → read_local_tensor_index artifact file ≡ Indexed.index i
    → IsLaidOut i
unfolding read_local_tensor_index
read_local_tensor_index-IsLaidOut artifact file e =
    let start : Cursor = record { rest = file.contents; offset = 0; is_stream = true } in
    after_magic_bytes-IsLaidOut file (read 4 start) (
      if-index (is_verified_local artifact file.size_before) (after_magic_bytes file (read 4 start))
        e)
