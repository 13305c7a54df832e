-- ===== src/Gguf/Tensors/Descriptors.antt =====
-- What the descriptors say of each tensor, and that their names differ.
use jaull.Base.{
  ℕ, zero, suc, ◌*◌, ◌/◌, ◌%◌, ◌≡◌, ◌≢◌, Bool, true, false, not, ◌&&◌, ◌||◌, Option, none, some,
  List, [], ◌∷◌, length, all, All, same_codes, ltb, leb, ◌==◌, and_cases, ==-eq, arith, refl, ap,
  ◌∙◌,
}
use jaull.Gguf.Cursor.{Cursor, Outcome, Reader, after, pure, guard, read_u32, read_u64, read_string}
use jaull.Gguf.Header.{Text}
use jaull.Gguf.Tensors.Payloads.{Pairwise, HasOtherName}
use jaull.Gguf.Tensors.{
  GgufTensor, block_layout, prod, describe, read_tensor, read_tensors, read_shape, read_place,
  read_dimensions, first_dimension, is_new_name,
}

-- The payload starts at a multiple of the alignment, and its rows are whole blocks of the type.
abbrev pub IsDescribed : ℕ → GgufTensor → Type 0
IsDescribed alignment t =
    (t.offset % alignment ≡ 0)
    × ((elements : ℕ) × (size : ℕ) × (block_layout t.type_id ≡ some (elements, size))
        × (t.size_bytes ≡ prod t.dimensions / elements * size))

invalid-ne-ok : {A : Type 0} {a : A} {c : Cursor} → Outcome.invalid ≢ Outcome.ok a c
invalid-ne-ok e = cc

incomplete-ne-ok : {A : Type 0} {a : A} {c : Cursor} → Outcome.incomplete ≢ Outcome.ok a c
incomplete-ne-ok e = cc

-- What a successful read of the descriptors gives.
ok-eq :
    {A : Type 0} {a b : A} {c c' : Cursor} → Outcome.ok a c ≡ Outcome.ok b c' → (a ≡ b) × (c ≡ c')
ok-eq e = (ground arith, ground arith)

after-eq-ok :
    {A B : Type 0} (m : Outcome A) (f : A → Reader B) {b : B} {c : Cursor}
    → after m f ≡ Outcome.ok b c
    → (a : A) × (c' : Cursor) × (m ≡ Outcome.ok a c') × (f a c' ≡ Outcome.ok b c)
after-eq-ok (Outcome.ok a c') f e = (a, c', refl, e)
after-eq-ok Outcome.incomplete f e = absurd (incomplete-ne-ok e)
after-eq-ok Outcome.invalid f e = absurd (invalid-ne-ok e)

guard-eq-ok :
    {A : Type 0} (b : Bool) (p : Reader A) (c : Cursor) {a : A} {c' : Cursor}
    → guard b p c ≡ Outcome.ok a c'
    → (b ≡ true) × (p c ≡ Outcome.ok a c')
guard-eq-ok true p c e = (refl, e)
guard-eq-ok false p c e = absurd (invalid-ne-ok e)

module _ (alignment : ℕ) (name : Text) where
  -- What the descriptor says.
  abbrev Describes : GgufTensor → Type 0
  Describes t = IsDescribed alignment t × (t.name ≡ name)

  describe_lem :
      (dimensions : List ℕ) (type_id offset : ℕ) (layout : Option (ℕ × ℕ)) (c : Cursor)
      {t : GgufTensor} {c' : Cursor}
      → block_layout type_id ≡ layout
      → offset % alignment ≡ 0
      → describe alignment name dimensions type_id offset layout c ≡ Outcome.ok t c'
      → Describes t
  unfolding describe
  describe_lem dimensions type_id offset none c e aligned h = absurd (invalid-ne-ok h)
  describe_lem dimensions type_id offset (some (elements, size)) c e aligned h =
      let built : GgufTensor = record {
        name = name;
        dimensions = dimensions;
        type_id = type_id;
        offset = offset;
        size_bytes = prod dimensions / elements * size;
      } in
      let (_, made) = guard-eq-ok (first_dimension dimensions % elements == 0) (pure built) c h in
      let (same, _) = ok-eq made in rw (← same) ((aligned, (elements, size, e, refl)), refl)

  read_place_lem :
      (dimensions : List ℕ) (c : Cursor) {t : GgufTensor} {c' : Cursor}
      → read_place alignment name dimensions c ≡ Outcome.ok t c'
      → Describes t
  unfolding read_place
  read_place_lem dimensions c e =
      let (type_id, c1, _, e1) = after-eq-ok (read_u32 c) _ e in
      let (offset, c2, _, e2) = after-eq-ok (read_u64 c1) _ e1 in
      let (checked, made) =
        guard-eq-ok (all (λ d. ltb 0 d) dimensions && (offset % alignment == 0))
          (describe alignment name dimensions type_id offset (block_layout type_id)) c2 e2 in
      let (_, test) = and_cases (all (λ d. ltb 0 d) dimensions) (offset % alignment == 0) checked in
      let aligned = ==-eq (offset % alignment) 0 test in
      describe_lem dimensions type_id offset (block_layout type_id) c2 refl aligned made

  read_shape_lem :
      (c : Cursor) {t : GgufTensor} {c' : Cursor}
      → read_shape alignment name c ≡ Outcome.ok t c'
      → Describes t
  unfolding read_shape
  read_shape_lem c e =
      let (count, c1, _, e1) = after-eq-ok (read_u32 c) _ e in
      let (dimensions, c2, _, e2) =
        after-eq-ok (guard (leb 1 count && leb count 4) (read_dimensions count) c1) _ e1 in
      read_place_lem dimensions c2 e2

-- A descriptor is aligned, of a known layout, and its name is new.
read_tensor_lem :
    (alignment : ℕ) (names : List Text) (c : Cursor) {t : GgufTensor} {c' : Cursor}
    → read_tensor alignment names c ≡ Outcome.ok t c'
    → IsDescribed alignment t × (is_new_name t.name names ≡ true)
unfolding read_tensor
read_tensor_lem alignment names c e =
    let (name, c1, _, e1) = after-eq-ok (read_string c) _ e in
    let (new, made) = guard-eq-ok (is_new_name name names) (read_shape alignment name) c1 e1 in
    let (described, named) = read_shape_lem alignment name c1 made in
    (described, ap (λ n. is_new_name n names) named ∙ new)

unfoldable pub IsNew : List Text → GgufTensor → Type 0
IsNew names t = is_new_name t.name names ≡ true

new_split :
    (empty same found : Bool)
    → (not empty && not (same || found)) ≡ true
    → (same ≡ false) × ((not empty && not found) ≡ true)
new_split false false false h = (refl, refl)
new_split true same found h = cc
new_split false true found h = cc
new_split false false true h = cc

IsNew-after :
    (t : GgufTensor) (names : List Text) (ts : List GgufTensor)
    → All (IsNew (t.name ∷ names)) ts
    → All (HasOtherName t) ts × All (IsNew names) ts
unfolding IsNew is_new_name
IsNew-after t names [] all = (tt, tt)
IsNew-after t names (u ∷ us) (one, rest) =
    let (others, news) = IsNew-after t names us rest in
    let (differs, new) = new_split (length u.name == 0) (same_codes t.name u.name) _ one in
    ((differs, others), (new, news))

pub read_tensors_lem :
    (count alignment : ℕ) (names : List Text) (c : Cursor) {ts : List GgufTensor} {c' : Cursor}
    → read_tensors count alignment names c ≡ Outcome.ok ts c'
    → All (IsNew names) ts × Pairwise HasOtherName ts × All (IsDescribed alignment) ts
unfolding read_tensors IsNew
read_tensors_lem zero alignment names c e = let (same, _) = ok-eq e in rw (← same) (tt, tt, tt)
read_tensors_lem (suc count) alignment names c e =
    let (t, c1, made, e1) = after-eq-ok (read_tensor alignment names c) _ e in
    let (ts, c2, more, e2) = after-eq-ok (read_tensors count alignment (t.name ∷ names) c1) _ e1 in
    let (same, _) = ok-eq e2 in
    let (described, new) = read_tensor_lem alignment names c made in
    let (news, distinct, all) = read_tensors_lem count alignment (t.name ∷ names) c1 more in
    let (others, older) = IsNew-after t names ts news in
    rw (← same) ((new, older), (others, distinct), (described, all))
