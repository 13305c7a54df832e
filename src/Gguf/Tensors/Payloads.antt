-- ===== src/Gguf/Tensors/Payloads.antt =====
-- Tensors whose payloads fit in order are apart, in whatever order they are listed.
use jaull.Base.{
  ℕ, ◌+◌, ◌≤◌, ◌≡◌, true, false, List, [], ◌∷◌, all, All, same_codes, ltb, leb→le, Bool-cases,
  and_cases, arith, inl, inr, ◌⊎◌,
}
use jaull.Gguf.Tensors.{GgufTensor, insert_by_offset, sort_by_offset, payloads_fit}

-- The stored bytes of one tensor do not meet those of the other.
abbrev pub IsApart : GgufTensor → GgufTensor → Type 0
IsApart t u = (t.offset + t.size_bytes ≤ u.offset) ⊎ (u.offset + u.size_bytes ≤ t.offset)

abbrev pub HasOtherName : GgufTensor → GgufTensor → Type 0
HasOtherName t u = same_codes t.name u.name ≡ false

abbrev pub Pairwise : (GgufTensor → GgufTensor → Type 0) → List GgufTensor → Type 0
Pairwise R [] = Unit {0}
Pairwise R (t ∷ ts) = All (R t) ts × Pairwise R ts

abbrev pub IsAfter : ℕ → GgufTensor → Type 0
IsAfter end t = end ≤ t.offset

IsAfter-weaken : (a b : ℕ) (ts : List GgufTensor) → a ≤ b → All (IsAfter b) ts → All (IsAfter a) ts
IsAfter-weaken a b [] h all = tt
IsAfter-weaken a b (t ∷ ts) h (one, rest) = (omega arith, IsAfter-weaken a b ts h rest)

after-IsApart :
    (t : GgufTensor) (ts : List GgufTensor)
    → All (IsAfter (t.offset + t.size_bytes)) ts
    → All (IsApart t) ts
after-IsApart t [] all = tt
after-IsApart t (u ∷ us) (one, rest) = (inl one, after-IsApart t us rest)

module _ (data_offset file_size : ℕ) where
  abbrev pub Ends : GgufTensor → Type 0
  Ends t = data_offset + (t.offset + t.size_bytes) ≤ file_size

  pub payloads_fit_lem :
      (end : ℕ) (ts : List GgufTensor)
      → payloads_fit data_offset file_size end ts ≡ true
      → All (IsAfter end) ts × Pairwise IsApart ts × All Ends ts
  unfolding payloads_fit
  payloads_fit_lem end [] h = (tt, tt, tt)
  payloads_fit_lem end (t ∷ ts) h =
      let (h', rest) = and_cases _ _ h in
      let (first, inside) = and_cases _ _ h' in
      let from : end ≤ t.offset = leb→le _ _ first in
      let next = payloads_fit_lem (t.offset + t.size_bytes) ts rest in
      (
        (from, IsAfter-weaken end (t.offset + t.size_bytes) ts (omega arith) next.0),
        (after-IsApart t ts next.0, next.1),
        (leb→le _ _ inside, next.2),
      )

-- What holds of the sorted list holds of the list, for a symmetric relation.
module _ (P : GgufTensor → Type 0) where
  insert-All :
      (t : GgufTensor) (ts : List GgufTensor) → All P (insert_by_offset t ts) → P t × All P ts
  unfolding insert_by_offset
  insert-All t [] all = (all.0, tt)
  insert-All t (u ∷ us) all = elim (Bool-cases (ltb u.offset t.offset)) [
    | inl later ↦
        let (pu, rest) : P u × All P (insert_by_offset t us) = rw (later) at all in
        let (pt, others) = insert-All t us rest in (pt, (pu, others))
    | inr here ↦ rw (here) at all
  ]

  pub sort-All : (ts : List GgufTensor) → All P (sort_by_offset ts) → All P ts
  unfolding sort_by_offset
  sort-All [] all = tt
  sort-All (t ∷ ts) all =
      let (pt, rest) = insert-All t (sort_by_offset ts) all in (pt, sort-All ts rest)

IsApart-symm : (t u : GgufTensor) → IsApart t u → IsApart u t
IsApart-symm t u (inl h) = inr h
IsApart-symm t u (inr h) = inl h

insert-Pairwise :
    (t : GgufTensor) (ts : List GgufTensor)
    → Pairwise IsApart (insert_by_offset t ts)
    → All (IsApart t) ts × Pairwise IsApart ts
unfolding insert_by_offset
insert-Pairwise t [] h = (tt, tt)
insert-Pairwise t (u ∷ us) h = elim (Bool-cases (ltb u.offset t.offset)) [
  | inl later ↦
      let (from_u, rest) : All (IsApart u) (insert_by_offset t us)
          × Pairwise IsApart (insert_by_offset t us) =
        rw (later) at h in
      let (apart_t, others) = insert-All (IsApart u) t us from_u in
      let (all_t, pairs) = insert-Pairwise t us rest in
      ((IsApart-symm u t apart_t, all_t), (others, pairs))
  | inr here ↦ rw (here) at h
]

pub sort-Pairwise :
    (ts : List GgufTensor) → Pairwise IsApart (sort_by_offset ts) → Pairwise IsApart ts
unfolding sort_by_offset
sort-Pairwise [] h = tt
sort-Pairwise (t ∷ ts) h =
    let (all_t, pairs) = insert-Pairwise t (sort_by_offset ts) h in
    (sort-All (IsApart t) ts all_t, sort-Pairwise ts pairs)
