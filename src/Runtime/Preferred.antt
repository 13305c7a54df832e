-- ===== src/Runtime/Preferred.antt =====
-- The selected backend has the best rank of all that are available.
use mathlib.Core.List.{Memᴰ}
use jaull.Base.{
  ℕ, ◌+◌, ◌≤◌, ◌≡◌, true, false, Option, none, some, List, [], ◌∷◌, ◌++◌, choose, prepend, All,
  arith, refl, sym, ap, ◌∙◌, Bool-cases, Option-cases, inl, inr, Mem-append_left, Mem-append_right,
  Mem-choose,
}
use jaull.Hardware.{
  HardwareProfile, AcceleratorProfile, ComputeBackendInfo, is_software, is_available,
}
use jaull.Runtime.Backend.{
  RankedCandidate, policy_rank, rank_backend, selection_reason, candidates_from, ranks_before,
  insert_ranked, sort_ranked, ranked_candidates, selection_of, select_runtime_backend,
}

-- The rank bounds those of the list from below.
abbrev pub Below : ℕ → List RankedCandidate → Type 0
Below rank items = All (λ item. rank ≤ item.backend_rank) items

abbrev pub Least : List RankedCandidate → Type 0
Least [] = Unit
Least (x ∷ xs) = Below x.backend_rank xs

insert-Below :
    (rank : ℕ) (x : RankedCandidate) (ys : List RankedCandidate)
    → rank ≤ x.backend_rank
    → Below rank ys
    → Below rank (insert_ranked x ys)
unfolding insert_ranked
insert-Below rank x [] h below = (h, tt)
insert-Below rank x (y ∷ ys) h (here, later) = elim (Bool-cases (ranks_before y x)) [
  | inl before ↦ rw (before) ((here, insert-Below rank x ys h later))
  | inr after ↦ rw (after) ((h, (here, later)))
]

Below-weaker :
    {low high : ℕ} (items : List RankedCandidate) → low ≤ high → Below high items → Below low items
Below-weaker [] h below = tt
Below-weaker (x ∷ xs) h (here, later) = (omega arith, Below-weaker xs h later)

ranks_before-true :
    (a b : RankedCandidate) → ranks_before a b ≡ true → a.backend_rank ≤ b.backend_rank
unfolding ranks_before
ranks_before-true a b h = ground arith

ranks_before-false :
    (a b : RankedCandidate) → ranks_before a b ≡ false → b.backend_rank ≤ a.backend_rank
unfolding ranks_before
ranks_before-false a b h = ground arith

insert-Least :
    (x : RankedCandidate) (ys : List RankedCandidate) → Least ys → Least (insert_ranked x ys)
unfolding insert_ranked
insert-Least x [] least = tt
insert-Least x (y ∷ ys) least = elim (Bool-cases (ranks_before y x)) [
  | inl before ↦ rw (before) (insert-Below y.backend_rank x ys (ranks_before-true y x before) least)
  | inr after ↦ let le = ranks_before-false y x after in rw (after) ((le, Below-weaker ys le least))
]

sort-Least : (xs : List RankedCandidate) → Least (sort_ranked xs)
unfolding sort_ranked
sort-Least [] = tt
sort-Least (x ∷ xs) = insert-Least x (sort_ranked xs) (sort-Least xs)

-- A candidate carries the rank of its backend in the policy of its accelerator's vendor.
pub record IsRanked (c : RankedCandidate) : Type 0 where
  pub accelerator : AcceleratorProfile
  pub known : c.candidate.accelerator ≡ some accelerator
  pub rank : policy_rank accelerator.vendor c.candidate.backend ≡ some c.backend_rank

insert-IsRanked :
    (x : RankedCandidate) (ys : List RankedCandidate)
    → IsRanked x
    → All IsRanked ys
    → All IsRanked (insert_ranked x ys)
unfolding insert_ranked
insert-IsRanked x [] h ranked = (h, tt)
insert-IsRanked x (y ∷ ys) h (here, later) = elim (Bool-cases (ranks_before y x)) [
  | inl before ↦ rw (before) ((here, insert-IsRanked x ys h later))
  | inr after ↦ rw (after) ((h, (here, later)))
]

sort-IsRanked : (xs : List RankedCandidate) → All IsRanked xs → All IsRanked (sort_ranked xs)
unfolding sort_ranked
sort-IsRanked [] ranked = tt
sort-IsRanked (x ∷ xs) (here, later) =
    insert-IsRanked x (sort_ranked xs) here (sort-IsRanked xs later)

rank_backend-IsRanked :
    (index : ℕ) (a : AcceleratorProfile) (info : ComputeBackendInfo) {c : RankedCandidate}
    → rank_backend index a info ≡ some c
    → IsRanked c
unfolding rank_backend selection_reason
rank_backend-IsRanked index a info {c} e = elim (Bool-cases (is_available info.availability)) [
  | inr off ↦ absurd (ground arith)
  | inl on ↦ elim (Option-cases (policy_rank a.vendor info.backend)) [
    | inl outside ↦ absurd (ground arith)
    | inr (rank, r) ↦
        let b : info.backend ≡ c.candidate.backend = ground arith in
        let k : rank ≡ c.backend_rank = ground arith in
        record {
          accelerator = a;
          known = ground arith;
          rank = ap (policy_rank a.vendor) (sym b) ∙ r ∙ ap some k;
        }
  ]
]

prepend-IsRanked :
    (o : Option RankedCandidate) (xs : List RankedCandidate)
    → ((c : RankedCandidate) → o ≡ some c → IsRanked c)
    → All IsRanked xs
    → All IsRanked (prepend o xs)
prepend-IsRanked none xs h ranked = ranked
prepend-IsRanked (some c) xs h ranked = (h c refl, ranked)

choose-IsRanked :
    (index : ℕ) (a : AcceleratorProfile) (infos : List ComputeBackendInfo)
    → All IsRanked (choose (rank_backend index a) infos)
choose-IsRanked index a [] = tt
choose-IsRanked index a (info ∷ infos) =
    prepend-IsRanked (rank_backend index a info) (choose (rank_backend index a) infos)
      (λ c e. rank_backend-IsRanked index a info e) (choose-IsRanked index a infos)

append-IsRanked :
    (xs ys : List RankedCandidate) → All IsRanked xs → All IsRanked ys → All IsRanked (xs ++ ys)
append-IsRanked [] ys h h' = h'
append-IsRanked (x ∷ xs) ys (here, later) h' = (here, append-IsRanked xs ys later h')

candidates_from-IsRanked :
    (index : ℕ) (as' : List AcceleratorProfile) → All IsRanked (candidates_from index as')
unfolding candidates_from
candidates_from-IsRanked index [] = tt
candidates_from-IsRanked index (a ∷ as') = elim (Bool-cases (is_software a.type)) [
  | inl software ↦ rw (software) (candidates_from-IsRanked (index + 1) as')
  | inr hardware ↦ rw (hardware) (
      append-IsRanked _ _ (choose-IsRanked index a a.backends)
        (candidates_from-IsRanked (index + 1) as'))
]

rank_backend-some :
    (index : ℕ) (a : AcceleratorProfile) (info : ComputeBackendInfo) {rank : ℕ}
    → is_available info.availability ≡ true
    → policy_rank a.vendor info.backend ≡ some rank
    → (c : RankedCandidate) × (rank_backend index a info ≡ some c) × (c.backend_rank ≡ rank)
unfolding rank_backend
rank_backend-some index a info {rank} on r = elim (Option-cases (rank_backend index a info)) [
  | inl nothing ↦ absurd (ground arith)
  | inr (c, made) ↦ (c, made, ground arith)
]

-- An available backend in the policy is among the candidates, with its rank.
candidates_from-Mem :
    (index : ℕ) (as' : List AcceleratorProfile) {a : AcceleratorProfile} {info : ComputeBackendInfo}
    {rank : ℕ}
    → Memᴰ a as'
    → is_software a.type ≡ false
    → Memᴰ info a.backends
    → is_available info.availability ≡ true
    → policy_rank a.vendor info.backend ≡ some rank
    → (c : RankedCandidate) × Memᴰ c (candidates_from index as') × (c.backend_rank ≡ rank)
unfolding candidates_from rank_backend
candidates_from-Mem index [] t hard mem on r = elim t [ ]
candidates_from-Mem index (x ∷ as') {a} {info} {rank} (Memᴰ.head e) hard mem on r =
    let (c, made, same) = rank_backend-some index a info on r in
    (
      c,
      rw (← e, hard) (Mem-append_left _ (Mem-choose (rank_backend index a) a.backends mem made)),
      same,
    )
candidates_from-Mem index (x ∷ as') (Memᴰ.tail t) hard mem on r =
    let (c, there, same) = candidates_from-Mem (index + 1) as' t hard mem on r in
    (c, Mem-append_right _ there, same)

Below-Mem :
    (rank : ℕ) (xs : List RankedCandidate) {c : RankedCandidate}
    → Below rank xs
    → Memᴰ c xs
    → rank ≤ c.backend_rank
Below-Mem rank [] below t = elim t [ ]
Below-Mem rank (x ∷ xs) (here, later) (Memᴰ.head e) = rw (e) here
Below-Mem rank (x ∷ xs) (here, later) (Memᴰ.tail t) = Below-Mem rank xs later t

insert-Mem :
    (x : RankedCandidate) (ys : List RankedCandidate) {c : RankedCandidate}
    → Memᴰ c (x ∷ ys)
    → Memᴰ c (insert_ranked x ys)
unfolding insert_ranked
insert-Mem x [] t = t
insert-Mem x (y ∷ ys) t = elim (Bool-cases (ranks_before y x)) [
  | inr after ↦ rw (after) t
  | inl before ↦ rw (before) (elim t [
    | Memᴰ.head e ↦ Memᴰ.tail (insert-Mem x ys (Memᴰ.head e))
    | Memᴰ.tail (Memᴰ.head e) ↦ Memᴰ.head e
    | Memᴰ.tail (Memᴰ.tail later) ↦ Memᴰ.tail (insert-Mem x ys (Memᴰ.tail later))
  ])
]

sort-Mem : (xs : List RankedCandidate) {c : RankedCandidate} → Memᴰ c xs → Memᴰ c (sort_ranked xs)
unfolding sort_ranked
sort-Mem [] t = t
sort-Mem (x ∷ xs) (Memᴰ.head e) = insert-Mem x (sort_ranked xs) (Memᴰ.head e)
sort-Mem (x ∷ xs) (Memᴰ.tail t) = insert-Mem x (sort_ranked xs) (Memᴰ.tail (sort-Mem xs t))

-- The selection names a backend in the policy of its accelerator's vendor, of at most this rank.
pub record Prefers (hardware : HardwareProfile) (rank : ℕ) : Type 0 where
  pub accelerator : AcceleratorProfile
  pub selected_rank : ℕ
  pub selected : (select_runtime_backend hardware).selected_accelerator ≡ some accelerator
  pub in_policy :
      policy_rank accelerator.vendor (select_runtime_backend hardware).selected_backend
      ≡ some selected_rank
  pub no_worse : selected_rank ≤ rank

first-Prefers :
    (hardware : HardwareProfile) (items : List RankedCandidate) {c : RankedCandidate}
    → ranked_candidates hardware ≡ items
    → Least items
    → All IsRanked items
    → Memᴰ c items
    → Prefers hardware c.backend_rank
unfolding select_runtime_backend selection_of
first-Prefers hardware [] e least ranked t = elim t [ ]
first-Prefers hardware (first ∷ rest) {c} e least (here, later) t = record {
  accelerator = here.accelerator;
  selected_rank = first.backend_rank;
  selected = rw (e) here.known;
  in_policy = rw (e) here.rank;
  no_worse = Below-Mem first.backend_rank (first ∷ rest) (omega arith, least) t;
}

-- If an accelerator that is no software renderer has an available backend in its vendor's policy, the
-- selection is not the CPU: it is a backend in its own accelerator's policy, of no worse rank.
pub select_runtime_backend-Prefers :
    (hardware : HardwareProfile) (a : AcceleratorProfile) (info : ComputeBackendInfo) {rank : ℕ}
    → Memᴰ a hardware.accelerators
    → is_software a.type ≡ false
    → Memᴰ info a.backends
    → is_available info.availability ≡ true
    → policy_rank a.vendor info.backend ≡ some rank
    → Prefers hardware rank
unfolding ranked_candidates
select_runtime_backend-Prefers hardware a info t hard mem on r =
    let (c, there, same) = candidates_from-Mem 0 hardware.accelerators t hard mem on r in
    let all = candidates_from 0 hardware.accelerators in
    rw (← same) (
      first-Prefers hardware (sort_ranked all) refl (sort-Least all)
        (sort-IsRanked all (candidates_from-IsRanked 0 hardware.accelerators)) (sort-Mem all there))
