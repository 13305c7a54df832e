-- ===== src/Fit/Loops.antt =====
-- The two search loops find the best placement, whatever function builds the placements.
use jaull.Base.{
  ℕ, zero, suc, ◌+◌, ◌-◌, ◌/◌, ◌≤◌, ◌<◌, ◌≡◌, ◌≢◌, sym, ◌∙◌, refl, Bool, true, none, Option, some,
  arith, inl, inr, Bool-cases, Option-cases, leb,
}
use native.Mathlib.Decide.{dec_lt}
use jaull.Fit.Search.{search_blocks, search_bytes, admissible}

add_sub_one : {n : ℕ} → n + 1 - 1 ≡ n
add_sub_one = omega arith

none≢some : {A : Type 0} {a : A} → ◌≢◌ {A = Option A} none (some a)
none≢some e = cc

module _ {P : Type 0} (placement_at : ℕ → Option P) (fits : P → Bool) where
  -- A count at which there is a placement, and it fits.
  pub record Feasible (n : ℕ) : Type 0 where
    pub placement : P
    pub built : placement_at n ≡ some placement
    pub fitting : fits placement ≡ true

  -- What the block search returns is feasible, at most the ceiling and at least one.
  pub search_blocks-Feasible :
      (ceiling : ℕ) (last : Option (ℕ × P)) {n : ℕ} {p : P} {rejected : Option (ℕ × P)}
      → search_blocks placement_at fits ceiling last ≡ some (n, p, rejected)
      → (placement_at n ≡ some p) × (fits p ≡ true) × (0 < n) × (n ≤ ceiling)
  unfolding search_blocks
  search_blocks-Feasible zero last e = cc
  search_blocks-Feasible (suc k) last {n} {p} {rejected} e =
      elim (Option-cases (placement_at (suc k))) [
        | inl nothing ↦
            ground (arith, search_blocks-Feasible k last {n = n} {p = p} {rejected = rejected})
        | inr (q, built) ↦ ground (
          arith,
          search_blocks-Feasible k (some (suc k, q)) {n = n} {p = p} {rejected = rejected},
        )
      ]

  -- It returns the largest feasible count up to the ceiling, and nothing only if there is none.
  pub search_blocks_largest :
      (ceiling : ℕ) (last : Option (ℕ × P)) (m : ℕ)
      → Feasible m
      → 0 < m
      → m ≤ ceiling
      → (n : ℕ) × (p : P) × (rejected : Option (ℕ × P)) × (search_blocks placement_at fits ceiling
            last
          ≡ some (n, p, rejected))
        × (m ≤ n)
  unfolding search_blocks
  search_blocks_largest zero last m f pos le = absurd (omega arith)
  search_blocks_largest (suc k) last m f pos le = elim (Option-cases (placement_at (suc k))) [
    | inl nothing ↦
        let (n, p, rejected, found, best) =
          search_blocks_largest k last m f pos (ground (arith, f.built, f.fitting)) in
        (n, p, rejected, ground arith, best)
    | inr (q, built) ↦ elim (Bool-cases (fits q)) [
      | inl good ↦ (suc k, q, last, ground arith, le)
      | inr bad ↦
          let (n, p, rejected, found, best) =
            search_blocks_largest k (some (suc k, q)) m f pos
              (ground (arith, f.built, f.fitting)) in
          (n, p, rejected, ground arith, best)
    ]
  ]

  pub admissible_parts :
      (n : ℕ) {p : P}
      → admissible placement_at fits n ≡ some p
      → (placement_at n ≡ some p) × (fits p ≡ true)
  unfolding admissible
  admissible_parts n {p} e = elim (Option-cases (placement_at n)) [
    | inl nothing ↦ absurd (ground arith)
    | inr (q, built) ↦ ground arith
  ]

  Feasible-admissible : (n : ℕ) (f : Feasible n) → admissible placement_at fits n ≡ some f.placement
  unfolding admissible
  Feasible-admissible n f = ground (arith, f.built, f.fitting)

  -- Whatever the binary search returns was built and fits.
  pub search_bytes_sound :
      (fuel low high : ℕ) (best : Option P)
      → ((q : P) → best ≡ some q → (n : ℕ) × (admissible placement_at fits n ≡ some q))
      → {p : P} → search_bytes placement_at fits fuel low high best ≡ some p
      → (n : ℕ) × (admissible placement_at fits n ≡ some p)
  unfolding search_bytes
  search_bytes_sound zero low high best h {p} e = h p e
  search_bytes_sound (suc fuel) low high best h {p} e =
      let mid = (low + high) / 2 in
      elim (Bool-cases (leb low high)) [
        | inr over ↦ h p (ground arith)
        | inl more ↦ elim (Option-cases (admissible placement_at fits mid)) [
          | inl nothing ↦ search_bytes_sound fuel low (mid - 1) best h (ground arith)
          | inr (q, here) ↦
              search_bytes_sound fuel (mid + 1) high (some q) (λ q' same. (mid, cc)) (ground arith)
        ]
      ]

  -- The best so far stands just below `low`; before the first success `low` is still 1.
  abbrev BestBelow : ℕ → Option P → Type 0
  BestBelow low none = low ≡ 1
  BestBelow low (some p) = admissible placement_at fits (low - 1) ≡ some p

  -- No feasible count lies at or above one that fails.
  lt_failing :
      (closed : (a b : ℕ) → 0 < a → a ≤ b → Feasible b → Feasible a) (mid m : ℕ)
      → Feasible m
      → 0 < mid
      → admissible placement_at fits mid ≡ none
      → m < mid
  lt_failing closed mid m f pos nothing = elim (dec_lt m mid) [
    | yes below ↦ below
    | no above ↦
        let e = Feasible-admissible mid (closed mid m pos (omega arith) f) in
        absurd (none≢some (sym nothing ∙ e))
  ]

  settled :
      (low high : ℕ) (best : Option P) (m : ℕ)
      → 0 < m
      → m ≤ high
      → high < low
      → BestBelow low best
      → (n : ℕ) × (p : P) × (best ≡ some p) × (admissible placement_at fits n ≡ some p) × (m ≤ n)
  settled low high none m pos le over b = absurd (omega arith)
  settled low high (some p) m pos le over b = (low - 1, p, refl, b, omega arith)

  -- Where a smaller positive allocation fits whenever a larger one does, the binary search returns
  -- the placement of a count no smaller than any feasible count up to `high`.
  pub search_bytes_largest :
      (closed : (a b : ℕ) → 0 < a → a ≤ b → Feasible b → Feasible a) (fuel low high : ℕ)
      (best : Option P) (m : ℕ)
      → Feasible m
      → 0 < m
      → m ≤ high
      → 0 < low
      → high < low + fuel
      → BestBelow low best
      → (n : ℕ) × (p : P) × (search_bytes placement_at fits fuel low high best ≡ some p)
        × (admissible placement_at fits n ≡ some p)
        × (m ≤ n)
  unfolding search_bytes
  search_bytes_largest closed zero low high best m f pos le start room b =
      settled low high best m pos le (omega arith) b
  search_bytes_largest closed (suc fuel) low high best m f pos le start room b =
      let mid = (low + high) / 2 in
      elim (Bool-cases (leb low high)) [
        | inr over ↦
            let (n, p, e, at, bound) = settled low high best m pos le (ground arith) b in
            (n, p, ground arith, at, bound)
        | inl more ↦ elim (Option-cases (admissible placement_at fits mid)) [
          | inr (q, here) ↦
              let (n, p, found, at, bound) =
                search_bytes_largest closed fuel (mid + 1) high (some q) m f pos le (omega arith)
                  (ground arith) (rw add_sub_one here) in
              (n, p, ground arith, at, bound)
          | inl nothing ↦
              let (n, p, found, at, bound) =
                search_bytes_largest closed fuel low (mid - 1) best m f pos
                  (omega (arith, lt_failing closed mid m f (omega arith) nothing)) start
                  (ground arith) b in
              (n, p, ground arith, at, bound)
        ]
      ]
