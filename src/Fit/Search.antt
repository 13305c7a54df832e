-- ===== src/Fit/Search.antt =====
-- The two search loops of `_try_gpu_offload`, over the function that builds a placement.
use jaull.Base.{
  ℕ, zero, suc, ◌+◌, ◌-◌, ◌/◌, Bool, true, false, Option, none, some, leb, if◌then◌else◌,
}

module _ {P : Type 0} (placement_at : ℕ → Option P) (fits : P → Bool) where
  -- `for n in range(ceiling, 0, -1)`: the first placement that fits, its count, and the last one
  -- that was rejected before it, with its count.
  unfoldable pub search_blocks : ℕ → Option (ℕ × P) → Option (ℕ × P × Option (ℕ × P))
  search_blocks zero last_rejected = none
  search_blocks (suc n) last_rejected = elim (placement_at (suc n)) [
    | none ↦ search_blocks n last_rejected
    | some placement ↦ elim (fits placement) [
      | true ↦ some (suc n, placement, last_rejected)
      | false ↦ search_blocks n (some (suc n, placement))
    ]
  ]

  -- `placement is not None and placement.gpu_required_bytes <= available_vram`
  unfoldable pub admissible : ℕ → Option P
  admissible n = elim (placement_at n) [
    | none ↦ none
    | some placement ↦ if fits placement then some placement else none
  ]

  -- `while low <= high`, with fuel.
  unfoldable pub search_bytes : ℕ → ℕ → ℕ → Option P → Option P
  unfolding admissible
  search_bytes zero low high best = best
  search_bytes (suc fuel) low high best = elim (leb low high) [
    | false ↦ best
    | true ↦ elim (admissible ((low + high) / 2)) [
      | some placement ↦ search_bytes fuel ((low + high) / 2 + 1) high (some placement)
      | none ↦ search_bytes fuel low ((low + high) / 2 - 1) best
    ]
  ]
