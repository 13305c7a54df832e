-- ===== src/Fit/Floats.antt =====
-- The two double-precision expressions of hardware_fit.py, as an interface. Every byte count that
-- the program meets is far below 2 ^ 53, the bound up to which doubles hold all integers.
use jaull.Base.{ℕ, ◌+◌, ◌-◌, ◌*◌, ◌/◌, ◌^◌, ◌≤◌, ◌<◌, ◌≡◌}

pub record Floats : Type 0 where
  -- `math.ceil(a / b)`
  pub ceil_quot : ℕ → ℕ → ℕ
  -- `math.ceil(a * (b / c))`
  pub ceil_share : ℕ → ℕ → ℕ → ℕ

-- What correctly rounded division and multiplication give. The quotient is exact, since two
-- different quotients by `b` lie further apart than the rounding error. The share is rounded twice,
-- so it may differ from the exact ceiling; rounding is monotone and `b / c` is at most 1.
pub record IsRounded (fl : Floats) : Type 0 where
  pub quot_exact : (a b : ℕ) → a ≤ 2 ^ 53 → 0 < b → fl.ceil_quot a b ≡ (a + (b - 1)) / b
  pub share_le : (a b c : ℕ) → a ≤ 2 ^ 53 → b ≤ c → 0 < c → fl.ceil_share a b c ≤ a
  pub share_mono : (a b b' c : ℕ) → b ≤ b' → 0 < c → fl.ceil_share a b c ≤ fl.ceil_share a b' c
  pub share_covers : (a b c : ℕ) → a * c ≤ 2 ^ 51 → b ≤ c → 0 < c → a * b ≤ c * fl.ceil_share a b c
