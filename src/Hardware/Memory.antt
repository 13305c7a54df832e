-- ===== src/Hardware/Memory.antt =====
-- Which accelerator memory `available_accelerator_memory_bytes` reports.
use mathlib.Core.List.{Memᴰ}
use jaull.Base.{
  ℕ, ◌≤◌, ◌≡◌, ◌≢◌, refl, false, none, some, List, [], ◌∷◌, ◌++◌, map, max_of, choose,
  Mem-append_left, Mem-append_right, Mem-map, Mem-choose, choose-Mem, arith, ◌⊎◌, inl, inr,
  Option-cases,
}
use jaull.Hardware.{
  GpuInfo, AcceleratorProfile, AcceleratorType, HardwareProfile, dedicated_value,
  available_accelerator_memory_bytes,
}

max_of-ne-none : {b : ℕ} (xs : List ℕ) → Memᴰ b xs → max_of xs ≢ none
max_of-ne-none [] t h = elim t [ ]
max_of-ne-none (x ∷ xs) t h = ground arith

le-max_of : {b : ℕ} (xs : List ℕ) {m : ℕ} → Memᴰ b xs → max_of xs ≡ some m → b ≤ m
le-max_of [] t h = elim t [ ]
le-max_of (x ∷ xs) (Memᴰ.head e) h = ground arith
le-max_of (x ∷ xs) (Memᴰ.tail t) h = elim (Option-cases (max_of xs)) [
  | inl empty ↦ absurd (max_of-ne-none xs t empty)
  | inr (m', e) ↦ ground (arith, le-max_of xs t e)
]

pub max_of-Mem : (xs : List ℕ) {m : ℕ} → max_of xs ≡ some m → Memᴰ m xs
max_of-Mem [] h = cc
max_of-Mem (x ∷ xs) {m} h = elim (Option-cases (max_of xs)) [
  | inl empty ↦ Memᴰ.head (ground arith)
  | inr (m', e) ↦ elim (larger x m') [
    | inl first ↦ Memᴰ.head (ground arith)
    | inr rest ↦ let e' : max_of xs ≡ some m = ground arith in Memᴰ.tail (max_of-Mem xs e')
  ]
]
  where
    larger : (a b : ℕ) → (b ≤ a) ⊎ (a ≤ b)
    larger a b = omega arith

-- A known budget: the free memory of an NVML GPU, or of a dedicated accelerator of its own.
pub data HasBudget (hardware : HardwareProfile) (bytes : ℕ) : Type 0 where
  gpu :
      (g : GpuInfo)
      → Memᴰ g hardware.gpus
      → bytes ≡ g.vram_available_bytes
      → HasBudget hardware bytes
  accelerator :
      (a : AcceleratorProfile)
      → Memᴰ a hardware.accelerators
      → a.type ≡ AcceleratorType.dedicated
      → a.shared_memory ≡ false
      → a.available_memory_bytes ≡ some bytes
      → HasBudget hardware bytes

gpu_values-Mem :
    {b : ℕ} (gs : List GpuInfo) (rest : List ℕ)
    → Memᴰ b (map (λ g. g.vram_available_bytes) gs ++ rest)
    → ((g : GpuInfo) × Memᴰ g gs × (b ≡ g.vram_available_bytes)) ⊎ Memᴰ b rest
gpu_values-Mem [] rest t = inr t
gpu_values-Mem (g ∷ gs) rest (Memᴰ.head e) = inl (g, Memᴰ.head refl, e)
gpu_values-Mem (g ∷ gs) rest (Memᴰ.tail t) = elim (gpu_values-Mem gs rest t) [
  | inl (h, mem, e) ↦ inl (h, Memᴰ.tail mem, e)
  | inr later ↦ inr later
]

dedicated_value_lem :
    (a : AcceleratorProfile) {b : ℕ}
    → dedicated_value (λ x. x.available_memory_bytes) a ≡ some b
    → (a.type ≡ AcceleratorType.dedicated)
      × (a.shared_memory ≡ false)
      × (a.available_memory_bytes ≡ some b)
dedicated_value_lem a h = ground arith

-- The budgets found are those that are known.
budgets : HardwareProfile → List ℕ
budgets hardware =
    map (λ gpu. gpu.vram_available_bytes) hardware.gpus
    ++ choose (dedicated_value (λ a. a.available_memory_bytes)) hardware.accelerators

Mem-budgets :
    (hardware : HardwareProfile) {b : ℕ} → Memᴰ b (budgets hardware) → HasBudget hardware b
unfolding budgets
Mem-budgets hardware t = elim (gpu_values-Mem hardware.gpus _ t) [
  | inl (g, mem, e) ↦ HasBudget.gpu g mem e
  | inr later ↦
      let (a, mem, e) = choose-Mem _ hardware.accelerators later in
      let (dedicated, own, known) = dedicated_value_lem a e in
      HasBudget.accelerator a mem dedicated own known
]

HasBudget-Mem :
    (hardware : HardwareProfile) {b : ℕ} → HasBudget hardware b → Memᴰ b (budgets hardware)
unfolding budgets
HasBudget-Mem hardware (HasBudget.gpu g mem e) =
    Mem-append_left _ (Mem-map (λ gpu. gpu.vram_available_bytes) hardware.gpus mem e)
HasBudget-Mem hardware (HasBudget.accelerator a mem dedicated own known) =
    Mem-append_right (map (λ gpu. gpu.vram_available_bytes) hardware.gpus)
      (Mem-choose _ hardware.accelerators mem (ground arith))

-- Where some budget is known, `available_accelerator_memory_bytes` returns the largest known one:
-- shared memory never counts, and no known budget is above what it returns.
pub available_accelerator_memory_bytes_largest :
    (hardware : HardwareProfile) (b : ℕ)
    → HasBudget hardware b
    → (m : ℕ) × (available_accelerator_memory_bytes hardware ≡ some m)
      × HasBudget hardware m
      × (b ≤ m)
unfolding available_accelerator_memory_bytes budgets
available_accelerator_memory_bytes_largest hardware b known =
    let mem = HasBudget-Mem hardware known in
    elim (Option-cases (available_accelerator_memory_bytes hardware)) [
      | inl e ↦ absurd (max_of-ne-none (budgets hardware) mem e)
      | inr (m, e) ↦ (
        m,
        e,
        Mem-budgets hardware (max_of-Mem (budgets hardware) e),
        le-max_of (budgets hardware) mem e,
      )
    ]
