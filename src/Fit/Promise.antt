-- ===== src/Fit/Promise.antt =====
-- What a `HardwareFitResult` promises, by its mode.
use jaull.Base.{ℕ, ◌+◌, ◌≤◌, ◌<◌, ◌≡◌, Option, some}
use jaull.Fit.Placement.{Demand}
use jaull.Estimation.{HardwareFitMode, HardwareMemoryTopology, HardwareFitResult}

-- Each component of the demand is divided between the two pools with no byte lost or created.
pub record Conserves (fit : HardwareFitResult) : Type 0 where
  pub weights : fit.gpu_weight_bytes + fit.ram_weight_bytes ≡ fit.weights_bytes
  pub kv_cache : fit.gpu_kv_cache_bytes + fit.ram_kv_cache_bytes ≡ fit.kv_cache_bytes
  pub overhead : fit.gpu_overhead_bytes + fit.ram_overhead_bytes ≡ fit.overhead_bytes
  pub margin : fit.gpu_safety_margin_bytes + fit.ram_safety_margin_bytes ≡ fit.safety_margin_bytes

abbrev pub gpu_sum : HardwareFitResult → ℕ
gpu_sum fit =
    fit.gpu_weight_bytes + fit.gpu_kv_cache_bytes + fit.device_reserve_bytes
    + fit.gpu_overhead_bytes + fit.gpu_safety_margin_bytes

abbrev pub ram_sum : HardwareFitResult → ℕ
ram_sum fit =
    fit.ram_weight_bytes + fit.ram_kv_cache_bytes + fit.ram_overhead_bytes
    + fit.ram_safety_margin_bytes

-- `required` is known and within the known `available`; `Exceeds` is the opposite.
abbrev pub Within : Option ℕ → Option ℕ → Type 0
Within (some required) (some available) = required ≤ available
Within _ _ = ⊥

abbrev pub Exceeds : Option ℕ → Option ℕ → Type 0
Exceeds (some required) (some available) = available < required
Exceeds _ _ = ⊥

-- The budgets that the mode claims to fit do fit, and are the sums of their shares. On unified
-- memory the reserve is charged to the one pool.
abbrev pub Promise : HardwareFitMode → HardwareMemoryTopology → HardwareFitResult → Type 0
Promise HardwareFitMode.gpu_resident _ fit =
    (fit.gpu_required_bytes ≡ some (gpu_sum fit))
    × (fit.ram_weight_bytes ≡ 0)
    × Within fit.gpu_required_bytes fit.available_vram_bytes
Promise HardwareFitMode.gpu_offload _ fit =
    (fit.gpu_required_bytes ≡ some (gpu_sum fit))
    × (fit.ram_required_bytes ≡ some (ram_sum fit))
    × Within fit.gpu_required_bytes fit.available_vram_bytes
    × Within fit.ram_required_bytes fit.available_ram_bytes
    × (0 < fit.gpu_weight_bytes)
    × (0 < fit.ram_weight_bytes)
Promise HardwareFitMode.cpu_ram HardwareMemoryTopology.discrete_memory fit =
    (fit.ram_required_bytes ≡ some (ram_sum fit))
    × (fit.gpu_weight_bytes ≡ 0)
    × Within fit.ram_required_bytes fit.available_ram_bytes
Promise HardwareFitMode.cpu_ram HardwareMemoryTopology.unified_memory fit =
    (fit.ram_required_bytes ≡ some (ram_sum fit + fit.device_reserve_bytes))
    × (fit.gpu_weight_bytes ≡ 0)
    × Within fit.ram_required_bytes fit.available_ram_bytes
Promise HardwareFitMode.too_large HardwareMemoryTopology.discrete_memory fit =
    (fit.ram_required_bytes ≡ some (ram_sum fit))
    × (fit.gpu_weight_bytes ≡ 0)
    × Exceeds fit.ram_required_bytes fit.available_ram_bytes
Promise HardwareFitMode.too_large HardwareMemoryTopology.unified_memory fit =
    (fit.ram_required_bytes ≡ some (ram_sum fit + fit.device_reserve_bytes))
    × (fit.gpu_weight_bytes ≡ 0)
    × Exceeds fit.ram_required_bytes fit.available_ram_bytes

-- A result that conserves the demand and keeps the promise of its mode.
pub record IsSound (fit : HardwareFitResult) : Type 0 where
  pub conserves : Conserves fit
  pub promise : Promise fit.mode fit.memory_topology fit

-- A sound result that is about this demand and these pools: its components are those of the demand,
-- and the memory that it compares them with is `vram` and `ram`.
pub record IsPlacement (d : Demand) (topology : HardwareMemoryTopology) (vram : Option ℕ) (ram : ℕ)
    (fit : HardwareFitResult) : Type 0 where
  pub sound : IsSound fit
  pub weights : fit.weights_bytes ≡ d.weights_bytes
  pub kv_cache : fit.kv_cache_bytes ≡ d.kv_cache_bytes
  pub overhead : fit.overhead_bytes ≡ d.overhead_bytes
  pub reserve : fit.device_reserve_bytes ≡ d.device_reserve_bytes
  pub margin : fit.safety_margin_bytes ≡ d.safety_margin_bytes
  pub memory_topology : fit.memory_topology ≡ topology
  pub available_vram : fit.available_vram_bytes ≡ vram
  pub available_ram : fit.available_ram_bytes ≡ some ram
