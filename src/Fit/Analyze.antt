-- ===== src/Fit/Analyze.antt =====
-- The classification: `_memory_topology` and `analyze_components`.
use jaull.Base.{
  ℕ, ◌≡◌, refl, Option, none, some, List, [], ◌∷◌, leb, ltb, ◌==◌, not, any, if◌then◌else◌, is_some,
}
use jaull.Hardware.{HardwareProfile, available_accelerator_memory_bytes}
use jaull.Estimation.{
  HardwareFitMode, HardwareMemoryTopology, HardwareFitResult, TransformerBlockWeightDecomposition,
  Reason, Warning,
}
use jaull.Fit.Floats.{Floats}
use jaull.Fit.Placement.{Demand}
use jaull.Fit.Results.{
  gpu_required_if_resident, cpu_required, resident_result, host_result, analyze_unified_memory,
}
use jaull.Fit.Offload.{WeightSplit, decomposed, try_gpu_offload}

-- The exceptions: the three `ValueError`s of the analysis, and what its callers can meet, a
-- configuration with zero attention heads and a failed `assert`.
pub data Failure : Type 0 where
  block_counts_differ weights_differ decomposition_blocks_differ zero_heads assertion : Failure

pub data Checked (A : Type 0) : Type 0 where
  ok : A → Checked A
  raised : Failure → Checked A

infixl 5 ◌>>=◌
abbrev pub ◌>>=◌ : {A B : Type 0} → Checked A → (A → Checked B) → Checked B
Checked.ok a >>= f = f a
Checked.raised e >>= f = Checked.raised e

pub >>=-eq-ok :
    {A B : Type 0} (m : Checked A) (f : A → Checked B) {b : B}
    → (m >>= f) ≡ Checked.ok b
    → (a : A) × (m ≡ Checked.ok a) × (f a ≡ Checked.ok b)
>>=-eq-ok (Checked.ok a) f h = (a, refl, h)
>>=-eq-ok (Checked.raised e) f h = cc

unfoldable pub memory_topology : HardwareProfile → HardwareMemoryTopology
memory_topology hardware =
    if is_some (available_accelerator_memory_bytes hardware)
    then HardwareMemoryTopology.discrete_memory
    else if any (λ accelerator. accelerator.shared_memory) hardware.accelerators
    then HardwareMemoryTopology.unified_memory
    else HardwareMemoryTopology.discrete_memory

-- `total_layers` is the legacy alias of `total_transformer_blocks`.
unfoldable pub merge_block_counts : Option ℕ → Option ℕ → Checked (Option ℕ)
merge_block_counts none layers = Checked.ok layers
merge_block_counts (some blocks) none = Checked.ok (some blocks)
merge_block_counts (some blocks) (some layers) =
    if blocks == layers
    then Checked.ok (some blocks)
    else Checked.raised Failure.block_counts_differ

-- The checks of a decomposition against the weights and the block count.
unfoldable pub check_decomposition :
    ℕ → Option ℕ → Option TransformerBlockWeightDecomposition → Checked (Option ℕ)
check_decomposition weights_bytes blocks none = Checked.ok blocks
check_decomposition weights_bytes none (some w) =
    if w.total_weight_bytes == weights_bytes
    then Checked.ok (some w.total_transformer_blocks)
    else Checked.raised Failure.weights_differ
check_decomposition weights_bytes (some blocks) (some w) =
    if not (w.total_weight_bytes == weights_bytes)
    then Checked.raised Failure.weights_differ
    else if blocks == w.total_transformer_blocks
    then Checked.ok (some blocks)
    else Checked.raised Failure.decomposition_blocks_differ

-- `planning_warnings`, for a machine with known VRAM.
abbrev pub planning_warnings : Option WeightSplit → List Warning
planning_warnings none = []
planning_warnings (some split) =
    if ltb 0 split.non_block_bytes then Warning.offload_not_guaranteed ∷ [] else []

-- What follows once offload is out of the question.
unfoldable pub host_or_nothing :
    Demand → Option ℕ → ℕ → Option ℕ → HardwareMemoryTopology → List Warning → HardwareFitResult
unfolding host_result
host_or_nothing d available_vram available_ram blocks topology warnings =
    if leb (cpu_required d) available_ram
    then host_result HardwareFitMode.cpu_ram (Reason.fits_in_ram (is_some available_vram)) d
        available_vram available_ram blocks topology warnings
    else host_result HardwareFitMode.too_large Reason.no_placement_fits d available_vram
        available_ram blocks topology warnings

-- The discrete-memory branches, given the two pools.
unfoldable pub analyze_discrete :
    Floats
    → Demand
    → Option ℕ
    → ℕ
    → Option ℕ
    → HardwareMemoryTopology
    → Option TransformerBlockWeightDecomposition
    → HardwareFitResult
unfolding resident_result host_or_nothing
analyze_discrete fl d none available_ram blocks topology weight_decomposition =
    host_or_nothing d none available_ram blocks topology []
analyze_discrete fl d (some available_vram) available_ram blocks topology weight_decomposition =
    if leb (gpu_required_if_resident d) available_vram
    then resident_result d available_vram available_ram blocks topology
    else (elim (try_gpu_offload fl d
        (record { available_vram = available_vram; available_ram = available_ram }) blocks topology
        weight_decomposition) [
          | some offload ↦ offload
          | none ↦
              host_or_nothing d (some available_vram) available_ram blocks topology
                (planning_warnings (decomposed weight_decomposition))
        ])

unfoldable pub analyze_components :
    Floats
    → Demand
    → HardwareProfile
    → Option ℕ
    → Option ℕ
    → Option TransformerBlockWeightDecomposition
    → Checked HardwareFitResult
unfolding memory_topology merge_block_counts check_decomposition analyze_discrete
    analyze_unified_memory
analyze_components fl d hardware total_transformer_blocks total_layers weight_decomposition = do
  merged ← merge_block_counts total_transformer_blocks total_layers
  blocks ← check_decomposition d.weights_bytes merged weight_decomposition
  Checked.ok (elim (memory_topology hardware) [
    | HardwareMemoryTopology.unified_memory ↦
        analyze_unified_memory d hardware.memory.available_bytes blocks
    | HardwareMemoryTopology.discrete_memory ↦
        analyze_discrete fl d (available_accelerator_memory_bytes hardware)
          hardware.memory.available_bytes blocks HardwareMemoryTopology.discrete_memory
          weight_decomposition
  ])
