-- ===== src/Tests/Placement.antt =====
-- Runs of the placement analysis.
use jaull.Base.{ℕ, ◌≤◌, ◌≡◌, refl, some, none, arith}
use jaull.Hardware.{available_accelerator_memory_bytes}
use jaull.Estimation.{HardwareMemoryTopology, HardwareFitResult}
use jaull.Fit.Placement.{Demand, OffloadPlacement}
use jaull.Fit.Offload.{Supply}
use jaull.Fit.Analyze.{memory_topology, analyze_components, analyze_discrete}
use jaull.Fit.Promise.{IsPlacement}
use jaull.Fit.Chosen.{Chosen, analyze_discrete-Chosen}
use jaull.Fit.Outcome.{analyze_components-IsPlacement}
use jaull.Fit.Offload.{try_block_offload, try_byte_offload, WeightSplit, search_ceiling}
use jaull.Fit.Bytes.{BytesFit, try_byte_offload_largest}
use jaull.Fit.Placement.{place}
use jaull.Fit.Conserve.{Balances, calculate_offload_placement-Balances}
use jaull.Fit.Monotone.{calculate_offload_placement_mono}
use jaull.Hardware.Memory.{HasBudget, available_accelerator_memory_bytes_largest}
use mathlib.Core.List.{Memᴰ}
use jaull.Fit.Largest.{BlocksFit, try_block_offload_largest}
use jaull.Inference.{TargetDevice}
use jaull.Fit.Conserve.{IsExact}
use jaull.Compatibility.Components.{Components, demand_of, assessment_from_fit}
use jaull.Compatibility.Outcome.{Reports, assess_components_with_fit-Reports}
use jaull.Samples.{
  exact_floats, exact_floats-IsRounded, sample_demand, sample_demand-IsExact, sample_supply,
  sample_machine, sample_gpu,
}

analyze_discrete-Chosen_example :
    Chosen exact_floats sample_demand sample_supply
      (some 10)
      none
      (analyze_discrete exact_floats sample_demand
        (some 100)
        90
        (some 10)
        HardwareMemoryTopology.discrete_memory
        none).mode
unfolding jaull.Fit.Offload.decomposed
analyze_discrete-Chosen_example =
    analyze_discrete-Chosen exact_floats exact_floats-IsRounded sample_demand sample_demand-IsExact
      sample_supply (some 10) none (omega arith) (omega arith) tt

abbrev offload_fit : HardwareFitResult
offload_fit =
    analyze_discrete exact_floats sample_demand (some 100) 90 (some 10)
      HardwareMemoryTopology.discrete_memory none

analyze_components-IsPlacement_example :
    IsPlacement sample_demand
      (memory_topology sample_machine)
      (available_accelerator_memory_bytes sample_machine)
      sample_machine.memory.available_bytes
      offload_fit
unfolding analyze_components jaull.Fit.Offload.try_gpu_offload available_accelerator_memory_bytes
analyze_components-IsPlacement_example =
    analyze_components-IsPlacement exact_floats exact_floats-IsRounded sample_demand
      sample_demand-IsExact sample_machine (some 10) none none refl

-- Six blocks of ten fit.
abbrev six_blocks :
    BlocksFit exact_floats exact_floats-IsRounded sample_demand sample_supply 10 none 6
unfolding jaull.Fit.Offload.block_placement jaull.Fit.Placement.calculate_offload_placement
    jaull.Fit.Offload.both_fit jaull.Fit.Placement.place_kv_cache
    jaull.Fit.Split.split_heuristic_bytes
six_blocks = record { placement = _; built = refl; fitting = refl }

try_block_offload_largest_example :
    (fit : HardwareFitResult) × (n : ℕ) × (try_block_offload exact_floats sample_demand
        sample_supply 10 HardwareMemoryTopology.discrete_memory none
      ≡ some fit)
    × (fit.gpu_transformer_blocks ≡ some n)
    × (6 ≤ n)
try_block_offload_largest_example =
    try_block_offload_largest exact_floats exact_floats-IsRounded sample_demand sample_supply 10
      HardwareMemoryTopology.discrete_memory none 6 (omega arith) (omega arith) (omega arith)
      (omega arith) tt six_blocks

-- Without a block count, 60 bytes of the weights fit.
abbrev sixty_bytes :
    BytesFit exact_floats exact_floats-IsRounded sample_demand sample_demand-IsExact sample_supply
      none 60
unfolding jaull.Fit.Offload.byte_placement jaull.Fit.Placement.calculate_offload_placement
    jaull.Fit.Offload.fits_vram jaull.Fit.Placement.place_kv_cache
    jaull.Fit.Split.split_heuristic_bytes
sixty_bytes = record { placement = _; built = refl; fitting = refl }

try_byte_offload_largest_example :
    (fit : HardwareFitResult) × (try_byte_offload exact_floats sample_demand sample_supply none
        HardwareMemoryTopology.discrete_memory
      ≡ some fit)
    × (60 ≤ fit.gpu_weight_bytes)
unfolding sixty_bytes
try_byte_offload_largest_example =
    try_byte_offload_largest exact_floats exact_floats-IsRounded sample_demand sample_demand-IsExact
      sample_supply none HardwareMemoryTopology.discrete_memory 60 sixty_bytes (omega arith)

-- Forty and sixty bytes of the weights on the GPU.
abbrev forty : OffloadPlacement
forty = place exact_floats sample_demand (some 10) (some 4) 40 (8, 12)

abbrev sixty : OffloadPlacement
sixty = place exact_floats sample_demand (some 10) (some 4) 60 (8, 12)

calculate_offload_placement-Balances_example : Balances sample_demand forty
unfolding jaull.Fit.Placement.calculate_offload_placement jaull.Fit.Split.split_heuristic_bytes
    jaull.Fit.Placement.place_kv_cache
calculate_offload_placement-Balances_example =
    calculate_offload_placement-Balances exact_floats exact_floats-IsRounded sample_demand (some 10)
      (some 4) 40 sample_demand-IsExact refl

calculate_offload_placement_mono_example :
    (forty.gpu_required_bytes ≤ sixty.gpu_required_bytes)
    × (sixty.ram_required_bytes ≤ forty.ram_required_bytes)
unfolding jaull.Fit.Placement.calculate_offload_placement jaull.Fit.Split.split_heuristic_bytes
    jaull.Fit.Placement.place_kv_cache
calculate_offload_placement_mono_example =
    calculate_offload_placement_mono exact_floats exact_floats-IsRounded sample_demand (some 10)
      (some 4) 40 60 sample_demand-IsExact (omega arith) refl refl

available_accelerator_memory_bytes_largest_example :
    (m : ℕ) × (available_accelerator_memory_bytes sample_machine ≡ some m)
    × HasBudget sample_machine m
    × (100 ≤ m)
available_accelerator_memory_bytes_largest_example =
    available_accelerator_memory_bytes_largest sample_machine 100
      (HasBudget.gpu sample_gpu (Memᴰ.head refl) refl)

-- The same request, with its components still optional.
abbrev sample_components : Components
sample_components = record {
  weights_bytes = some 100;
  kv_cache_bytes = some 20;
  overhead_bytes = some 10;
  device_reserve_bytes = 5;
  safety_margin_bytes = 3;
  total_bytes = some 138;
  total_transformer_blocks = some 10;
}

components_exact :
    (d : Demand) → demand_of sample_components (some 100) (some 20) (some 10) ≡ some d → IsExact d
unfolding demand_of
components_exact d e =
    let same : sample_demand ≡ d = ground arith in rw (← same) sample_demand-IsExact

assess_components_with_fit-Reports_example :
    Reports (some offload_fit) (assessment_from_fit offload_fit TargetDevice.auto)
unfolding jaull.Compatibility.Components.assess_components_with_fit
    jaull.Fit.Offload.try_gpu_offload available_accelerator_memory_bytes
assess_components_with_fit-Reports_example =
    assess_components_with_fit-Reports exact_floats exact_floats-IsRounded sample_components
      sample_machine TargetDevice.auto none components_exact
      {result = record {
        assessment = assessment_from_fit offload_fit TargetDevice.auto;
        fit = some offload_fit;
      }}
      refl
