-- ===== src/Runtime/Backend.antt =====
-- The choice of a compute backend: src/jaull/runtime/backend_selection.py.
use jaull.Base.{
  ℕ, ◌+◌, Bool, ◌&&◌, ◌||◌, Option, none, some, List, [], ◌∷◌, ◌++◌, map, any, choose, or_number,
  ltb, ◌==◌, if◌then◌else◌,
}
use jaull.Hardware.{
  HardwareProfile, AcceleratorProfile, AcceleratorVendor, AcceleratorType, ComputeBackend,
  ComputeBackendInfo, is_software, is_available,
}

pub data RuntimeBackendSelectionReason : Type 0 where
  native_backend_available vulkan_backend_available cpu_fallback no_usable_accelerator
        software_renderer_ignored :
      RuntimeBackendSelectionReason

-- `accelerator` is the whole profile, of which the source copies the identifying fields.
pub record RuntimeBackendCandidate : Type 0 where
  pub backend : ComputeBackend
  pub accelerator : Option AcceleratorProfile
  pub backend_info : Option ComputeBackendInfo
  pub reason : RuntimeBackendSelectionReason

pub record RuntimeBackendSelection : Type 0 where
  pub selected_backend : ComputeBackend
  pub selected_accelerator : Option AcceleratorProfile
  pub reason : RuntimeBackendSelectionReason
  pub backend_info : Option ComputeBackendInfo
  pub alternatives : List RuntimeBackendCandidate

pub record RankedCandidate : Type 0 where
  pub candidate : RuntimeBackendCandidate
  pub discovery_index : ℕ
  pub backend_rank : ℕ
  pub accelerator_rank : ℕ
  pub dedicated_memory_bytes : ℕ

-- `policy.index(backend)` in the policy of a vendor; none if the policy does not hold the backend.
unfoldable pub policy_rank : AcceleratorVendor → ComputeBackend → Option ℕ
policy_rank AcceleratorVendor.nvidia ComputeBackend.cuda = some 0
policy_rank AcceleratorVendor.nvidia ComputeBackend.vulkan = some 1
policy_rank AcceleratorVendor.nvidia _ = none
policy_rank AcceleratorVendor.amd ComputeBackend.hip = some 0
policy_rank AcceleratorVendor.amd ComputeBackend.vulkan = some 1
policy_rank AcceleratorVendor.amd _ = none
policy_rank _ ComputeBackend.vulkan = some 0
policy_rank _ _ = none

unfoldable pub accelerator_rank_of : AcceleratorType → ℕ
accelerator_rank_of AcceleratorType.dedicated = 0
accelerator_rank_of AcceleratorType.integrated = 1
accelerator_rank_of _ = 2

unfoldable pub selection_reason : ComputeBackend → RuntimeBackendSelectionReason
selection_reason ComputeBackend.vulkan = RuntimeBackendSelectionReason.vulkan_backend_available
selection_reason _ = RuntimeBackendSelectionReason.native_backend_available

-- A backend of an accelerator, ranked if it is available and in the policy. Memory that is unknown or
-- zero ranks as -1 in the source, which is last among sizes too.
unfoldable pub rank_backend : ℕ → AcceleratorProfile → ComputeBackendInfo → Option RankedCandidate
unfolding policy_rank accelerator_rank_of selection_reason
rank_backend index accelerator info =
    if is_available info.availability
    then (elim (policy_rank accelerator.vendor info.backend) [
      | none ↦ none
      | some rank ↦ some (record {
        candidate = record {
          backend = info.backend;
          accelerator = some accelerator;
          backend_info = some info;
          reason = selection_reason info.backend;
        };
        discovery_index = index;
        backend_rank = rank;
        accelerator_rank = accelerator_rank_of accelerator.type;
        dedicated_memory_bytes = or_number accelerator.dedicated_memory_bytes 0;
      })
    ])
    else none

unfoldable pub candidates_from : ℕ → List AcceleratorProfile → List RankedCandidate
unfolding rank_backend
candidates_from index [] = []
candidates_from index (accelerator ∷ accelerators) =
    (if is_software accelerator.type
      then []
      else choose (rank_backend index accelerator) accelerator.backends)
    ++ candidates_from (index + 1) accelerators

-- The sort key, smaller first except for the memory.
unfoldable pub ranks_before : RankedCandidate → RankedCandidate → Bool
ranks_before a b =
    ltb a.backend_rank b.backend_rank
    || ((a.backend_rank == b.backend_rank)
        && (ltb a.accelerator_rank b.accelerator_rank
            || ((a.accelerator_rank == b.accelerator_rank)
                && (ltb b.dedicated_memory_bytes a.dedicated_memory_bytes
                    || ((a.dedicated_memory_bytes == b.dedicated_memory_bytes)
                        && ltb a.discovery_index b.discovery_index)))))

unfoldable pub insert_ranked : RankedCandidate → List RankedCandidate → List RankedCandidate
unfolding ranks_before
insert_ranked x [] = x ∷ []
insert_ranked x (y ∷ ys) = if ranks_before y x then y ∷ insert_ranked x ys else x ∷ y ∷ ys

unfoldable pub sort_ranked : List RankedCandidate → List RankedCandidate
unfolding insert_ranked
sort_ranked [] = []
sort_ranked (x ∷ xs) = insert_ranked x (sort_ranked xs)

unfoldable pub ranked_candidates : HardwareProfile → List RankedCandidate
unfolding candidates_from sort_ranked
ranked_candidates hardware = sort_ranked (candidates_from 0 hardware.accelerators)

has_software_renderer : HardwareProfile → Bool
has_software_renderer hardware = any (λ a. is_software a.type) hardware.accelerators

cpu_candidate : RuntimeBackendSelectionReason → RuntimeBackendCandidate
cpu_candidate reason = record {
  backend = ComputeBackend.cpu;
  accelerator = none;
  backend_info = none;
  reason = reason;
}

unfoldable pub selection_of : HardwareProfile → List RankedCandidate → RuntimeBackendSelection
unfolding has_software_renderer cpu_candidate
selection_of hardware [] = record {
  selected_backend = ComputeBackend.cpu;
  selected_accelerator = none;
  reason =
      if has_software_renderer hardware
      then RuntimeBackendSelectionReason.software_renderer_ignored
      else RuntimeBackendSelectionReason.no_usable_accelerator;
  backend_info = none;
  alternatives = [];
}
selection_of hardware (first ∷ rest) = record {
  selected_backend = first.candidate.backend;
  selected_accelerator = first.candidate.accelerator;
  reason = first.candidate.reason;
  backend_info = first.candidate.backend_info;
  alternatives =
      map (λ item. item.candidate) rest
      ++ (cpu_candidate RuntimeBackendSelectionReason.cpu_fallback ∷ []);
}

unfoldable pub select_runtime_backend : HardwareProfile → RuntimeBackendSelection
unfolding ranked_candidates selection_of
select_runtime_backend hardware = selection_of hardware (ranked_candidates hardware)
