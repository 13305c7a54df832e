-- ===== src/Tests/Choices.antt =====
-- Runs of the choices: headings, selections, ladders, backends and progress.
use mathlib.Core.List.{Memᴰ, Permᴰ}
use jaull.Base.{IsCut, ◌≡◌, ◌↔◌, String, refl, true, false, none, some, List, [], ◌∷◌, ◌++◌, keep}
use jaull.Hardware.{
  HardwareProfile, AcceleratorProfile, AcceleratorVendor, AcceleratorType, ComputeBackend,
  ComputeBackendInfo, BackendAvailability,
}
use jaull.Inference.{TargetDevice}
use jaull.Estimation.{CompatibilityStatus, EstimationConfidence, CompatibilityAssessment, Ratio}
use jaull.Recommend.{
  EvaluatedCandidate, ArtifactFormat, ArtifactConfirmation, RuntimeName, RuntimeExecutability,
  assess_actionability, status_of, executability_of,
}
use jaull.Recommend.Tier.{RecommendationTier, choose_tier, IsBest, choose_tier-IsBest}
use jaull.Recommend.Order.{Scored, is_selectable, select_ranked, can_be_primary}
use jaull.Recommend.Gate.{select_ranked-Permᴰ, select_ranked_leads}
use jaull.Workflow.{StepStatus, Event, set_all, new_reporter}
use jaull.Workflow.Steps.{Shows, new_reporter-Shows}
use jaull.Runtime.Backend.{select_runtime_backend}
use jaull.Runtime.Preferred.{Prefers, select_runtime_backend-Prefers}

abbrev assessment : CompatibilityStatus → CompatibilityAssessment
assessment status = record {
  status = status;
  confidence = EstimationConfidence.high;
  target_device = TargetDevice.auto;
  effective_device = TargetDevice.gpu;
  available_vram_bytes = none;
  available_ram_bytes = none;
  ratio = none;
  reasons = [];
  warnings = [];
}

abbrev candidate : String → CompatibilityStatus → EvaluatedCandidate
candidate repo_id status = record {
  repo_id = repo_id;
  downloads = 10;
  metadata_confidence = EstimationConfidence.low;
  compatibility = some (assessment status);
  artifact_profile =
      some (record { format = ArtifactFormat.gguf; confirmation = ArtifactConfirmation.confirmed });
  runtime_assessment =
      some (record {
        runtime = RuntimeName.llama_cpp;
        executability = RuntimeExecutability.executable;
      });
}

abbrev full : Ratio
full = record { need = 1; capacity = 1 }

choose_tier-IsBest_example :
    (choose_tier
        (status_of (candidate "a" CompatibilityStatus.comfortable))
        EstimationConfidence.high
        full
        (assess_actionability (candidate "a" CompatibilityStatus.comfortable))
      ≡ RecommendationTier.best_match)
    ↔ IsBest
        (status_of (candidate "a" CompatibilityStatus.comfortable))
        EstimationConfidence.high
        full
        (executability_of (candidate "a" CompatibilityStatus.comfortable).runtime_assessment)
        (candidate "a" CompatibilityStatus.comfortable).artifact_profile
choose_tier-IsBest_example =
    choose_tier-IsBest (candidate "a" CompatibilityStatus.comfortable) EstimationConfidence.high
      full

abbrev pool : List Scored
pool =
    record { candidate = candidate "a" CompatibilityStatus.unknown; total = 900000 }
    ∷ record { candidate = candidate "b" CompatibilityStatus.tight; total = 500000 }
    ∷ record { candidate = candidate "c" CompatibilityStatus.insufficient; total = 700000 }
    ∷ []

select_ranked-Permᴰ_example :
    (cut : List Scored) × Permᴰ (keep is_selectable pool) (select_ranked pool 1 ++ cut)
    × IsCut (some 1) (select_ranked pool 1) cut
select_ranked-Permᴰ_example = select_ranked-Permᴰ pool 1

select_ranked_leads_example :
    (first : Scored) × (rest : List Scored) × (select_ranked pool 1 ≡ first ∷ rest)
    × (can_be_primary first.candidate ≡ true)
unfolding can_be_primary candidate
select_ranked_leads_example = select_ranked_leads pool 0 refl

abbrev catalogue : List (String × String)
catalogue = ("search", "Searching") ∷ ("rank", "Ranking") ∷ []

abbrev events : List Event
events =
    record { key = "search"; status = StepStatus.running; detail = none }
    ∷ record { key = "search"; status = StepStatus.done; detail = none }
    ∷ record { key = "rank"; status = StepStatus.skipped; detail = some "nothing" }
    ∷ []

new_reporter-Shows_example : Shows catalogue events (set_all (new_reporter catalogue) events)
new_reporter-Shows_example = new_reporter-Shows catalogue events (refl, (refl, (refl, tt)))

abbrev vulkan : ComputeBackendInfo
vulkan = record {
  backend = ComputeBackend.vulkan;
  availability = BackendAvailability.available;
  reason = none;
  source = none;
  detail = none;
  api_version = none;
  device_name = none;
  driver_name = none;
  driver_version = none;
  software_renderer = false;
}

abbrev arc : AcceleratorProfile
arc = record {
  name = "Arc";
  vendor = AcceleratorVendor.intel;
  type = AcceleratorType.dedicated;
  vendor_id = none;
  device_id = none;
  pci_bus_id = none;
  uuid = none;
  dedicated_memory_bytes = some 12;
  available_memory_bytes = none;
  shared_memory = false;
  detection_sources = [];
  backends = vulkan ∷ [];
}

abbrev arc_machine : HardwareProfile
arc_machine = record {
  os = "Linux";
  os_version = none;
  arch = "x86_64";
  cpu = record { model = none; physical_cores = none; logical_cores = none };
  memory = record { total_bytes = 64; available_bytes = 32 };
  storage = [];
  gpus = [];
  accelerators = arc ∷ [];
  warnings = [];
}

select_runtime_backend-Prefers_example : Prefers arc_machine 0
unfolding jaull.Runtime.Backend.policy_rank
select_runtime_backend-Prefers_example =
    select_runtime_backend-Prefers arc_machine arc vulkan (Memᴰ.head refl) refl (Memᴰ.head refl)
      refl refl
