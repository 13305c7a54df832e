-- ===== src/Estimation.antt =====
-- The records that the memory estimator produces: src/jaull/domain/estimation.py.
-- Sentences written for people (explanation, reason, notes, warnings) are values of the data types
-- `Reason`, `Warning` and `KvNote`, one constructor for each sentence of the source.
mod Fit
pub use Fit.*
use jaull.Base.{
  ℕ, ◌+◌, String, Bool, true, false, Option, none, some, List, ◌==◌, ◌&&◌, ◌||◌, not, is_some,
  if◌then◌else◌,
}
use jaull.Inference.{TargetDevice, WeightPrecision}

pub data EstimateSource : Type 0 where
  exact metadata gguf_header base_model_config derived assumed unknown : EstimateSource

pub data EstimationConfidence : Type 0 where
  high medium low unknown : EstimationConfidence

pub data CompatibilityStatus : Type 0 where
  comfortable compatible tight offloading_required insufficient unknown : CompatibilityStatus

pub record MemoryComponent : Type 0 where
  pub name : String
  pub bytes : Option ℕ
  pub source : EstimateSource
  pub confidence : EstimationConfidence

-- `bits_per_parameter` is in whole bits: the table holds 32, 16, 8 and 4.
pub record WeightEstimate : Type 0 where
  pub component : MemoryComponent
  pub num_parameters : Option ℕ
  pub bits_per_parameter : Option ℕ
  pub precision : Option WeightPrecision
  pub gguf_variant : Option String
  pub transformer_block_decomposition : Option TransformerBlockWeightDecomposition

-- What `estimate_kv_cache` notes beside its number.
pub data KvNote : Type 0 where
  capped_by_config inactive_window capped_by_architecture full_context : KvNote
  mixture_of_experts grouped_query concurrent_sessions : KvNote
  no_config unequal_heads latent_attention multimodal custom_code missing_fields : KvNote

pub record KvCacheEstimate : Type 0 where
  pub component : MemoryComponent
  pub layers : Option ℕ
  pub kv_heads : Option ℕ
  pub head_dim : Option ℕ
  pub context_length : ℕ
  pub batch_size : ℕ
  pub dtype_bytes : ℕ
  pub notes : List KvNote

-- `weight_fraction` as a percentage: the callers pass 0.10 and 0.0.
pub record RuntimeOverheadEstimate : Type 0 where
  pub component : MemoryComponent
  pub base_bytes : ℕ
  pub weight_percent : ℕ
  pub minimum_bytes : ℕ

-- A Python float that is a quotient of two integers, as the pair.
pub record Ratio : Type 0 where
  pub need : ℕ
  pub capacity : ℕ

-- What the assessment says in words.
pub data AssessmentReason : Type 0 where
  total_unknown no_gpu_memory fits_in_vram no_gpu_capacity no_gpu_detected uses_share
        does_not_fit_vram combined_would_cover exceeds_combined missing_ram missing_vram :
      AssessmentReason
  missing_components : (weights kv_cache overhead : Bool) → AssessmentReason
  of_fit : Reason → AssessmentReason

pub record CompatibilityAssessment : Type 0 where
  pub status : CompatibilityStatus
  pub confidence : EstimationConfidence
  pub target_device : TargetDevice
  pub effective_device : TargetDevice
  pub available_vram_bytes : Option ℕ
  pub available_ram_bytes : Option ℕ
  pub ratio : Option Ratio
  pub reasons : List AssessmentReason
  pub warnings : List Warning

-- The validator of `TransformerBlockWeightDecomposition`: the parts sum exactly, and the two
-- halves of the non-block bytes are set together.
unfoldable pub halves_conserved : Option ℕ → Option ℕ → ℕ → Bool
halves_conserved none none total = true
halves_conserved (some e) (some o) total = e + o == total
halves_conserved _ _ total = false

unfoldable pub weights_are_conserved : TransformerBlockWeightDecomposition → Bool
unfolding halves_conserved
weights_are_conserved d =
    (d.estimated_transformer_block_weight_bytes + d.estimated_non_block_weight_bytes
      == d.total_weight_bytes)
    && halves_conserved d.estimated_embedding_weight_bytes d.estimated_output_head_weight_bytes
        d.estimated_non_block_weight_bytes
