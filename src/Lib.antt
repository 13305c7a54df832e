-- ===== src/Lib.antt =====
-- Jaull estimates whether a language model fits a machine. This library models that estimate: from the
-- configuration of a model and a hardware profile to the memory components, the placement of the model
-- in VRAM and RAM, and the compatibility status that is reported.
--
-- Parts, in the order of the data flow (paths are from the repository's root):
--   Hardware        src/jaull/domain/hardware.py: the profile and its accelerator memory.
--   Inference       src/jaull/domain/inference.py: the knobs of one estimate.
--   Model           src/jaull/domain/model.py and enums.py; Model/Parameters is domain/parameters.py,
--                   whose counts Matrices compares with the shapes of the weights.
--   Estimation      src/jaull/domain/estimation.py: the records that the estimator makes.
--   Memory          src/jaull/estimator/policies.py, weights.py, kv_cache.py and overhead.py, a module
--                   for each; Weights/Shares is add_transformer_block_decomposition.
--   Fit             src/jaull/estimator/hardware_fit.py: Split, Placement, Search, Offload, Results and
--                   Analyze hold its functions, the other modules what is shown of them.
--   Compatibility   src/jaull/estimator/compatibility.py; Components is the assessment of separate
--                   memory components.
--   Service         src/jaull/estimator/service.py: estimate_memory from the weight estimate on.
--                   Again is analyze_estimate of hardware_fit.py.
--   Ladder          src/jaull/estimator/configuration.py: the GGUF and the precision ladder.
--   Variants        src/jaull/domain/gguf_variants.py and src/jaull/estimator/gguf_selection.py: the
--                   choice of a GGUF variant.
--   Runtime         src/jaull/domain/runtime_support.py; Backend is src/jaull/runtime/
--                   backend_selection.py, and Executability executability.py beside it.
--   Gguf            src/jaull/metadata/gguf_reader.py: Bytes, Cursor, Values and Header are the reader,
--                   Tensors the index of a local file (with domain/gguf.py); Grammar is the format
--                   itself, as relations, and the other modules are what is shown.
--   Merge           src/jaull/metadata/config_merger.py: a header with the base model's configuration.
--   Ranges          src/jaull/metadata/range_reader.py: Client is one request, Fetch the growing loop.
--   Recommend       src/jaull/recommendation/actionability.py, tier.py (Tier) and ranker.py (Order).
--   Plans           src/jaull/recommendation/engine_v2.py, over domain/execution_plans.py and domain/
--                   recommendation.py: the assessment of a plan, Ranks and Keys its place, Criteria
--                   the explanation; Weak is recommendation/selection.py, Diverse
--                   recommendation/diversity.py with the tie key that its callers pass.
--   Workflow        src/jaull/workflow/models.py, state.py and progress.py.
--   Base            shared helpers; Samples and Tests run the model on concrete inputs.
-- Service.estimate_sizes attaches the decomposition (Memory), estimates KV cache and overhead (Memory),
-- sums them, and asks Compatibility for the assessment, which runs the analysis of Fit. The ladders of
-- Ladder run an estimate for one configuration after another; Recommend orders the candidates by the
-- statuses and the scores that come out, Plans orders concrete execution plans by what is assessed of
-- them, and Workflow shows how far a run is.
--
-- Correspondence. Records and enums keep the names of the source, with snake_case members. A function
-- keeps its name, without a leading underscore; branches that the source writes in line are functions
-- of their own where a proof speaks of them. A Python None is an Option. An exception is a value of
-- Failure in Checked, or none where there is one only. Sentences written for people are constructors
-- of a data type, or left out where they only explain a number.
--
-- Numbers. Byte counts are natural numbers. The two double-precision expressions of hardware_fit.py and
-- the margin of service.py are the interface Fit.Floats, with what correct rounding gives as hypotheses
-- (IsRounded): a ceiling of a quotient is exact up to 2 ^ 53, a ceiling of a share is at most the whole,
-- monotone, and covers the exact share up to 2 ^ 51. Samples gives exact arithmetic as an instance.
-- A threshold of a ratio is compared by cross-multiplication, which agrees with the doubles below
-- 2 ^ 50 bytes. Differences that the source leaves signed are never negative here, or are integers.
--
-- Bytes. A byte is a number below 256 and a text is its code points; UTF-8 and the struct formats are
-- those of the standard library, and a float value keeps its bytes. What a server or fstat answers is
-- an input.
--
-- Loops. The descending block search is structural in the block count. The binary search of bytes runs
-- on fuel, one more than the interval's upper end, and is shown to find its answer with it. The range
-- fetch has fuel 7: six ranges fit in the budget of 8 MiB.
--
-- Not modelled: the choice of a weight estimate, GGUF enrichment and runtime recommendation of
-- service.py, the scores of candidates, the generation of execution plans, the
-- orchestrator, detection of hardware and runtimes, discovery, benchmarks, reports and interfaces.
pub mod Base
pub mod Hardware
pub mod Inference
pub mod Estimation
pub mod Fit
pub mod Model
pub mod Memory
pub mod Compatibility
pub mod Service
pub mod Recommend
pub mod Workflow
pub mod Runtime
pub mod Ladder
pub mod Gguf
pub mod Merge
pub mod Plans
pub mod Ranges
pub mod Variants
pub mod Samples
pub mod Tests
