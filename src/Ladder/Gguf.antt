-- ===== src/Ladder/Gguf.antt =====
-- The GGUF ladder: `_select_gguf`. The quantizations that a repository offers are given, one
-- unambiguous representation for each, in their order.
use jaull.Base.{
  ℕ, ◌-◌, String, Bool, true, false, not, ◌&&◌, ◌||◌, Option, none, some, List, [], ◌∷◌, ◌++◌, map,
  any, keep, choose, codes, same_codes, ltb, leb, ◌==◌, if◌then◌else◌, is_some,
}
use jaull.Hardware.{HardwareProfile}
use jaull.Inference.{InferenceConfiguration}
use jaull.Runtime.{is_cpu_only}
use jaull.Recommend.Order.{codes_before}
use jaull.Ladder.{
  RecommendationPriority, UserRequirements, EstimateFn, Tried, tried_status, build_config, on_cpu,
  is_acceptable, is_tight, fallback_option,
}

-- `QUANTIZATION_LADDERS`
unfoldable pub quantization_ladder : RecommendationPriority → List String
quantization_ladder RecommendationPriority.quality =
    "Q6_K" ∷ "Q5_K_M" ∷ "Q4_K_M" ∷ "Q4_K_S" ∷ "Q3_K_M" ∷ []
quantization_ladder RecommendationPriority.balanced = "Q5_K_M" ∷ "Q4_K_M" ∷ "Q4_K_S" ∷ "Q3_K_M" ∷ []
quantization_ladder RecommendationPriority.speed = "Q4_K_M" ∷ "Q4_K_S" ∷ "Q3_K_M" ∷ "Q3_K_S" ∷ []
quantization_ladder RecommendationPriority.memory = "Q4_K_S" ∷ "Q3_K_M" ∷ "Q3_K_S" ∷ "Q2_K" ∷ []

abbrev aggressive_quantizations : List String
aggressive_quantizations =
    "Q1_0" ∷ "IQ1_S" ∷ "IQ1_M" ∷ "IQ2_XXS" ∷ "IQ2_XS" ∷ "IQ2_S" ∷ "IQ2_M" ∷ "Q2_K" ∷ "Q2_K_L"
    ∷ "Q2_K_XL" ∷ "IQ3_XXS" ∷ "IQ3_XS" ∷ "Q3_K_S" ∷ []

abbrev upper_code : ℕ → ℕ
upper_code c = if leb b'a' c && leb c b'z' then c - 32 else c

-- A rung is a name in upper case, with the quantization that it stands for.
pub record Rung : Type 0 where
  pub name : List ℕ
  pub quantization : String

unfoldable pub rung_of : String → Rung
rung_of quantization = record {
  name = map upper_code (codes quantization);
  quantization = quantization;
}

unfoldable pub is_aggressive : Rung → Bool
is_aggressive rung = any (λ name. same_codes (codes name) rung.name) aggressive_quantizations

-- `available[name]`: of two quantizations with one upper-case name, the later one.
unfoldable pub available_rung : List Rung → List ℕ → Option Rung
available_rung [] name = none
available_rung (rung ∷ rungs) name =
    let later = available_rung rungs name in
    if is_some later then later else if same_codes rung.name name then some rung else none

-- The keys of `available`, each once.
unfoldable pub distinct : List Rung → List Rung
distinct [] = []
distinct (rung ∷ rungs) =
    let rest = distinct rungs in
    if any (λ other. same_codes other.name rung.name) rungs then rest else rung ∷ rest

-- The order of the extras: the less aggressive first, then by name.
unfoldable pub aggression : Rung → ℕ
unfolding is_aggressive
aggression rung = if is_aggressive rung then 1 else 0

unfoldable pub extra_before : Rung → Rung → Bool
unfolding aggression codes_before
extra_before a b =
    ltb (aggression a) (aggression b)
    || ((aggression a == aggression b) && codes_before a.name b.name)

unfoldable pub insert_extra : Rung → List Rung → List Rung
unfolding extra_before
insert_extra rung [] = rung ∷ []
insert_extra rung (other ∷ rungs) =
    if extra_before other rung then other ∷ insert_extra rung rungs else rung ∷ other ∷ rungs

unfoldable pub sort_extras : List Rung → List Rung
unfolding insert_extra
sort_extras [] = []
sort_extras (rung ∷ rungs) = insert_extra rung (sort_extras rungs)

unfoldable pub ordered_rungs : RecommendationPriority → List Rung → List Rung
unfolding quantization_ladder available_rung distinct sort_extras
ordered_rungs priority available =
    choose (λ name. available_rung available (codes name)) (quantization_ladder priority)
    ++ sort_extras (
        keep
          (λ rung.
            not (any (λ name. same_codes (codes name) rung.name) (quantization_ladder priority)))
          (distinct available))

abbrev pub is_balanced : RecommendationPriority → Bool
is_balanced RecommendationPriority.balanced = true
is_balanced _ = false

-- The configuration of a rung; a machine without another backend is planned for on its CPU.
unfoldable pub rung_config :
    UserRequirements → Option HardwareProfile → Rung → InferenceConfiguration
unfolding build_config on_cpu
rung_config requirements none rung = build_config requirements (some rung.quantization) none
rung_config requirements (some hardware) rung =
    let cfg = build_config requirements (some rung.quantization) none in
    if is_cpu_only hardware then on_cpu cfg else cfg

unfoldable pub try_rung : EstimateFn → UserRequirements → Option HardwareProfile → Rung → Tried
unfolding rung_config
try_rung estimate_fn requirements hardware rung =
    let cfg = rung_config requirements hardware rung in
    record { configuration = cfg; estimate = estimate_fn cfg }

-- Whether a tight rung is put aside for a later one with more headroom.
unfoldable pub is_put_aside : RecommendationPriority → Bool → Rung → Tried → Bool
unfolding is_aggressive
is_put_aside priority has_fallback rung tried =
    is_tight (tried_status tried)
    && ((is_balanced priority && not (is_aggressive rung)) || has_fallback)

-- The rung that the loop stops at, or the tight fallback, or nothing, with what was tried.
pub record Outcome : Type 0 where
  pub chosen : Option (Rung × Tried)
  pub options : List Tried

abbrev pub or_first : Option (Rung × Tried) → Rung × Tried → Option (Rung × Tried)
or_first none pair = some pair
or_first (some first) pair = some first

unfoldable pub climb :
    (Rung → Tried) → RecommendationPriority → List Rung → Option (Rung × Tried) → Outcome
unfolding is_acceptable is_put_aside
climb try priority [] tight_fallback = record { chosen = tight_fallback; options = [] }
climb try priority (rung ∷ rungs) tight_fallback =
    let tried = try rung in
    let aside = is_put_aside priority (is_some tight_fallback) rung tried in
    let rest = climb try priority rungs (
      if is_acceptable (tried_status tried) && aside
      then or_first tight_fallback (rung, tried)
      else tight_fallback) in
    if is_acceptable (tried_status tried) && not aside
    then record { chosen = some (rung, tried); options = tried ∷ [] }
    else record { chosen = rest.chosen; options = tried ∷ rest.options }

-- The choice: the rung of the loop, or else the fallback among what was tried.
unfoldable pub choose_gguf : Outcome → Option Tried
unfolding fallback_option
choose_gguf outcome = elim outcome.chosen [
  | some (rung, tried) ↦ some tried
  | none ↦ fallback_option outcome.options
]

unfoldable pub select_gguf :
    EstimateFn → UserRequirements → Option HardwareProfile → List String → Option Tried
unfolding climb choose_gguf ordered_rungs rung_of try_rung
select_gguf estimate_fn requirements hardware quantizations = choose_gguf (
    climb (try_rung estimate_fn requirements hardware) requirements.priority
      (ordered_rungs requirements.priority (map rung_of quantizations)) none)
