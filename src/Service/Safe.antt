-- ===== src/Service/Safe.antt =====
-- The analysis never raises for a request that the service makes.
use jaull.Base.{ℕ, ◌≡◌, Option, none, some, arith, refl, Option-cases, Bool-cases, inl, inr}
use jaull.Hardware.{HardwareProfile}
use jaull.Inference.{TargetDevice}
use jaull.Estimation.{TransformerBlockWeightDecomposition}
use jaull.Fit.Floats.{Floats}
use jaull.Fit.Placement.{Demand}
use jaull.Fit.Analyze.{Checked, merge_block_counts, check_decomposition, analyze_components}
use jaull.Compatibility.Components.{Components, demand_of, is_auto, assess_components_with_fit}

-- The computation returns a value; it computes to a truth value.
abbrev pub Returns : {A : Type 0} → Checked A → Type 0
Returns (Checked.ok a) = Unit
Returns (Checked.raised e) = ⊥

pub Returns-value : {A : Type 0} (m : Checked A) → Returns m → (a : A) × (m ≡ Checked.ok a)
Returns-value (Checked.ok a) h = (a, refl)
Returns-value (Checked.raised e) h = elim h [ ]

-- A decomposition of these weights over these blocks, if there is one and the blocks are known.
abbrev pub Matches : ℕ → Option ℕ → Option TransformerBlockWeightDecomposition → Type 0
Matches weights blocks none = Unit
Matches weights none (some w) = w.total_weight_bytes ≡ weights
Matches weights (some blocks) (some w) =
    (w.total_weight_bytes ≡ weights) × (w.total_transformer_blocks ≡ blocks)

check-returns :
    (weights : ℕ) (blocks : Option ℕ) (w : Option TransformerBlockWeightDecomposition)
    → Matches weights blocks w
    → (t : Option ℕ) × (check_decomposition weights blocks w ≡ Checked.ok t)
unfolding check_decomposition
check-returns weights blocks none h = (_, refl)
check-returns weights none (some w) h = (some w.total_transformer_blocks, ground arith)
check-returns weights (some blocks) (some w) (h, h') = (some blocks, ground arith)

merge-returns : (blocks : Option ℕ) → merge_block_counts blocks none ≡ Checked.ok blocks
unfolding merge_block_counts
merge-returns none = refl
merge-returns (some n) = refl

demand-weights :
    (c : Components) (w k o : Option ℕ) {d : Demand}
    → demand_of c w k o ≡ some d
    → w ≡ some d.weights_bytes
unfolding demand_of
demand-weights c (some w) (some k) (some o) h = ground arith
demand-weights c none k o h = cc
demand-weights c (some w) none o h = cc
demand-weights c (some w) (some k) none h = cc

module _ (fl : Floats) where
  analyze-Returns :
      (d : Demand) (hardware : HardwareProfile) (blocks : Option ℕ)
      (w : Option TransformerBlockWeightDecomposition)
      → Matches d.weights_bytes blocks w
      → Returns (analyze_components fl d hardware blocks none w)
  unfolding analyze_components
  analyze-Returns d hardware blocks w h =
      let (t, checked) = check-returns d.weights_bytes blocks w h in
      rw (merge-returns blocks, checked) tt

  pub assess-Returns :
      (c : Components) (hardware : HardwareProfile) (target : TargetDevice)
      (w : Option TransformerBlockWeightDecomposition)
      → ((n : ℕ) → c.weights_bytes ≡ some n → Matches n c.total_transformer_blocks w)
      → Returns (assess_components_with_fit fl c hardware target w)
  unfolding assess_components_with_fit
  assess-Returns c hardware target w match =
      elim (Option-cases (demand_of c c.weights_bytes c.kv_cache_bytes c.overhead_bytes)) [
        | inl missing ↦ rw (missing, assess_components_with_fit, Returns) tt
        | inr (d, known) ↦ elim (Bool-cases (is_auto target)) [
          | inr pinned ↦ rw (known, pinned, assess_components_with_fit, Returns) tt
          | inl auto ↦
              let (fit, e) = Returns-value _ (
                analyze-Returns d hardware c.total_transformer_blocks w
                  (match d.weights_bytes (demand-weights c _ _ _ known))) in
              rw (known, auto, e, assess_components_with_fit, Returns) tt
        ]
      ]
