-- ===== src/Memory/Weights/Conserve.antt =====
-- The decomposition of the weights conserves every byte.
use native.Mathlib.Nat.{
  div-le_of_le-mul, mul-le-mul_left, lt-div-mul-add, mul-div_cancel, div-mul-le_self,
}
use jaull.Base.{
  ap, sym, ℕ, ◌+◌, ◌-◌, ◌*◌, ◌≤◌, ◌<◌, ◌≡◌, Option, none, some, true, arith, refl, ◌∙◌, inl, inr,
  ltb, Bool-cases,
}
use jaull.Estimation.{
  WeightEstimate, TransformerBlockWeightDecomposition, weights_are_conserved, halves_conserved,
}
use jaull.Model.{ModelConfig}
use jaull.Model.Parameters.{ConfigParameterDecomposition, estimate_config_parameter_decomposition}
use jaull.Model.Sums.{IsSum, estimate_config_parameter_decomposition-IsSum}
use jaull.Memory.Weights.Shares.{
  floor_share, bytes_per_block, decompose_weights, add_transformer_block_decomposition, attach,
  attach_raises,
}

floor_share-le : (bytes part whole : ℕ) → part ≤ whole → floor_share bytes part whole ≤ bytes
unfolding floor_share
floor_share-le bytes part whole h = div-le_of_le-mul whole (omega (arith, mul-le-mul_left bytes h))

floor_share-all : (bytes whole : ℕ) → 0 < whole → floor_share bytes whole whole ≡ bytes
unfolding floor_share
floor_share-all bytes whole h = mul-div_cancel bytes h

-- The blocks together hold the block bytes, and fewer than one byte per block is rounded up.
bytes_per_block-covers :
    (bytes blocks : ℕ)
    → 0 < blocks
    → (bytes ≤ bytes_per_block bytes blocks * blocks)
      × (bytes_per_block bytes blocks * blocks < bytes + blocks)
unfolding bytes_per_block
bytes_per_block-covers bytes blocks h =
    let over = lt-div-mul-add {a = bytes + blocks - 1} h in
    let under = div-mul-le_self (bytes + blocks - 1) blocks in (omega arith, omega arith)

-- The parts of a decomposition: all bytes are placed, none twice, and the marginal bytes of one
-- block cover the block bytes with less than a byte per block to spare.
pub record IsDecomposition (total blocks : ℕ) (d : TransformerBlockWeightDecomposition)
    : Type 0 where
  pub weights : d.total_weight_bytes ≡ total
  pub layers : d.total_transformer_blocks ≡ blocks
  pub conserved : weights_are_conserved d ≡ true
  pub covers :
      d.estimated_transformer_block_weight_bytes
      ≤ d.estimated_bytes_per_transformer_block * d.total_transformer_blocks
  pub spare :
      d.estimated_bytes_per_transformer_block * d.total_transformer_blocks
      < d.estimated_transformer_block_weight_bytes + d.total_transformer_blocks

decompose_weights-IsDecomposition :
    (total blocks : ℕ) (p : Option ConfigParameterDecomposition)
    → ((q : ConfigParameterDecomposition) → p ≡ some q → IsSum q)
    → 0 < blocks
    → IsDecomposition total blocks (decompose_weights total blocks p)
unfolding decompose_weights weights_are_conserved halves_conserved
decompose_weights-IsDecomposition total blocks none sums h =
    let (covers, spare) = bytes_per_block-covers total blocks h in
    record {
      weights = refl;
      layers = refl;
      conserved = ground arith;
      covers = covers;
      spare = spare;
    }
decompose_weights-IsDecomposition total blocks (some p) sums h =
    let sum = sums p refl in
    let block = floor_share total p.transformer_block_parameters p.total_parameters in
    let le =
      floor_share-le total p.transformer_block_parameters p.total_parameters
        (omega (arith, sum.total)) in
    let rest = total - block in
    let le_rest =
      floor_share-le rest p.embedding_parameters p.non_block_parameters
        (omega (arith, sum.non_block)) in
    let (covers, spare) = bytes_per_block-covers block blocks h in
    record {
      weights = refl;
      layers = refl;
      conserved = elim (Bool-cases (ltb 0 p.non_block_parameters)) [
        | inl some_rest ↦ ground arith
        | inr no_rest ↦
            let same : p.transformer_block_parameters ≡ p.total_parameters =
              ground (arith, sum.total) in
            let all : block ≡ total =
              (λ i. floor_share total (same i) p.total_parameters)
              ∙ floor_share-all total p.total_parameters sum.positive in
            ground arith
      ];
      covers = covers;
      spare = spare;
    }

abbrev pub layers_of : Option ModelConfig → Option ℕ
layers_of none = none
layers_of (some config) = config.num_hidden_layers

-- The bytes and the blocks are known, and `d` is a decomposition of them.
abbrev pub HasDecomposition : Option ℕ → Option ℕ → TransformerBlockWeightDecomposition → Type 0
HasDecomposition bytes layers d =
    (total blocks : ℕ) × (bytes ≡ some total)
    × (layers ≡ some blocks)
    × IsDecomposition total blocks d

attach-HasDecomposition :
    (estimate : WeightEstimate) (config : ModelConfig) (bytes blocks : Option ℕ)
    {d : TransformerBlockWeightDecomposition}
    → estimate.transformer_block_decomposition ≡ none
    → (attach estimate config bytes blocks).transformer_block_decomposition ≡ some d
    → HasDecomposition bytes blocks d
unfolding attach
attach-HasDecomposition estimate config (some total) (some blocks) {d} fresh e =
    let p = estimate_config_parameter_decomposition (some config) in
    let same : decompose_weights total blocks p ≡ d = ground arith in
    let parts =
      decompose_weights-IsDecomposition total blocks p
        (λ q known. estimate_config_parameter_decomposition-IsSum (some config) known)
        (ground arith) in
    (total, blocks, refl, refl, rw (← same) parts)
attach-HasDecomposition estimate config (some total) none fresh e = cc
attach-HasDecomposition estimate config none blocks fresh e = cc

-- A decomposition that `add_transformer_block_decomposition` attaches is of the estimate's own bytes
-- over the configuration's own blocks; block and other bytes sum to all the bytes, embedding and
-- output head to the other bytes, and the bytes of one block, times the blocks, cover the block bytes
-- with less than a byte per block to spare.
pub add_transformer_block_decomposition-HasDecomposition :
    (estimate : WeightEstimate) (config : Option ModelConfig) {weights : WeightEstimate}
    {d : TransformerBlockWeightDecomposition}
    → estimate.transformer_block_decomposition ≡ none
    → add_transformer_block_decomposition estimate config ≡ some weights
    → weights.transformer_block_decomposition ≡ some d
    → HasDecomposition estimate.component.bytes (layers_of config) d
unfolding add_transformer_block_decomposition
add_transformer_block_decomposition-HasDecomposition estimate none {weights} fresh made e =
    let same : estimate ≡ weights = ground arith in
    let gone : weights.transformer_block_decomposition ≡ none =
      ap (λ w. w.transformer_block_decomposition) (sym same) ∙ fresh in
    absurd (ground arith)
add_transformer_block_decomposition-HasDecomposition estimate (some config) {weights} fresh made e =
    elim (Bool-cases (attach_raises config estimate.component.bytes config.num_hidden_layers)) [
      | inl raises ↦ absurd (ground (arith, raises))
      | inr goes ↦
          let same : attach estimate config estimate.component.bytes config.num_hidden_layers
              ≡ weights =
            ground (arith, goes) in
          attach-HasDecomposition estimate config estimate.component.bytes config.num_hidden_layers
            fresh (ap (λ w. w.transformer_block_decomposition) same ∙ e)
    ]
