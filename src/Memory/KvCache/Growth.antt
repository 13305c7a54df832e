-- ===== src/Memory/KvCache/Growth.antt =====
-- The KV cache grows with the context, the batch and the users, and is sized only for a
-- configuration of the standard attention shape.
use native.Mathlib.Nat.{mul-le-mul, mul-le-mul_left, mul-le-mul_right}
use jaull.Base.{
  ℕ, ◌*◌, ◌≤◌, ◌≡◌, ◌⊎◌, inl, inr, none, some, arith, sym, ap, ◌∙◌, Option-cases, or_number,
}
use jaull.Inference.{WeightPrecision}
use jaull.Estimation.{KvCacheEstimate}
use jaull.Model.{ModelConfig}
use jaull.Memory.KvCache.{
  apply_sliding_window, estimate_kv_cache, Dimensions, dimensions, head_size, estimate_standard,
  sized_kv_cache, detect_exotic_architecture, dtype_bytes, unknown_kv_cache,
}
use jaull.Memory.Policies.{half_bytes_per_parameter}
use jaull.Memory.KvCache.Size.{window_mono}

-- A configuration whose KV cache can be sized, with the dimensions that size it.
record IsStandard (config : ModelConfig) (dims : Dimensions) (size : ℕ) : Type 0 where
  standard : detect_exotic_architecture config ≡ none
  known :
      dimensions config.num_hidden_layers config.num_attention_heads config.hidden_size ≡ some dims
  head : head_size config.head_dim dims ≡ some size

sized :
    (config : ModelConfig) (context batch : ℕ) (dtype : WeightPrecision) (users : ℕ)
    {e : KvCacheEstimate}
    → estimate_kv_cache (some config) context batch dtype users ≡ some e
    → ((e.component.bytes ≡ none) × (e.layers ≡ none))
      ⊎ (dims : Dimensions) × (size : ℕ) × IsStandard config dims size
        × (e
            ≡ sized_kv_cache config dims size
                (apply_sliding_window config context)
                batch
                (dtype_bytes dtype)
                users)
unfolding estimate_kv_cache estimate_standard unknown_kv_cache
sized config context batch dtype users {e} h =
    elim (Option-cases (detect_exotic_architecture config)) [
      | inr (exotic, x) ↦ inl (ground arith, ground arith)
      | inl standard ↦
          elim (Option-cases
            (dimensions config.num_hidden_layers config.num_attention_heads config.hidden_size)) [
              | inl missing ↦ inl (ground arith, ground arith)
              | inr (dims, d) ↦ elim (Option-cases (head_size config.head_dim dims)) [
                | inl zero_heads ↦ absurd (ground arith)
                | inr (size, s) ↦
                    inr (
                      dims,
                      size,
                      record { standard = standard; known = d; head = s },
                      ground arith,
                    )
              ]
            ]
    ]

product_mono :
    (factor dtype : ℕ) {c c' b b' u u' : ℕ}
    → c ≤ c'
    → b ≤ b'
    → u ≤ u'
    → factor * c * b * u * dtype ≤ factor * c' * b' * u' * dtype
product_mono factor dtype hc hb hu =
    mul-le-mul_right dtype (mul-le-mul (mul-le-mul (mul-le-mul_left factor hc) hb) hu)

sized_mono :
    (config : ModelConfig) (dims : Dimensions) (size dtype : ℕ) {c c' b b' u u' n n' : ℕ}
    → c ≤ c'
    → b ≤ b'
    → u ≤ u'
    → (sized_kv_cache config dims size (apply_sliding_window config c) b dtype u).component.bytes
      ≡ some n
    → (sized_kv_cache config dims size (apply_sliding_window config c') b' dtype u').component.bytes
      ≡ some n'
    → n ≤ n'
unfolding sized_kv_cache
sized_mono config dims size dtype hc hb hu e e' =
    let le =
      product_mono (2 * dims.layers * or_number config.num_key_value_heads dims.heads * size) dtype
        (window_mono config hc) hb hu in
    ground (arith, le)

-- A longer context, a larger batch or more users never shrink a known KV cache of one configuration.
pub estimate_kv_cache_mono :
    (config : ModelConfig) (dtype : WeightPrecision) {c c' b b' u u' n n' : ℕ}
    {e e' : KvCacheEstimate}
    → c ≤ c'
    → b ≤ b'
    → u ≤ u'
    → estimate_kv_cache (some config) c b dtype u ≡ some e
    → estimate_kv_cache (some config) c' b' dtype u' ≡ some e'
    → e.component.bytes ≡ some n
    → e'.component.bytes ≡ some n'
    → n ≤ n'
estimate_kv_cache_mono config dtype {c} {c'} {b} {b'} {u} {u'} {n} {n'} {e} {e'} hc hb hu h h' bytes
      bytes' =
    elim (sized config _ _ dtype _ h) [
      | inl (unknown, _) ↦ absurd (cc)
      | inr (dims, size, shape, same) ↦ elim (sized config _ _ dtype _ h') [
        | inl (unknown, _) ↦ absurd (cc)
        | inr (dims', size', shape', same') ↦
            let d : dims' ≡ dims = ground (arith, shape.known, shape'.known) in
            let s : size' ≡ size =
              ground
                (arith, sym shape'.head ∙ (λ i. head_size config.head_dim (d i)) ∙ shape.head) in
            let moved : sized_kv_cache config dims size (apply_sliding_window config c') b'
                  (dtype_bytes dtype) u'
                ≡ e' =
              (λ i.
                sized_kv_cache config (sym d i) (sym s i) (apply_sliding_window config c') b'
                  (dtype_bytes dtype) u')
              ∙ sym same' in
            sized_mono config dims size (dtype_bytes dtype) hc hb hu
              (ap (λ k. k.component.bytes) (sym same) ∙ bytes)
              (ap (λ k. k.component.bytes) moved ∙ bytes')
      ]
    ]

-- With four-bit elements the size of an element rounds down to zero bytes, and so does every known
-- KV cache.
pub estimate_kv_cache_int4 :
    (config : ModelConfig) (c b u : ℕ) {e : KvCacheEstimate}
    → estimate_kv_cache (some config) c b WeightPrecision.int4 u ≡ some e
    → (e.component.bytes ≡ none) ⊎ (e.component.bytes ≡ some 0)
unfolding sized_kv_cache dtype_bytes half_bytes_per_parameter
estimate_kv_cache_int4 config c b u h = elim (sized config c b WeightPrecision.int4 u h) [
  | inl (unknown, _) ↦ inl unknown
  | inr (dims, size, shape, same) ↦ inr (ground (arith, same))
]

-- The layers of an estimate are unknown or the configuration's.
pub estimate_kv_cache_layers :
    (config : ModelConfig) (context batch : ℕ) (dtype : WeightPrecision) (users : ℕ)
    {e : KvCacheEstimate}
    → estimate_kv_cache (some config) context batch dtype users ≡ some e
    → (e.layers ≡ none) ⊎ (e.layers ≡ config.num_hidden_layers)
unfolding sized_kv_cache dimensions
estimate_kv_cache_layers config context batch dtype users h =
    elim (sized config context batch dtype users h) [
      | inl (_, unknown) ↦ inl unknown
      | inr (dims, size, shape, same) ↦ inr (ground (arith, same, shape.known))
    ]
