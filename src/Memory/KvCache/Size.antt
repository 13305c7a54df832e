-- ===== src/Memory/KvCache/Size.antt =====
-- What the KV cache estimate depends on.
use jaull.Base.{
  ℕ, ◌≤◌, ◌≡◌, ◌⊎◌, inl, inr, Bool, true, false, none, some, arith, refl, Option-cases, Bool-cases,
  min, not, ◌&&◌, if◌then◌else◌, or_number, is_falsy, leb, ◌||◌, ◌<◌, ◌∙◌, ap, sym,
}
use jaull.Model.{ModelConfig}
use jaull.Memory.KvCache.{apply_sliding_window, is_always_windowed, decide_window}

-- The evidence on which the sliding window may bound the cache.
abbrev pub HasWindow : ModelConfig → Type 0
HasWindow config =
    (config.use_sliding_window ≡ some true)
    ⊎ (config.use_sliding_window ≡ none) × (is_always_windowed config.model_type ≡ true)

-- The decision for an active window.
decide_window_evidence :
    (config : ModelConfig) (window context : ℕ)
    → let decided =
        decide_window config.use_sliding_window
          (is_always_windowed config.model_type)
          window
          context in
      (decided.context ≡ context) ⊎ HasWindow config × (decided.context ≡ window)
unfolding decide_window
decide_window_evidence config window context = elim (Option-cases config.use_sliding_window) [
  | inl unset ↦ elim (Bool-cases (is_always_windowed config.model_type)) [
    | inl always ↦ rw (unset, always) (inr (inr (refl, refl), refl))
    | inr plain ↦ rw (unset, plain) (inl refl)
  ]
  | inr (true, on) ↦ rw (on) (inr (inl refl, refl))
  | inr (false, off) ↦ rw (off) (inl refl)
]

-- The context never exceeds the requested one, and it is smaller only on evidence that the window is
-- active, in which case it is the window.
pub apply_sliding_window_evidence :
    (config : ModelConfig) (context : ℕ)
    → ((apply_sliding_window config context).context ≡ context)
      ⊎ HasWindow config
        × (config.sliding_window ≡ some (apply_sliding_window config context).context)
        × ((apply_sliding_window config context).context < context)
unfolding apply_sliding_window
apply_sliding_window_evidence config context =
    let window = or_number config.sliding_window 0 in
    elim (Bool-cases (is_falsy config.sliding_window || leb context window)) [
      | inl wide ↦ rw (wide) (inl refl)
      | inr narrow ↦
          let known : config.sliding_window ≡ some window = ground arith in
          let shorter : window < context = ground arith in
          rw (narrow) elim (decide_window_evidence config window context) [
            | inl same ↦ inl same
            | inr (evidence, bounded) ↦
                inr (evidence, known ∙ ap some (sym bounded), rw (bounded) shorter)
          ]
    ]

-- Whether the window bounds the cache: it is set and not explicitly off, and the configuration or
-- the architecture says that it is on.
abbrev pub is_active : ModelConfig → Bool
is_active config =
    not (is_falsy config.sliding_window)
    && elim config.use_sliding_window [ none ↦ is_always_windowed config.model_type | some on ↦ on ]

-- The context that is sized for is the requested one, capped at the window where that is active.
abbrev pub capped_context : ModelConfig → ℕ → ℕ
capped_context config context =
    if is_active config then min context (or_number config.sliding_window 0) else context

-- The context that is sized for is the requested one, or its minimum with the window if the window is
-- active: set, not zero, and switched on by the configuration or, unless that says otherwise, by the
-- architecture.
pub apply_sliding_window_capped :
    (config : ModelConfig) (context : ℕ)
    → (apply_sliding_window config context).context ≡ capped_context config context
unfolding apply_sliding_window decide_window
apply_sliding_window_capped config context =
    elim (Bool-cases (is_always_windowed config.model_type)) [
      | inl always ↦ elim (Option-cases config.use_sliding_window) [
        | inl unset ↦ rw (unset, always) (ground arith)
        | inr (true, on) ↦ rw (on) (ground arith)
        | inr (false, off) ↦ rw (off) (ground arith)
      ]
      | inr plain ↦ elim (Option-cases config.use_sliding_window) [
        | inl unset ↦ rw (unset, plain) (ground arith)
        | inr (true, on) ↦ rw (on) (ground arith)
        | inr (false, off) ↦ rw (off) (ground arith)
      ]
    ]

pub window_mono :
    (config : ModelConfig) {c c' : ℕ}
    → c ≤ c'
    → (apply_sliding_window config c).context ≤ (apply_sliding_window config c').context
window_mono config {c} {c'} h =
    rw (apply_sliding_window_capped config c, apply_sliding_window_capped config c') (ground arith)
