-- ===== src/Model/Matrices.antt =====
-- The parameter counts against the weight matrices of the model: src/jaull/domain/parameters.py.
use native.Mathlib.Nat.{div-add-mod'}
use jaull.Base.{
  ℕ, zero, suc, ◌+◌, ◌*◌, ◌/◌, ◌%◌, ◌<◌, ◌≤◌, ◌≡◌, refl, Bool, true, false, Option, none, some,
  List, [], ◌∷◌, ◌++◌, or_number, not, ◌&&◌, arith, Bool-cases, inl, inr, sym, ◌∙◌, if◌then◌else◌,
}
use jaull.Model.{ModelConfig}
use jaull.Model.Parameters.{
  ConfigParameterDecomposition, parameter_components, estimate_config_parameter_decomposition,
  is_decomposable, known_components, uneven_heads, too_many_kv_heads, is_supported_type,
  has_unsupported_decomposition_flags,
}

-- The dimensions that fix the shape of every weight matrix.
pub record Dimensions : Type 0 where
  pub layers : ℕ
  pub hidden : ℕ
  pub heads : ℕ
  pub head_dim : ℕ
  pub kv_heads : ℕ
  pub intermediate : ℕ
  pub vocab : ℕ
  pub tied : Bool

-- The number of entries of matrices of these shapes, rows and columns.
abbrev pub entries : List (ℕ × ℕ) → ℕ
entries [] = 0
entries ((rows, columns) ∷ shapes) = rows * columns + entries shapes

-- Query, key, value and output projection. The output projection is square in the source.
abbrev pub attention : Dimensions → List (ℕ × ℕ)
attention d =
    (d.heads * d.head_dim, d.hidden)
    ∷ (d.kv_heads * d.head_dim, d.hidden)
    ∷ (d.kv_heads * d.head_dim, d.hidden)
    ∷ (d.hidden, d.hidden)
    ∷ []

-- Gate, up and down projection.
abbrev pub gated_mlp : Dimensions → List (ℕ × ℕ)
gated_mlp d =
    (d.intermediate, d.hidden) ∷ (d.intermediate, d.hidden) ∷ (d.hidden, d.intermediate) ∷ []

abbrev pub blocks : Dimensions → ℕ → List (ℕ × ℕ)
blocks d zero = []
blocks d (suc n) = attention d ++ (gated_mlp d ++ blocks d n)

abbrev pub embedding : Dimensions → List (ℕ × ℕ)
embedding d = (d.vocab, d.hidden) ∷ []

-- A tied output head is the embedding itself.
abbrev pub output_head : Dimensions → List (ℕ × ℕ)
output_head d = if d.tied then [] else (d.vocab, d.hidden) ∷ []

-- The dimensions are those of the configuration, with its defaults; the heads divide the hidden size
-- unless their size is given, there are no more key and value heads than heads, and none is zero.
pub record IsShaped (config : ModelConfig) (d : Dimensions) : Type 0 where
  pub layers : config.num_hidden_layers ≡ some d.layers
  pub hidden : config.hidden_size ≡ some d.hidden
  pub heads : config.num_attention_heads ≡ some d.heads
  pub vocab : config.vocab_size ≡ some d.vocab
  pub intermediate : config.intermediate_size ≡ some d.intermediate
  pub tied : config.tie_word_embeddings ≡ some d.tied
  pub head_dim : d.head_dim ≡ or_number config.head_dim (d.hidden / d.heads)
  pub kv_heads : d.kv_heads ≡ or_number config.num_key_value_heads d.heads
  pub even : config.head_dim ≡ none → d.head_dim * d.heads ≡ d.hidden
  pub grouped : d.kv_heads ≤ d.heads
  pub positive :
      (0 < d.layers)
      × (0 < d.hidden)
      × (0 < d.heads)
      × (0 < d.head_dim)
      × (0 < d.kv_heads)
      × (0 < d.intermediate)
      × (0 < d.vocab)

-- Every count of the decomposition is the number of entries of its matrices.
pub record Counts (d : Dimensions) (p : ConfigParameterDecomposition) : Type 0 where
  pub total : p.total_parameters ≡ entries (blocks d d.layers ++ (embedding d ++ output_head d))
  pub in_blocks : p.transformer_block_parameters ≡ entries (blocks d d.layers)
  pub elsewhere : p.non_block_parameters ≡ entries (embedding d ++ output_head d)
  pub in_embedding : p.embedding_parameters ≡ entries (embedding d)
  pub in_head : p.output_head_parameters ≡ entries (output_head d)
  pub total_blocks : p.total_transformer_blocks ≡ d.layers

entries-append : (xs ys : List (ℕ × ℕ)) → entries (xs ++ ys) ≡ entries xs + entries ys
entries-append [] ys = omega arith
entries-append ((r, c) ∷ xs) ys = omega (arith, entries-append xs ys)

-- A block of the source's formula.
abbrev per_block : Dimensions → ℕ
per_block d =
    d.hidden * d.heads * d.head_dim
    + 2 * d.hidden * d.kv_heads * d.head_dim
    + d.hidden * d.hidden
    + 3 * d.hidden * d.intermediate

entries-blocks : (d : Dimensions) (n : ℕ) → entries (blocks d n) ≡ n * per_block d
entries-blocks d zero = omega arith
entries-blocks d (suc n) = omega (arith, entries-blocks d n)

entries-head :
    (d : Dimensions) → entries (output_head d) ≡ (if d.tied then 0 else d.vocab * d.hidden)
entries-head d = elim (Bool-cases d.tied) [
  | inl tied ↦ rw (tied) refl
  | inr untied ↦ rw (untied) (omega arith)
]

known_number : (x : Option ℕ) → 0 < or_number x 0 → x ≡ some (or_number x 0)
known_number none positive = absurd (omega (arith, positive))
known_number (some n) positive = ground (arith, positive)

last_two : (a b c d : Bool) → (a && b && not c && not d) ≡ true → (c ≡ false) × (d ≡ false)
last_two a b c d h = ground (arith, h)

-- What the strict checks say of the heads.
fits_heads :
    (config : ModelConfig)
    → is_decomposable config ≡ true
    → (uneven_heads config.head_dim config.hidden_size config.num_attention_heads ≡ false)
      × (too_many_kv_heads config.num_key_value_heads config.num_attention_heads ≡ false)
unfolding is_decomposable
fits_heads config fits =
    last_two (is_supported_type config.model_type)
      (not (has_unsupported_decomposition_flags config))
      (uneven_heads config.head_dim config.hidden_size config.num_attention_heads)
      (too_many_kv_heads config.num_key_value_heads config.num_attention_heads) fits

fits_even :
    (dim : Option ℕ) (hidden heads : ℕ)
    → uneven_heads dim (some hidden) (some heads) ≡ false
    → dim ≡ none
    → 0 < heads
    → or_number dim (hidden / heads) * heads ≡ hidden
unfolding uneven_heads
fits_even none hidden heads even e positive =
    let whole : hidden % heads ≡ 0 = ground (arith, even) in
    omega (arith, whole, div-add-mod' hidden heads)
fits_even (some dim) hidden heads even e positive = cc

fits_grouped :
    (kv : Option ℕ) (heads : ℕ)
    → too_many_kv_heads kv (some heads) ≡ false
    → or_number kv heads ≤ heads
unfolding too_many_kv_heads
fits_grouped kv heads h = ground (arith, h)

module _ (config : ModelConfig) where
  -- The dimensions that the source reads.
  abbrev read : ℕ → Bool → Dimensions
  read intermediate tied =
      let hidden = or_number config.hidden_size 0 in
      let heads = or_number config.num_attention_heads 0 in
      record {
        layers = or_number config.num_hidden_layers 0;
        hidden = hidden;
        heads = heads;
        head_dim = or_number config.head_dim (hidden / heads);
        kv_heads = or_number config.num_key_value_heads heads;
        intermediate = intermediate;
        vocab = or_number config.vocab_size 0;
        tied = tied;
      }

  -- The formula of the source, in terms of what it read.
  read_counts :
      (intermediate : ℕ) (tied : Bool) {p : ConfigParameterDecomposition}
      → parameter_components config intermediate tied ≡ some p
      → let d = read intermediate tied in
        (p.transformer_block_parameters ≡ d.layers * per_block d)
        × (p.embedding_parameters ≡ d.vocab * d.hidden)
        × (p.output_head_parameters ≡ (if tied then 0 else d.vocab * d.hidden))
        × (p.total_transformer_blocks ≡ d.layers)
        × (p.non_block_parameters ≡ p.embedding_parameters + p.output_head_parameters)
        × (p.total_parameters ≡ p.transformer_block_parameters + p.non_block_parameters)
  unfolding parameter_components
  read_counts intermediate tied {p} e =
      (ground arith, ground arith, ground arith, ground arith, ground arith, ground arith)

  read_positive :
      (intermediate : ℕ) (tied : Bool) {p : ConfigParameterDecomposition}
      → parameter_components config intermediate tied ≡ some p
      → let d = read intermediate tied in
        (0 < d.layers)
        × (0 < d.hidden)
        × (0 < d.heads)
        × (0 < d.head_dim)
        × (0 < d.kv_heads)
        × (0 < d.intermediate)
        × (0 < d.vocab)
  unfolding parameter_components
  read_positive intermediate tied {p} e = ground arith

  read-Counts :
      (intermediate : ℕ) (tied : Bool) {p : ConfigParameterDecomposition}
      → parameter_components config intermediate tied ≡ some p
      → Counts (read intermediate tied) p
  read-Counts intermediate tied {p} e =
      let d = read intermediate tied in
      let (block, embedded, head, layers, other, total) = read_counts intermediate tied e in
      let in_blocks = entries-blocks d d.layers in
      let in_head : entries (output_head d) ≡ (if tied then 0 else d.vocab * d.hidden) =
        entries-head d in
      let split = entries-append (blocks d d.layers) (embedding d ++ output_head d) in
      record {
        total = omega (arith, block, embedded, head, other, total, in_blocks, in_head, split);
        in_blocks = block ∙ sym in_blocks;
        elsewhere = omega (arith, embedded, head, other, in_head);
        in_embedding = omega (arith, embedded);
        in_head = head ∙ sym in_head;
        total_blocks = layers;
      }

  read-IsShaped :
      (intermediate : ℕ) (tied : Bool) {p : ConfigParameterDecomposition}
      → parameter_components config intermediate tied ≡ some p
      → is_decomposable config ≡ true
      → config.intermediate_size ≡ some intermediate
      → config.tie_word_embeddings ≡ some tied
      → IsShaped config (read intermediate tied)
  read-IsShaped intermediate tied e fits width tying =
      let positive = read_positive intermediate tied e in
      let (layers, hidden, heads, _, _, _, vocab) = positive in
      let known_hidden = known_number config.hidden_size hidden in
      let known_heads = known_number config.num_attention_heads heads in
      let (even, grouped) = fits_heads config fits in
      record {
        layers = known_number config.num_hidden_layers layers;
        hidden = known_hidden;
        heads = known_heads;
        vocab = known_number config.vocab_size vocab;
        intermediate = width;
        tied = tying;
        head_dim = refl;
        kv_heads = refl;
        even = λ none_given.
            fits_even config.head_dim _ _ (rw (known_hidden, known_heads) at even) none_given heads;
        grouped = fits_grouped config.num_key_value_heads _ (rw (known_heads) at grouped);
        positive = positive;
      }

  known-Counts :
      (tied : Option Bool) (width : Option ℕ) {p : ConfigParameterDecomposition}
      → config.tie_word_embeddings ≡ tied
      → config.intermediate_size ≡ width
      → known_components config tied width ≡ some p
      → is_decomposable config ≡ true
      → (d : Dimensions) × IsShaped config d × Counts d p
  unfolding known_components
  known-Counts (some tied) (some width) t w e fits =
      (read width tied, read-IsShaped width tied e fits w t, read-Counts width tied e)
  known-Counts (some tied) none t w e fits = cc
  known-Counts none width t w e fits = cc

-- Whenever the strict estimate returns a decomposition of a configuration, the configuration has known
-- and positive dimensions, and every count is the number of entries of the weight matrices of those
-- dimensions: the attention projections, with a square output projection, and the gated MLP of every
-- layer, the embedding, and an output head unless it is tied to the embedding.
pub estimate_config_parameter_decomposition-Counts :
    (config : ModelConfig) {p : ConfigParameterDecomposition}
    → estimate_config_parameter_decomposition (some config) ≡ some p
    → (d : Dimensions) × IsShaped config d × Counts d p
unfolding estimate_config_parameter_decomposition
estimate_config_parameter_decomposition-Counts config e =
    elim (Bool-cases (is_decomposable config)) [
      | inl fits ↦
          known-Counts config config.tie_word_embeddings config.intermediate_size refl refl
            (ground arith) fits
      | inr refused ↦ absurd (ground arith)
    ]
