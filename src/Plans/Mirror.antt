-- ===== src/Plans/Mirror.antt =====
-- The criteria order plans as the key does.
use jaull.Base.{
  ◌≡◌, refl, sym, ◌∙◌, Bool, true, false, inl, inr, List, [], ◌∷◌, ◌++◌, length, lexicographic,
  IsOrder, arith, Bool-cases, if◌then◌else◌,
}
use jaull.Base.Int.{ℤ, pos, negsuc, sub_ℕ}
use jaull.Ladder.{RecommendationPriority}
use jaull.Plans.{RankedPlan, rejected, confidence_rank}
use jaull.Plans.Ranks.{
  level_rank, suitability_rank, aggressive_quantization_rank, runnability_rank,
  quantization_quality_rank, is_capability_first, model_size_rank, ladder_rank,
  requirement_confirmation_rank, is_viable,
}
use jaull.Plans.Keys.{int_before, priority_axes, ranking_tie_key}
use jaull.Plans.Criteria.{
  leading_criteria, axis_criteria, trailing_criteria, ranking_criteria, ranks, explained_before,
}

int_before_asym : (a b : ℤ) → int_before a b ≡ true → int_before b a ≡ false
unfolding int_before
int_before_asym (pos a) (pos b) h = ground arith
int_before_asym (pos a) (negsuc b) h = cc
int_before_asym (negsuc a) (pos b) h = refl
int_before_asym (negsuc a) (negsuc b) h = ground arith

int_before_trans :
    (a b c : ℤ) → int_before b a ≡ false → int_before c b ≡ false → int_before c a ≡ false
unfolding int_before
int_before_trans (pos a) (pos b) (pos c) h h' = ground arith
int_before_trans (pos a) (pos b) (negsuc c) h h' = cc
int_before_trans (pos a) (negsuc b) c h h' = cc
int_before_trans (negsuc a) b (pos c) h h' = refl
int_before_trans (negsuc a) (pos b) (negsuc c) h h' = cc
int_before_trans (negsuc a) (negsuc b) (negsuc c) h h' = ground arith

pub int_before-IsOrder : IsOrder int_before
int_before-IsOrder = (int_before_asym, int_before_trans)

-- `a == b` on integers, as the order tells it.
abbrev Alike : ℤ → ℤ → Type 0
Alike a b = (int_before a b ≡ false) × (int_before b a ≡ false)

abbrev before : List ℤ → List ℤ → Bool
before = lexicographic int_before

-- Behind entries that differ, what follows does not matter.
step :
    (a b : ℤ) (us vs us' vs' : List ℤ)
    → (Alike a b → before us vs ≡ before us' vs')
    → before (a ∷ us) (b ∷ vs) ≡ before (a ∷ us') (b ∷ vs')
step a b us vs us' vs' h = elim (Bool-cases (int_before a b)) [
  | inl first ↦ rw (first) refl
  | inr later ↦ elim (Bool-cases (int_before b a)) [
    | inl after ↦ rw (later, after) refl
    | inr same ↦ rw (later, same) (h (later, same))
  ]
]

skip : (a b : ℤ) (us vs : List ℤ) → Alike a b → before (a ∷ us) (b ∷ vs) ≡ before us vs
skip a b us vs (later, same) = rw (later, same) refl

same_start :
    (xs ys us vs us' vs' : List ℤ)
    → length xs ≡ length ys
    → before us vs ≡ before us' vs'
    → before (xs ++ us) (ys ++ vs) ≡ before (xs ++ us') (ys ++ vs')
same_start [] [] us vs us' vs' h e = e
same_start [] (y ∷ ys) us vs us' vs' h e = absurd (omega arith)
same_start (x ∷ xs) [] us vs us' vs' h e = absurd (omega arith)
same_start (x ∷ xs) (y ∷ ys) us vs us' vs' h e =
    step x y (xs ++ us) (ys ++ vs) (xs ++ us') (ys ++ vs')
      (λ alike. same_start xs ys us vs us' vs' (omega arith) e)

-- The end of the key and of the criteria, from the ladder on.
abbrev rest_of : RankedPlan → RecommendationPriority → List ℤ
rest_of item priority = pos (ladder_rank item.plan priority) ∷ sub_ℕ 0 item.evaluated.downloads ∷ []

abbrev confidence_axis : RankedPlan → ℤ
confidence_axis item = pos (confidence_rank item.assessment.confidence)

-- The end of the key.
abbrev last_axes : RankedPlan → RecommendationPriority → List ℤ
last_axes item priority =
    confidence_axis item ∷ model_size_rank item priority ∷ rest_of item priority

-- The end of the criteria, without the model's size.
abbrev last_ranks : RankedPlan → RecommendationPriority → List ℤ
last_ranks item priority = confidence_axis item ∷ rest_of item priority

-- Where the sizes do not differ, the key's second look at them decides nothing.
sizeless :
    (a b : RankedPlan) (priority : RecommendationPriority)
    → is_capability_first priority ≡ false
    → Alike (model_size_rank a priority) (model_size_rank b priority)
unfolding model_size_rank int_before
sizeless a b priority h = rw (h) (refl, refl)

last_same :
    (a b : RankedPlan) (priority : RecommendationPriority)
    → Alike (model_size_rank a priority) (model_size_rank b priority)
    → before (last_ranks a priority) (last_ranks b priority)
      ≡ before (last_axes a priority) (last_axes b priority)
last_same a b priority alike =
    step (confidence_axis a) (confidence_axis b) (rest_of a priority) (rest_of b priority)
      (model_size_rank a priority ∷ rest_of a priority)
      (model_size_rank b priority ∷ rest_of b priority)
      (λ _. sym (
        skip (model_size_rank a priority) (model_size_rank b priority) (rest_of a priority)
          (rest_of b priority) alike))

abbrev axis_ranks : RankedPlan → RecommendationPriority → List ℤ
axis_ranks item priority = ranks (axis_criteria item priority ++ trailing_criteria item priority)

abbrev axis_key : RankedPlan → RecommendationPriority → List ℤ
axis_key item priority = priority_axes item priority ++ last_axes item priority

-- From the priority's axes on, the criteria decide as the key does.
axes_same :
    (a b : RankedPlan) (priority : RecommendationPriority)
    → before (axis_ranks a priority) (axis_ranks b priority)
      ≡ before (axis_key a priority) (axis_key b priority)
unfolding axis_criteria trailing_criteria priority_axes
axes_same a b RecommendationPriority.quality =
    let priority = RecommendationPriority.quality in
    let first = λ (item : RankedPlan).
      pos (suitability_rank item priority)
      ∷ pos (level_rank item.assessment.capability)
      ∷ pos (aggressive_quantization_rank item.plan)
      ∷ pos (runnability_rank item.assessment)
      ∷ [] in
    let second = λ (item : RankedPlan).
      pos (quantization_quality_rank item.plan)
      ∷ pos (level_rank item.assessment.execution_fitness)
      ∷ [] in
    let size = λ (item : RankedPlan). model_size_rank item priority in
    same_start (first a) (first b) (size a ∷ (second a ++ last_ranks a priority))
      (size b ∷ (second b ++ last_ranks b priority)) (size a ∷ (second a ++ last_axes a priority))
      (size b ∷ (second b ++ last_axes b priority)) refl
      (step (size a) (size b) (second a ++ last_ranks a priority)
        (second b ++ last_ranks b priority) (second a ++ last_axes a priority)
        (second b ++ last_axes b priority)
        (λ alike.
          same_start (second a) (second b) (last_ranks a priority) (last_ranks b priority)
            (last_axes a priority) (last_axes b priority) refl (last_same a b priority alike)))
axes_same a b RecommendationPriority.balanced = refl
axes_same a b RecommendationPriority.speed =
    same_start (priority_axes a RecommendationPriority.speed)
      (priority_axes b RecommendationPriority.speed) (last_ranks a RecommendationPriority.speed)
      (last_ranks b RecommendationPriority.speed) (last_axes a RecommendationPriority.speed)
      (last_axes b RecommendationPriority.speed) refl
      (last_same a b RecommendationPriority.speed (sizeless a b RecommendationPriority.speed refl))
axes_same a b RecommendationPriority.memory =
    same_start (priority_axes a RecommendationPriority.memory)
      (priority_axes b RecommendationPriority.memory) (last_ranks a RecommendationPriority.memory)
      (last_ranks b RecommendationPriority.memory) (last_axes a RecommendationPriority.memory)
      (last_axes b RecommendationPriority.memory) refl
      (last_same a b RecommendationPriority.memory
        (sizeless a b RecommendationPriority.memory refl))

abbrev first_ranks : RankedPlan → List ℤ
first_ranks item =
    pos (if is_viable item then 0 else 1) ∷ pos (if rejected item.assessment then 1 else 0) ∷ []

-- The criteria of two plans, compared one after the other, order them as the confirmed memory fit and
-- then the key without its names do, for every priority and licence requirement.
pub explained_before-ranking_tie_key :
    (a b : RankedPlan) (priority : RecommendationPriority) (commercial_use_required : Bool)
    → explained_before priority commercial_use_required a b
      ≡ lexicographic int_before
          (pos (if is_viable a then 0 else 1) ∷ ranking_tie_key a priority commercial_use_required)
          (pos (if is_viable b then 0 else 1) ∷ ranking_tie_key b priority commercial_use_required)
unfolding explained_before ranking_criteria leading_criteria axis_criteria trailing_criteria
    ranking_tie_key
explained_before-ranking_tie_key a b priority true =
    let first =
      λ (item : RankedPlan). first_ranks item ++ pos (requirement_confirmation_rank item) ∷ [] in
    same_start (first a) (first b) (axis_ranks a priority) (axis_ranks b priority)
      (axis_key a priority) (axis_key b priority) refl (axes_same a b priority)
explained_before-ranking_tie_key a b priority false =
    same_start (first_ranks a) (first_ranks b) (axis_ranks a priority) (axis_ranks b priority)
      (pos 0 ∷ axis_key a priority) (pos 0 ∷ axis_key b priority) refl
      (axes_same a b priority
        ∙ sym (skip (pos 0) (pos 0) (axis_key a priority) (axis_key b priority) (refl, refl)))
