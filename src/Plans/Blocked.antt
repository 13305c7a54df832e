-- ===== src/Plans/Blocked.antt =====
-- Which assessed plans are rejected.
use jaull.Base.{
  ◌≡◌, refl, Bool, true, false, inl, inr, List, [], ◌∷◌, ◌++◌, arith, Bool-cases, if◌then◌else◌,
}
use jaull.Recommend.{EvaluatedCandidate}
use jaull.Plans.{
  LicenseCategory, is_unnamed, is_member, is_not_compatible, AssessmentLevel, HardConstraintCode,
  has_any, ExecutionPlan, Findings, rejected, assess_plan, hard_constraints, runtime_constraints,
  is_memory_insufficient, execution_fitness, executability, feasibility, feasibility_of, fitness_of,
}

has_any_left : (xs ys : List HardConstraintCode) → has_any xs ≡ true → has_any (xs ++ ys) ≡ true
has_any_left [] ys h = cc
has_any_left (x ∷ xs) ys h = refl

has_any_right : (xs ys : List HardConstraintCode) → has_any ys ≡ true → has_any (xs ++ ys) ≡ true
has_any_right [] ys h = h
has_any_right (x ∷ xs) ys h = refl

not_compatible :
    (plan : ExecutionPlan)
    → executability plan ≡ AssessmentLevel.blocked
    → is_not_compatible plan.compatibility ≡ true
unfolding executability
not_compatible plan blocked = ground arith

runtime_refused :
    (plan : ExecutionPlan)
    → is_memory_insufficient plan ≡ false
    → executability plan ≡ AssessmentLevel.blocked
    → has_any (runtime_constraints plan) ≡ true
unfolding runtime_constraints executability
runtime_refused plan fits blocked = elim (Bool-cases (is_unnamed plan.runtime)) [
  | inl nameless ↦ rw (nameless, fits) refl
  | inr named ↦ elim (Bool-cases (is_member plan.runtime plan.artifact.compatible_runtimes)) [
    | inl member ↦ rw (named, member, not_compatible plan blocked) refl
    | inr foreign ↦ rw (named, foreign) refl
  ]
]

blocked_cases :
    (plan : ExecutionPlan)
    → execution_fitness plan ≡ AssessmentLevel.blocked
    → is_memory_insufficient plan ≡ false
    → executability plan ≡ AssessmentLevel.blocked
unfolding execution_fitness fitness_of executability feasibility feasibility_of
    is_memory_insufficient
blocked_cases plan h fits = ground arith

over_only :
    (over : Bool)
    → over ≡ true
    → has_any (if over then HardConstraintCode.memory_insufficient ∷ [] else []) ≡ true
over_only over h = rw (h) refl

over_refused :
    (plan : ExecutionPlan) (category : LicenseCategory) (commercial_use_required : Bool)
    → is_memory_insufficient plan ≡ true
    → has_any (hard_constraints plan category commercial_use_required) ≡ true
unfolding hard_constraints
over_refused plan category commercial_use_required over =
    has_any_left (runtime_constraints plan ++ _) _
      (has_any_right (runtime_constraints plan) _ (over_only (is_memory_insufficient plan) over))

misfit_refused :
    (plan : ExecutionPlan) (category : LicenseCategory) (commercial_use_required : Bool)
    → has_any (runtime_constraints plan) ≡ true
    → has_any (hard_constraints plan category commercial_use_required) ≡ true
unfolding hard_constraints
misfit_refused plan category commercial_use_required refused =
    has_any_left (runtime_constraints plan ++ _) _
      (has_any_left (runtime_constraints plan) _ refused)

-- A plan whose execution is assessed as blocked is rejected, whatever else is known of it: the rank of
-- a plan that is not rejected never stands for a blocked execution.
pub assess_plan-rejected :
    (evaluated : EvaluatedCandidate) (plan : ExecutionPlan) (commercial_use_required : Bool)
    (found : Findings)
    → (assess_plan evaluated plan commercial_use_required found).execution_fitness
      ≡ AssessmentLevel.blocked
    → rejected (assess_plan evaluated plan commercial_use_required found) ≡ true
unfolding assess_plan rejected
assess_plan-rejected evaluated plan commercial_use_required found h =
    elim (Bool-cases (is_memory_insufficient plan)) [
      | inl over ↦ over_refused plan found.category commercial_use_required over
      | inr fits ↦
          misfit_refused plan found.category commercial_use_required
            (runtime_refused plan fits (blocked_cases plan h fits))
    ]
