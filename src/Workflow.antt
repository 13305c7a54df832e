-- ===== src/Workflow.antt =====
-- The progress of a guided run: src/jaull/workflow/models.py, state.py and progress.py. A callback of
-- the reporter is the list of snapshots that were pushed to it, since what it does with one, a raised
-- exception included, does not come back.
pub mod Steps
use text.Mathlib.Text.{◌==◌ as same_text}
use jaull.Base.{
  ℕ, ◌+◌, String, Bool, true, false, ◌||◌, Option, none, some, List, [], ◌∷◌, ◌++◌, map, any,
  if◌then◌else◌,
}

pub data WorkflowStep : Type 0 where
  welcome hardware_scan requirements candidate_discovery candidate_evaluation ranking completed
        failed :
      WorkflowStep

pub data StepStatus : Type 0 where
  pending running done failed skipped : StepStatus

pub record ProgressStep : Type 0 where
  pub key : String
  pub label : String
  pub status : StepStatus
  pub detail : Option String

pub record WorkflowProgress : Type 0 where
  pub steps : List ProgressStep
  pub current_key : Option String

abbrev pub is_running : StepStatus → Bool
is_running StepStatus.running = true
is_running _ = false

abbrev pub is_done : StepStatus → Bool
is_done StepStatus.done = true
is_done _ = false

-- A running step keeps its detail if no new one is given.
unfoldable pub next_detail : StepStatus → Option String → ProgressStep → Option String
next_detail status none step = if is_running status then step.detail else none
next_detail status (some detail) step = some detail

unfoldable pub update_step : String → StepStatus → Option String → ProgressStep → ProgressStep
unfolding next_detail
update_step key status detail step =
    if same_text step.key key
    then record {
      key = step.key;
      label = step.label;
      status = status;
      detail = next_detail status detail step;
    }
    else step

unfoldable pub with_step : String → StepStatus → Option String → WorkflowProgress → WorkflowProgress
unfolding update_step
with_step key status detail progress =
    let updated = map (update_step key status detail) progress.steps in
    record {
      steps =
          if any (λ step. same_text step.key key) progress.steps
          then updated
          else updated
            ++ (record { key = key; label = key; status = status; detail = detail } ∷ []);
      current_key = if is_running status then some key else progress.current_key;
    }

unfoldable pub count_done : List ProgressStep → ℕ
count_done [] = 0
count_done (step ∷ steps) = (if is_done step.status then 1 else 0) + count_done steps

unfoldable pub completed_count : WorkflowProgress → ℕ
unfolding count_done
completed_count progress = count_done progress.steps

unfoldable pub initial_progress : List (String × String) → WorkflowProgress
initial_progress steps = record {
  steps =
      map
        (λ entry. record {
          key = entry.0;
          label = entry.1;
          status = StepStatus.pending;
          detail = none;
        })
        steps;
  current_key = none;
}

-- The methods `start`, `done`, `fail`, `skip` and `detail` are `_set` with a status.
pub record Event : Type 0 where
  pub key : String
  pub status : StepStatus
  pub detail : Option String

-- The progress, and the snapshots that were pushed, the latest first.
pub record ProgressReporter : Type 0 where
  pub progress : WorkflowProgress
  pub pushed : List WorkflowProgress

unfoldable pub set : ProgressReporter → Event → ProgressReporter
unfolding with_step
set reporter event =
    let next = with_step event.key event.status event.detail reporter.progress in
    record { progress = next; pushed = next ∷ reporter.pushed }

unfoldable pub set_all : ProgressReporter → List Event → ProgressReporter
unfolding set
set_all reporter [] = reporter
set_all reporter (event ∷ events) = set_all (set reporter event) events

unfoldable pub new_reporter : List (String × String) → ProgressReporter
unfolding initial_progress
new_reporter steps = record { progress = initial_progress steps; pushed = [] }

-- What `advance` and `with_error` read and change of the run's state.
pub record RecommendationWorkflowState : Type 0 where
  pub current_step : WorkflowStep
  pub errors : List String

unfoldable pub advance : WorkflowStep → RecommendationWorkflowState → RecommendationWorkflowState
advance step state = record { current_step = step; errors = state.errors }

unfoldable pub with_error : String → RecommendationWorkflowState → RecommendationWorkflowState
with_error message state = record {
  current_step = WorkflowStep.failed;
  errors = state.errors ++ (message ∷ []);
}
