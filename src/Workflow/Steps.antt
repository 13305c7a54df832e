-- ===== src/Workflow/Steps.antt =====
-- What a progress display shows through a run: src/jaull/workflow/progress.py and models.py.
use mathlib.Core.List.{Memᴰ, append-nil, append_assoc}
use text.Mathlib.Text.{◌==◌ as same_text}
use jaull.Base.{
  ◌≡◌, String, Bool, true, ◌||◌, Option, List, [], ◌∷◌, map, any, All, refl, ap, ◌∙◌, ◌⊎◌, ℕ, zero,
  suc, take, ◌++◌, sym, if◌then◌else◌, length, Bool-cases, inl, inr,
}
use jaull.Workflow.{
  StepStatus, ProgressStep, WorkflowProgress, update_step, with_step, initial_progress, Event,
  ProgressReporter, set, set_all, new_reporter,
}

abbrev pub keys : List ProgressStep → List String
keys steps = map (λ step. step.key) steps

abbrev pub is_key : String → List ProgressStep → Bool
is_key key steps = any (λ step. same_text step.key key) steps

update_step-key :
    (key : String) (status : StepStatus) (detail : Option String) (step : ProgressStep)
    → (update_step key status detail step).key ≡ step.key
unfolding update_step
update_step-key key status detail step = elim (Bool-cases (same_text step.key key)) [
  | inl here ↦ rw (here) refl
  | inr elsewhere ↦ rw (elsewhere) refl
]

updated_keys :
    (key : String) (status : StepStatus) (detail : Option String) (steps : List ProgressStep)
    → keys (map (update_step key status detail) steps) ≡ keys steps
updated_keys key status detail [] = refl
updated_keys key status detail (step ∷ steps) =
    λ i. update_step-key key status detail step i ∷ updated_keys key status detail steps i

-- Updating a known step changes no key and no position.
with_step-keys :
    (key : String) (status : StepStatus) (detail : Option String) (progress : WorkflowProgress)
    → is_key key progress.steps ≡ true
    → keys (with_step key status detail progress).steps ≡ keys progress.steps
unfolding with_step
with_step-keys key status detail progress known =
    rw (known) (updated_keys key status detail progress.steps)

-- Whether a key is known depends on the keys only.
is_key-keys :
    (key : String) (steps : List ProgressStep)
    → is_key key steps ≡ any (λ name. same_text name key) (keys steps)
is_key-keys key [] = refl
is_key-keys key (step ∷ steps) =
    ap (λ later. same_text step.key key || later) (is_key-keys key steps)

-- The events of a run that name only known steps.
abbrev pub Known : List String → List Event → Type 0
Known names events = All (λ event. any (λ name. same_text name event.key) names ≡ true) events

-- What a line of the display shows of a step: its key, its label and its status.
pub record Row : Type 0 where
  pub key : String
  pub label : String
  pub status : StepStatus

abbrev row : ProgressStep → Row
row step = record { key = step.key; label = step.label; status = step.status }

abbrev pub rows : WorkflowProgress → List Row
rows progress = map row progress.steps

-- The status that the events leave a step in: that of the last event with its key, or `status`.
abbrev pub last_status : String → StepStatus → List Event → StepStatus
last_status key status [] = status
last_status key status (event ∷ events) =
    last_status key (if same_text key event.key then event.status else status) events

abbrev updated : Row → List Event → Row
updated line events = record {
  key = line.key;
  label = line.label;
  status = last_status line.key line.status events;
}

-- The rows after the events, which change nothing but statuses.
abbrev pub after : List Row → List Event → List Row
after shown events = map (λ line. updated line events) shown

abbrev pending_row : String × String → Row
pending_row entry = record { key = entry.0; label = entry.1; status = StepStatus.pending }

-- The steps of the catalogue, each pending.
abbrev pub catalogue_rows : List (String × String) → List Row
catalogue_rows steps = map pending_row steps

-- The rows after the first `n` events, then after fewer, down to the first one.
abbrev pub snapshots : List Row → List Event → ℕ → List (List Row)
snapshots shown events zero = []
snapshots shown events (suc n) = after shown (take (suc n) events) ∷ snapshots shown events n

-- The display shows every step of the catalogue under its label with the status that the events leave
-- it in, and so did each snapshot, the latest first, for the events up to it.
abbrev pub Shows : List (String × String) → List Event → ProgressReporter → Type 0
Shows steps events reporter =
    (rows reporter.progress ≡ after (catalogue_rows steps) events)
    × (map rows reporter.pushed ≡ snapshots (catalogue_rows steps) events (length events))

row-update_step :
    (event : Event) (step : ProgressStep)
    → row (update_step event.key event.status event.detail step) ≡ updated (row step) (event ∷ [])
unfolding update_step
row-update_step event step = elim (Bool-cases (same_text step.key event.key)) [
  | inl here ↦ rw (here) refl
  | inr elsewhere ↦ rw (elsewhere) refl
]

updated_rows :
    (event : Event) (steps : List ProgressStep)
    → map row (map (update_step event.key event.status event.detail) steps)
      ≡ after (map row steps) (event ∷ [])
updated_rows event [] = refl
updated_rows event (step ∷ steps) = λ i. row-update_step event step i ∷ updated_rows event steps i

rows-with_step :
    (event : Event) (progress : WorkflowProgress)
    → is_key event.key progress.steps ≡ true
    → rows (with_step event.key event.status event.detail progress)
      ≡ after (rows progress) (event ∷ [])
unfolding with_step
rows-with_step event progress known = rw (known) (updated_rows event progress.steps)

after_none : (shown : List Row) → after shown [] ≡ shown
after_none [] = refl
after_none (line ∷ shown) = ap (λ later. line ∷ later) (after_none shown)

after-after :
    (shown : List Row) (event : Event) (events : List Event)
    → after (after shown (event ∷ [])) events ≡ after shown (event ∷ events)
after-after [] event events = refl
after-after (line ∷ shown) event events =
    ap (λ later. updated line (event ∷ events) ∷ later) (after-after shown event events)

-- The first event comes last in the snapshots, and the others start from its rows.
snapshots_first :
    (shown : List Row) (event : Event) (events : List Event) (n : ℕ)
    → snapshots (after shown (event ∷ [])) events n ++ (after shown (event ∷ []) ∷ [])
      ≡ snapshots shown (event ∷ events) (suc n)
snapshots_first shown event events zero = refl
snapshots_first shown event events (suc n) =
    λ i. after-after shown event (take (suc n) events) i ∷ snapshots_first shown event events n i

known_here :
    (names : List String) (event : Event) (progress : WorkflowProgress)
    → any (λ name. same_text name event.key) names ≡ true
    → keys progress.steps ≡ names
    → is_key event.key progress.steps ≡ true
known_here names event progress here same =
    is_key-keys event.key progress.steps ∙ ap (any (λ name. same_text name event.key)) same ∙ here

set_all-rows :
    (names : List String) (reporter : ProgressReporter) (events : List Event)
    → Known names events
    → keys reporter.progress.steps ≡ names
    → (rows (set_all reporter events).progress ≡ after (rows reporter.progress) events)
      × (map rows (set_all reporter events).pushed
          ≡ snapshots (rows reporter.progress) events (length events) ++ map rows reporter.pushed)
unfolding set_all set
set_all-rows names reporter [] known same = (sym (after_none (rows reporter.progress)), refl)
set_all-rows names reporter (event ∷ events) (here, later) same =
    let known = known_here names event reporter.progress here same in
    let kept = with_step-keys event.key event.status event.detail reporter.progress known in
    let next = rows-with_step event reporter.progress known in
    let shown = rows reporter.progress in
    let before = map rows reporter.pushed in
    let (last, all) = set_all-rows names (set reporter event) events later (kept ∙ same) in
    (
      last ∙ ap (λ r. after r events) next ∙ after-after shown event events,
      all
          ∙ ap (λ r. snapshots r events (length events) ++ (r ∷ before)) next
          ∙ sym
              (append_assoc (snapshots (after shown (event ∷ [])) events (length events)) _ before)
          ∙ ap (λ r. r ++ before) (snapshots_first shown event events (length events)),
    )

initial-keys :
    (steps : List (String × String))
    → keys (initial_progress steps).steps ≡ map (λ entry. entry.0) steps
unfolding initial_progress
initial-keys [] = refl
initial-keys (entry ∷ steps) = ap (λ later. entry.0 ∷ later) (initial-keys steps)

initial-rows :
    (steps : List (String × String)) → rows (initial_progress steps) ≡ catalogue_rows steps
unfolding initial_progress
initial-rows [] = refl
initial-rows (entry ∷ steps) = ap (λ later. pending_row entry ∷ later) (initial-rows steps)

-- In a run whose events name only steps of the catalogue, the display shows all its steps in order
-- under their labels, each with the status of the last event that named it, pending if none did. One
-- snapshot is pushed for each event, and it shows the same of the events up to that one.
pub new_reporter-Shows :
    (steps : List (String × String)) (events : List Event)
    → Known (map (λ entry. entry.0) steps) events
    → Shows steps events (set_all (new_reporter steps) events)
unfolding new_reporter
new_reporter-Shows steps events known =
    let (last, all) =
      set_all-rows (map (λ entry. entry.0) steps) (new_reporter steps) events known
        (initial-keys steps) in
    (
      last ∙ ap (λ r. after r events) (initial-rows steps),
      all ∙ append-nil _ ∙ ap (λ r. snapshots r events (length events)) (initial-rows steps),
    )

touched :
    (key : String) (status : StepStatus) (detail : Option String) (step : ProgressStep)
    → (update_step key status detail step ≡ step)
      ⊎ (same_text step.key key ≡ true) × ((update_step key status detail step).status ≡ status)
unfolding update_step
touched key status detail step = elim (Bool-cases (same_text step.key key)) [
  | inl here ↦ inr (here, rw (here) refl)
  | inr elsewhere ↦ inl (rw (elsewhere) refl)
]

-- What became of one step: it is as it was, or it is the named step and has the new status.
abbrev Touched : String → StepStatus → ProgressStep → ProgressStep → Type 0
Touched key status step step' =
    (step' ≡ step)
    ⊎ (same_text step.key key ≡ true) × (step'.key ≡ step.key) × (step'.status ≡ status)

updated-Mem :
    (key : String) (status : StepStatus) (detail : Option String) (steps : List ProgressStep)
    {step' : ProgressStep}
    → Memᴰ step' (map (update_step key status detail) steps)
    → (step : ProgressStep) × Memᴰ step steps × Touched key status step step'
updated-Mem key status detail [] t = elim t [ ]
updated-Mem key status detail (step ∷ steps) (Memᴰ.head e) = (
  step,
  Memᴰ.head refl,
  elim (touched key status detail step) [
    | inl same ↦ inl (e ∙ same)
    | inr (here, s) ↦
        inr (
          here,
          ap (λ x. x.key) e ∙ update_step-key key status detail step,
          ap (λ x. x.status) e ∙ s,
        )
  ],
)
updated-Mem key status detail (step ∷ steps) (Memᴰ.tail t) =
    let (found, mem, what) = updated-Mem key status detail steps t in (found, Memᴰ.tail mem, what)

-- After `with_step` of a known key, every step comes from one that was there, and is that step, or
-- has the named key, which it kept, and the new status.
with_step_touches :
    (key : String) (status : StepStatus) (detail : Option String) (progress : WorkflowProgress)
    {step' : ProgressStep}
    → is_key key progress.steps ≡ true
    → Memᴰ step' (with_step key status detail progress).steps
    → (step : ProgressStep) × Memᴰ step progress.steps × Touched key status step step'
unfolding with_step
with_step_touches key status detail progress known t =
    updated-Mem key status detail progress.steps (rw (known) at t)
