-- ===== src/Workflow/Store.antt =====
-- backend/app/models/workflow.py and models/knowledge_revision.py: the tables of the workflow state,
-- with their unique constraints. Timestamps that the database sets by default are left out.
use ai_knowledge_hub.Base.{
  ℕ, String, Bool, true, false, ◌&&◌, ◌||◌, Option, List, [], ◌∷◌, ◌++◌, Result, ok, err, any,
  str_eq, ◌==◌,
}
use ai_knowledge_hub.Workflow.Error.{Error, integrity}
use ai_knowledge_hub.Workflow.Payload.{Payload}
use ai_knowledge_hub.Workflow.StateMachine.{RunStatus, StepStatus, AttemptStatus}

pub record WorkflowRun : Type 0 where
  pub id : String
  pub owner_id : ℕ
  pub definition_key : String
  pub definition_version : ℕ
  pub run_input : Payload
  pub status : RunStatus
  pub failure_code : Option String

pub record WorkflowStepRun : Type 0 where
  pub id : String
  pub workflow_run_id : String
  pub step_id : String
  pub step_index : ℕ
  pub status : StepStatus
  pub output_payload : Option Payload
  pub failure_code : Option String

pub record WorkflowAttempt : Type 0 where
  pub id : String
  pub workflow_step_run_id : String
  pub attempt_number : ℕ
  pub status : AttemptStatus
  pub output_payload : Option Payload
  pub failure_code : Option String
  pub finished_at : Option ℕ

pub data RevisionStatus : Type 0 where
  submitted approved rejected expired withdrawn : RevisionStatus

pub record KnowledgeRevision : Type 0 where
  pub id : String
  pub owner_id : ℕ
  pub document_id : String
  pub document_version_id : String
  pub workflow_run_id : String
  pub status : RevisionStatus
  pub expires_at : ℕ
  pub decided_by : Option ℕ
  pub decided_at : Option ℕ

pub record Db : Type 0 where
  pub runs : List WorkflowRun
  pub steps : List WorkflowStepRun
  pub attempts : List WorkflowAttempt
  pub revisions : List KnowledgeRevision

-- Equality of statuses, as the queries compare them.
abbrev run_rank : RunStatus → ℕ
run_rank RunStatus.pending = 0
run_rank RunStatus.running = 1
run_rank RunStatus.waiting_approval = 2
run_rank RunStatus.succeeded = 3
run_rank RunStatus.failed = 4
run_rank RunStatus.cancelled = 5

abbrev step_rank : StepStatus → ℕ
step_rank StepStatus.pending = 0
step_rank StepStatus.running = 1
step_rank StepStatus.waiting = 2
step_rank StepStatus.succeeded = 3
step_rank StepStatus.failed = 4
step_rank StepStatus.cancelled = 5

abbrev attempt_rank : AttemptStatus → ℕ
attempt_rank AttemptStatus.running = 0
attempt_rank AttemptStatus.waiting = 1
attempt_rank AttemptStatus.succeeded = 2
attempt_rank AttemptStatus.failed = 3
attempt_rank AttemptStatus.cancelled = 4

abbrev revision_rank : RevisionStatus → ℕ
revision_rank RevisionStatus.submitted = 0
revision_rank RevisionStatus.approved = 1
revision_rank RevisionStatus.rejected = 2
revision_rank RevisionStatus.expired = 3
revision_rank RevisionStatus.withdrawn = 4

abbrev pub run_is : RunStatus → RunStatus → Bool
run_is s t = run_rank s == run_rank t

abbrev pub step_is : StepStatus → StepStatus → Bool
step_is s t = step_rank s == step_rank t

abbrev pub attempt_is : AttemptStatus → AttemptStatus → Bool
attempt_is s t = attempt_rank s == attempt_rank t

abbrev pub revision_is : RevisionStatus → RevisionStatus → Bool
revision_is s t = revision_rank s == revision_rank t

-- `session.add(row); session.flush()`: the row is refused if it breaks a unique constraint.
abbrev pub insert_unless : {A : Type 0} → Bool → A → List A → Result Error (List A)
insert_unless true row rows = err integrity
insert_unless false row rows = ok (rows ++ row ∷ [])

unfoldable pub insert_run : WorkflowRun → List WorkflowRun → Result Error (List WorkflowRun)
insert_run run = λ runs. insert_unless (any (λ r. str_eq r.id run.id) runs) run runs

abbrev pub step_clashes : WorkflowStepRun → WorkflowStepRun → Bool
step_clashes step s =
    str_eq s.id step.id
    || (str_eq s.workflow_run_id step.workflow_run_id
        && (str_eq s.step_id step.step_id || s.step_index == step.step_index))

unfoldable pub insert_step :
    WorkflowStepRun → List WorkflowStepRun → Result Error (List WorkflowStepRun)
insert_step step = λ steps. insert_unless (any (step_clashes step) steps) step steps

abbrev pub attempt_clashes : WorkflowAttempt → WorkflowAttempt → Bool
attempt_clashes attempt a =
    str_eq a.id attempt.id
    || (str_eq a.workflow_step_run_id attempt.workflow_step_run_id
        && a.attempt_number == attempt.attempt_number)

unfoldable pub insert_attempt :
    WorkflowAttempt → List WorkflowAttempt → Result Error (List WorkflowAttempt)
insert_attempt attempt =
    λ attempts. insert_unless (any (attempt_clashes attempt) attempts) attempt attempts

unfoldable pub insert_revision :
    KnowledgeRevision → List KnowledgeRevision → Result Error (List KnowledgeRevision)
insert_revision revision = λ revisions.
    insert_unless
      (any (λ r. str_eq r.id revision.id || str_eq r.workflow_run_id revision.workflow_run_id)
        revisions)
      revision revisions
