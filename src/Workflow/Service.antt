-- ===== src/Workflow/Service.antt =====
-- backend/app/services/workflow_service.py: what its methods share. A method is one transaction: it
-- takes the tables, and gives those that are committed with what it returns or raises. The id of a new
-- row and the time come as arguments.
use ai_knowledge_hub.Base.{find_first, ℕ, String, Bool, none, some, Result, or_raise, str_eq}
use ai_knowledge_hub.Workflow.Error.{Error, workflow_run_not_found}
use ai_knowledge_hub.Workflow.StateMachine.{StepStatus}
use ai_knowledge_hub.Workflow.Store.{WorkflowRun, WorkflowStepRun, KnowledgeRevision, Db}
use ai_knowledge_hub.Workflow.Queries.{get_run, get_owned_run}
use ai_knowledge_hub.Workflow.Revisions.{get_owned_revision}

pub record ApprovalDecisionResult : Type 0 where
  pub revision : KnowledgeRevision
  pub run : WorkflowRun
  pub applied : Bool

unfoldable pub owned_run : Db → ℕ → String → Result Error WorkflowRun
owned_run db owner_id run_id = or_raise (get_owned_run db run_id owner_id) workflow_run_not_found

unfoldable pub owned_revision : Db → ℕ → String → Result Error KnowledgeRevision
owned_revision db owner_id revision_id =
    or_raise (get_owned_revision db revision_id owner_id) workflow_run_not_found

abbrev pub new_step : String → String → String → ℕ → StepStatus → WorkflowStepRun
new_step id run_id step_id index status = record {
  id = id;
  workflow_run_id = run_id;
  step_id = step_id;
  step_index = index;
  status = status;
  output_payload = none;
  failure_code = none;
}

-- The objects that a method returns are read again after the commit, by their ids.
abbrev pub refreshed_revision : Db → KnowledgeRevision → KnowledgeRevision
refreshed_revision db revision = elim (find_first (λ r. str_eq r.id revision.id) db.revisions) [
  | none ↦ revision
  | some r ↦ r
]

abbrev pub refreshed_run : Db → WorkflowRun → WorkflowRun
refreshed_run db run = elim (get_run db run.id) [ none ↦ run | some r ↦ r ]

abbrev pub refreshed_step : Db → WorkflowStepRun → WorkflowStepRun
refreshed_step db step = elim (find_first (λ s. str_eq s.id step.id) db.steps) [
  | none ↦ step
  | some s ↦ s
]
