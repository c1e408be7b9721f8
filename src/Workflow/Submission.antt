-- ===== src/Workflow/Submission.antt =====
-- backend/app/services/workflow_service.py, `submit_revision_for_approval`.
use ai_knowledge_hub.Base.{
  err, Result, ℕ, String, Bool, true, not, Option, none, [], ◌∷◌, ok, ◌>>=◌, ◌>>◌, raise_if,
  or_raise,
}
use ai_knowledge_hub.Workflow.Error.{Error, workflow_run_not_found, workflow_approval_conflict}
use ai_knowledge_hub.Workflow.Payload.{number, text}
use ai_knowledge_hub.Workflow.StateMachine.{RunStatus, StepStatus}
use ai_knowledge_hub.Workflow.Definition.{step_by_id}
use ai_knowledge_hub.Workflow.Registry.{DefinitionRegistry, get_definition}
use ai_knowledge_hub.Workflow.Store.{WorkflowRun, RevisionStatus, KnowledgeRevision, Db}
use ai_knowledge_hub.Workflow.Queries.{create_run, create_step}
use ai_knowledge_hub.Workflow.Revisions.{create_revision}
use ai_knowledge_hub.Workflow.Executor.{Txn}
use ai_knowledge_hub.Workflow.Service.{ApprovalDecisionResult, new_step}

-- A document that the owner may use and its version, as `KnowledgeRepository` finds them.
pub record PendingVersion : Type 0 where
  pub document_id : String
  pub version_id : String
  pub is_pending : Bool

pub record NewIds : Type 0 where
  pub run_id : String
  pub step_run_id : String
  pub revision_id : String

-- The checks before the `try` block, and the rows that it is to insert: the run, the id of the
-- definition's start step, and the revision. `document` is what the queries on documents give: `none`
-- if there is no such document of the owner, and no version in it if the document has no such version.
unfoldable pub plan_submission :
    DefinitionRegistry
    → NewIds
    → ℕ
    → Option (String × Option PendingVersion)
    → String
    → ℕ
    → ℕ
    → Result Error (WorkflowRun × String × KnowledgeRevision)
plan_submission definitions ids owner_id document definition_key definition_version expires_at = do
  found ← or_raise document workflow_run_not_found
  version ← or_raise found.1 workflow_approval_conflict
  raise_if (not version.is_pending) workflow_approval_conflict
  definition ← get_definition definitions definition_key definition_version
  start_step ← step_by_id definition definition.start_step_id
  ok (
    record {
      id = ids.run_id;
      owner_id = owner_id;
      definition_key = definition.key;
      definition_version = definition.version;
      run_input =
          ("revision_id", text ids.revision_id)
          ∷ ("owner_id", number owner_id)
          ∷ ("document_id", text found.0)
          ∷ ("document_version_id", text version.version_id)
          ∷ [];
      status = RunStatus.waiting_approval;
      failure_code = none;
    },
    start_step.step_id,
    record {
      id = ids.revision_id;
      owner_id = owner_id;
      document_id = found.0;
      document_version_id = version.version_id;
      workflow_run_id = ids.run_id;
      status = RevisionStatus.submitted;
      expires_at = expires_at;
      decided_by = none;
      decided_at = none;
    },
  )

-- The inserts of the `try` block; a violated constraint rolls all of them back.
unfoldable pub write_submission :
    NewIds → WorkflowRun → String → KnowledgeRevision → Db → Result Error Db
write_submission ids run start_step_id revision db = do
  db₁ ← create_run run db
  db₂ ← create_step (new_step ids.step_run_id run.id start_step_id 0 StepStatus.waiting) db₁
  create_revision revision db₂

unfoldable pub submit_revision_for_approval :
    DefinitionRegistry
    → NewIds
    → ℕ
    → Option (String × Option PendingVersion)
    → String
    → ℕ
    → ℕ
    → Db
    → Txn ApprovalDecisionResult
unfolding plan_submission write_submission
submit_revision_for_approval definitions ids owner_id document definition_key definition_version
      expires_at db =
    elim (plan_submission definitions ids owner_id document definition_key definition_version
      expires_at) [
        | err e ↦ (db, err e)
        | ok (run, start_step_id, revision) ↦
            elim (write_submission ids run start_step_id revision db) [
              | err e ↦ (db, err e)
              | ok written ↦
                  (written, ok (record { revision = revision; run = run; applied = true }))
            ]
      ]
