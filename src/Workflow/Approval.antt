-- ===== src/Workflow/Approval.antt =====
-- backend/app/services/workflow_service.py: approving, rejecting, withdrawing and expiring a revision.
-- `others` is what other sessions commit between the reads and the conditional updates.
pub mod Once
use ai_knowledge_hub.Base.{
  find_first, ℕ, ◌+◌, suc, String, Bool, true, false, not, ◌&&◌, ◌||◌, Option, none, some, List, [],
  ◌∷◌, Result, ok, err, ◌>>=◌, ◌>>◌, raise_if, or_raise, ◌==◌, leb, str_eq, if◌then◌else◌,
}
use ai_knowledge_hub.Workflow.Error.{
  Error, workflow_run_not_found, workflow_run_not_retryable, workflow_retry_exhausted,
  workflow_approval_conflict, other_exception,
}
use ai_knowledge_hub.Workflow.Payload.{Value, null, number, text, Payload}
use ai_knowledge_hub.Workflow.StateMachine.{RunStatus, StepStatus}
use ai_knowledge_hub.Workflow.Definition.{StepDefinition, Definition, step_by_id}
use ai_knowledge_hub.Workflow.Routing.{select_next_step_id}
use ai_knowledge_hub.Workflow.Registry.{DefinitionRegistry, get_definition}
use ai_knowledge_hub.Workflow.Store.{
  WorkflowRun, WorkflowStepRun, RevisionStatus, KnowledgeRevision, Db, run_is, revision_is,
}
use ai_knowledge_hub.Workflow.Queries.{
  get_run, get_owned_run, get_failed_step, get_step, get_attempt_count, create_run, create_step,
}
use ai_knowledge_hub.Workflow.Repository.{
  approve_waiting_run_and_step, cancel_waiting_run_and_step, requeue_failed_run_and_step,
}
use ai_knowledge_hub.Workflow.Revisions.{
  create_revision, get_owned_revision, update_submitted_decision, is_submitted_and_expired,
}
use ai_knowledge_hub.Workflow.Executor.{Txn, node_retryable_failure}
use ai_knowledge_hub.Workflow.Service.{
  ApprovalDecisionResult, owned_run, owned_revision, new_step, refreshed_revision, refreshed_run,
  refreshed_step,
}

abbrev optional_number : Option ℕ → Value
optional_number none = null
optional_number (some n) = number n

abbrev pub decision_output : Option ℕ → Payload
decision_output decided_by =
    ("decision", text "approved") ∷ ("approved_by", optional_number decided_by) ∷ []

-- `next(index for index, step in enumerate(steps) if step.step_id == step_id)`
unfoldable pub index_of_step : String → List StepDefinition → ℕ → Result Error ℕ
index_of_step step_id [] index = err other_exception
index_of_step step_id (s ∷ steps) index =
    let rest = index_of_step step_id steps (suc index) in
    if str_eq s.step_id step_id then ok index else rest

abbrev pub create_next_step : String → String → Definition → Option String → Db → Result Error Db
create_next_step new_id run_id definition none db = ok db
create_next_step new_id run_id definition (some next_step_id) db = do
  next_index ← index_of_step next_step_id definition.steps 0
  create_step (new_step new_id run_id next_step_id next_index StepStatus.pending) db

-- The branch `if decision is APPROVED … else …`: the tables, and whether the run changed.
unfoldable pub change_run :
    String
    → Definition
    → String
    → WorkflowStepRun
    → RevisionStatus
    → Option ℕ
    → Db
    → Result Error (Db × Bool)
change_run new_id definition run_id waiting_step RevisionStatus.approved decided_by db = do
  let output = decision_output decided_by
  let (approved, changed) = approve_waiting_run_and_step run_id waiting_step.id output db
  definition_step ← step_by_id definition waiting_step.step_id
  next_step_id ← select_next_step_id definition_step output
  db' ← create_next_step new_id run_id definition next_step_id approved
  ok (db', changed)
change_run new_id definition run_id waiting_step _ decided_by db =
    ok (cancel_waiting_run_and_step run_id waiting_step.id db)

-- The end of a decision that another session was ahead of: nothing is written.
abbrev pub outcome_of_other :
    Db → ℕ → String → String → RevisionStatus → Result Error ApprovalDecisionResult
outcome_of_other db owner_id revision_id run_id decision = do
  current_revision ← owned_revision db owner_id revision_id
  current_run ← owned_run db owner_id run_id
  if revision_is current_revision.status decision
      then ok (record { revision = current_revision; run = current_run; applied = false })
      else err workflow_approval_conflict

-- What the `try` block writes, and whether both the revision and the run were as expected.
unfoldable pub write_decision :
    String
    → ℕ
    → KnowledgeRevision
    → WorkflowRun
    → RevisionStatus
    → Option ℕ
    → Definition
    → WorkflowStepRun
    → Db
    → Result Error (Db × Bool)
unfolding change_run
write_decision new_id now revision run decision decided_by definition waiting_step db = do
  revised ← update_submitted_decision revision.id decision decided_by now db
  written ← change_run new_id definition run.id waiting_step decision decided_by revised.0
  ok (written.0, revised.1 && written.1)

abbrev pub end_decision :
    ℕ
    → KnowledgeRevision
    → WorkflowRun
    → RevisionStatus
    → Db
    → Result Error (Db × Bool)
    → Txn ApprovalDecisionResult
end_decision owner_id revision run decision db (err e) = (db, err e)
end_decision owner_id revision run decision db (ok (written, true)) = (
  written,
  ok (record {
    revision = refreshed_revision written revision;
    run = refreshed_run written run;
    applied = true;
  }),
)
end_decision owner_id revision run decision db (ok (written, false)) =
    (db, outcome_of_other db owner_id revision.id revision.workflow_run_id decision)

-- What a decision needs to know: it is already settled, or it is to be written for a waiting step.
pub data Plan : Type 0 where
  settled : ApprovalDecisionResult → Plan
  to_write : KnowledgeRevision → WorkflowRun → Definition → WorkflowStepRun → Plan

abbrev pub plan_for :
    DefinitionRegistry → KnowledgeRevision → WorkflowRun → RevisionStatus → Db → Result Error Plan
plan_for definitions revision run decision db =
    elim (revision_is revision.status RevisionStatus.submitted) [
      | false ↦
          if revision_is revision.status decision
          then ok (settled (record { revision = revision; run = run; applied = false }))
          else err workflow_approval_conflict
      | true ↦ do
        definition ← get_definition definitions run.definition_key run.definition_version
        waiting_step ←
            or_raise (get_step db run.id definition.start_step_id) workflow_approval_conflict
        ok (to_write revision run definition waiting_step)
    ]

unfoldable pub plan_decision :
    DefinitionRegistry → ℕ → String → RevisionStatus → Db → Result Error Plan
unfolding owned_revision owned_run
plan_decision definitions owner_id revision_id decision db = do
  revision ← owned_revision db owner_id revision_id
  run ← owned_run db owner_id revision.workflow_run_id
  plan_for definitions revision run decision db

-- `others` is what other sessions commit between the reads and the conditional updates.
unfoldable pub decide_revision :
    DefinitionRegistry
    → (Db → Db)
    → String
    → ℕ
    → ℕ
    → String
    → RevisionStatus
    → Option ℕ
    → Db
    → Txn ApprovalDecisionResult
unfolding plan_decision write_decision
decide_revision definitions others new_id now owner_id revision_id decision decided_by db =
    elim (plan_decision definitions owner_id revision_id decision db) [
      | err e ↦ (others db, err e)
      | ok (settled result) ↦ (others db, ok result)
      | ok (to_write revision run definition waiting_step) ↦
          end_decision owner_id revision run decision (others db) (
            write_decision new_id now revision run decision decided_by definition waiting_step
              (others db))
    ]

abbrev pub approve_revision :
    DefinitionRegistry → (Db → Db) → String → ℕ → ℕ → String → ℕ → Db → Txn ApprovalDecisionResult
approve_revision definitions others new_id now owner_id revision_id approver_id =
    decide_revision definitions others new_id now owner_id revision_id RevisionStatus.approved
      (some approver_id)

abbrev pub reject_revision :
    DefinitionRegistry → (Db → Db) → String → ℕ → ℕ → String → ℕ → Db → Txn ApprovalDecisionResult
reject_revision definitions others new_id now owner_id revision_id approver_id =
    decide_revision definitions others new_id now owner_id revision_id RevisionStatus.rejected
      (some approver_id)

abbrev pub withdraw_revision :
    DefinitionRegistry → (Db → Db) → String → ℕ → ℕ → String → Db → Txn ApprovalDecisionResult
withdraw_revision definitions others new_id now owner_id revision_id =
    decide_revision definitions others new_id now owner_id revision_id RevisionStatus.withdrawn
      (some owner_id)

unfoldable pub reconcile_expired_revision :
    DefinitionRegistry → (Db → Db) → String → ℕ → ℕ → String → Db → Txn ApprovalDecisionResult
unfolding decide_revision is_submitted_and_expired
reconcile_expired_revision definitions others new_id now owner_id revision_id db =
    elim (owned_revision db owner_id revision_id) [
      | err e ↦ (others db, err e)
      | ok revision ↦ elim (owned_run db owner_id revision.workflow_run_id) [
        | err e ↦ (others db, err e)
        | ok run ↦ elim (is_submitted_and_expired revision now) [
          | false ↦ (others db, ok (record { revision = revision; run = run; applied = false }))
          | true ↦
              decide_revision definitions others new_id now owner_id revision_id
                RevisionStatus.expired none db
        ]
      ]
    ]
