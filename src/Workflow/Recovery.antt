-- ===== src/Workflow/Recovery.antt =====
-- backend/app/services/workflow_service.py, `resume_failed_run`: a failed run whose failure may be
-- retried is queued again at its earliest failed step. `others` is what other sessions commit between
-- the reads and the conditional updates.
use ai_knowledge_hub.Base.{
  ℕ, String, Bool, true, false, not, ◌||◌, Option, none, some, Result, ok, err, ◌>>=◌, ◌>>◌,
  raise_if, or_raise, leb, str_eq, if◌then◌else◌,
}
use ai_knowledge_hub.Workflow.Error.{Error, workflow_run_not_retryable, workflow_retry_exhausted}
use ai_knowledge_hub.Workflow.StateMachine.{RunStatus}
use ai_knowledge_hub.Workflow.Definition.{step_by_id}
use ai_knowledge_hub.Workflow.Registry.{DefinitionRegistry, get_definition}
use ai_knowledge_hub.Workflow.Store.{WorkflowRun, WorkflowStepRun, Db, run_is}
use ai_knowledge_hub.Workflow.Queries.{get_failed_step, get_attempt_count}
use ai_knowledge_hub.Workflow.Repository.{requeue_failed_run_and_step}
use ai_knowledge_hub.Workflow.Executor.{Txn, node_retryable_failure}
use ai_knowledge_hub.Workflow.Service.{owned_run, refreshed_run, refreshed_step}

pub record WorkflowResumeResult : Type 0 where
  pub run : WorkflowRun
  pub step : Option WorkflowStepRun
  pub resumed : Bool

-- `run.failure_code in _RETRYABLE_FAILURE_CODES`
abbrev is_retryable_code : Option String → Bool
is_retryable_code none = false
is_retryable_code (some code) = str_eq code node_retryable_failure

pub data ResumePlan : Type 0 where
  nothing_to_do : WorkflowRun → ResumePlan
  to_requeue : WorkflowRun → WorkflowStepRun → ResumePlan

unfoldable pub plan_resume : DefinitionRegistry → ℕ → String → Db → Result Error ResumePlan
unfolding owned_run
plan_resume definitions owner_id run_id db = do
  run ← owned_run db owner_id run_id
  elim (run_is run.status RunStatus.succeeded || run_is run.status RunStatus.running) [
    | true ↦ ok (nothing_to_do run)
    | false ↦ do
      raise_if (not (run_is run.status RunStatus.failed)) workflow_run_not_retryable
      raise_if (not (is_retryable_code run.failure_code)) workflow_run_not_retryable
      step ← or_raise (get_failed_step db run.id) workflow_run_not_retryable
      definition ← get_definition definitions run.definition_key run.definition_version
      definition_step ← step_by_id definition step.step_id
      raise_if (leb definition_step.max_attempts (get_attempt_count db step.id))
          workflow_retry_exhausted
      ok (to_requeue run step)
  ]

abbrev after_lost_race : Db → ℕ → String → Result Error WorkflowResumeResult
after_lost_race db owner_id run_id = do
  current ← owned_run db owner_id run_id
  if run_is current.status RunStatus.running || run_is current.status RunStatus.succeeded
      then ok (record { run = current; step = none; resumed = false })
      else err workflow_run_not_retryable

abbrev pub requeue : ℕ → String → WorkflowRun → WorkflowStepRun → Db → Txn WorkflowResumeResult
requeue owner_id run_id run step db =
    let (requeued, matched) = requeue_failed_run_and_step run.id step.id db in
    elim matched [
      | true ↦ (
        requeued,
        ok (record {
          run = refreshed_run requeued run;
          step = some (refreshed_step requeued step);
          resumed = true;
        }),
      )
      | false ↦ (db, after_lost_race db owner_id run_id)
    ]

unfoldable pub resume_failed_run :
    DefinitionRegistry → (Db → Db) → ℕ → String → Db → Txn WorkflowResumeResult
unfolding plan_resume
resume_failed_run definitions others owner_id run_id db =
    elim (plan_resume definitions owner_id run_id db) [
      | err e ↦ (others db, err e)
      | ok (nothing_to_do run) ↦
          (others db, ok (record { run = run; step = none; resumed = false }))
      | ok (to_requeue run step) ↦ requeue owner_id run_id run step (others db)
    ]
