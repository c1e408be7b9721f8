-- ===== src/Workflow/Repository.antt =====
-- backend/app/db/repositories/workflow_repository.py: the conditional updates. Each gives the new
-- tables and whether each of its statements matched one row.
use ai_knowledge_hub.Base.{ℕ, String, Bool, ◌&&◌, not, Option, none, some, any, count, str_eq, ◌==◌}
use ai_knowledge_hub.Base.Table.{update}
use ai_knowledge_hub.Workflow.Payload.{Payload}
use ai_knowledge_hub.Workflow.StateMachine.{RunStatus, StepStatus, AttemptStatus}
use ai_knowledge_hub.Workflow.Store.{
  WorkflowRun, WorkflowStepRun, WorkflowAttempt, Db, run_is, step_is, attempt_is,
}
use ai_knowledge_hub.Workflow.Queries.{of_run}

-- The rows that an UPDATE of a run or a step by id and old status matches.
abbrev pub run_at : String → RunStatus → WorkflowRun → Bool
run_at run_id status r = str_eq r.id run_id && run_is r.status status

abbrev pub step_at : String → StepStatus → WorkflowStepRun → Bool
step_at id status s = str_eq s.id id && step_is s.status status

abbrev pub step_of_run_at : String → String → StepStatus → WorkflowStepRun → Bool
step_of_run_at id run_id status s =
    str_eq s.id id && str_eq s.workflow_run_id run_id && step_is s.status status

abbrev pub attempt_at : String → AttemptStatus → WorkflowAttempt → Bool
attempt_at id status a = str_eq a.id id && attempt_is a.status status

abbrev pub set_run : RunStatus → Option String → WorkflowRun → WorkflowRun
set_run status failure_code r = record r { status = status; failure_code = failure_code }

abbrev pub set_step : StepStatus → Option String → WorkflowStepRun → WorkflowStepRun
set_step status failure_code s = record s { status = status; failure_code = failure_code }

abbrev pub set_step_output : StepStatus → Payload → WorkflowStepRun → WorkflowStepRun
set_step_output status output s = record s {
  status = status;
  output_payload = some output;
  failure_code = none;
}

unfoldable pub approve_waiting_run_and_step : String → String → Payload → Db → Db × Bool
approve_waiting_run_and_step run_id step_id output db = (
  record db {
    steps =
        update (step_of_run_at step_id run_id StepStatus.waiting)
          (set_step_output StepStatus.succeeded output) db.steps;
    runs =
        update (run_at run_id RunStatus.waiting_approval) (set_run RunStatus.running none) db.runs;
  },
  count (step_of_run_at step_id run_id StepStatus.waiting) db.steps == 1
      && count (run_at run_id RunStatus.waiting_approval) db.runs == 1,
)

unfoldable pub cancel_waiting_run_and_step : String → String → Db → Db × Bool
cancel_waiting_run_and_step run_id step_id db = (
  record db {
    steps =
        update (step_of_run_at step_id run_id StepStatus.waiting)
          (set_step StepStatus.cancelled none) db.steps;
    runs =
        update (run_at run_id RunStatus.waiting_approval) (set_run RunStatus.cancelled none)
          db.runs;
  },
  count (step_of_run_at step_id run_id StepStatus.waiting) db.steps == 1
      && count (run_at run_id RunStatus.waiting_approval) db.runs == 1,
)

unfoldable pub claim_step : String → Db → Db × Bool
claim_step step_id db = (
  record db {
    steps = update (step_at step_id StepStatus.pending) (set_step StepStatus.running none) db.steps;
  },
  count (step_at step_id StepStatus.pending) db.steps == 1,
)

abbrev pub succeed_attempt : Payload → ℕ → WorkflowAttempt → WorkflowAttempt
succeed_attempt output now a = record a {
  status = AttemptStatus.succeeded;
  output_payload = some output;
  failure_code = none;
  finished_at = some now;
}

abbrev pub fail_attempt : String → ℕ → WorkflowAttempt → WorkflowAttempt
fail_attempt failure_code now a = record a {
  status = AttemptStatus.failed;
  failure_code = some failure_code;
  finished_at = some now;
}

unfoldable pub complete_attempt_and_step : String → String → Payload → ℕ → Db → Db × Bool
complete_attempt_and_step attempt_id step_id output now db = (
  record db {
    attempts =
        update (attempt_at attempt_id AttemptStatus.running) (succeed_attempt output now)
          db.attempts;
    steps =
        update (step_at step_id StepStatus.running) (set_step_output StepStatus.succeeded output)
          db.steps;
  },
  count (attempt_at attempt_id AttemptStatus.running) db.attempts == 1
      && count (step_at step_id StepStatus.running) db.steps == 1,
)

unfoldable pub fail_attempt_step_and_run : String → String → String → String → ℕ → Db → Db × Bool
fail_attempt_step_and_run attempt_id step_id run_id failure_code now db = (
  record db {
    attempts =
        update (attempt_at attempt_id AttemptStatus.running) (fail_attempt failure_code now)
          db.attempts;
    steps =
        update (step_at step_id StepStatus.running) (set_step StepStatus.failed (some failure_code))
          db.steps;
    runs =
        update (run_at run_id RunStatus.running) (set_run RunStatus.failed (some failure_code))
          db.runs;
  },
  count (attempt_at attempt_id AttemptStatus.running) db.attempts == 1
      && count (step_at step_id StepStatus.running) db.steps == 1
      && count (run_at run_id RunStatus.running) db.runs == 1,
)

unfoldable pub requeue_failed_run_and_step : String → String → Db → Db × Bool
requeue_failed_run_and_step run_id step_id db = (
  record db {
    runs = update (run_at run_id RunStatus.failed) (set_run RunStatus.running none) db.runs;
    steps =
        update (step_of_run_at step_id run_id StepStatus.failed) (set_step StepStatus.pending none)
          db.steps;
  },
  count (run_at run_id RunStatus.failed) db.runs == 1
      && count (step_of_run_at step_id run_id StepStatus.failed) db.steps == 1,
)

abbrev pub completable : Db → String → WorkflowRun → Bool
completable db run_id r =
    run_at run_id RunStatus.running r && not (any (of_run run_id StepStatus.pending) db.steps)

unfoldable pub complete_run_if_no_pending_steps : String → Db → Db × Bool
complete_run_if_no_pending_steps run_id db = (
  record db { runs = update (completable db run_id) (set_run RunStatus.succeeded none) db.runs },
  count (completable db run_id) db.runs == 1,
)
