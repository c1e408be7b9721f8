-- ===== src/Workflow/Consistency.antt =====
-- The invariant of the workflow tables that the executor's transactions keep.
pub mod Rows
pub mod Transactions
pub mod Methods
pub mod Service
pub mod System
use ai_knowledge_hub.Base.{ℕ, ◌≤◌, ◌≡◌, String, Bool, true, false, ◌&&◌, not, count, str_eq}
use ai_knowledge_hub.Workflow.StateMachine.{StepStatus, AttemptStatus}
use ai_knowledge_hub.Workflow.Store.{WorkflowStepRun, WorkflowAttempt, Db, attempt_is}
use ai_knowledge_hub.Workflow.Repository.{step_at}

abbrev pub has_step_id : String → WorkflowStepRun → Bool
has_step_id k s = str_eq s.id k

abbrev pub has_attempt_id : String → WorkflowAttempt → Bool
has_attempt_id a x = str_eq x.id a

-- The running attempts of a step.
abbrev pub running_attempt_of : String → WorkflowAttempt → Bool
running_attempt_of k x =
    str_eq x.workflow_step_run_id k && attempt_is x.status AttemptStatus.running

abbrev pub is_other_attempt : String → String → WorkflowAttempt → Bool
is_other_attempt a k x = str_eq x.id a && not (str_eq x.workflow_step_run_id k)

-- Every attempt of the id belongs to the step.
abbrev pub BelongsTo : Db → String → String → Type 0
BelongsTo db a k = count (is_other_attempt a k) db.attempts ≡ 0

abbrev pub is_attempt_of : String → String → WorkflowAttempt → Bool
is_attempt_of a k x = str_eq x.id a && str_eq x.workflow_step_run_id k

-- There is an attempt of the id, of the step.
abbrev pub IsHeld : Db → String → String → Type 0
IsHeld db a k = 1 ≤ count (is_attempt_of a k) db.attempts

-- Ids are distinct, and a step has as many running attempts as it is itself running.
pub record IsConsistent (db : Db) : Type 0 where
  pub unique_steps : (k : String) → count (has_step_id k) db.steps ≤ 1
  pub unique_attempts : (a : String) → count (has_attempt_id a) db.attempts ≤ 1
  pub balanced :
      (k : String)
      → count (running_attempt_of k) db.attempts ≡ count (step_at k StepStatus.running) db.steps
