-- ===== src/Workflow/Consistency/Rows.antt =====
-- How one conditional UPDATE or INSERT changes the numbers of running steps and attempts.
use ai_knowledge_hub.Base.{
  ◌+◌, ◌≡◌, String, true, false, List, [], ◌∷◌, count, str_eq, eq_iff, arith, if◌then◌else◌,
}
use ai_knowledge_hub.Base.Table.{update}
use ai_knowledge_hub.Workflow.StateMachine.{StepStatus, AttemptStatus}
use ai_knowledge_hub.Workflow.Store.{WorkflowStepRun, WorkflowAttempt, attempt_is, step_is}
use ai_knowledge_hub.Workflow.Repository.{step_at, attempt_at}
use ai_knowledge_hub.Workflow.Consistency.{running_attempt_of, is_other_attempt}

module _ (k j : String) (change : WorkflowStepRun → WorkflowStepRun)
    (same_id : (s : WorkflowStepRun) → (change s).id ≡ s.id) where
  -- A running step that changes to another status is no longer counted.
  pub steps-leave_running :
      ((s : WorkflowStepRun) → step_is (change s).status StepStatus.running ≡ false)
      → (steps : List WorkflowStepRun)
      → count (step_at j StepStatus.running) (update (step_at k StepStatus.running) change steps)
          + (if str_eq k j then count (step_at k StepStatus.running) steps else 0)
        ≡ count (step_at j StepStatus.running) steps
  steps-leave_running leaves [] = ground arith
  steps-leave_running leaves (s ∷ steps) = ground (
    arith,
    same_id s,
    leaves s,
    eq_iff s.id k,
    eq_iff s.id j,
    eq_iff k j,
    steps-leave_running leaves steps,
  )

  -- A step that changes from another status to running is counted.
  pub steps-enter_running :
      (status : StepStatus)
      → step_is status StepStatus.running ≡ false
      → ((s : WorkflowStepRun) → step_is (change s).status StepStatus.running ≡ true)
      → (steps : List WorkflowStepRun)
      → count (step_at j StepStatus.running) (update (step_at k status) change steps)
        ≡ count (step_at j StepStatus.running) steps
          + (if str_eq k j then count (step_at k status) steps else 0)
  steps-enter_running status other enters [] = ground arith
  steps-enter_running status other enters (s ∷ steps) = ground (
    arith,
    same_id s,
    enters s,
    eq_iff s.id k,
    eq_iff s.id j,
    eq_iff k j,
    steps-enter_running status other enters steps,
  )

module _ (a k j : String) (change : WorkflowAttempt → WorkflowAttempt)
    (same_step : (x : WorkflowAttempt) → (change x).workflow_step_run_id ≡ x.workflow_step_run_id)
    (leaves : (x : WorkflowAttempt)
      → attempt_is (change x).status AttemptStatus.running ≡ false) where
  -- A running attempt, which belongs to the step `k`, is no longer counted once it has ended.
  pub attempts-leave_running :
      (attempts : List WorkflowAttempt)
      → count (is_other_attempt a k) attempts ≡ 0
      → count (running_attempt_of j) (update (attempt_at a AttemptStatus.running) change attempts)
          + (if str_eq k j then count (attempt_at a AttemptStatus.running) attempts else 0)
        ≡ count (running_attempt_of j) attempts
  attempts-leave_running [] h = ground arith
  attempts-leave_running (x ∷ attempts) h = ground (
    arith,
    same_step x,
    leaves x,
    eq_iff x.id a,
    eq_iff x.workflow_step_run_id k,
    eq_iff x.workflow_step_run_id j,
    eq_iff k j,
    attempts-leave_running attempts,
  )
