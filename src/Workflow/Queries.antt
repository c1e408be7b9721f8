-- ===== src/Workflow/Queries.antt =====
-- backend/app/db/repositories/workflow_repository.py: the queries and the inserts. A query is a
-- function of the tables.
use ai_knowledge_hub.Base.{
  ℕ, String, Bool, ◌&&◌, Option, none, some, List, [], ◌∷◌, Result, ok, ◌>>=◌, count, find_first,
  str_eq, ltb, leb, ◌==◌, if◌then◌else◌,
}
use ai_knowledge_hub.Workflow.Error.{Error}
use ai_knowledge_hub.Workflow.StateMachine.{StepStatus}
use ai_knowledge_hub.Workflow.Store.{
  WorkflowRun, WorkflowStepRun, WorkflowAttempt, Db, step_is, insert_run, insert_step,
  insert_attempt,
}

-- `.order_by(step_index)`: the first of the matching rows with the least index.
abbrev earlier : WorkflowStepRun → Option WorkflowStepRun → Option WorkflowStepRun
earlier s none = some s
earlier s (some t) = if leb s.step_index t.step_index then some s else some t

unfoldable pub earliest : (WorkflowStepRun → Bool) → List WorkflowStepRun → Option WorkflowStepRun
earliest test [] = none
earliest test (s ∷ steps) =
    let rest = earliest test steps in if test s then earlier s rest else rest

-- `.order_by(step_index.desc())`
abbrev later : WorkflowStepRun → Option WorkflowStepRun → Option WorkflowStepRun
later s none = some s
later s (some t) = if leb t.step_index s.step_index then some s else some t

unfoldable pub latest : (WorkflowStepRun → Bool) → List WorkflowStepRun → Option WorkflowStepRun
latest test [] = none
latest test (s ∷ steps) = let rest = latest test steps in if test s then later s rest else rest

unfoldable pub get_run : Db → String → Option WorkflowRun
get_run db run_id = find_first (λ r. str_eq r.id run_id) db.runs

unfoldable pub get_owned_run : Db → String → ℕ → Option WorkflowRun
get_owned_run db run_id owner_id =
    find_first (λ r. str_eq r.id run_id && r.owner_id == owner_id) db.runs

abbrev pub of_run : String → StepStatus → WorkflowStepRun → Bool
of_run run_id status s = str_eq s.workflow_run_id run_id && step_is s.status status

unfoldable pub get_failed_step : Db → String → Option WorkflowStepRun
unfolding earliest
get_failed_step db run_id = earliest (of_run run_id StepStatus.failed) db.steps

unfoldable pub get_step : Db → String → String → Option WorkflowStepRun
get_step db run_id step_id =
    find_first (λ s. str_eq s.workflow_run_id run_id && str_eq s.step_id step_id) db.steps

unfoldable pub create_run : WorkflowRun → Db → Result Error Db
unfolding insert_run
create_run run db = do runs ← insert_run run db.runs; ok (record db { runs = runs })

unfoldable pub create_step : WorkflowStepRun → Db → Result Error Db
unfolding insert_step
create_step step db = do steps ← insert_step step db.steps; ok (record db { steps = steps })

unfoldable pub create_attempt : WorkflowAttempt → Db → Result Error Db
unfolding insert_attempt
create_attempt attempt db = do
  attempts ← insert_attempt attempt db.attempts
  ok (record db { attempts = attempts })

unfoldable pub get_next_pending_step : Db → String → Option WorkflowStepRun
unfolding earliest
get_next_pending_step db run_id = earliest (of_run run_id StepStatus.pending) db.steps

unfoldable pub get_latest_succeeded_step_before : Db → String → ℕ → Option WorkflowStepRun
unfolding latest
get_latest_succeeded_step_before db run_id step_index =
    latest (λ s. of_run run_id StepStatus.succeeded s && ltb s.step_index step_index) db.steps

unfoldable pub get_attempt_count : Db → String → ℕ
get_attempt_count db step_id = count (λ a. str_eq a.workflow_step_run_id step_id) db.attempts
