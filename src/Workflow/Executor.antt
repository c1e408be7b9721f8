-- ===== src/Workflow/Executor.antt =====
-- backend/app/workflow/executor.py: one step is claimed in a first transaction, its node runs outside
-- any transaction, and the result is written in a second one. `others` is what other sessions commit
-- between the two. A transaction takes the tables and gives those that it commits; a rollback gives
-- back those that it began with. A new attempt's id and the time come as arguments.
pub mod Claiming
pub mod Settling
use ai_knowledge_hub.Base.{
  ℕ, ◌+◌, String, Bool, true, false, not, ◌&&◌, ◌||◌, Option, none, some, List, [], ◌∷◌, Result, ok,
  err, ◌>>=◌, ◌>>◌, raise_if, or_raise, ◌==◌,
}
use ai_knowledge_hub.Workflow.Error.{
  Error, is_definition_error, workflow_definition_topology, workflow_retryable_node,
}
use ai_knowledge_hub.Workflow.Payload.{Payload}
use ai_knowledge_hub.Workflow.StateMachine.{RunStatus, StepStatus, AttemptStatus}
use ai_knowledge_hub.Workflow.Definition.{TypeRef, StepDefinition, Definition, is_empty, step_by_id}
use ai_knowledge_hub.Workflow.Node.{
  Node, NodeExecutionContext, Object, dict_object, instance_object, Outcome, returned, raised,
}
use ai_knowledge_hub.Workflow.Routing.{build_node_input, select_next_step_id}
use ai_knowledge_hub.Workflow.Registry.{NodeRegistry, DefinitionRegistry, get_node, get_definition}
use ai_knowledge_hub.Workflow.Store.{WorkflowRun, WorkflowStepRun, WorkflowAttempt, Db, run_is}
use ai_knowledge_hub.Workflow.Queries.{
  get_run, get_next_pending_step, get_latest_succeeded_step_before, get_attempt_count,
  create_attempt,
}
use ai_knowledge_hub.Workflow.Repository.{
  claim_step, complete_attempt_and_step, fail_attempt_step_and_run,
  complete_run_if_no_pending_steps,
}

pub record StepExecutionResult : Type 0 where
  pub run_id : String
  pub step_id : String
  pub attempt_number : ℕ
  pub run_status : RunStatus
  pub output_payload : Payload
  pub next_step_id : Option String

pub record Claim : Type 0 where
  pub run : WorkflowRun
  pub step : WorkflowStepRun
  pub attempt : WorkflowAttempt

abbrev pub node_execution_failure : String
node_execution_failure = "node_execution_failed"

abbrev pub node_retryable_failure : String
node_retryable_failure = "node_retryable"

abbrev pub new_attempt : String → String → ℕ → WorkflowAttempt
new_attempt id step_id number = record {
  id = id;
  workflow_step_run_id = step_id;
  attempt_number = number;
  status = AttemptStatus.running;
  output_payload = none;
  failure_code = none;
  finished_at = none;
}

-- What a transaction commits and what it returns; an exception leaves what it had committed.
abbrev pub Txn : Type 0 → Type 0
Txn A = Db × Result Error A

abbrev pub commit_insert : Db → Claim → Result Error Db → Txn (Option Claim)
commit_insert before claim (ok db) = (db, ok (some claim))
commit_insert before claim (err e) = (before, err e)

-- The first transaction, of a run and its next pending step.
abbrev pub claim_found : String → Db → WorkflowRun → WorkflowStepRun → Txn (Option Claim)
claim_found attempt_id db run step =
    let (claimed, matched) = claim_step step.id db in
    let attempt : WorkflowAttempt =
      new_attempt attempt_id step.id (get_attempt_count claimed step.id + 1) in
    elim matched [
      | false ↦ (db, ok none)
      | true ↦
          commit_insert db (record { run = run; step = step; attempt = attempt })
            (create_attempt attempt claimed)
    ]

unfoldable pub claim_next_step : String → String → Db → Txn (Option Claim)
unfolding claim_step
claim_next_step attempt_id run_id db = elim (get_run db run_id) [
  | none ↦ (db, ok none)
  | some run ↦ elim (run_is run.status RunStatus.running) [
    | false ↦ (db, ok none)
    | true ↦ elim (get_next_pending_step db run_id) [
      | none ↦ (db, ok none)
      | some step ↦ claim_found attempt_id db run step
    ]
  ]
]

unfoldable pub resolve_node_input :
    Db → WorkflowRun → WorkflowStepRun → StepDefinition → Option Object → Result Error Object
resolve_node_input db run step definition_step supplied_input =
    elim (is_empty definition_step.input_bindings) [
      | true ↦ or_raise supplied_input workflow_definition_topology
      | false ↦ elim supplied_input [
        | some _ ↦ err workflow_definition_topology
        | none ↦ do
          input ←
              build_node_input definition_step run.run_input
                (elim (get_latest_succeeded_step_before db run.id step.step_index) [
                  | none ↦ none
                  | some previous ↦ previous.output_payload
                ])
          ok (dict_object input)
      ]
    ]

-- The second transaction, of a step that succeeded.
unfoldable pub complete_claimed_step :
    String → String → WorkflowAttempt → Payload → Option String → ℕ → Db → Txn StepExecutionResult
complete_claimed_step run_id step_id attempt output next_step_id now db =
    let (completed, matched) = complete_attempt_and_step attempt.id step_id output now db in
    let committed : Db = (complete_run_if_no_pending_steps run_id completed).0 in
    elim matched [
      | false ↦ (db, err workflow_definition_topology)
      | true ↦ (
        committed,
        do
          run ← or_raise (get_run committed run_id) workflow_definition_topology
          ok (record {
            run_id = run_id;
            step_id = step_id;
            attempt_number = attempt.attempt_number;
            run_status = run.status;
            output_payload = output;
            next_step_id = next_step_id;
          }),
      )
    ]

-- The second transaction, of a step that failed with the error `e`, which is raised again.
unfoldable pub fail_claimed_step :
    {A : Type 0} → String → String → String → String → ℕ → Error → Db → Txn A
fail_claimed_step run_id step_id attempt_id failure_code now e db =
    let (failed, matched) =
      fail_attempt_step_and_run attempt_id step_id run_id failure_code now db in
    elim matched [ false ↦ (db, err workflow_definition_topology) | true ↦ (failed, err e) ]

abbrev pub finished : Txn StepExecutionResult → Txn (Option StepExecutionResult)
finished (db, ok r) = (db, ok (some r))
finished (db, err e) = (db, err e)

unfoldable pub failure_code_of : Error → String
failure_code_of workflow_retryable_node = node_retryable_failure
failure_code_of _ = node_execution_failure

-- The class test `isinstance` is Python's; a class of the source has its own subclasses.
module _ (is_instance : Object → TypeRef → Bool) (definitions : DefinitionRegistry)
    (nodes : NodeRegistry) where
  -- What the executor prepares for a claimed step before its node runs.
  abbrev pub prepare :
      Db
      → WorkflowRun
      → WorkflowStepRun
      → Option Object
      → Result Error (StepDefinition × Node × Object)
  prepare db run step node_input = do
    definition ← get_definition definitions run.definition_key run.definition_version
    definition_step ← step_by_id definition step.step_id
    node ← get_node nodes definition_step.node_key
    resolved_input ← resolve_node_input db run step definition_step node_input
    raise_if (not (is_instance resolved_input node.input_type)) workflow_definition_topology
    ok (definition_step, node, resolved_input)

  -- The node's output as a JSON object of its declared type, with the next step.
  abbrev pub checked_output :
      StepDefinition → Node → Outcome → Result Error (Payload × Option String)
  checked_output definition_step node (raised e) = err e
  checked_output definition_step node (returned (instance_object class fields)) =
      err workflow_definition_topology
  checked_output definition_step node (returned (dict_object output)) = do
    raise_if (not (is_instance (dict_object output) node.output_type)) workflow_definition_topology
    next_step_id ← select_next_step_id definition_step output
    ok (output, next_step_id)

  unfoldable pub run_claimed_step :
      (Db → Db) → ℕ → Option Object → Claim → Db → Txn (Option StepExecutionResult)
  unfolding failure_code_of complete_claimed_step fail_claimed_step
  run_claimed_step others now node_input claim db =
      let run = claim.run in
      let step = claim.step in
      let attempt = claim.attempt in
      let later : Db = others db in
      elim (prepare db run step node_input) [
        | err e ↦ fail_claimed_step run.id step.id attempt.id node_execution_failure now e later
        | ok (definition_step, node, resolved_input) ↦
            elim (checked_output definition_step node (
              node.execute resolved_input (record {
                workflow_run_id = run.id;
                workflow_step_run_id = step.id;
                workflow_attempt_id = attempt.id;
                idempotency_key = step.id;
              }))) [
                | err e ↦
                    fail_claimed_step run.id step.id attempt.id (failure_code_of e) now e later
                | ok (output, next_step_id) ↦
                    finished
                      (complete_claimed_step run.id step.id attempt output next_step_id now later)
              ]
      ]

  abbrev pub after_claim :
      (Db → Db) → ℕ → Option Object → Txn (Option Claim) → Txn (Option StepExecutionResult)
  after_claim others now node_input (claimed, err e) = (claimed, err e)
  after_claim others now node_input (claimed, ok none) = (claimed, ok none)
  after_claim others now node_input (claimed, ok (some claim)) =
      run_claimed_step others now node_input claim claimed

  -- `execute_next`, and `execute_next_async`, whose awaited node is a node that returns later.
  unfoldable pub execute_next :
      (Db → Db) → String → ℕ → String → Option Object → Db → Txn (Option StepExecutionResult)
  unfolding run_claimed_step
  execute_next others attempt_id now run_id node_input db =
      after_claim others now node_input (claim_next_step attempt_id run_id db)
