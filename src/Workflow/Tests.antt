-- ===== src/Workflow/Tests.antt =====
-- The theorems of the workflow engine at a small definition: a review, then a publication.
use ai_knowledge_hub.Workflow.Service.{owned_revision, owned_run}
use ai_knowledge_hub.Workflow.Repository.{
  step_at, approve_waiting_run_and_step, cancel_waiting_run_and_step, claim_step,
}
use ai_knowledge_hub.Workflow.Queries.{
  create_run, create_step, get_owned_run, get_step, get_run, create_attempt, earliest,
  get_attempt_count, get_next_pending_step,
}
use ai_knowledge_hub.Workflow.Revisions.{
  get_owned_revision, create_revision, update_submitted_decision,
}
use ai_knowledge_hub.Base.{
  arith, ◌≤◌, ◌≡◌, ◌↔◌, refl, String, true, Option, none, some, List, [], ◌∷◌, ok, map, count,
}
use ai_knowledge_hub.Workflow.Payload.{text, number, get}
use ai_knowledge_hub.Workflow.StateMachine.{
  transition, RunStatus, StepStatus, RunEvent, start, wait_for_approval, approve,
  get_next_workflow_run_status,
}
use ai_knowledge_hub.Workflow.StateMachine.Transitions.{
  EdgeBetween, get_next_workflow_run_status_lem,
}
use ai_knowledge_hub.Workflow.StateMachine.Histories.{
  History, stay, move, is_approve, is_wait, is_waiting, is_resume, is_fail, is_failed,
  History-balance,
}
use ai_knowledge_hub.Workflow.Definition.{
  dict_class, InputBinding, run_input, StepDefinition, outgoing_step_ids, step_by_id,
  has_duplicates,
}
use ai_knowledge_hub.Workflow.Routing.{
  build_node_input, select_next_step_id, as_text, select_branch_target,
}
use ai_knowledge_hub.Workflow.Routing.Laws.{
  Mapped, Selects, build_node_input-Mapped, select_next_step_id-Selects,
}
use ai_knowledge_hub.Workflow.Registry.{DefinitionRegistry, get_definition}
use ai_knowledge_hub.Workflow.Store.{
  RevisionStatus, Db, insert_attempt, insert_revision, insert_run, insert_step,
}
use ai_knowledge_hub.Workflow.Submission.{
  NewIds, PendingVersion, submit_revision_for_approval, plan_submission, write_submission,
}
use ai_knowledge_hub.Workflow.Approval.{
  decide_revision, index_of_step, change_run, plan_decision, write_decision,
}
use ai_knowledge_hub.Workflow.Executor.{Claim, claim_next_step, new_attempt, execute_next}
use ai_knowledge_hub.Workflow.Consistency.{running_attempt_of}
use ai_knowledge_hub.Base.{◌+◌}
use ai_knowledge_hub.Workflow.Executor.Settling.{Executes, has_run_id, execute_next-Executes}
use ai_knowledge_hub.Workflow.Approval.Once.{Decides, decide_revision-Decides}
use ai_knowledge_hub.Workflow.Node.{returned, dict_object}
use ai_knowledge_hub.Workflow.Registry.{NodeRegistry}
use ai_knowledge_hub.Workflow.Consistency.System.{Reach-IsSound}
use ai_knowledge_hub.Workflow.Consistency.System.{
  System, empty, Reach, started, then, claims, submits, decides, one_running_attempt,
}

abbrev binding : InputBinding
binding = record { target_field = "revision"; source = run_input; source_field = "revision_id" }

abbrev review : StepDefinition
review = record {
  step_id = "review";
  node_key = "review_node";
  input_type = dict_class;
  next_step_id = none;
  input_bindings = binding ∷ [];
  branch = some (record {
    selector_field = "decision";
    cases = (record { expected_value = "approved"; next_step_id = "publish" }) ∷ [];
  });
  max_attempts = 1;
}

abbrev publish : StepDefinition
publish = record {
  step_id = "publish";
  node_key = "publish_node";
  input_type = dict_class;
  next_step_id = none;
  input_bindings = binding ∷ [];
  branch = none;
  max_attempts = 3;
}

abbrev definitions : DefinitionRegistry
definitions =
    (record {
      key = "revision";
      version = 1;
      input_type = dict_class;
      start_step_id = "review";
      steps = review ∷ publish ∷ [];
    })
    ∷ []

abbrev ids : NewIds
ids = record { run_id = "run"; step_run_id = "first"; revision_id = "rev" }

abbrev document : Option (String × Option PendingVersion)
document = some ("doc", some (record { document_id = "doc"; version_id = "v1"; is_pending = true }))

abbrev submitted : Db
submitted = (submit_revision_for_approval definitions ids 7 document "revision" 1 100 empty.db).0

abbrev approved : Db
approved =
    (decide_revision definitions (λ _. submitted) "second" 50 7 "rev" RevisionStatus.approved
      (some 9) submitted).0

approved_steps :
    map (λ s. s.status) approved.steps ≡ (StepStatus.succeeded ∷ StepStatus.pending ∷ [])
unfolding decide_revision submit_revision_for_approval get_owned_revision get_definition step_by_id
    create_run create_step create_revision get_owned_run get_step update_submitted_decision
    select_next_step_id get index_of_step approve_waiting_run_and_step
approved_steps = refl

abbrev claim : Claim
claim = record {
  run = record {
    id = "run";
    owner_id = 7;
    definition_key = "revision";
    definition_version = 1;
    run_input =
        ("revision_id", text "rev")
        ∷ ("owner_id", number 7)
        ∷ ("document_id", text "doc")
        ∷ ("document_version_id", text "v1")
        ∷ [];
    status = RunStatus.running;
    failure_code = none;
  };
  step = record {
    id = "second";
    workflow_run_id = "run";
    step_id = "publish";
    step_index = 1;
    status = StepStatus.pending;
    output_payload = none;
    failure_code = none;
  };
  attempt = new_attempt "attempt" "second" 1;
}

claimed : (claim_next_step "attempt" "run" approved).1 ≡ ok (some claim)
unfolding claim_next_step get_run decide_revision get_owned_revision submit_revision_for_approval
    get_definition step_by_id create_run create_step create_revision get_owned_run get_step
    update_submitted_decision select_next_step_id get index_of_step approve_waiting_run_and_step
    change_run plan_decision write_decision create_attempt earliest get_attempt_count
    get_next_pending_step cancel_waiting_run_and_step claim_step as_text select_branch_target
    owned_revision owned_run insert_attempt insert_revision insert_run insert_step plan_submission
    write_submission
claimed = refl

abbrev three_moves : System
three_moves = record {
  db = (claim_next_step "attempt" "run" approved).0;
  held = ("attempt", "second") ∷ [];
}

three_moves-Reach : Reach definitions three_moves
three_moves-Reach =
    then
      (then (then started (submits empty ids 7 document "revision" 1 100)) (
        decides (record { db = submitted; held = [] }) submitted "second" 50 7 "rev"
          RevisionStatus.approved (some 9)))
      (claims (record { db = approved; held = [] }) "attempt" "run" claim claimed)

one_running_attempt_example :
    (count (running_attempt_of "second") three_moves.db.attempts ≤ 1)
    × (count (running_attempt_of "second") three_moves.db.attempts
        ≡ count (step_at "second" StepStatus.running) three_moves.db.steps)
one_running_attempt_example = one_running_attempt three_moves "second" three_moves-Reach

three_moves_steps :
    map (λ s. s.status) three_moves.db.steps ≡ (StepStatus.succeeded ∷ StepStatus.running ∷ [])
unfolding claim_next_step get_run decide_revision get_owned_revision submit_revision_for_approval
    get_definition step_by_id create_run create_step create_revision get_owned_run get_step
    update_submitted_decision select_next_step_id get index_of_step approve_waiting_run_and_step
    change_run plan_decision write_decision create_attempt earliest get_attempt_count
    get_next_pending_step cancel_waiting_run_and_step claim_step as_text select_branch_target
    owned_revision owned_run insert_attempt insert_revision insert_run insert_step plan_submission
    write_submission
three_moves_steps = refl

abbrev nodes : NodeRegistry
nodes =
    record {
      node_key = "publish_node";
      input_type = dict_class;
      output_type = dict_class;
      execute = λ input context.
          returned (dict_object (("published", text context.idempotency_key) ∷ []));
    }
    ∷ []

approved-Reach : Reach definitions (record { db = approved; held = [] })
approved-Reach = then (then started (submits empty ids 7 document "revision" 1 100)) (
    decides (record { db = submitted; held = [] }) submitted "second" 50 7 "rev"
      RevisionStatus.approved (some 9))

approved_runs : count (has_run_id "run") approved.runs ≤ 1
unfolding claim_next_step get_run decide_revision get_owned_revision submit_revision_for_approval
    get_definition step_by_id create_run create_step create_revision get_owned_run get_step
    update_submitted_decision select_next_step_id get index_of_step approve_waiting_run_and_step
    change_run plan_decision write_decision create_attempt earliest get_attempt_count
    get_next_pending_step cancel_waiting_run_and_step claim_step as_text select_branch_target
    owned_revision owned_run insert_attempt insert_revision insert_run insert_step plan_submission
    write_submission
approved_runs = omega arith

review_selects :
    select_next_step_id review (("decision", text "approved") ∷ []) ≡ ok (some "publish")
unfolding claim_next_step get_run decide_revision get_owned_revision submit_revision_for_approval
    get_definition step_by_id create_run create_step create_revision get_owned_run get_step
    update_submitted_decision select_next_step_id get index_of_step approve_waiting_run_and_step
    change_run plan_decision write_decision create_attempt earliest get_attempt_count
    get_next_pending_step cancel_waiting_run_and_step claim_step as_text select_branch_target
    owned_revision owned_run insert_attempt insert_revision insert_run insert_step plan_submission
    write_submission
review_selects = refl

execute_next_example :
    Executes approved
      (claim_next_step "attempt" "run" approved)
      (execute_next (λ o t. true) definitions nodes (λ d. d) "attempt" 60 "run" none approved)
execute_next_example =
    execute_next-Executes (λ o t. true) definitions nodes (λ d. d) "attempt" 60 "run" none approved
      (Reach-IsSound approved-Reach).consistent approved_runs (λ d r k a h. h)

decide_revision_example : Decides "rev" submitted (
    decide_revision definitions
      (λ _. submitted)
      "second"
      50
      7
      "rev"
      RevisionStatus.approved
      (some 9)
      submitted)
decide_revision_example =
    decide_revision-Decides definitions (λ _. submitted) "second" 50 7 "rev" RevisionStatus.approved
      (some 9) submitted

build_node_input_example :
    Mapped
      (("revision_id", text "rev") ∷ [])
      none
      publish.input_bindings
      (build_node_input publish (("revision_id", text "rev") ∷ []) none)
unfolding has_duplicates
build_node_input_example =
    build_node_input-Mapped publish (("revision_id", text "rev") ∷ []) none refl

select_next_step_id_example : Selects (outgoing_step_ids review) (some "publish")
select_next_step_id_example =
    select_next_step_id-Selects review (("decision", text "approved") ∷ []) review_selects

get_next_workflow_run_status_example :
    (get_next_workflow_run_status "running" "fail" ≡ ok RunStatus.failed)
    ↔ EdgeBetween "running" "fail" RunStatus.failed
get_next_workflow_run_status_example =
    get_next_workflow_run_status_lem "running" "fail" RunStatus.failed

abbrev until_approved : List RunEvent
until_approved = start ∷ wait_for_approval ∷ approve ∷ []

until_approved-History : History RunStatus.pending until_approved RunStatus.running
unfolding transition
until_approved-History =
    move {t = RunStatus.running} refl (move {t = RunStatus.waiting_approval} refl (move refl stay))

History-balance_example :
    (count is_approve until_approved + is_waiting RunStatus.running
      ≤ count is_wait until_approved + is_waiting RunStatus.pending)
    × (count is_resume until_approved + is_failed RunStatus.running
        ≡ count is_fail until_approved + is_failed RunStatus.pending)
History-balance_example = History-balance RunStatus.pending until_approved until_approved-History
