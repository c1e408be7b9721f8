-- ===== src/Workflow/Routing.antt =====
-- backend/app/workflow/routing.py: node inputs by field mappings, and fixed branches.
pub mod Laws
use ai_knowledge_hub.Base.{
  String, Option, none, some, List, [], ◌∷◌, Result, ok, err, ◌>>=◌, or_raise, find_first, str_eq,
}
use ai_knowledge_hub.Workflow.Error.{Error, workflow_input_mapping, workflow_branch_resolution}
use ai_knowledge_hub.Workflow.Payload.{
  Value, Payload, null, boolean, number, text, array, object, get, put,
}
use ai_knowledge_hub.Workflow.Definition.{
  InputSource, run_input, previous_step_output, InputBinding, BranchDefinition, BranchCase,
  StepDefinition,
}

unfoldable pub source_for : InputSource → Payload → Option Payload → Result Error Payload
source_for run_input input previous = ok input
source_for previous_step_output input previous = or_raise previous workflow_input_mapping

-- The loop of `build_node_input` over the bindings that are left.
unfoldable pub map_fields :
    List InputBinding → Payload → Option Payload → Payload → Result Error Payload
unfolding source_for
map_fields [] input previous node_input = ok node_input
map_fields (b ∷ bindings) input previous node_input = do
  source ← source_for b.source input previous
  value ← or_raise (get b.source_field source) workflow_input_mapping
  map_fields bindings input previous (put b.target_field value node_input)

unfoldable pub build_node_input : StepDefinition → Payload → Option Payload → Result Error Payload
unfolding map_fields
build_node_input step input previous = map_fields step.input_bindings input previous []

unfoldable pub as_text : Value → Result Error String
as_text (text s) = ok s
as_text null = err workflow_branch_resolution
as_text (boolean b) = err workflow_branch_resolution
as_text (number n) = err workflow_branch_resolution
as_text (array a) = err workflow_branch_resolution
as_text (object o) = err workflow_branch_resolution

unfoldable pub select_branch_target : BranchDefinition → Payload → Result Error String
unfolding as_text
select_branch_target branch node_output = do
  value ← or_raise (get branch.selector_field node_output) workflow_branch_resolution
  selector_value ← as_text value
  case ←
      or_raise (find_first (λ c. str_eq c.expected_value selector_value) branch.cases)
        workflow_branch_resolution
  ok case.next_step_id

abbrev pub select_from :
    Option BranchDefinition → Option String → Payload → Result Error (Option String)
select_from none next_step_id node_output = ok next_step_id
select_from (some branch) next_step_id node_output = do
  target ← select_branch_target branch node_output
  ok (some target)

unfoldable pub select_next_step_id : StepDefinition → Payload → Result Error (Option String)
unfolding select_branch_target
select_next_step_id step node_output = select_from step.branch step.next_step_id node_output
