-- ===== src/Workflow/Registry/Tests.antt =====
-- The theorems on the registries at a small definition: a review, then a publication.
use ai_knowledge_hub.Base.{◌<◌, ◌≡◌, ◌≢◌, refl, String, none, some, List, [], ◌∷◌, ok}
use ai_knowledge_hub.Workflow.Definition.{
  dict_class, InputBinding, run_input, StepDefinition, Definition, outgoing_step_ids,
}
use ai_knowledge_hub.Workflow.Node.{Node, returned, dict_object}
use ai_knowledge_hub.Workflow.Registry.{
  NodeRegistry, register_definitions, validate_definition, check_steps, visit, find_step,
}
use ai_knowledge_hub.Workflow.Registry.Search.{register_definitions_ends}
use ai_knowledge_hub.Workflow.Registry.Order.{IsOrder, validate_definition-IsOrder}
use ai_knowledge_hub.Workflow.Registry.Walks.{validate_definition-Walk}

abbrev binding : InputBinding
binding = record { target_field = "revision"; source = run_input; source_field = "revision_id" }

abbrev review : StepDefinition
review = record {
  step_id = "review";
  node_key = "review_node";
  input_type = dict_class;
  next_step_id = none;
  input_bindings = binding ∷ [];
  branch = some (record {
    selector_field = "decision";
    cases = (record { expected_value = "approved"; next_step_id = "publish" }) ∷ [];
  });
  max_attempts = 1;
}

abbrev publish : StepDefinition
publish = record {
  step_id = "publish";
  node_key = "publish_node";
  input_type = dict_class;
  next_step_id = none;
  input_bindings = binding ∷ [];
  branch = none;
  max_attempts = 3;
}

abbrev definition : Definition
definition = record {
  key = "revision";
  version = 1;
  input_type = dict_class;
  start_step_id = "review";
  steps = review ∷ publish ∷ [];
}

abbrev node_of : String → Node
node_of key = record {
  node_key = key;
  input_type = dict_class;
  output_type = dict_class;
  execute = λ input context. returned (dict_object []);
}

abbrev nodes : NodeRegistry
nodes = node_of "review_node" ∷ node_of "publish_node" ∷ []

register_definitions_example : register_definitions nodes (definition ∷ []) [] ≢ none
register_definitions_example = register_definitions_ends nodes (definition ∷ [])

validated : validate_definition nodes definition ≡ some (ok tt)
unfolding validate_definition check_steps visit
validated = refl

validate_definition-IsOrder_example : (order : List String) × IsOrder definition order
validate_definition-IsOrder_example = validate_definition-IsOrder nodes definition validated

validate_definition-Walk_example : 1 < 2
unfolding find_step outgoing_step_ids
validate_definition-Walk_example =
    validate_definition-Walk nodes definition "review" 1 validated refl
      (review, refl, ("publish", refl, tt))
