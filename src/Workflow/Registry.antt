-- ===== src/Workflow/Registry.antt =====
-- backend/app/workflow/registry.py: nodes and definitions are registered and checked at startup.
pub mod Search
pub mod Order
pub mod Walks
pub mod Tests
use ai_knowledge_hub.Base.{
  ℕ, zero, suc, String, Bool, true, false, not, ◌&&◌, Option, none, some, List, [], ◌∷◌, ◌++◌, ok,
  err, ◌>>=◌, ◌>>◌, raise_if, or_raise, any, all, find_first, count, length, is_blank, leb, ◌==◌,
  str_eq,
}
use ai_knowledge_hub.Workflow.Error.{
  duplicate_workflow_node, workflow_node_not_found, duplicate_workflow_definition,
  workflow_definition_not_found, workflow_definition_topology, workflow_definition_type_mismatch,
}
use ai_knowledge_hub.Workflow.Definition.{
  dict_class, is_runtime_type, same_type, Checked, run_input, previous_step_output, InputBinding,
  StepDefinition, Definition, is_empty, outgoing_step_ids,
}
use ai_knowledge_hub.Workflow.Node.{Node}

-- The dict of nodes by key; keys are distinct, since a second node of a key is refused.
abbrev pub NodeRegistry : Type 0
NodeRegistry = List Node

unfoldable pub register_nodes : List Node → NodeRegistry → Checked NodeRegistry
register_nodes [] registered = ok registered
register_nodes (node ∷ nodes) registered = do
  raise_if (is_blank node.node_key) workflow_definition_topology
  raise_if (not (is_runtime_type node.input_type)) workflow_definition_topology
  raise_if (not (is_runtime_type node.output_type)) workflow_definition_topology
  raise_if (any (λ n. str_eq n.node_key node.node_key) registered) duplicate_workflow_node
  register_nodes nodes (registered ++ node ∷ [])

unfoldable pub get_node : NodeRegistry → String → Checked Node
get_node registry node_key =
    or_raise (find_first (λ n. str_eq n.node_key node_key) registry) workflow_node_not_found

-- `steps_by_id`: the ids of a constructed definition are distinct, so the first step of an id is the
-- one that the dict holds.
unfoldable pub find_step : List StepDefinition → String → Option StepDefinition
find_step steps step_id = find_first (λ s. str_eq s.step_id step_id) steps

abbrev pub reads_previous : InputBinding → Bool
reads_previous b = elim b.source [ run_input ↦ false | previous_step_output ↦ true ]

-- The loop over a step's `outgoing_step_ids`. `incoming_edges` is the list of the targets counted so
-- far; the dict's count of an id is how often it stands there.
unfoldable pub check_edges :
    NodeRegistry → List StepDefinition → Node → List String → List String → Checked (List String)
unfolding get_node find_step
check_edges registry steps node [] incoming_edges = ok incoming_edges
check_edges registry steps node (next_step_id ∷ targets) incoming_edges = do
  next_step ← or_raise (find_step steps next_step_id) workflow_definition_topology
  raise_if (leb 2 (count (str_eq next_step.step_id) (next_step.step_id ∷ incoming_edges)))
      workflow_definition_topology
  next_node ← get_node registry next_step.node_key
  raise_if (not (same_type node.output_type next_node.input_type)) workflow_definition_type_mismatch
  check_edges registry steps node targets (next_step.step_id ∷ incoming_edges)

-- The loop over the definition's steps.
unfoldable pub check_steps :
    NodeRegistry → Definition → List StepDefinition → List String → Checked (List String)
unfolding get_node check_edges outgoing_step_ids
check_steps registry definition [] incoming_edges = ok incoming_edges
check_steps registry definition (step ∷ rest) incoming_edges = do
  node ← get_node registry step.node_key
  raise_if (not (same_type node.input_type step.input_type)) workflow_definition_type_mismatch
  raise_if (not (is_empty step.input_bindings) && not (same_type step.input_type dict_class))
      workflow_definition_type_mismatch
  raise_if (str_eq step.step_id definition.start_step_id && any reads_previous step.input_bindings)
      workflow_definition_topology
  incoming ← check_edges registry definition.steps node (outgoing_step_ids step) incoming_edges
  check_steps registry definition rest incoming

-- A search that runs out of fuel gives `none`.
abbrev pub Search : Type 0
Search = Option (Checked (List String))

abbrev pub continue : Search → (List String → Search) → Search
continue none k = none
continue (some (err e)) k = some (err e)
continue (some (ok reachable)) k = k reachable

-- The loop over a step's successors, given `visit` for each. `steps_by_id[next_step_id]` of a missing
-- key was refused before the search, and is a topology error here.
unfoldable pub visit_all :
    (StepDefinition → List String → Search)
    → List StepDefinition
    → List String
    → List String
    → Search
unfolding find_step
visit_all visit steps [] reachable = some (ok reachable)
visit_all visit steps (next_step_id ∷ targets) reachable = elim (find_step steps next_step_id) [
  | none ↦ some (err workflow_definition_topology)
  | some next ↦ continue (visit next reachable) (visit_all visit steps targets)
]

-- `visit`: the set `visiting` holds what is on the way from the start to this step, so a call passes
-- it on with this step added, and the caller's own set is unchanged.
unfoldable pub visit : ℕ → List StepDefinition → List String → StepDefinition → List String → Search
unfolding visit_all outgoing_step_ids
visit zero steps visiting step reachable = none
visit (suc fuel) steps visiting step reachable = elim (any (str_eq step.step_id) visiting) [
  | true ↦ some (err workflow_definition_topology)
  | false ↦ elim (any (str_eq step.step_id) reachable) [
    | true ↦ some (ok reachable)
    | false ↦
        continue
          (visit_all (visit fuel steps (step.step_id ∷ visiting)) steps (outgoing_step_ids step)
            reachable)
          (λ done. some (ok (step.step_id ∷ done)))
  ]
]

-- The steps on the way from the start are distinct, and the last call finds that out.
abbrev pub search_fuel : List StepDefinition → ℕ
search_fuel steps = suc (length steps)

abbrev pub check_reachable : List StepDefinition → List String → Checked (Unit {0})
check_reachable steps reachable =
    raise_if (not (all (λ s. any (str_eq s.step_id) reachable) steps)) workflow_definition_topology

unfoldable pub validate_definition : NodeRegistry → Definition → Option (Checked (Unit {0}))
validate_definition registry definition =
    elim (check_steps registry definition definition.steps []) [
      | err e ↦ some (err e)
      | ok _ ↦ elim (find_step definition.steps definition.start_step_id) [
        | none ↦ some (err workflow_definition_topology)
        | some start_step ↦ elim (same_type definition.input_type start_step.input_type) [
          | false ↦ some (err workflow_definition_type_mismatch)
          | true ↦ elim (visit (search_fuel definition.steps) definition.steps [] start_step []) [
            | none ↦ none
            | some (err e) ↦ some (err e)
            | some (ok reachable) ↦ some (check_reachable definition.steps reachable)
          ]
        ]
      ]
    ]

abbrev pub DefinitionRegistry : Type 0
DefinitionRegistry = List Definition

abbrev pub has_identity : String → ℕ → Definition → Bool
has_identity key version d = str_eq d.key key && d.version == version

-- `DefinitionRegistry.__init__`; `none` is a search out of fuel.
unfoldable pub register_definitions :
    NodeRegistry → List Definition → DefinitionRegistry → Option (Checked DefinitionRegistry)
unfolding validate_definition
register_definitions nodes [] registered = some (ok registered)
register_definitions nodes (d ∷ definitions) registered =
    let rest = register_definitions nodes definitions (registered ++ d ∷ []) in
    elim (any (has_identity d.key d.version) registered) [
      | true ↦ some (err duplicate_workflow_definition)
      | false ↦ elim (validate_definition nodes d) [
        | none ↦ none
        | some (err e) ↦ some (err e)
        | some (ok _) ↦ rest
      ]
    ]

unfoldable pub get_definition : DefinitionRegistry → String → ℕ → Checked Definition
get_definition registry key version =
    or_raise (find_first (has_identity key version) registry) workflow_definition_not_found
