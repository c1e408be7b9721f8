-- ===== src/Workflow/Definition.antt =====
-- backend/app/workflow/definition.py: immutable definitions and the checks at their construction. A
-- `__post_init__` is a function that returns the object or raises.
use ai_knowledge_hub.Base.{
  ℕ, String, Bool, true, false, not, ◌&&◌, ◌||◌, Option, none, some, List, [], ◌∷◌, map, Result, ok,
  ◌>>◌, raise_if, or_raise, any, find_first, is_some, is_blank, leb, str_eq,
}
use ai_knowledge_hub.Workflow.Error.{Error, workflow_definition_topology}

-- What a field declared `type[object]` holds: a class, or an object that is no class.
pub data TypeRef : Type 0 where
  dict_class : TypeRef
  named_class : String → TypeRef
  not_a_class : TypeRef

-- `isinstance(value, type)`
abbrev pub is_runtime_type : TypeRef → Bool
is_runtime_type not_a_class = false
is_runtime_type _ = true

-- `a is b`, of classes
abbrev pub same_type : TypeRef → TypeRef → Bool
same_type dict_class dict_class = true
same_type (named_class a) (named_class b) = str_eq a b
same_type _ _ = false

abbrev pub Checked : Type 0 → Type 0
Checked A = Result Error A

unfoldable pub require_non_empty : String → Checked (Unit {0})
require_non_empty value = raise_if (is_blank value) workflow_definition_topology

unfoldable pub require_runtime_type : TypeRef → Checked (Unit {0})
require_runtime_type value = raise_if (not (is_runtime_type value)) workflow_definition_topology

-- `len(set(texts)) != len(texts)`
unfoldable pub has_duplicates : List String → Bool
has_duplicates [] = false
has_duplicates (x ∷ xs) = any (str_eq x) xs || has_duplicates xs

pub data InputSource : Type 0 where
  run_input previous_step_output : InputSource

pub record InputBinding : Type 0 where
  pub target_field : String
  pub source : InputSource
  pub source_field : String

unfoldable pub check_binding : InputBinding → Checked (Unit {0})
unfolding require_non_empty
check_binding b = do require_non_empty b.target_field; require_non_empty b.source_field

pub record BranchCase : Type 0 where
  pub expected_value : String
  pub next_step_id : String

unfoldable pub check_case : BranchCase → Checked (Unit {0})
unfolding require_non_empty
check_case c = do require_non_empty c.expected_value; require_non_empty c.next_step_id

pub record BranchDefinition : Type 0 where
  pub selector_field : String
  pub cases : List BranchCase

abbrev pub is_empty {ℓ} : {A : Type ℓ} → List A → Bool
is_empty [] = true
is_empty (_ ∷ _) = false

unfoldable pub check_branch : BranchDefinition → Checked (Unit {0})
unfolding require_non_empty has_duplicates
check_branch b = do
  require_non_empty b.selector_field
  raise_if (is_empty b.cases) workflow_definition_topology
  raise_if (has_duplicates (map (λ c. c.expected_value) b.cases)) workflow_definition_topology

-- `max_attempts` is a natural number; the source also rejects the negative ones.
pub record StepDefinition : Type 0 where
  pub step_id : String
  pub node_key : String
  pub input_type : TypeRef
  pub next_step_id : Option String
  pub input_bindings : List InputBinding
  pub branch : Option BranchDefinition
  pub max_attempts : ℕ

abbrev require_non_empty_if_some : Option String → Checked (Unit {0})
unfolding require_non_empty
require_non_empty_if_some none = ok tt
require_non_empty_if_some (some value) = require_non_empty value

unfoldable pub check_step : StepDefinition → Checked (Unit {0})
unfolding require_non_empty require_runtime_type has_duplicates require_non_empty_if_some
check_step s = do
  require_non_empty s.step_id
  require_non_empty s.node_key
  require_runtime_type s.input_type
  require_non_empty_if_some s.next_step_id
  raise_if (is_some s.next_step_id && is_some s.branch) workflow_definition_topology
  raise_if (has_duplicates (map (λ b. b.target_field) s.input_bindings))
      workflow_definition_topology
  raise_if (leb s.max_attempts 0) workflow_definition_topology

abbrev pub branch_targets : Option BranchDefinition → Option String → List String
branch_targets (some b) _ = map (λ c. c.next_step_id) b.cases
branch_targets none (some next_step_id) = next_step_id ∷ []
branch_targets none none = []

-- The property `outgoing_step_ids`.
unfoldable pub outgoing_step_ids : StepDefinition → List String
outgoing_step_ids s = branch_targets s.branch s.next_step_id

pub record Definition : Type 0 where
  pub key : String
  pub version : ℕ
  pub input_type : TypeRef
  pub start_step_id : String
  pub steps : List StepDefinition

abbrev pub step_ids : List StepDefinition → List String
step_ids = map (λ s. s.step_id)

unfoldable pub check_definition : Definition → Checked (Unit {0})
unfolding require_non_empty require_runtime_type has_duplicates
check_definition d = do
  require_non_empty d.key
  raise_if (leb d.version 0) workflow_definition_topology
  require_runtime_type d.input_type
  require_non_empty d.start_step_id
  raise_if (is_empty d.steps) workflow_definition_topology
  raise_if (has_duplicates (step_ids d.steps)) workflow_definition_topology
  raise_if (not (any (str_eq d.start_step_id) (step_ids d.steps))) workflow_definition_topology

unfoldable pub step_by_id : Definition → String → Checked StepDefinition
step_by_id d step_id =
    or_raise (find_first (λ s. str_eq s.step_id step_id) d.steps) workflow_definition_topology
