-- ===== src/Workflow/Error.antt =====
-- backend/app/workflow/exceptions.py: an exception of the source is an error value. `integrity` is
-- the `SQLAlchemyError` of a violated unique constraint.
use ai_knowledge_hub.Base.{Bool, true, false}

pub data Error : Type 0 where
  duplicate_workflow_node workflow_node_not_found duplicate_workflow_definition : Error
  workflow_definition_not_found workflow_definition_topology : Error
  workflow_definition_type_mismatch workflow_input_mapping workflow_branch_resolution : Error
  workflow_node_execution workflow_retryable_node : Error
  workflow_run_not_found workflow_run_not_retryable workflow_retry_exhausted : Error
  workflow_approval_conflict : Error
  other_exception integrity : Error

-- The subclasses of `WorkflowDefinitionError`.
abbrev pub is_definition_error : Error → Bool
is_definition_error duplicate_workflow_node = true
is_definition_error workflow_node_not_found = true
is_definition_error duplicate_workflow_definition = true
is_definition_error workflow_definition_not_found = true
is_definition_error workflow_definition_topology = true
is_definition_error workflow_definition_type_mismatch = true
is_definition_error workflow_input_mapping = true
is_definition_error workflow_branch_resolution = true
is_definition_error _ = false
