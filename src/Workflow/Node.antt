-- ===== src/Workflow/Node.antt =====
-- backend/app/workflow/node.py: the nodes that a definition's steps name. A node's `execute` is code
-- of the application: a function from its input and context to what it returns or raises.
use ai_knowledge_hub.Base.{String}
use ai_knowledge_hub.Workflow.Error.{Error}
use ai_knowledge_hub.Workflow.Payload.{Payload}
use ai_knowledge_hub.Workflow.Definition.{TypeRef}

pub record NodeExecutionContext : Type 0 where
  pub workflow_run_id : String
  pub workflow_step_run_id : String
  pub workflow_attempt_id : String
  pub idempotency_key : String

-- A Python object as the executor sees it: a `dict`, or an instance of another class.
pub data Object : Type 0 where
  dict_object : Payload → Object
  instance_object : String → Payload → Object

pub data Outcome : Type 0 where
  returned : Object → Outcome
  raised : Error → Outcome

pub record Node : Type 0 where
  pub node_key : String
  pub input_type : TypeRef
  pub output_type : TypeRef
  pub execute : Object → NodeExecutionContext → Outcome
