-- ===== src/Workflow.antt =====
-- backend/app/workflow, backend/app/services/workflow_service.py and the repositories below them.
pub mod Error
pub mod Payload
pub mod StateMachine
pub mod Definition
pub mod Node
pub mod Store
pub mod Queries
pub mod Repository
pub mod Revisions
pub mod Consistency
pub mod Executor
pub mod Service
pub mod Submission
pub mod Approval
pub mod Recovery
pub mod Tests
pub mod Routing
pub mod Registry
