-- ===== src/Workflow/StateMachine.antt =====
-- backend/app/workflow/state_machine.py: the life cycle of a workflow run. An argument that the
-- source takes as an enum or a string is the string; `ValueError` is `err`.
pub mod Transitions
pub mod Histories
use ai_knowledge_hub.Base.{
  String, Bool, true, false, Option, none, some, List, [], ◌∷◌, Result, ok, err, ◌>>=◌, or_raise,
  str_eq, if◌then◌else◌,
}

pub data RunStatus : Type 0 where
  pending running waiting_approval succeeded failed cancelled : RunStatus

pub data StepStatus : Type 0 where
  pending running waiting succeeded failed cancelled : StepStatus

pub data AttemptStatus : Type 0 where
  running waiting succeeded failed cancelled : AttemptStatus

pub data RunEvent : Type 0 where
  start wait_for_approval approve reject expire complete fail resume cancel : RunEvent

-- The value of an enum's member.
unfoldable pub status_value : RunStatus → String
status_value RunStatus.pending = "pending"
status_value RunStatus.running = "running"
status_value RunStatus.waiting_approval = "waiting_approval"
status_value RunStatus.succeeded = "succeeded"
status_value RunStatus.failed = "failed"
status_value RunStatus.cancelled = "cancelled"

unfoldable pub event_value : RunEvent → String
event_value start = "start"
event_value wait_for_approval = "wait_for_approval"
event_value approve = "approve"
event_value reject = "reject"
event_value expire = "expire"
event_value complete = "complete"
event_value fail = "fail"
event_value resume = "resume"
event_value cancel = "cancel"

abbrev all_statuses : List RunStatus
all_statuses =
    RunStatus.pending ∷ RunStatus.running ∷ RunStatus.waiting_approval ∷ RunStatus.succeeded
    ∷ RunStatus.failed ∷ RunStatus.cancelled ∷ []

abbrev all_events : List RunEvent
all_events =
    start ∷ wait_for_approval ∷ approve ∷ reject ∷ expire ∷ complete ∷ fail ∷ resume ∷ cancel ∷ []

-- `Enum(text)`: the member whose value is the text.
member_of : {A : Type 0} → (A → String) → List A → String → Option A
member_of value [] text = none
member_of value (a ∷ members) text =
    let rest = member_of value members text in if str_eq (value a) text then some a else rest

unfoldable pub parse_status : String → Option RunStatus
unfolding member_of status_value
parse_status = member_of status_value all_statuses

unfoldable pub parse_event : String → Option RunEvent
unfolding member_of event_value
parse_event = member_of event_value all_events

-- The table `WORKFLOW_RUN_TRANSITIONS` with its `get`.
unfoldable pub transition : RunStatus → RunEvent → Option RunStatus
transition RunStatus.pending start = some RunStatus.running
transition RunStatus.pending cancel = some RunStatus.cancelled
transition RunStatus.running wait_for_approval = some RunStatus.waiting_approval
transition RunStatus.running complete = some RunStatus.succeeded
transition RunStatus.running fail = some RunStatus.failed
transition RunStatus.waiting_approval approve = some RunStatus.running
transition RunStatus.waiting_approval reject = some RunStatus.cancelled
transition RunStatus.waiting_approval expire = some RunStatus.cancelled
transition RunStatus.waiting_approval cancel = some RunStatus.cancelled
transition RunStatus.failed resume = some RunStatus.running
transition _ _ = none

pub data TransitionError : Type 0 where
  unknown_status_or_event : TransitionError
  not_allowed : RunStatus → RunEvent → TransitionError

unfoldable pub get_next_workflow_run_status : String → String → Result TransitionError RunStatus
unfolding parse_status parse_event transition
get_next_workflow_run_status current_status event = do
  normalized_status ← or_raise (parse_status current_status) unknown_status_or_event
  normalized_event ← or_raise (parse_event event) unknown_status_or_event
  or_raise (transition normalized_status normalized_event)
      (not_allowed normalized_status normalized_event)

abbrev pub is_terminal : RunStatus → Bool
is_terminal RunStatus.succeeded = true
is_terminal RunStatus.cancelled = true
is_terminal _ = false

unfoldable pub is_workflow_run_terminal : String → Result TransitionError Bool
unfolding parse_status
is_workflow_run_terminal status = do
  s ← or_raise (parse_status status) unknown_status_or_event
  ok (is_terminal s)
