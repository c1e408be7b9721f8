-- ===== src/Workflow/StateMachine/Transitions.antt =====
-- The life cycle of state_machine.py as a relation, and the transition functions against it.
use ai_knowledge_hub.Base.{
  String, ◌≡◌, ◌↔◌, refl, some, ok, arith, eq_iff, >>=-eq-ok, or_raise, or_raise-eq-ok,
}
use ai_knowledge_hub.Workflow.StateMachine.{
  RunStatus, RunEvent, start, wait_for_approval, approve, reject, expire, complete, fail, resume,
  cancel, status_value, event_value, parse_status, parse_event, transition, unknown_status_or_event,
  get_next_workflow_run_status,
}

-- The diagram of a run's life cycle: an edge for each event that moves a run on.
pub data Step : RunStatus → RunEvent → RunStatus → Type 0 where
  begin : Step RunStatus.pending start RunStatus.running
  drop_pending : Step RunStatus.pending cancel RunStatus.cancelled
  ask : Step RunStatus.running wait_for_approval RunStatus.waiting_approval
  finish : Step RunStatus.running complete RunStatus.succeeded
  break_down : Step RunStatus.running fail RunStatus.failed
  accept : Step RunStatus.waiting_approval approve RunStatus.running
  refuse : Step RunStatus.waiting_approval reject RunStatus.cancelled
  time_out : Step RunStatus.waiting_approval expire RunStatus.cancelled
  withdraw : Step RunStatus.waiting_approval cancel RunStatus.cancelled
  retry : Step RunStatus.failed resume RunStatus.running

ruleset edges =
    (begin, drop_pending, ask, finish, break_down, accept, refuse, time_out, withdraw, retry)

pub transition-Step :
    (s : RunStatus) (e : RunEvent) (t : RunStatus) → transition s e ≡ some t → Step s e t
unfolding transition
transition-Step s e t h = grind (arith, edges)

pub Step-transition :
    {s : RunStatus} {e : RunEvent} {t : RunStatus} → Step s e t → transition s e ≡ some t
unfolding transition
Step-transition begin = refl
Step-transition drop_pending = refl
Step-transition ask = refl
Step-transition finish = refl
Step-transition break_down = refl
Step-transition accept = refl
Step-transition refuse = refl
Step-transition time_out = refl
Step-transition withdraw = refl
Step-transition retry = refl

pub parse_status-value : (s : RunStatus) → parse_status (status_value s) ≡ some s
unfolding parse_status
parse_status-value RunStatus.pending = refl
parse_status-value RunStatus.running = refl
parse_status-value RunStatus.waiting_approval = refl
parse_status-value RunStatus.succeeded = refl
parse_status-value RunStatus.failed = refl
parse_status-value RunStatus.cancelled = refl

pub parse_event-value : (e : RunEvent) → parse_event (event_value e) ≡ some e
unfolding parse_event
parse_event-value start = refl
parse_event-value wait_for_approval = refl
parse_event-value approve = refl
parse_event-value reject = refl
parse_event-value expire = refl
parse_event-value complete = refl
parse_event-value fail = refl
parse_event-value resume = refl
parse_event-value cancel = refl

value-parse_status :
    (s : RunStatus) (text : String) → parse_status text ≡ some s → text ≡ status_value s
unfolding parse_status
value-parse_status s text h = ground (
  arith,
  eq_iff "pending" text,
  eq_iff "running" text,
  eq_iff "waiting_approval" text,
  eq_iff "succeeded" text,
  eq_iff "failed" text,
  eq_iff "cancelled" text,
)

value-parse_event :
    (e : RunEvent) (text : String) → parse_event text ≡ some e → text ≡ event_value e
unfolding parse_event
value-parse_event e text h = ground (
  arith,
  eq_iff "start" text,
  eq_iff "wait_for_approval" text,
  eq_iff "approve" text,
  eq_iff "reject" text,
  eq_iff "expire" text,
  eq_iff "complete" text,
  eq_iff "fail" text,
  eq_iff "resume" text,
  eq_iff "cancel" text,
)

-- The states and events that two texts stand for, with an edge of the diagram between them.
abbrev pub EdgeBetween : String → String → RunStatus → Type 0
EdgeBetween current_status event t =
    (s : RunStatus) × (e : RunEvent) × (current_status ≡ status_value s)
    × (event ≡ event_value e)
    × Step s e t

accepted-EdgeBetween :
    (current_status event : String) (t : RunStatus)
    → get_next_workflow_run_status current_status event ≡ ok t
    → EdgeBetween current_status event t
unfolding get_next_workflow_run_status
accepted-EdgeBetween current_status event t h =
    let (s, p, h') =
      >>=-eq-ok (or_raise (parse_status current_status) unknown_status_or_event) _ h in
    let (e, q, h'') = >>=-eq-ok (or_raise (parse_event event) unknown_status_or_event) _ h' in
    (
      s,
      e,
      value-parse_status s current_status (or_raise-eq-ok _ _ p),
      value-parse_event e event (or_raise-eq-ok _ _ q),
      transition-Step s e t (or_raise-eq-ok _ _ h''),
    )

EdgeBetween-accepted :
    (current_status event : String) (t : RunStatus)
    → EdgeBetween current_status event t
    → get_next_workflow_run_status current_status event ≡ ok t
unfolding get_next_workflow_run_status
EdgeBetween-accepted current_status event t (s, e, p, q, step) =
    rw (p, q, parse_status-value s, parse_event-value e, Step-transition step)

-- Two texts are mapped to a next status exactly when they are the values of a status and an event
-- with an edge of the diagram between that status and the next one.
pub get_next_workflow_run_status_lem :
    (current_status event : String) (t : RunStatus)
    → (get_next_workflow_run_status current_status event ≡ ok t)
      ↔ EdgeBetween current_status event t
get_next_workflow_run_status_lem current_status event t =
    (accepted-EdgeBetween current_status event t, EdgeBetween-accepted current_status event t)
