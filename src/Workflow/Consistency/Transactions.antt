-- ===== src/Workflow/Consistency/Transactions.antt =====
-- Each state change of the repository keeps the invariant.
use ai_knowledge_hub.Base.{
  ap, inl, inr, ℕ, ◌+◌, ◌≤◌, ◌≡◌, refl, String, Bool, true, false, none, some, List, [], ◌∷◌, ◌++◌,
  count, any, str_eq, eq_iff, arith, Bool-cases, count-append, ok,
}
use ai_knowledge_hub.Base.Table.{update, count-le, count-update_same}
use ai_knowledge_hub.Workflow.Payload.{Payload}
use ai_knowledge_hub.Workflow.StateMachine.{StepStatus, AttemptStatus}
use ai_knowledge_hub.Workflow.Store.{
  WorkflowStepRun, WorkflowAttempt, Db, attempt_is, step_is, step_clashes, attempt_clashes,
}
use ai_knowledge_hub.Workflow.Queries.{create_step, create_attempt}
use ai_knowledge_hub.Workflow.Repository.{
  step_at, attempt_at, step_of_run_at, set_step, set_step_output, succeed_attempt, fail_attempt,
  claim_step, complete_attempt_and_step, fail_attempt_step_and_run,
  complete_run_if_no_pending_steps, requeue_failed_run_and_step, approve_waiting_run_and_step,
  cancel_waiting_run_and_step,
}
use ai_knowledge_hub.Workflow.Consistency.{
  IsHeld, is_attempt_of, has_step_id, has_attempt_id, is_other_attempt, BelongsTo, IsConsistent,
}
use ai_knowledge_hub.Workflow.Consistency.Rows.{
  steps-leave_running, steps-enter_running, attempts-leave_running,
}

pub complete-IsConsistent :
    (a k : String) (output : Payload) (now : ℕ) (db : Db)
    → BelongsTo db a k
    → (complete_attempt_and_step a k output now db).1 ≡ true
    → IsConsistent db
    → IsConsistent (complete_attempt_and_step a k output now db).0
unfolding complete_attempt_and_step
complete-IsConsistent a k output now db b m c = record {
  unique_steps = λ j. rw count-update_same (c.unique_steps j);
  unique_attempts = λ j. rw count-update_same (c.unique_attempts j);
  balanced = λ j. ground (
    arith,
    c.balanced j,
    attempts-leave_running a k j (succeed_attempt output now) (λ x. refl) (λ x. refl) db.attempts b,
    steps-leave_running k j (set_step_output StepStatus.succeeded output) (λ s. refl) (λ s. refl)
        db.steps,
  );
}

pub fail-IsConsistent :
    (a k run_id code : String) (now : ℕ) (db : Db)
    → BelongsTo db a k
    → (fail_attempt_step_and_run a k run_id code now db).1 ≡ true
    → IsConsistent db
    → IsConsistent (fail_attempt_step_and_run a k run_id code now db).0
unfolding fail_attempt_step_and_run
fail-IsConsistent a k run_id code now db b m c = record {
  unique_steps = λ j. rw count-update_same (c.unique_steps j);
  unique_attempts = λ j. rw count-update_same (c.unique_attempts j);
  balanced = λ j. ground (
    arith,
    c.balanced j,
    attempts-leave_running a k j (fail_attempt code now) (λ x. refl) (λ x. refl) db.attempts b,
    steps-leave_running k j (set_step StepStatus.failed (some code)) (λ s. refl) (λ s. refl)
        db.steps,
  );
}

-- An update of steps from a status other than running to another one other than running.
steps_apart :
    (test : WorkflowStepRun → Bool) (change : WorkflowStepRun → WorkflowStepRun) (db db' : Db)
    → ((s : WorkflowStepRun) → test s ≡ true → step_is s.status StepStatus.running ≡ false)
    → ((s : WorkflowStepRun) → step_is (change s).status StepStatus.running ≡ false)
    → ((s : WorkflowStepRun) → (change s).id ≡ s.id)
    → db'.steps ≡ update test change db.steps
    → db'.attempts ≡ db.attempts
    → IsConsistent db
    → IsConsistent db'
steps_apart test change db db' from to same e f c = record {
  unique_steps = λ j. rw e (
      rw
        (count-update_same (has_step_id j) test change db.steps
          (λ s _. ap (λ i. str_eq i j) (same s)))
        (c.unique_steps j));
  unique_attempts = λ j. rw f (c.unique_attempts j);
  balanced = λ j.
      rw (e, f)
        (rw
          (count-update_same (step_at j StepStatus.running) test change db.steps
            (λ s m. ground (arith, from s m, to s)))
          (c.balanced j));
}

pub requeue-IsConsistent :
    (run_id k : String) (db : Db)
    → IsConsistent db
    → IsConsistent (requeue_failed_run_and_step run_id k db).0
unfolding requeue_failed_run_and_step
requeue-IsConsistent run_id k db =
    steps_apart (step_of_run_at k run_id StepStatus.failed) (set_step StepStatus.pending none) db _
      (λ s m. ground arith) (λ s. refl) (λ s. refl) refl refl

pub approve-IsConsistent :
    (run_id k : String) (output : Payload) (db : Db)
    → IsConsistent db
    → IsConsistent (approve_waiting_run_and_step run_id k output db).0
unfolding approve_waiting_run_and_step
approve-IsConsistent run_id k output db =
    steps_apart (step_of_run_at k run_id StepStatus.waiting)
      (set_step_output StepStatus.succeeded output) db _ (λ s m. ground arith) (λ s. refl)
      (λ s. refl) refl refl

pub cancel-IsConsistent :
    (run_id k : String) (db : Db)
    → IsConsistent db
    → IsConsistent (cancel_waiting_run_and_step run_id k db).0
unfolding cancel_waiting_run_and_step
cancel-IsConsistent run_id k db =
    steps_apart (step_of_run_at k run_id StepStatus.waiting) (set_step StepStatus.cancelled none) db
      _ (λ s m. ground arith) (λ s. refl) (λ s. refl) refl refl

pub complete_run-IsConsistent :
    (run_id : String) (db : Db)
    → IsConsistent db
    → IsConsistent (complete_run_if_no_pending_steps run_id db).0
unfolding complete_run_if_no_pending_steps
complete_run-IsConsistent run_id db c = record {
  unique_steps = c.unique_steps;
  unique_attempts = c.unique_attempts;
  balanced = c.balanced;
}

no_clash-step :
    (step : WorkflowStepRun) (steps : List WorkflowStepRun)
    → any (step_clashes step) steps ≡ false
    → count (has_step_id step.id) steps ≡ 0
no_clash-step step [] h = refl
no_clash-step step (s ∷ steps) h = ground (arith, no_clash-step step steps)

no_clash-attempt :
    (attempt : WorkflowAttempt) (attempts : List WorkflowAttempt)
    → any (attempt_clashes attempt) attempts ≡ false
    → count (has_attempt_id attempt.id) attempts ≡ 0
no_clash-attempt attempt [] h = refl
no_clash-attempt attempt (x ∷ attempts) h = ground (arith, no_clash-attempt attempt attempts)

create_step-inserts :
    (step : WorkflowStepRun) (db : Db) {db' : Db}
    → create_step step db ≡ ok db'
    → (any (step_clashes step) db.steps ≡ false)
      × (db'.steps ≡ db.steps ++ step ∷ [])
      × (db'.attempts ≡ db.attempts)
unfolding create_step
create_step-inserts step db h = ground arith

create_attempt-inserts :
    (attempt : WorkflowAttempt) (db : Db) {db' : Db}
    → create_attempt attempt db ≡ ok db'
    → (any (attempt_clashes attempt) db.attempts ≡ false)
      × (db'.steps ≡ db.steps)
      × (db'.attempts ≡ db.attempts ++ attempt ∷ [])
unfolding create_attempt
create_attempt-inserts attempt db h = ground arith

unique-append :
    (step : WorkflowStepRun) (steps : List WorkflowStepRun) (j : String)
    → any (step_clashes step) steps ≡ false
    → count (has_step_id j) steps ≤ 1
    → count (has_step_id j) (steps ++ step ∷ []) ≤ 1
unique-append step steps j n u = rw count-append (elim (Bool-cases (str_eq step.id j)) [
  | inl e ↦ rw (e, ← (eq_iff step.id j).0 e, no_clash-step step steps n) (omega arith)
  | inr e ↦ rw e (omega arith)
])

unique-append_attempt :
    (attempt : WorkflowAttempt) (attempts : List WorkflowAttempt) (j : String)
    → any (attempt_clashes attempt) attempts ≡ false
    → count (has_attempt_id j) attempts ≤ 1
    → count (has_attempt_id j) (attempts ++ attempt ∷ []) ≤ 1
unique-append_attempt attempt attempts j n u =
    rw count-append (elim (Bool-cases (str_eq attempt.id j)) [
      | inl e ↦
          rw (e, ← (eq_iff attempt.id j).0 e, no_clash-attempt attempt attempts n) (omega arith)
      | inr e ↦ rw e (omega arith)
    ])

-- A new step that is not running keeps the invariant.
pub create_step-IsConsistent :
    (step : WorkflowStepRun) (db : Db) {db' : Db}
    → create_step step db ≡ ok db'
    → step_is step.status StepStatus.running ≡ false
    → IsConsistent db
    → IsConsistent db'
create_step-IsConsistent step db h n c =
    let (fresh, e, f) = create_step-inserts step db h in
    record {
      unique_steps = λ j. rw e (unique-append step db.steps j fresh (c.unique_steps j));
      unique_attempts = λ j. rw f (c.unique_attempts j);
      balanced = λ j. rw (e, f, count-append) (ground (arith, c.balanced j));
    }

-- A claim: the step becomes running, and one running attempt is added for it.
pub claim-IsConsistent :
    (attempt : WorkflowAttempt) (k : String) (db : Db) {db' : Db}
    → attempt.workflow_step_run_id ≡ k
    → attempt_is attempt.status AttemptStatus.running ≡ true
    → (claim_step k db).1 ≡ true
    → create_attempt attempt (claim_step k db).0 ≡ ok db'
    → IsConsistent db
    → IsConsistent db'
unfolding claim_step
claim-IsConsistent attempt k db b r m h c =
    let (fresh, e, f) = create_attempt-inserts attempt (claim_step k db).0 h in
    record {
      unique_steps = λ j. rw e (rw count-update_same (c.unique_steps j));
      unique_attempts =
          λ j. rw f (unique-append_attempt attempt db.attempts j fresh (c.unique_attempts j));
      balanced = λ j.
          rw (e, f, count-append)
            (ground (
              arith,
              c.balanced j,
              steps-enter_running k j (set_step StepStatus.running none) (λ s. refl)
                  StepStatus.pending refl (λ s. refl) db.steps,
            ));
    }

-- The attempt of a claim belongs to the claimed step.
pub claim-IsHeld :
    (attempt : WorkflowAttempt) (k : String) (db : Db) {db' : Db}
    → attempt.workflow_step_run_id ≡ k
    → create_attempt attempt db ≡ ok db'
    → IsHeld db' attempt.id k
claim-IsHeld attempt k db b h =
    let (fresh, e, f) = create_attempt-inserts attempt db h in
    rw (f, count-append)
      (ground (arith, eq_iff attempt.workflow_step_run_id k, eq_iff attempt.id attempt.id))

pub create_attempt-IsHeld :
    (attempt : WorkflowAttempt) (db : Db) (a k : String) {db' : Db}
    → create_attempt attempt db ≡ ok db'
    → IsHeld db a k
    → IsHeld db' a k
create_attempt-IsHeld attempt db a k h held =
    let (fresh, e, f) = create_attempt-inserts attempt db h in rw (f, count-append) (omega arith)

pub create_step-attempts :
    (step : WorkflowStepRun) (db : Db) {db' : Db}
    → create_step step db ≡ ok db'
    → db'.attempts ≡ db.attempts
create_step-attempts step db h = (create_step-inserts step db h).2

count-split :
    (a k : String) (attempts : List WorkflowAttempt)
    → count (is_attempt_of a k) attempts + count (is_other_attempt a k) attempts
      ≡ count (has_attempt_id a) attempts
count-split a k [] = refl
count-split a k (x ∷ attempts) = ground (arith, count-split a k attempts)

pub IsHeld-BelongsTo : (db : Db) (a k : String) → IsConsistent db → IsHeld db a k → BelongsTo db a k
IsHeld-BelongsTo db a k c h = omega (arith, count-split a k db.attempts, c.unique_attempts a)

-- An update that keeps the ids of attempts keeps what is held.
pub complete-IsHeld :
    (a k run_id : String) (output : Payload) (now : ℕ) (db : Db) (b j : String)
    → IsHeld db b j
    → IsHeld
        (complete_run_if_no_pending_steps run_id (complete_attempt_and_step a k output now db).0).0
        b
        j
unfolding complete_attempt_and_step complete_run_if_no_pending_steps
complete-IsHeld a k run_id output now db b j h = rw count-update_same h

pub fail-IsHeld :
    (a k run_id code : String) (now : ℕ) (db : Db) (b j : String)
    → IsHeld db b j
    → IsHeld (fail_attempt_step_and_run a k run_id code now db).0 b j
unfolding fail_attempt_step_and_run
fail-IsHeld a k run_id code now db b j h = rw count-update_same h

-- After a claim one row of the step's id is running.
pub claim-one_step :
    (attempt : WorkflowAttempt) (k : String) (db : Db) {db' : Db}
    → (claim_step k db).1 ≡ true
    → create_attempt attempt (claim_step k db).0 ≡ ok db'
    → IsConsistent db'
    → count (step_at k StepStatus.running) db'.steps ≡ 1
unfolding claim_step
claim-one_step attempt k db {db'} m h c =
    let (_, e, f) = create_attempt-inserts attempt (claim_step k db).0 h in
    let at_least : 1 ≤ count (step_at k StepStatus.running) db'.steps = rw e (
      ground (
        arith,
        eq_iff k k,
        steps-enter_running k k (set_step StepStatus.running none) (λ s. refl) StepStatus.pending
            refl (λ s. refl) db.steps,
      )) in
    omega (
      arith,
      c.unique_steps k,
      count-le (step_at k StepStatus.running) (has_step_id k) db'.steps (λ x h. ground arith),
    )

-- After an insert of a running attempt one running row has its id.
pub insert-one_attempt :
    (attempt : WorkflowAttempt) (db : Db) {db' : Db}
    → create_attempt attempt db ≡ ok db'
    → attempt_is attempt.status AttemptStatus.running ≡ true
    → count (attempt_at attempt.id AttemptStatus.running) db'.attempts ≡ 1
insert-one_attempt attempt db h r =
    let (fresh, e, f) = create_attempt-inserts attempt db h in
    rw (f, count-append)
      (ground (
        arith,
        eq_iff attempt.id attempt.id,
        no_clash-attempt attempt db.attempts fresh,
        count-le (attempt_at attempt.id AttemptStatus.running) (has_attempt_id attempt.id)
            db.attempts (λ x q. ground arith),
      ))

pub claim-runs :
    (attempt : WorkflowAttempt) (k : String) (db : Db) {db' : Db}
    → create_attempt attempt (claim_step k db).0 ≡ ok db'
    → db'.runs ≡ db.runs
unfolding claim_step create_attempt
claim-runs attempt k db h = ground arith
