-- ===== src/Workflow/Consistency/Methods.antt =====
-- Each transaction of the executor and of the workflow service keeps the invariant, and the attempts
-- that workers hold.
use ai_knowledge_hub.Base.{
  ℕ, ◌≡◌, String, true, Option, none, some, Bool-cases, inl, inr, ok, err, Result,
}
use ai_knowledge_hub.Workflow.Error.{Error}
use ai_knowledge_hub.Workflow.Payload.{Payload}
use ai_knowledge_hub.Workflow.StateMachine.{AttemptStatus}
use ai_knowledge_hub.Workflow.Store.{WorkflowAttempt, Db}
use ai_knowledge_hub.Workflow.Repository.{
  claim_step, complete_attempt_and_step, fail_attempt_step_and_run,
}
use ai_knowledge_hub.Workflow.Executor.{
  Txn, Claim, claim_next_step, complete_claimed_step, fail_claimed_step,
}
use ai_knowledge_hub.Workflow.Executor.Claiming.{Claimed, claim_cases}
use ai_knowledge_hub.Workflow.Consistency.{attempt_is, IsHeld, IsConsistent}
use ai_knowledge_hub.Workflow.Consistency.Transactions

-- The invariant with a claim that some worker holds.
pub record Keeps (db db' : Db) : Type 0 where
  pub consistent : IsConsistent db'
  pub held : (a k : String) → IsHeld db a k → IsHeld db' a k

pub Keeps-refl : (db : Db) → IsConsistent db → Keeps db db
Keeps-refl db c = record { consistent = c; held = λ a k h. h }

-- A claim that is returned is held.
abbrev pub HoldsClaim : Db → Result Error (Option Claim) → Type 0
HoldsClaim db (ok (some claim)) = IsHeld db claim.attempt.id claim.step.id
HoldsClaim db (ok none) = Unit
HoldsClaim db (err e) = Unit

abbrev pub Claims : Db → Txn (Option Claim) → Type 0
Claims db t = Keeps db t.0 × HoldsClaim t.0 t.1

pub Claimed-Claims :
    (attempt_id run_id : String) (db : Db)
    → IsConsistent db
    → (claim : Claim) (db' : Db) → Claimed attempt_id run_id db claim db'
    → Claims db (db', ok (some claim))
unfolding claim_step
Claimed-Claims attempt_id run_id db c claim db' h =
    let of_step : claim.attempt.workflow_step_run_id ≡ claim.step.id = rw h.is_new in
    let is_running : attempt_is claim.attempt.status AttemptStatus.running ≡ true = rw h.is_new in
    (
      record {
        consistent =
            Transactions.claim-IsConsistent claim.attempt claim.step.id db of_step is_running
              h.matched h.inserted c;
        held = λ a k held. Transactions.create_attempt-IsHeld claim.attempt _ a k h.inserted held;
      },
      Transactions.claim-IsHeld claim.attempt claim.step.id _ of_step h.inserted,
    )

-- A claim keeps the invariant, and its attempt belongs to the claimed step.
pub claim_next_step-Claims :
    (attempt_id : String) (db : Db)
    → IsConsistent db
    → (run_id : String) → Claims db (claim_next_step attempt_id run_id db)
claim_next_step-Claims attempt_id db c run_id =
    claim_cases attempt_id run_id db (Claims db) (Keeps-refl db c, tt) (λ e. (Keeps-refl db c, tt))
      (Claimed-Claims attempt_id run_id db c)

module _ (a k : String) (run_id : String) (now : ℕ) (db : Db) (c : IsConsistent db)
    (h : IsHeld db a k) where
  pub fail_claimed_step-Keeps :
      (A : Type 0) (code : String) (e : Error)
      → Keeps db (fail_claimed_step {A = A} run_id k a code now e db).0
  unfolding fail_claimed_step
  fail_claimed_step-Keeps A code e =
      elim (Bool-cases (fail_attempt_step_and_run a k run_id code now db).1) [
        | inr m ↦ rw (m, fail_claimed_step) (Keeps-refl db c)
        | inl m ↦
            rw (m, fail_claimed_step)
              (record {
                consistent =
                    Transactions.fail-IsConsistent a k run_id code now db
                      (Transactions.IsHeld-BelongsTo db a k c h) m c;
                held = Transactions.fail-IsHeld a k run_id code now db;
              })
      ]

module _ (attempt : WorkflowAttempt) (k : String) (run_id : String) (now : ℕ) (db : Db)
    (c : IsConsistent db) (h : IsHeld db attempt.id k) where
  pub complete_claimed_step-Keeps :
      (output : Payload) (next : Option String)
      → Keeps db (complete_claimed_step run_id k attempt output next now db).0
  unfolding complete_claimed_step
  complete_claimed_step-Keeps output next =
      elim (Bool-cases (complete_attempt_and_step attempt.id k output now db).1) [
        | inr m ↦ rw (m, complete_claimed_step) (Keeps-refl db c)
        | inl m ↦
            rw (m, complete_claimed_step)
              (record {
                consistent = Transactions.complete_run-IsConsistent run_id _ (
                    Transactions.complete-IsConsistent attempt.id k output now db
                      (Transactions.IsHeld-BelongsTo db attempt.id k c h) m c);
                held = Transactions.complete-IsHeld attempt.id k run_id output now db;
              })
      ]
