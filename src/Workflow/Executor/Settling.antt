-- ===== src/Workflow/Executor/Settling.antt =====
-- A claimed step never stays running: whatever its definition, its node and its input are, the
-- executor ends it as succeeded or as failed.
use ai_knowledge_hub.Base.{
  ℕ, ◌≤◌, ◌≡◌, refl, String, Bool, true, ◌⊎◌, inl, inr, Option, none, some, List, [], ◌∷◌, ok, err,
  arith, count, str_eq, eq_iff, Result-cases,
}
use ai_knowledge_hub.Base.Table.{
  find-count, find-test, find-of_count, update, count-le, count-update_same,
}
use ai_knowledge_hub.Workflow.Payload.{Payload}
use ai_knowledge_hub.Workflow.StateMachine.{RunStatus, StepStatus, AttemptStatus}
use ai_knowledge_hub.Workflow.Store.{
  WorkflowRun, WorkflowStepRun, WorkflowAttempt, Db, run_is, step_is, attempt_is,
}
use ai_knowledge_hub.Workflow.Queries.{get_run}
use ai_knowledge_hub.Workflow.Repository.{
  complete_run_if_no_pending_steps, run_at, step_at, attempt_at, set_run, set_step, set_step_output,
  complete_attempt_and_step, complete_run_if_no_pending_steps, fail_attempt_step_and_run,
}
use ai_knowledge_hub.Workflow.Executor.{
  after_claim, execute_next, failure_code_of, checked_output, node_execution_failure, prepare,
  run_claimed_step, NodeExecutionContext, NodeRegistry, DefinitionRegistry, TypeRef, Object,
  get_run, finished, complete_run_if_no_pending_steps, Error, Txn, StepExecutionResult, Claim,
  claim_next_step, complete_claimed_step, fail_claimed_step,
}
use ai_knowledge_hub.Workflow.Executor.Claiming.{Claimed, claim_cases}
use ai_knowledge_hub.Workflow.Consistency.Transactions
use ai_knowledge_hub.Workflow.Consistency.Methods.{Claimed-Claims}
use ai_knowledge_hub.Workflow.Consistency.{IsConsistent}
use ai_knowledge_hub.Workflow.Consistency.Rows.{steps-leave_running}

abbrev pub has_run_id : String → WorkflowRun → Bool
has_run_id k r = str_eq r.id k

-- A step, one attempt of it and its run are running.
pub record IsClaimed (run_id k a : String) (db : Db) : Type 0 where
  pub one_run : count (run_at run_id RunStatus.running) db.runs ≡ 1
  pub one_step : count (step_at k StepStatus.running) db.steps ≡ 1
  pub one_attempt : count (attempt_at a AttemptStatus.running) db.attempts ≡ 1

-- Rows of an id that an UPDATE matched have its new status.
steps-become :
    (k : String) (status : StepStatus) (change : WorkflowStepRun → WorkflowStepRun)
    → ((s : WorkflowStepRun) → (change s).id ≡ s.id)
    → ((s : WorkflowStepRun) → step_is (change s).status status ≡ true)
    → (steps : List WorkflowStepRun)
    → count (step_at k StepStatus.running) steps
      ≤ count (step_at k status) (update (step_at k StepStatus.running) change steps)
steps-become k status change same becomes [] = omega arith
steps-become k status change same becomes (s ∷ steps) = ground (
  arith,
  same s,
  becomes s,
  eq_iff s.id k,
  eq_iff (change s).id k,
  steps-become k status change same becomes steps,
)

runs-become :
    (k : String) (status : RunStatus) (change : WorkflowRun → WorkflowRun)
    → ((r : WorkflowRun) → (change r).id ≡ r.id)
    → ((r : WorkflowRun) → run_is (change r).status status ≡ true)
    → (runs : List WorkflowRun)
    → count (run_at k RunStatus.running) runs
      ≤ count (run_at k status) (update (run_at k RunStatus.running) change runs)
runs-become k status change same becomes [] = omega arith
runs-become k status change same becomes (r ∷ runs) = ground (
  arith,
  same r,
  becomes r,
  eq_iff r.id k,
  eq_iff (change r).id k,
  runs-become k status change same becomes runs,
)

-- How a claimed step ended: it is not running any more; either it has succeeded and a result is
-- returned, or it and its run have failed and an error is raised.
abbrev pub Ended : String → String → Txn (Option StepExecutionResult) → Type 0
Ended run_id k t =
    (count (step_at k StepStatus.running) t.0.steps ≡ 0)
    × (((r : Option StepExecutionResult) × (t.1 ≡ ok r)
          × (1 ≤ count (step_at k StepStatus.succeeded) t.0.steps))
        ⊎ ((e : Error) × (t.1 ≡ err e)
            × (1 ≤ count (step_at k StepStatus.failed) t.0.steps)
            × (1 ≤ count (run_at run_id RunStatus.failed) t.0.runs)))

module _ (run_id k a : String) (now : ℕ) (db : Db) (c : IsClaimed run_id k a db) where
  fail_matched : (code : String) → (fail_attempt_step_and_run a k run_id code now db).1 ≡ true
  unfolding fail_attempt_step_and_run
  fail_matched code = ground arith

  fail_counts :
      (code : String)
      → let db' = (fail_attempt_step_and_run a k run_id code now db).0 in
        (count (step_at k StepStatus.running) db'.steps ≡ 0)
        × (1 ≤ count (step_at k StepStatus.failed) db'.steps)
        × (1 ≤ count (run_at run_id RunStatus.failed) db'.runs)
  unfolding fail_attempt_step_and_run
  fail_counts code =
      let change = set_step StepStatus.failed (some code) in
      (
        ground (
          arith,
          eq_iff k k,
          c.one_step,
          steps-leave_running k k change (λ s. refl) (λ s. refl) db.steps,
        ),
        omega (arith, steps-become k StepStatus.failed change (λ s. refl) (λ s. refl) db.steps),
        omega (
          arith,
          runs-become run_id RunStatus.failed (set_run RunStatus.failed (some code)) (λ r. refl)
              (λ r. refl) db.runs,
        ),
      )

  pub fail-Ended :
      (code : String) (e : Error) → Ended run_id k (fail_claimed_step run_id k a code now e db)
  fail-Ended code e =
      let (still, step, run) = fail_counts code in
      unfold fail_claimed_step in
      rw (fail_matched code, fail_claimed_step) (still, inr (e, refl, step, run))

module _ (run_id k : String) (attempt : WorkflowAttempt) (now : ℕ) (output : Payload) (db : Db)
    (c : IsClaimed run_id k attempt.id db) where
  complete_matched : (complete_attempt_and_step attempt.id k output now db).1 ≡ true
  unfolding complete_attempt_and_step
  complete_matched = ground arith

  complete_counts :
      let db' =
        (complete_run_if_no_pending_steps run_id
          (complete_attempt_and_step attempt.id k output now db).0).0 in
      (count (step_at k StepStatus.running) db'.steps ≡ 0)
      × (1 ≤ count (step_at k StepStatus.succeeded) db'.steps)
      × (1 ≤ count (has_run_id run_id) db'.runs)
  unfolding complete_attempt_and_step complete_run_if_no_pending_steps
  complete_counts =
      let change = set_step_output StepStatus.succeeded output in
      (
        ground (
          arith,
          eq_iff k k,
          c.one_step,
          steps-leave_running k k change (λ s. refl) (λ s. refl) db.steps,
        ),
        omega (arith, steps-become k StepStatus.succeeded change (λ s. refl) (λ s. refl) db.steps),
        rw count-update_same (
            omega (
              arith,
              count-le (run_at run_id RunStatus.running) (has_run_id run_id) db.runs
                  (λ r h. ground arith),
            )),
      )

  found_run :
      (r : WorkflowRun) × (get_run
          (complete_run_if_no_pending_steps run_id
            (complete_attempt_and_step attempt.id k output now db).0).0
          run_id
        ≡ some r)
  unfolding get_run
  found_run = find-of_count (has_run_id run_id) _ complete_counts.2

  -- The run is still there, so the result is returned.
  pub complete-Ended :
      (next : Option String)
      → Ended run_id k (finished (complete_claimed_step run_id k attempt output next now db))
  complete-Ended next =
      let (still, step, run) = complete_counts in
      let (r, e) = found_run in
      unfold complete_claimed_step in
      rw (complete_matched, complete_claimed_step) (rw (e, finished) (still, inl (_, refl, step)))

module _ (is_instance : Object → TypeRef → Bool) (definitions : DefinitionRegistry)
    (nodes : NodeRegistry) (others : Db → Db) (now : ℕ) (node_input : Option Object) (claim : Claim)
    (db : Db) (c : IsClaimed claim.run.id claim.step.id claim.attempt.id (others db)) where
  abbrev context : NodeExecutionContext
  context = record {
    workflow_run_id = claim.run.id;
    workflow_step_run_id = claim.step.id;
    workflow_attempt_id = claim.attempt.id;
    idempotency_key = claim.step.id;
  }

  -- If the claim still stands when the second transaction begins, the step ends.
  pub run_claimed_step-Ended :
      Ended claim.run.id claim.step.id
        (run_claimed_step is_instance definitions nodes others now node_input claim db)
  run_claimed_step-Ended =
      unfold run_claimed_step in
      elim (Result-cases
        (prepare is_instance definitions nodes db claim.run claim.step node_input)) [
          | inr (e, p) ↦
              rw (p, run_claimed_step)
                (fail-Ended claim.run.id claim.step.id claim.attempt.id now (others db) c
                  node_execution_failure e)
          | inl ((step, node, input), p) ↦
              elim (Result-cases (
                checked_output is_instance definitions nodes step node
                  (node.execute input context))) [
                    | inr (e, q) ↦
                        rw (p, run_claimed_step)
                          (rw q (
                            fail-Ended claim.run.id claim.step.id claim.attempt.id now (others db) c
                              (failure_code_of e) e))
                    | inl ((output, next), q) ↦
                        rw (p, run_claimed_step)
                          (rw q (
                            complete-Ended claim.run.id claim.step.id claim.attempt now output
                              (others db) c next))
                  ]
        ]

run_found-one :
    (run_id : String) (db : Db) (run : WorkflowRun)
    → get_run db run_id ≡ some run
    → run_is run.status RunStatus.running ≡ true
    → count (has_run_id run_id) db.runs ≤ 1
    → (run.id ≡ run_id) × (count (run_at run.id RunStatus.running) db.runs ≡ 1)
unfolding get_run
run_found-one run_id db run g r u =
    let e : run.id ≡ run_id =
      (eq_iff run.id run_id).0 (find-test (has_run_id run_id) db.runs run g).0 in
    (
      e,
      rw e (
          omega (
            arith,
            find-count (has_run_id run_id) (λ r. run_is r.status RunStatus.running) db.runs run g r,
            count-le (run_at run_id RunStatus.running) (has_run_id run_id) db.runs
                (λ r h. ground arith),
          )),
    )

-- A claim, in consistent tables with one run of the id, leaves the run, the step and one attempt
-- running.
Claimed-IsClaimed :
    (attempt_id run_id : String) (db : Db) (claim : Claim) (db' : Db)
    → IsConsistent db
    → count (has_run_id run_id) db.runs ≤ 1
    → Claimed attempt_id run_id db claim db'
    → IsClaimed claim.run.id claim.step.id claim.attempt.id db'
Claimed-IsClaimed attempt_id run_id db claim db' c u h =
    let is_running : attempt_is claim.attempt.status AttemptStatus.running ≡ true = rw h.is_new in
    record {
      one_run =
          rw (Transactions.claim-runs claim.attempt claim.step.id db h.inserted)
            (run_found-one run_id db claim.run h.run_found h.run_running u).1;
      one_step =
          Transactions.claim-one_step claim.attempt claim.step.id db h.matched h.inserted
            (Claimed-Claims attempt_id run_id db c claim db' h).0.consistent;
      one_attempt = Transactions.insert-one_attempt claim.attempt _ h.inserted is_running;
    }

-- What a whole call does: it claims nothing, and then changes no table; or it ends the step that it
-- claims.
abbrev pub Executes : Db → Txn (Option Claim) → Txn (Option StepExecutionResult) → Type 0
Executes db (d, ok none) t = (d ≡ db) × (t ≡ (db, ok none))
Executes db (d, err e) t = (d ≡ db) × (t ≡ (db, err e))
Executes db (d, ok (some claim)) t = Ended claim.run.id claim.step.id t

-- From consistent tables with one run of the id: if the other sessions, while the node runs, leave
-- the claimed run, step and attempt running, then `execute_next` either claims nothing and changes
-- nothing, or ends the claimed step: it is no longer running, and either it has succeeded and the call
-- returns, or it and its run have failed and the call raises an error. This holds for any
-- definitions, any nodes, and any input.
pub execute_next-Executes :
    (is_instance : Object → TypeRef → Bool) (definitions : DefinitionRegistry)
    (nodes : NodeRegistry) (others : Db → Db) (attempt_id : String) (now : ℕ) (run_id : String)
    (node_input : Option Object) (db : Db)
    → IsConsistent db
    → count (has_run_id run_id) db.runs ≤ 1
    → ((d : Db) (r k a : String) → IsClaimed r k a d → IsClaimed r k a (others d))
    → Executes db
        (claim_next_step attempt_id run_id db)
        (execute_next is_instance definitions nodes others attempt_id now run_id node_input db)
execute_next-Executes is_instance definitions nodes others attempt_id now run_id node_input db c u
      leave =
    unfold execute_next in
    claim_cases attempt_id run_id db
      (λ t. Executes db t (after_claim is_instance definitions nodes others now node_input t))
      (refl, refl) (λ e. (refl, refl))
      (λ claim db' h.
        run_claimed_step-Ended is_instance definitions nodes others now node_input claim db' (
          leave db' claim.run.id claim.step.id claim.attempt.id
            (Claimed-IsClaimed attempt_id run_id db claim db' c u h)))
