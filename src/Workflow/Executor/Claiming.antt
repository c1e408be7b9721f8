-- ===== src/Workflow/Executor/Claiming.antt =====
-- The ways in which the first transaction can end.
use ai_knowledge_hub.Base.{
  ℕ, ◌≡◌, refl, String, true, Option, none, some, Result, ok, err, inl, inr, Bool-cases,
  Option-cases,
}
use ai_knowledge_hub.Workflow.Error.{Error}
use ai_knowledge_hub.Workflow.StateMachine.{RunStatus}
use ai_knowledge_hub.Workflow.Store.{Db, run_is}
use ai_knowledge_hub.Workflow.Queries.{get_run, get_next_pending_step, create_attempt}
use ai_knowledge_hub.Workflow.Repository.{claim_step}
use ai_knowledge_hub.Workflow.Executor.{
  Txn, Claim, new_attempt, commit_insert, claim_found, claim_next_step,
}

-- A claim of a run's step: the run was running, the step was the one found, its UPDATE matched, and
-- the new attempt was accepted.
pub record Claimed (attempt_id run_id : String) (db : Db) (claim : Claim) (db' : Db) : Type 0 where
  pub run_found : get_run db run_id ≡ some claim.run
  pub run_running : run_is claim.run.status RunStatus.running ≡ true
  pub step_found : get_next_pending_step db run_id ≡ some claim.step
  pub matched : (claim_step claim.step.id db).1 ≡ true
  pub number : ℕ
  pub is_new : claim.attempt ≡ new_attempt attempt_id claim.step.id number
  pub inserted : create_attempt claim.attempt (claim_step claim.step.id db).0 ≡ ok db'

module _ {ℓ} (attempt_id run_id : String) (db : Db) (P : Txn (Option Claim) → Type ℓ)
    (nothing : P (db, ok none)) (refused : (e : Error) → P (db, err e))
    (claimed : (claim : Claim) (db' : Db)
      → Claimed attempt_id run_id db claim db'
      → P (db', ok (some claim))) where
  insert_cases :
      (claim : Claim) (n : ℕ) (r : Result Error Db)
      → get_run db run_id ≡ some claim.run
      → run_is claim.run.status RunStatus.running ≡ true
      → get_next_pending_step db run_id ≡ some claim.step
      → (claim_step claim.step.id db).1 ≡ true
      → claim.attempt ≡ new_attempt attempt_id claim.step.id n
      → create_attempt claim.attempt (claim_step claim.step.id db).0 ≡ r
      → P (commit_insert db claim r)
  insert_cases claim n (err e) g r s m a h = refused e
  insert_cases claim n (ok db') g r s m a h = claimed claim db' (record {
    run_found = g;
    run_running = r;
    step_found = s;
    matched = m;
    number = n;
    is_new = a;
    inserted = h;
  })

  pub claim_cases : P (claim_next_step attempt_id run_id db)
  claim_cases =
      unfold claim_next_step in
      elim (Option-cases (get_run db run_id)) [
        | inl e ↦ rw (e, claim_next_step) nothing
        | inr (run, e) ↦ elim (Bool-cases (run_is run.status RunStatus.running)) [
          | inr f ↦ rw (e, claim_next_step) (rw f nothing)
          | inl f ↦ elim (Option-cases (get_next_pending_step db run_id)) [
            | inl g ↦ rw (e, claim_next_step) (rw f (rw g nothing))
            | inr (step, g) ↦ elim (Bool-cases (claim_step step.id db).1) [
              | inr m ↦ rw (e, claim_next_step) (rw f (rw g (rw (m, claim_found) nothing)))
              | inl m ↦
                  rw (e, claim_next_step)
                    (rw f (
                      rw g (
                        rw (m, claim_found)
                          (insert_cases
                            (record {
                              run = run;
                              step = step;
                              attempt = new_attempt attempt_id step.id _;
                            })
                            _ _ e f g m refl refl))))
            ]
          ]
        ]
      ]
