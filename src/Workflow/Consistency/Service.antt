-- ===== src/Workflow/Consistency/Service.antt =====
-- The transactions of the workflow service keep the invariant, and the attempts that workers hold.
use ai_knowledge_hub.Base.{
  subst, ℕ, ◌≡◌, refl, String, Bool, true, false, Option, none, some, arith, Bool-cases,
  Result-cases, inl, inr, ok, err, Result, >>=-eq-ok,
}
use ai_knowledge_hub.Workflow.Error.{Error}
use ai_knowledge_hub.Workflow.Payload.{Payload}
use ai_knowledge_hub.Workflow.StateMachine.{StepStatus}
use ai_knowledge_hub.Workflow.Definition.{step_by_id, Definition}
use ai_knowledge_hub.Workflow.Registry.{DefinitionRegistry}
use ai_knowledge_hub.Workflow.Routing.{select_next_step_id}
use ai_knowledge_hub.Workflow.Store.{
  WorkflowRun, WorkflowStepRun, RevisionStatus, KnowledgeRevision, Db, step_is,
}
use ai_knowledge_hub.Workflow.Queries.{create_run, create_step}
use ai_knowledge_hub.Workflow.Repository.{
  approve_waiting_run_and_step, cancel_waiting_run_and_step, requeue_failed_run_and_step,
}
use ai_knowledge_hub.Workflow.Revisions.{create_revision, update_submitted_decision}
use ai_knowledge_hub.Workflow.Service.{new_step}
use ai_knowledge_hub.Workflow.Submission.{
  NewIds, PendingVersion, plan_submission, write_submission, submit_revision_for_approval,
}
use ai_knowledge_hub.Workflow.Approval.{
  to_write, settled, index_of_step, plan_decision, end_decision, create_next_step, decision_output,
  change_run, write_decision, decide_revision,
}
use ai_knowledge_hub.Workflow.Recovery.{
  requeue, to_requeue, nothing_to_do, plan_resume, resume_failed_run,
}
use ai_knowledge_hub.Workflow.Consistency.{IsConsistent}
use ai_knowledge_hub.Workflow.Consistency.Transactions
use ai_knowledge_hub.Workflow.Consistency.Methods.{Keeps, Keeps-refl}

same_rows-Keeps :
    (db db' : Db)
    → db'.steps ≡ db.steps
    → db'.attempts ≡ db.attempts
    → IsConsistent db
    → Keeps db db'
same_rows-Keeps db db' e f c = record {
  consistent = record {
    unique_steps = λ k. rw e (c.unique_steps k);
    unique_attempts = λ k. rw f (c.unique_attempts k);
    balanced = λ k. rw (e, f) (c.balanced k);
  };
  held = λ a k h. rw f h;
}

Keeps-trans : (db₁ db₂ db₃ : Db) → Keeps db₁ db₂ → Keeps db₂ db₃ → Keeps db₁ db₃
Keeps-trans db₁ db₂ db₃ p q = record {
  consistent = q.consistent;
  held = λ a k h. q.held a k (p.held a k h);
}

create_run-Keeps :
    (run : WorkflowRun) (db : Db) {db' : Db}
    → create_run run db ≡ ok db'
    → IsConsistent db
    → Keeps db db'
unfolding create_run
create_run-Keeps run db h = same_rows-Keeps db _ (ground arith) (ground arith)

create_revision-Keeps :
    (revision : KnowledgeRevision) (db : Db) {db' : Db}
    → create_revision revision db ≡ ok db'
    → IsConsistent db
    → Keeps db db'
unfolding create_revision
create_revision-Keeps revision db h = same_rows-Keeps db _ (ground arith) (ground arith)

create_step-Keeps :
    (step : WorkflowStepRun) (db : Db) {db' : Db}
    → create_step step db ≡ ok db'
    → step_is step.status StepStatus.running ≡ false
    → IsConsistent db
    → Keeps db db'
create_step-Keeps step db h n c = record {
  consistent = Transactions.create_step-IsConsistent step db h n c;
  held = λ a k held. rw (Transactions.create_step-attempts step db h) held;
}

write_submission-Keeps :
    (ids : NewIds) (run : WorkflowRun) (start : String) (revision : KnowledgeRevision) (db : Db)
    {db' : Db}
    → write_submission ids run start revision db ≡ ok db'
    → IsConsistent db
    → Keeps db db'
unfolding write_submission
write_submission-Keeps ids run start revision db {db'} h c =
    let (db₁, h₁, k₁) = >>=-eq-ok (create_run run db) _ h in
    let step : WorkflowStepRun = new_step ids.step_run_id run.id start 0 StepStatus.waiting in
    let (db₂, h₂, h₃) = >>=-eq-ok (create_step step db₁) _ k₁ in
    let p = create_run-Keeps run db h₁ c in
    let q = create_step-Keeps step db₁ h₂ refl p.consistent in
    Keeps-trans db db₁ db' p
      (Keeps-trans db₁ db₂ db' q (create_revision-Keeps revision db₂ h₃ q.consistent))

-- A submission keeps the invariant, whatever it returns or raises.
pub submit-Keeps :
    (definitions : DefinitionRegistry) (ids : NewIds) (owner_id : ℕ)
    (document : Option (String × Option PendingVersion)) (key : String) (version expires_at : ℕ)
    (db : Db)
    → IsConsistent db
    → Keeps db
        (submit_revision_for_approval definitions ids owner_id document key version expires_at db).0
submit-Keeps definitions ids owner_id document key version expires_at db c =
    elim (Result-cases (plan_submission definitions ids owner_id document key version expires_at)) [
      | inr (e, p) ↦
          unfold submit_revision_for_approval in
          rw (p, submit_revision_for_approval) (Keeps-refl db c)
      | inl (plan, p) ↦ elim (Result-cases (write_submission ids plan.0 plan.1 plan.2 db)) [
        | inr (e, w) ↦
            unfold submit_revision_for_approval in
            rw (p, submit_revision_for_approval) (rw w (Keeps-refl db c))
        | inl (db', w) ↦
            unfold submit_revision_for_approval in
            rw (p, submit_revision_for_approval)
              (rw w (write_submission-Keeps ids plan.0 plan.1 plan.2 db w c))
      ]
    ]

update_decision-Keeps :
    (id : String) (status : RevisionStatus) (by : Option ℕ) (now : ℕ) (db : Db) {w : Db × Bool}
    → update_submitted_decision id status by now db ≡ ok w
    → IsConsistent db
    → Keeps db w.0
unfolding update_submitted_decision
update_decision-Keeps id status by now db {w} h c =
    same_rows-Keeps db w.0 (ground arith) (ground arith) c

create_next_step-Keeps :
    (new_id run_id : String) (definition : Definition) (next : Option String) (db : Db) {db' : Db}
    → create_next_step new_id run_id definition next db ≡ ok db'
    → IsConsistent db
    → Keeps db db'
create_next_step-Keeps new_id run_id definition none db {db'} h c =
    same_rows-Keeps db db' (ground arith) (ground arith) c
create_next_step-Keeps new_id run_id definition (some next) db h c =
    let (index, _, k) = >>=-eq-ok (index_of_step next definition.steps 0) _ h in
    create_step-Keeps (new_step new_id run_id next index StepStatus.pending) db k refl c

approve-Keeps :
    (run_id k : String) (output : Payload) (db : Db)
    → IsConsistent db
    → Keeps db (approve_waiting_run_and_step run_id k output db).0
unfolding approve_waiting_run_and_step
approve-Keeps run_id k output db c = record {
  consistent = Transactions.approve-IsConsistent run_id k output db c;
  held = λ a j h. h;
}

cancel-Keeps :
    (run_id k : String) (db : Db)
    → IsConsistent db
    → Keeps db (cancel_waiting_run_and_step run_id k db).0
unfolding cancel_waiting_run_and_step
cancel-Keeps run_id k db c = record {
  consistent = Transactions.cancel-IsConsistent run_id k db c;
  held = λ a j h. h;
}

requeue-Keeps :
    (run_id k : String) (db : Db)
    → IsConsistent db
    → Keeps db (requeue_failed_run_and_step run_id k db).0
unfolding requeue_failed_run_and_step
requeue-Keeps run_id k db c = record {
  consistent = Transactions.requeue-IsConsistent run_id k db c;
  held = λ a j h. h;
}

module _ (new_id : String) (definition : Definition) (run_id : String)
    (step : WorkflowStepRun) where
  approved-Keeps :
      (by : Option ℕ) (db : Db) {w : Db × Bool}
      → change_run new_id definition run_id step RevisionStatus.approved by db ≡ ok w
      → IsConsistent db
      → Keeps db w.0
  unfolding change_run
  approved-Keeps by db {w} h c =
      let approved : Db = (approve_waiting_run_and_step run_id step.id (decision_output by) db).0 in
      let (definition_step, _, h₁) = >>=-eq-ok (step_by_id definition step.step_id) _ h in
      let (next, _, h₂) =
        >>=-eq-ok (select_next_step_id definition_step (decision_output by)) _ h₁ in
      let (db', h₃, e) = >>=-eq-ok (create_next_step new_id run_id definition next approved) _ h₂ in
      let p = approve-Keeps run_id step.id (decision_output by) db c in
      let q : db' ≡ w.0 = ground arith in
      subst (Keeps db) q (
        Keeps-trans db approved db' p
          (create_next_step-Keeps new_id run_id definition next approved h₃ p.consistent))

  change_run-Keeps :
      (decision : RevisionStatus) (by : Option ℕ) (db : Db) {w : Db × Bool}
      → change_run new_id definition run_id step decision by db ≡ ok w
      → IsConsistent db
      → Keeps db w.0
  unfolding change_run
  change_run-Keeps RevisionStatus.approved by db h c = approved-Keeps by db h c
  change_run-Keeps _ by db {w} h c =
      let q : (cancel_waiting_run_and_step run_id step.id db).0 ≡ w.0 = ground arith in
      subst (Keeps db) q (cancel-Keeps run_id step.id db c)

  write_decision-Keeps :
      (now : ℕ) (revision : KnowledgeRevision) (run : WorkflowRun) (decision : RevisionStatus)
      (by : Option ℕ) (db : Db) {w : Db × Bool}
      → write_decision new_id now revision run decision by definition step db ≡ ok w
      → IsConsistent db
      → run.id ≡ run_id
      → Keeps db w.0
  unfolding write_decision
  write_decision-Keeps now revision run decision by db {w} h c r =
      let (revised, h₁, k₁) =
        >>=-eq-ok (update_submitted_decision revision.id decision by now db) _ h in
      let (written, h₂, k₂) =
        >>=-eq-ok (change_run new_id definition run.id step decision by revised.0) _ k₁ in
      let p = update_decision-Keeps revision.id decision by now db h₁ c in
      let h₃ : change_run new_id definition run_id step decision by revised.0 ≡ ok written =
        rw r at h₂ in
      let q : written.0 ≡ w.0 = ground arith in
      subst (Keeps db) q (
        Keeps-trans db revised.0 written.0 p
          (change_run-Keeps decision by revised.0 h₃ p.consistent))

end_decision-Keeps :
    (owner_id : ℕ) (revision : KnowledgeRevision) (run : WorkflowRun) (decision : RevisionStatus)
    (db : Db) (r : Result Error (Db × Bool))
    → ((w : Db × Bool) → r ≡ ok w → Keeps db w.0)
    → IsConsistent db
    → Keeps db (end_decision owner_id revision run decision db r).0
end_decision-Keeps owner_id revision run decision db (err e) h c = Keeps-refl db c
end_decision-Keeps owner_id revision run decision db (ok (written, true)) h c =
    h (written, true) refl
end_decision-Keeps owner_id revision run decision db (ok (written, false)) h c = Keeps-refl db c

-- A decision keeps the invariant of the tables as they stand when it writes, whatever older tables it
-- has read, and whatever it returns or raises.
pub decide-Keeps :
    (definitions : DefinitionRegistry) (others : Db → Db) (new_id : String) (now owner_id : ℕ)
    (revision_id : String) (decision : RevisionStatus) (by : Option ℕ) (db : Db)
    → IsConsistent (others db)
    → Keeps
        (others db)
        (decide_revision definitions others new_id now owner_id revision_id decision by db).0
decide-Keeps definitions others new_id now owner_id revision_id decision by db c =
    unfold decide_revision in
    elim (Result-cases (plan_decision definitions owner_id revision_id decision db)) [
      | inr (e, p) ↦ rw (p, decide_revision) (Keeps-refl _ c)
      | inl (settled result, p) ↦ rw (p, decide_revision) (Keeps-refl _ c)
      | inl (to_write revision run definition step, p) ↦
          rw (p, decide_revision)
            (end_decision-Keeps owner_id revision run decision (others db) _
              (λ w h.
                write_decision-Keeps new_id definition run.id step now revision run decision by
                  (others db) h c refl)
              c)
    ]

-- So does a resumption.
pub resume-Keeps :
    (definitions : DefinitionRegistry) (others : Db → Db) (owner_id : ℕ) (run_id : String) (db : Db)
    → IsConsistent (others db)
    → Keeps (others db) (resume_failed_run definitions others owner_id run_id db).0
resume-Keeps definitions others owner_id run_id db c =
    unfold resume_failed_run in
    elim (Result-cases (plan_resume definitions owner_id run_id db)) [
      | inr (e, p) ↦ rw (p, resume_failed_run) (Keeps-refl _ c)
      | inl (nothing_to_do run, p) ↦ rw (p, resume_failed_run) (Keeps-refl _ c)
      | inl (to_requeue run step, p) ↦
          rw (p, resume_failed_run)
            (elim (Bool-cases (requeue_failed_run_and_step run.id step.id (others db)).1) [
              | inl m ↦ rw (m, requeue) (requeue-Keeps run.id step.id (others db) c)
              | inr m ↦ rw (m, requeue) (Keeps-refl _ c)
            ])
    ]
