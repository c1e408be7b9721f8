-- ===== src/Workflow/Approval/Once.antt =====
-- A revision is decided at most once.
use ai_knowledge_hub.Base.{
  or_raise-eq-ok, find_first, ◌⊎◌, ℕ, ◌≡◌, refl, subst, String, Bool, true, false, ◌&&◌, Option,
  none, some, List, [], ◌∷◌, Result, ok, err, arith, count, str_eq, eq_iff, Result-cases, inl, inr,
  >>=-eq-ok, ◌==◌,
}
use ai_knowledge_hub.Base.Table.{update, find-test}
use ai_knowledge_hub.Workflow.Error.{Error}
use ai_knowledge_hub.Workflow.Registry.{DefinitionRegistry}
use ai_knowledge_hub.Workflow.Definition.{Definition}
use ai_knowledge_hub.Workflow.Store.{
  WorkflowRun, WorkflowStepRun, RevisionStatus, KnowledgeRevision, Db, revision_is,
}
use ai_knowledge_hub.Workflow.Queries.{create_step}
use ai_knowledge_hub.Workflow.Repository.{approve_waiting_run_and_step, cancel_waiting_run_and_step}
use ai_knowledge_hub.Workflow.Revisions.{
  revision_at, decide_row, update_submitted_decision, get_owned_revision,
}
use ai_knowledge_hub.Workflow.Service.{ApprovalDecisionResult, owned_revision, owned_run}
use ai_knowledge_hub.Workflow.Approval.{
  plan_for, select_next_step_id, step_by_id, decision_output, index_of_step, change_run,
  write_decision, plan_decision, end_decision, decide_revision, Plan, settled, to_write,
  create_next_step, outcome_of_other,
}

-- No row of the revision's id is still submitted.
abbrev pub IsDecided : String → Db → Type 0
IsDecided id db = count (revision_at id RevisionStatus.submitted) db.revisions ≡ 0

decided_rows :
    (id : String) (status : RevisionStatus) (by : Option ℕ) (now : ℕ)
    (revisions : List KnowledgeRevision)
    → revision_is status RevisionStatus.submitted ≡ false
    → count
        (revision_at id RevisionStatus.submitted)
        (update (revision_at id RevisionStatus.submitted) (decide_row status by now) revisions)
      ≡ 0
decided_rows id status by now [] n = refl
decided_rows id status by now (r ∷ revisions) n =
    ground (arith, decided_rows id status by now revisions n)

update-IsDecided :
    (id : String) (status : RevisionStatus) (by : Option ℕ) (now : ℕ) (db : Db) {w : Db × Bool}
    → update_submitted_decision id status by now db ≡ ok w
    → IsDecided id w.0
unfolding update_submitted_decision
update-IsDecided id status by now db {w} h =
    ground (arith, decided_rows id status by now db.revisions)

create_next_step-revisions :
    (new_id run_id : String) (definition : Definition) (next : Option String) (db : Db) {db' : Db}
    → create_next_step new_id run_id definition next db ≡ ok db'
    → db'.revisions ≡ db.revisions
unfolding create_step index_of_step
create_next_step-revisions new_id run_id definition none db h = ground arith
create_next_step-revisions new_id run_id definition (some next) db h =
    let (index, _, k) = >>=-eq-ok (index_of_step next definition.steps 0) _ h in ground arith

change_run-revisions :
    (new_id : String) (definition : Definition) (run_id : String) (step : WorkflowStepRun)
    (decision : RevisionStatus) (by : Option ℕ) (db : Db) {w : Db × Bool}
    → change_run new_id definition run_id step decision by db ≡ ok w
    → w.0.revisions ≡ db.revisions
unfolding change_run approve_waiting_run_and_step cancel_waiting_run_and_step
change_run-revisions new_id definition run_id step RevisionStatus.approved by db {w} h =
    let approved : Db = (approve_waiting_run_and_step run_id step.id (decision_output by) db).0 in
    let (definition_step, _, h₁) = >>=-eq-ok (step_by_id definition step.step_id) _ h in
    let (next, _, h₂) = >>=-eq-ok (select_next_step_id definition_step (decision_output by)) _ h₁ in
    let (db', h₃, e) = >>=-eq-ok (create_next_step new_id run_id definition next approved) _ h₂ in
    let p = create_next_step-revisions new_id run_id definition next approved h₃ in ground arith
change_run-revisions new_id definition run_id step _ by db h = ground arith

-- Whatever a decision has written, its revision is decided.
write_decision-IsDecided :
    (new_id : String) (now : ℕ) (revision : KnowledgeRevision) (run : WorkflowRun)
    (decision : RevisionStatus) (by : Option ℕ) (definition : Definition) (step : WorkflowStepRun)
    (db : Db) {w : Db × Bool}
    → write_decision new_id now revision run decision by definition step db ≡ ok w
    → IsDecided revision.id w.0
unfolding write_decision
write_decision-IsDecided new_id now revision run decision by definition step db {w} h =
    let (revised, h₁, k₁) =
      >>=-eq-ok (update_submitted_decision revision.id decision by now db) _ h in
    let (written, h₂, k₂) =
      >>=-eq-ok (change_run new_id definition run.id step decision by revised.0) _ k₁ in
    let p : written.0.revisions ≡ revised.0.revisions =
      change_run-revisions new_id definition run.id step decision by revised.0 h₂ in
    let q : written.0 ≡ w.0 = ground arith in
    subst (IsDecided revision.id) q (rw p (update-IsDecided revision.id decision by now db h₁))

-- A decision on a revision that is decided writes nothing.
write_decision-lost :
    (new_id : String) (now : ℕ) (revision : KnowledgeRevision) (run : WorkflowRun)
    (decision : RevisionStatus) (by : Option ℕ) (definition : Definition) (step : WorkflowStepRun)
    (db : Db) {w : Db × Bool}
    → write_decision new_id now revision run decision by definition step db ≡ ok w
    → IsDecided revision.id db
    → w.1 ≡ false
unfolding write_decision update_submitted_decision
write_decision-lost new_id now revision run decision by definition step db {w} h d =
    let (revised, h₁, k₁) =
      >>=-eq-ok (update_submitted_decision revision.id decision by now db) _ h in
    let (written, h₂, k₂) =
      >>=-eq-ok (change_run new_id definition run.id step decision by revised.0) _ k₁ in
    ground arith

-- What a method's result says about having written.
abbrev pub IsUnapplied : Result Error ApprovalDecisionResult → Type 0
IsUnapplied (ok r) = r.applied ≡ false
IsUnapplied (err e) = Unit

-- What a decision can do to the tables that it finds: nothing, and then it does not claim to have
-- applied anything; or it decides the revision, and says so.
abbrev pub Decides : String → Db → Db × Result Error ApprovalDecisionResult → Type 0
Decides id db t =
    ((t.0 ≡ db) × IsUnapplied t.1)
    ⊎ (¬ IsDecided id db
        × IsDecided id t.0
        × ((r : ApprovalDecisionResult) × (t.1 ≡ ok r) × (r.applied ≡ true)))

IsUnapplied-of :
    (m : Result Error ApprovalDecisionResult)
    → ((r : ApprovalDecisionResult) → m ≡ ok r → r.applied ≡ false)
    → IsUnapplied m
IsUnapplied-of (ok r) h = h r refl
IsUnapplied-of (err e) h = tt

outcome_of_other-unapplied :
    (db : Db) (owner_id : ℕ) (revision_id run_id : String) (decision : RevisionStatus)
    (r : ApprovalDecisionResult)
    → outcome_of_other db owner_id revision_id run_id decision ≡ ok r
    → r.applied ≡ false
outcome_of_other-unapplied db owner_id revision_id run_id decision r h =
    let (revision, _, k) = >>=-eq-ok (owned_revision db owner_id revision_id) _ h in
    let (run, _, k₂) = >>=-eq-ok (owned_run db owner_id run_id) _ k in ground arith

end_decision-Decides :
    (owner_id : ℕ) (revision : KnowledgeRevision) (run : WorkflowRun) (decision : RevisionStatus)
    (db : Db) (r : Result Error (Db × Bool))
    → ((w : Db × Bool) → r ≡ ok w → IsDecided revision.id w.0)
    → ((w : Db × Bool) → r ≡ ok w → IsDecided revision.id db → w.1 ≡ false)
    → Decides revision.id db (end_decision owner_id revision run decision db r)
end_decision-Decides owner_id revision run decision db (err e) h k = inl (refl, tt)
end_decision-Decides owner_id revision run decision db (ok (written, true)) h k =
    inr (λ d. cc (k (written, true) refl d), h (written, true) refl, (_, refl, refl))
end_decision-Decides owner_id revision run decision db (ok (written, false)) h k = inl (
  refl,
  IsUnapplied-of _
      (outcome_of_other-unapplied db owner_id revision.id revision.workflow_run_id decision),
)

-- The revision that a plan is about has the id that was asked for.
abbrev PlanIsOf : String → Plan → Type 0
PlanIsOf id (settled r) = r.applied ≡ false
PlanIsOf id (to_write revision run definition step) = revision.id ≡ id

plan_for-PlanIsOf :
    (definitions : DefinitionRegistry) (revision : KnowledgeRevision) (run : WorkflowRun)
    (decision : RevisionStatus) (db : Db) (plan : Plan)
    → plan_for definitions revision run decision db ≡ ok plan
    → PlanIsOf revision.id plan
plan_for-PlanIsOf definitions revision run decision db (settled r) h = ground arith
plan_for-PlanIsOf definitions revision run decision db (to_write r run' definition step) h =
    ground arith

revision_of_owner :
    (revision_id : String) (owner_id : ℕ) (db : Db) (revision : KnowledgeRevision)
    → owned_revision db owner_id revision_id ≡ ok revision
    → revision.id ≡ revision_id
unfolding owned_revision get_owned_revision
revision_of_owner revision_id owner_id db revision p =
    let test = λ (r : KnowledgeRevision). str_eq r.id revision_id && r.owner_id == owner_id in
    let found : find_first test db.revisions ≡ some revision = or_raise-eq-ok _ _ p in
    ground (arith, eq_iff revision.id revision_id, find-test test db.revisions revision found)

plan_decision-PlanIsOf :
    (definitions : DefinitionRegistry) (owner_id : ℕ) (revision_id : String)
    (decision : RevisionStatus) (db : Db) (plan : Plan)
    → plan_decision definitions owner_id revision_id decision db ≡ ok plan
    → PlanIsOf revision_id plan
unfolding plan_decision get_owned_revision
plan_decision-PlanIsOf definitions owner_id revision_id decision db plan h =
    let (revision, p, k) = >>=-eq-ok (owned_revision db owner_id revision_id) _ h in
    let (run, _, k₂) = >>=-eq-ok (owned_run db owner_id revision.workflow_run_id) _ k in
    let e : revision.id ≡ revision_id = revision_of_owner revision_id owner_id db revision p in
    subst (λ id. PlanIsOf id plan) e
      (plan_for-PlanIsOf definitions revision run decision db plan k₂)

-- Whatever older tables a decision has read, to the tables that it finds when it writes it does one of
-- two things: it leaves them as they are and does not say that it applied; or the revision was
-- undecided, is decided afterwards, and the result says that it was applied.
pub decide_revision-Decides :
    (definitions : DefinitionRegistry) (others : Db → Db) (new_id : String) (now owner_id : ℕ)
    (revision_id : String) (decision : RevisionStatus) (by : Option ℕ) (db : Db)
    → Decides revision_id
        (others db)
        (decide_revision definitions others new_id now owner_id revision_id decision by db)
decide_revision-Decides definitions others new_id now owner_id revision_id decision by db =
    unfold decide_revision in
    elim (Result-cases (plan_decision definitions owner_id revision_id decision db)) [
      | inr (e, p) ↦ rw (p, decide_revision) (inl (refl, tt))
      | inl (settled r, p) ↦
          rw (p, decide_revision)
            (inl (refl, plan_decision-PlanIsOf definitions owner_id revision_id decision db _ p))
      | inl (to_write revision run definition step, p) ↦
          rw (p, decide_revision)
            (subst
              (λ id. Decides id (others db) (
                end_decision owner_id revision run decision (others db)
                  (write_decision new_id now revision run decision by definition step (others db))))
              (plan_decision-PlanIsOf definitions owner_id revision_id decision db _ p)
              (end_decision-Decides owner_id revision run decision (others db) _
                (λ w h.
                  write_decision-IsDecided new_id now revision run decision by definition step
                    (others db) h)
                (λ w h d.
                  write_decision-lost new_id now revision run decision by definition step
                    (others db) h d)))
    ]
