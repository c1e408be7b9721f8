-- ===== src/Workflow/Consistency/System.antt =====
-- Any number of workers and service calls over the same tables, interleaved by transactions.
use mathlib.Core.List.{Memᴰ}
use ai_knowledge_hub.Base.{
  sym, subst, ℕ, ◌≤◌, ◌≡◌, refl, String, Option, some, List, [], ◌∷◌, ok, arith, count, All,
}
use ai_knowledge_hub.Base.Table.{count-le}
use ai_knowledge_hub.Workflow.Error.{Error}
use ai_knowledge_hub.Workflow.Payload.{Payload}
use ai_knowledge_hub.Workflow.StateMachine.{StepStatus}
use ai_knowledge_hub.Workflow.Registry.{DefinitionRegistry}
use ai_knowledge_hub.Workflow.Store.{WorkflowAttempt, RevisionStatus, Db}
use ai_knowledge_hub.Workflow.Repository.{step_at}
use ai_knowledge_hub.Workflow.Submission.{NewIds, PendingVersion, submit_revision_for_approval}
use ai_knowledge_hub.Workflow.Approval.{decide_revision}
use ai_knowledge_hub.Workflow.Recovery.{resume_failed_run}
use ai_knowledge_hub.Workflow.Executor.{
  Claim, StepExecutionResult, claim_next_step, complete_claimed_step, fail_claimed_step,
}
use ai_knowledge_hub.Workflow.Consistency.{has_step_id, IsHeld, IsConsistent, running_attempt_of}
use ai_knowledge_hub.Workflow.Consistency.Methods.{
  HoldsClaim, Keeps, claim_next_step-Claims, complete_claimed_step-Keeps, fail_claimed_step-Keeps,
}
use ai_knowledge_hub.Workflow.Consistency.Service.{submit-Keeps, decide-Keeps, resume-Keeps}

-- The committed tables, and the attempts that workers have claimed, each with its step.
pub record System : Type 0 where
  pub db : Db
  pub held : List (String × String)

abbrev pub empty : System
empty = record { db = record { runs = []; steps = []; attempts = []; revisions = [] }; held = [] }

-- One transaction. A worker ends only an attempt that it has claimed, at any later time; a decision
-- and a resumption may have read older tables than those that they change.
pub data Move (definitions : DefinitionRegistry) : System → System → Type 0 where
  claims :
      (s : System) (attempt_id run_id : String) (claim : Claim)
      → (claim_next_step attempt_id run_id s.db).1 ≡ ok (some claim)
      → Move definitions s (record {
        db = (claim_next_step attempt_id run_id s.db).0;
        held = (claim.attempt.id, claim.step.id) ∷ s.held;
      })
  completes :
      (s : System) (attempt : WorkflowAttempt) (k run_id : String) (output : Payload)
      (next : Option String) (now : ℕ)
      → Memᴰ (attempt.id, k) s.held
      → Move definitions s
          (record s { db = (complete_claimed_step run_id k attempt output next now s.db).0 })
  fails :
      (s : System) (a k run_id code : String) (now : ℕ) (e : Error)
      → Memᴰ (a, k) s.held
      → Move definitions s (record s {
        db = (fail_claimed_step {A = StepExecutionResult} run_id k a code now e s.db).0;
      })
  submits :
      (s : System) (ids : NewIds) (owner_id : ℕ)
      (document : Option (String × Option PendingVersion)) (key : String) (version expires_at : ℕ)
      → Move definitions s (record s {
        db =
            (submit_revision_for_approval definitions ids owner_id document key version expires_at
              s.db).0;
      })
  decides :
      (s : System) (read : Db) (new_id : String) (now owner_id : ℕ) (revision_id : String)
      (decision : RevisionStatus) (by : Option ℕ)
      → Move definitions s (record s {
        db =
            (decide_revision definitions
              (λ _. s.db)
              new_id
              now
              owner_id
              revision_id
              decision
              by
              read).0;
      })
  resumes :
      (s : System) (read : Db) (owner_id : ℕ) (run_id : String)
      → Move definitions s
          (record s { db = (resume_failed_run definitions (λ _. s.db) owner_id run_id read).0 })

pub data Reach (definitions : DefinitionRegistry) : System → Type 0 where
  started : Reach definitions empty
  then : {s t : System} → Reach definitions s → Move definitions s t → Reach definitions t

abbrev pub Held : Db → List (String × String) → Type 0
Held db = All (λ (claim : String × String). IsHeld db claim.0 claim.1)

pub record IsSound (s : System) : Type 0 where
  pub consistent : IsConsistent s.db
  pub held : Held s.db s.held

Held-Memᴰ :
    (db : Db) (claim : String × String) (held : List (String × String))
    → Memᴰ claim held
    → Held db held
    → IsHeld db claim.0 claim.1
Held-Memᴰ db claim [] m h = elim m [ ]
Held-Memᴰ db claim (c ∷ held) (Memᴰ.head e) h =
    subst (λ (c : String × String). IsHeld db c.0 c.1) (sym e) h.0
Held-Memᴰ db claim (c ∷ held) (Memᴰ.tail m) h = Held-Memᴰ db claim held m h.1

Held-Keeps :
    (db db' : Db) (held : List (String × String)) → Keeps db db' → Held db held → Held db' held
Held-Keeps db db' [] k h = tt
Held-Keeps db db' ((a, j) ∷ held) k h = (k.held a j h.0, Held-Keeps db db' held k h.1)

after-IsSound : (s : System) (db : Db) → IsSound s → Keeps s.db db → IsSound (record s { db = db })
after-IsSound s db v k = record {
  consistent = k.consistent;
  held = Held-Keeps s.db db s.held k v.held;
}

claims-IsSound :
    (s : System) (attempt_id run_id : String) (claim : Claim)
    → (claim_next_step attempt_id run_id s.db).1 ≡ ok (some claim)
    → IsSound s
    → IsSound (record {
      db = (claim_next_step attempt_id run_id s.db).0;
      held = (claim.attempt.id, claim.step.id) ∷ s.held;
    })
claims-IsSound s attempt_id run_id claim h v =
    let (keeps, holds) = claim_next_step-Claims attempt_id s.db v.consistent run_id in
    record {
      consistent = keeps.consistent;
      held = (
        subst (HoldsClaim (claim_next_step attempt_id run_id s.db).0) h holds,
        Held-Keeps s.db _ s.held keeps v.held,
      );
    }

Move-IsSound :
    {definitions : DefinitionRegistry} {s t : System} → Move definitions s t → IsSound s → IsSound t
Move-IsSound (claims s attempt_id run_id claim h) v = claims-IsSound s attempt_id run_id claim h v
Move-IsSound (completes s attempt k run_id output next now m) v = after-IsSound s _ v (
    complete_claimed_step-Keeps attempt k run_id now s.db v.consistent
      (Held-Memᴰ s.db (attempt.id, k) s.held m v.held) output next)
Move-IsSound (fails s a k run_id code now e m) v = after-IsSound s _ v (
    fail_claimed_step-Keeps a k run_id now s.db v.consistent (Held-Memᴰ s.db (a, k) s.held m v.held)
      StepExecutionResult code e)
Move-IsSound {definitions} (submits s ids owner_id document key version expires_at) v =
    after-IsSound s _ v
      (submit-Keeps definitions ids owner_id document key version expires_at s.db v.consistent)
Move-IsSound {definitions} (decides s read new_id now owner_id revision_id decision by) v =
    after-IsSound s _ v (
      decide-Keeps definitions (λ _. s.db) new_id now owner_id revision_id decision by read
        v.consistent)
Move-IsSound {definitions} (resumes s read owner_id run_id) v =
    after-IsSound s _ v (resume-Keeps definitions (λ _. s.db) owner_id run_id read v.consistent)

pub Reach-IsSound :
    {definitions : DefinitionRegistry} {s : System} → Reach definitions s → IsSound s
Reach-IsSound started = record {
  consistent = record {
    unique_steps = λ k. omega arith;
    unique_attempts = λ a. omega arith;
    balanced = λ k. refl;
  };
  held = tt;
}
Reach-IsSound (then r m) = Move-IsSound m (Reach-IsSound r)

-- After any transactions of any workers and service calls, in any order, that begin with empty tables,
-- a step run has at most one running attempt, and it has one exactly when the step run itself is
-- running.
pub one_running_attempt :
    {definitions : DefinitionRegistry} (s : System) (k : String)
    → Reach definitions s
    → (count (running_attempt_of k) s.db.attempts ≤ 1)
      × (count (running_attempt_of k) s.db.attempts
          ≡ count (step_at k StepStatus.running) s.db.steps)
one_running_attempt s k r =
    let c = (Reach-IsSound r).consistent in
    (
      omega (
        arith,
        c.balanced k,
        c.unique_steps k,
        count-le (step_at k StepStatus.running) (has_step_id k) s.db.steps (λ x h. ground arith),
      ),
      c.balanced k,
    )
