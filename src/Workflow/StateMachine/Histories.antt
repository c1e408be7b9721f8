-- ===== src/Workflow/StateMachine/Histories.antt =====
-- What holds of a run's status after any sequence of events that the transition table accepts.
use ai_knowledge_hub.Base.{
  some, ℕ, ◌+◌, ◌≤◌, ◌≡◌, refl, Bool, true, false, List, [], ◌∷◌, count, arith, ◌⊎◌, inl, inr, ok,
}
use ai_knowledge_hub.Workflow.StateMachine.{
  complete, start, transition, RunStatus, RunEvent, wait_for_approval, approve, fail, resume,
  is_terminal, is_workflow_run_terminal, status_value,
}
use ai_knowledge_hub.Workflow.StateMachine.Transitions.{transition-Step, Step, begin}

-- `History s es t`: the transition table leads by the events `es`, in order, from `s` to `t`.
pub data History : RunStatus → List RunEvent → RunStatus → Type 0 where
  stay : {s : RunStatus} → History s [] s
  move :
      {s t u : RunStatus} {e : RunEvent} {es : List RunEvent}
      → transition s e ≡ some t
      → History t es u
      → History s (e ∷ es) u

abbrev pub is_approve : RunEvent → Bool
is_approve approve = true
is_approve _ = false

abbrev pub is_wait : RunEvent → Bool
is_wait wait_for_approval = true
is_wait _ = false

abbrev pub is_resume : RunEvent → Bool
is_resume resume = true
is_resume _ = false

abbrev pub is_fail : RunEvent → Bool
is_fail fail = true
is_fail _ = false

abbrev pub is_waiting : RunStatus → ℕ
is_waiting RunStatus.waiting_approval = 1
is_waiting _ = 0

abbrev pub is_failed : RunStatus → ℕ
is_failed RunStatus.failed = 1
is_failed _ = 0

Step-approvals :
    {s : RunStatus} {e : RunEvent} {t : RunStatus} (es : List RunEvent) (n : ℕ)
    → Step s e t
    → count is_approve es + n ≤ count is_wait es + is_waiting t
    → count is_approve (e ∷ es) + n ≤ count is_wait (e ∷ es) + is_waiting s
Step-approvals es n begin h = ground arith
Step-approvals es n _ h = ground arith

Step-resumes :
    {s : RunStatus} {e : RunEvent} {t : RunStatus} (es : List RunEvent) (n : ℕ)
    → Step s e t
    → count is_resume es + n ≡ count is_fail es + is_failed t
    → count is_resume (e ∷ es) + n ≡ count is_fail (e ∷ es) + is_failed s
Step-resumes es n begin h = ground arith
Step-resumes es n _ h = ground arith

approvals-from :
    {s t : RunStatus} {es : List RunEvent}
    → History s es t
    → count is_approve es + is_waiting t ≤ count is_wait es + is_waiting s
approvals-from stay = omega arith
approvals-from {t = t} (move {s = s} {e = e} {es = es} st h) =
    Step-approvals es (is_waiting t) (transition-Step s e _ st) (approvals-from h)

resumes-from :
    {s t : RunStatus} {es : List RunEvent}
    → History s es t
    → count is_resume es + is_failed t ≡ count is_fail es + is_failed s
resumes-from stay = refl
resumes-from {t = t} (move {s = s} {e = e} {es = es} st h) =
    Step-resumes es (is_failed t) (transition-Step s e _ st) (resumes-from h)

-- Along any events that the transition table accepts one after the other, from any first status: there
-- are at most as many approvals as requests for approval, fewer while the run waits for one, and one more
-- may come first if the run already waited when it began; and as many resumptions as failures, one fewer
-- while the run is failed, and one more if it had failed when it began.
pub History-balance :
    (s : RunStatus) (es : List RunEvent) {t : RunStatus}
    → History s es t
    → (count is_approve es + is_waiting t ≤ count is_wait es + is_waiting s)
      × (count is_resume es + is_failed t ≡ count is_fail es + is_failed s)
History-balance s es h = (approvals-from h, resumes-from h)

no-Step_from_terminal :
    {s : RunStatus} {e : RunEvent} {t : RunStatus} → Step s e t → is_terminal s ≡ true → ⊥
no-Step_from_terminal begin h = cc
no-Step_from_terminal _ h = cc

terminal-nil :
    {s t : RunStatus} {es : List RunEvent} → History s es t → is_terminal s ≡ true → es ≡ []
terminal-nil stay h = refl
terminal-nil (move {s = s} {e = e} st r) h =
    absurd (no-Step_from_terminal (transition-Step s e _ st) h)

-- A history that begins in a status that `is_workflow_run_terminal` calls terminal is empty, and
-- every other status has a history that ends in `succeeded`.
pub terminal-History :
    (s : RunStatus)
    → ((is_workflow_run_terminal (status_value s) ≡ ok true)
        × ((es : List RunEvent) (t : RunStatus) → History s es t → es ≡ []))
      ⊎ ((is_workflow_run_terminal (status_value s) ≡ ok false)
          × ((es : List RunEvent) × History s es RunStatus.succeeded))
unfolding is_workflow_run_terminal status_value transition
terminal-History RunStatus.pending =
    inr (refl, (start ∷ complete ∷ [], move {t = RunStatus.running} refl (move refl stay)))
terminal-History RunStatus.running = inr (refl, (complete ∷ [], move refl stay))
terminal-History RunStatus.waiting_approval =
    inr (refl, (approve ∷ complete ∷ [], move {t = RunStatus.running} refl (move refl stay)))
terminal-History RunStatus.failed =
    inr (refl, (resume ∷ complete ∷ [], move {t = RunStatus.running} refl (move refl stay)))
terminal-History RunStatus.succeeded = inl (refl, λ es t h. terminal-nil h refl)
terminal-History RunStatus.cancelled = inl (refl, λ es t h. terminal-nil h refl)
