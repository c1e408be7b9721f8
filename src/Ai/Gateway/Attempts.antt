-- ===== src/Ai/Gateway/Attempts.antt =====
-- How often a chat call asks the provider, and which of its answers it gives.
use native.Mathlib.Numerals.{unary_clauses}
use ai_knowledge_hub.Base.{
  ℕ, zero, suc, ◌+◌, ◌^◌, ◌≤◌, ◌<◌, ◌≡◌, ◌⊎◌, inl, inr, refl, sym, subst, true, false, some, Result,
  ok, err, arith, Bool-cases,
}
use ai_knowledge_hub.Ai.Provider.{
  ProviderError, AiError, provider_timeout, ChatResult, translate_provider_error,
}
use ai_knowledge_hub.Ai.Gateway.{
  finished, expired, Wait-cases, Calls, Generation, gives_up, generate_with_retry, generate,
}

pow-double : (k : ℕ) → 2 ^ suc k ≡ 2 ^ k + 2 ^ k
pow-double k = simp unary_clauses (omega arith)

pub le-cases : (j k : ℕ) → j ≤ k → (j ≡ k) ⊎ (j < k)
le-cases j k h = ground arith

module _ (max_retry_attempts : ℕ) (env : Calls) where
  -- The call `j` failed, and another one followed.
  abbrev pub Retried : ℕ → Type 0
  Retried j =
      (e : ProviderError) × (env.answer j ≡ finished (err e))
      × (gives_up max_retry_attempts j e ≡ false)

  -- Why a call with the last answer `k` has its outcome.
  abbrev pub Explains : ℕ → Result AiError ChatResult → Type 0
  Explains k (ok r) = env.answer k ≡ finished (ok r)
  Explains k (err x) =
      ((x ≡ provider_timeout) × (env.answer k ≡ expired))
      ⊎ ((x ≡ provider_timeout) × Retried k × (env.sleep k ≡ expired))
      ⊎ ((e : ProviderError) × (x ≡ translate_provider_error e)
          × (env.answer k ≡ finished (err e))
          × (gives_up max_retry_attempts k e ≡ true))

  abbrev pub Generates : Generation → Type 0
  Generates g =
      (k : ℕ) × (g.calls ≡ suc k)
      × (k ≤ max_retry_attempts)
      × ((j : ℕ) → j < k → Retried j)
      × Explains k g.outcome
      × (suc g.backoff ≤ 2 ^ g.calls)

  Retried-suc :
      (k : ℕ) → ((j : ℕ) → j < k → Retried j) → Retried k → (j : ℕ) → j < suc k → Retried j
  Retried-suc k before r j h = elim (le-cases j k (omega arith)) [
    | inl same ↦ subst Retried (sym same) r
    | inr less ↦ before j less
  ]

  loop-Generates :
      (fuel k backoff : ℕ)
      → fuel + k ≡ suc max_retry_attempts
      → ((j : ℕ) → j < k → Retried j)
      → suc backoff ≡ 2 ^ k
      → (g : Generation) × (generate_with_retry fuel max_retry_attempts env k backoff ≡ some g)
        × Generates g
  unfolding generate_with_retry
  loop-Generates zero k backoff f before b =
      let (e, _, still) = before max_retry_attempts (omega arith) in absurd (ground arith)
  loop-Generates (suc fuel) k backoff f before b =
      let short = pow-double k in
      let last : Result AiError ChatResult → ℕ → Generation =
        λ x n. record { outcome = x; calls = suc k; backoff = n } in
      elim (Wait-cases (env.answer k)) [
        | inl e ↦ (
          last (err provider_timeout) backoff,
          rw (e, generate_with_retry) refl,
          (k, refl, omega arith, before, inl (refl, e), omega arith),
        )
        | inr (ok r, e) ↦ (
          last (ok r) backoff,
          rw (e, generate_with_retry) refl,
          (k, refl, omega arith, before, e, omega arith),
        )
        | inr (err x, e) ↦ elim (Bool-cases (gives_up max_retry_attempts k x)) [
          | inl stop ↦ (
            last (err (translate_provider_error x)) backoff,
            rw (e, stop, generate_with_retry) refl,
            (k, refl, omega arith, before, inr (inr (x, refl, e, stop)), omega arith),
          )
          | inr go ↦ elim (Wait-cases (env.sleep k)) [
            | inl w ↦ (
              last (err provider_timeout) (backoff + 2 ^ k),
              rw (e, go, w, generate_with_retry) refl,
              (k, refl, omega arith, before, inr (inl (refl, (x, e, go), w)), omega arith),
            )
            | inr (_, w) ↦
                let (g, q, r) =
                  loop-Generates fuel (suc k) (backoff + 2 ^ k) (omega arith)
                    (Retried-suc k before (x, e, go)) (omega arith) in
                (g, rw (e, go, w, generate_with_retry) q, r)
          ]
        ]
      ]

-- A chat call returns: it asks the provider once, and again only after an error that may be retried
-- while retries are left, so at most once more often than `max_retry_attempts` says. Its outcome is the
-- provider's last answer; or the translation of the last error, which may not be retried or came when no
-- retry was left; or a timeout, if the deadline expired in the last call or in the wait after it. The
-- waits add up to less than two to the number of calls.
pub generate-Generates :
    (max_retry_attempts : ℕ) (env : Calls)
    → (g : Generation) × (generate max_retry_attempts env ≡ some g)
      × Generates max_retry_attempts env g
unfolding generate
generate-Generates max_retry_attempts env =
    loop-Generates max_retry_attempts env (suc max_retry_attempts) 0 0 (omega arith)
      (λ j h. absurd (omega arith)) refl
