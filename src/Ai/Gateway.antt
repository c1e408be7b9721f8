-- ===== src/Ai/Gateway.antt =====
-- backend/app/ai/gateway.py: a chat call with retries, and a stream with retries. A provider's answers
-- and how long they take are the environment's: of every wait it says whether it ends before the
-- deadline that the source sets for it. So all timings are covered, and time itself is no number here.
pub mod Attempts
pub mod Emission
pub mod Preparing
use ai_knowledge_hub.Base.{
  inr, inl, ◌⊎◌, ◌≡◌, ℕ, zero, suc, ◌+◌, ◌*◌, ◌^◌, String, Bool, true, false, not, ◌||◌, Option,
  none, some, List, [], ◌∷◌, ◌++◌, Result, ok, err, refl, inl, inr, ◌⊎◌, ◌≡◌, ◌>>=◌, ◌>>◌, raise_if,
  or_raise, ltb, leb, if◌then◌else◌, codes,
}
use ai_knowledge_hub.Ai.Provider.{
  ProviderError, timeout, stream_broken, AiError, invalid_model, invalid_request, provider_timeout,
  ChatRole, ChatMessage, ChatResult, ChatEvent, delta, usage_event, done, FinishReason, TokenUsage,
  role_value, translate_provider_error, is_retryable_provider_error,
}

-- A wait with a deadline.
pub data Wait (A : Type 0) : Type 0 where
  finished : A → Wait A
  expired : Wait A

-- The answers of a provider to the first call and to each retry, and the waits before the retries.
pub record Calls : Type 0 where
  pub answer : ℕ → Wait (Result ProviderError ChatResult)
  pub sleep : ℕ → Wait (Unit {0})

-- What a call did: its outcome, how many times it called the provider, and the seconds that it asked to
-- wait, in units of `retry_backoff_seconds`.
pub record Generation : Type 0 where
  pub outcome : Result AiError ChatResult
  pub calls : ℕ
  pub backoff : ℕ

abbrev pub gives_up : ℕ → ℕ → ProviderError → Bool
gives_up max_retry_attempts retry_count e =
    not (is_retryable_provider_error e) || leb max_retry_attempts retry_count

-- `_generate_with_retry` under the timeout and the handlers of `generate`. A fuel that runs out gives
-- `none`.
unfoldable pub generate_with_retry : ℕ → ℕ → Calls → ℕ → ℕ → Option Generation
unfolding translate_provider_error is_retryable_provider_error
generate_with_retry zero max_retry_attempts env retry_count backoff = none
generate_with_retry (suc fuel) max_retry_attempts env retry_count backoff =
    elim (env.answer retry_count) [
      | expired ↦
          some
            (record { outcome = err provider_timeout; calls = suc retry_count; backoff = backoff })
      | finished (ok r) ↦
          some (record { outcome = ok r; calls = suc retry_count; backoff = backoff })
      | finished (err e) ↦ elim (gives_up max_retry_attempts retry_count e) [
        | true ↦ some (record {
          outcome = err (translate_provider_error e);
          calls = suc retry_count;
          backoff = backoff;
        })
        | false ↦ elim (env.sleep retry_count) [
          | expired ↦ some (record {
            outcome = err provider_timeout;
            calls = suc retry_count;
            backoff = backoff + 2 ^ retry_count;
          })
          | finished _ ↦
              generate_with_retry fuel max_retry_attempts env (suc retry_count)
                (backoff + 2 ^ retry_count)
        ]
      ]
    ]

unfoldable pub generate : ℕ → Calls → Option Generation
unfolding generate_with_retry
generate max_retry_attempts env =
    generate_with_retry (suc max_retry_attempts) max_retry_attempts env 0 0

-- How a provider's stream goes on after its last event: it ends, it raises, or the next event does not
-- come before the idle deadline or, if that comes first, the total deadline.
pub data Ending : Type 0 where
  stops idle_expires total_expires : Ending
  raises : ProviderError → Ending

-- The streams of the first call and of each retry, and the waits before the retries.
pub record Streams : Type 0 where
  pub events : ℕ → List ChatEvent
  pub ending : ℕ → Ending
  pub sleep : ℕ → Wait (Unit {0})

-- How the inner loop of `stream` is left.
pub data Left : Type 0 where
  returned : Left
  ended_without_done total_deadline_exceeded : Left
  failed : ProviderError → Left

abbrev pub left_at : Ending → Left
left_at stops = ended_without_done
left_at idle_expires = failed timeout
left_at total_expires = total_deadline_exceeded
left_at (raises e) = failed e

-- The inner loop: what it yields, the flag `has_emitted_event`, and how it is left.
unfoldable pub pull : List ChatEvent → Ending → Bool → List ChatEvent × Bool × Left
pull [] ending has_emitted_event = ([], has_emitted_event, left_at ending)
pull (done id reason ∷ events) ending has_emitted_event = (done id reason ∷ [], true, returned)
pull (delta id content ∷ events) ending has_emitted_event =
    let (yielded, flag, left) = pull events ending true in (delta id content ∷ yielded, flag, left)
pull (usage_event id usage ∷ events) ending has_emitted_event =
    let (yielded, flag, left) = pull events ending true in
    (usage_event id usage ∷ yielded, flag, left)

-- What a stream did: the events that it yielded, the error that it raised at the end, if any, and how
-- many streams it asked the provider for.
pub record Streaming : Type 0 where
  pub yielded : List ChatEvent
  pub raised : Option AiError
  pub calls : ℕ

abbrev pub ended : List ChatEvent → Option AiError → ℕ → Option Streaming
ended yielded raised retry_count =
    some (record { yielded = yielded; raised = raised; calls = suc retry_count })

-- The outer loop of `stream` after the inner one, with the loop's next round. The error of a stream
-- that ends without `ChatDone` is raised inside a handler, so it is not retried.
unfoldable pub after_pull :
    (Bool → List ChatEvent → Option Streaming)
    → ℕ
    → Streams
    → ℕ
    → List ChatEvent
    → List ChatEvent × Bool × Left
    → Option Streaming
unfolding translate_provider_error is_retryable_provider_error
after_pull next max_retry_attempts env retry_count before (yielded, has_emitted_event, returned) =
    ended (before ++ yielded) none retry_count
after_pull next max_retry_attempts env retry_count before
      (yielded, has_emitted_event, ended_without_done) =
    ended (before ++ yielded) (some (translate_provider_error stream_broken)) retry_count
after_pull next max_retry_attempts env retry_count before
      (yielded, has_emitted_event, total_deadline_exceeded) =
    ended (before ++ yielded) (some provider_timeout) retry_count
after_pull next max_retry_attempts env retry_count before (yielded, has_emitted_event, failed e) =
    elim (has_emitted_event || gives_up max_retry_attempts retry_count e) [
      | true ↦ ended (before ++ yielded) (some (translate_provider_error e)) retry_count
      | false ↦ elim (env.sleep retry_count) [
        | expired ↦ ended (before ++ yielded) (some provider_timeout) retry_count
        | finished _ ↦ next has_emitted_event (before ++ yielded)
      ]
    ]

unfoldable pub stream_with_retry : ℕ → ℕ → Streams → ℕ → Bool → List ChatEvent → Option Streaming
unfolding pull after_pull
stream_with_retry zero max_retry_attempts env retry_count has_emitted_event before = none
stream_with_retry (suc fuel) max_retry_attempts env retry_count has_emitted_event before =
    after_pull (stream_with_retry fuel max_retry_attempts env (suc retry_count)) max_retry_attempts
      env retry_count before
      (pull (env.events retry_count) (env.ending retry_count) has_emitted_event)

unfoldable pub stream : ℕ → Streams → Option Streaming
unfolding stream_with_retry
stream max_retry_attempts env =
    stream_with_retry (suc max_retry_attempts) max_retry_attempts env 0 false []

pub Wait-cases : {A : Type 0} (w : Wait A) → (w ≡ expired) ⊎ ((a : A) × (w ≡ finished a))
Wait-cases expired = inl refl
Wait-cases (finished a) = inr (a, refl)
