-- ===== src/Ai/Gateway/Emission.antt =====
-- Which events a stream yields: those of one stream of the provider, and none twice.
use ai_knowledge_hub.Base.{
  ℕ, zero, suc, ◌+◌, ◌≤◌, ◌<◌, ◌≡◌, ◌⊎◌, inl, inr, refl, sym, subst, ap, ◌∙◌, Bool, true, false,
  not, ◌||◌, Option, none, some, List, [], ◌∷◌, any, arith, Bool-cases,
}
use ai_knowledge_hub.Ai.Provider.{
  ProviderError, stream_broken, AiError, provider_timeout, ChatEvent, delta, usage_event, done,
  is_done, translate_provider_error,
}
use ai_knowledge_hub.Ai.Gateway.Attempts.{le-cases}
use ai_knowledge_hub.Ai.Gateway.{
  expired, Wait-cases, Streams, Streaming, Ending, stops, idle_expires, total_expires, raises, Left,
  returned, ended_without_done, total_deadline_exceeded, failed, left_at, pull, after_pull,
  gives_up, stream_with_retry, stream,
}

-- The events of a stream up to the first `ChatDone`.
abbrev pub up_to_done : List ChatEvent → List ChatEvent
up_to_done [] = []
up_to_done (e ∷ events) =
    let rest = up_to_done events in elim (is_done e) [ true ↦ e ∷ [] | false ↦ e ∷ rest ]

abbrev pub is_empty {ℓ} : {A : Type ℓ} → List A → Bool
is_empty [] = true
is_empty (_ ∷ _) = false

abbrev left_of : List ChatEvent → Ending → Left
left_of events ending = elim (any is_done events) [ true ↦ returned | false ↦ left_at ending ]

pull_lem :
    (events : List ChatEvent) (ending : Ending) (flag : Bool)
    → pull events ending flag
      ≡ (up_to_done events, flag || not (is_empty events), left_of events ending)
unfolding pull
pull_lem [] ending flag = ground arith
pull_lem (done id reason ∷ events) ending flag = ground arith
pull_lem (delta id content ∷ events) ending flag = rw (pull_lem events ending true) (ground arith)
pull_lem (usage_event id usage ∷ events) ending flag =
    rw (pull_lem events ending true) (ground arith)

-- What the way in which the inner loop is left says of the stream.
abbrev Says : List ChatEvent → Ending → Left → Type 0
Says events ending returned = any is_done events ≡ true
Says events ending ended_without_done = (any is_done events ≡ false) × (ending ≡ stops)
Says events ending total_deadline_exceeded = (any is_done events ≡ false) × (ending ≡ total_expires)
Says events ending (failed e) = any is_done events ≡ false

left_at-Says :
    (events : List ChatEvent) (ending : Ending)
    → any is_done events ≡ false
    → Says events ending (left_at ending)
left_at-Says events stops h = (h, refl)
left_at-Says events idle_expires h = h
left_at-Says events total_expires h = (h, refl)
left_at-Says events (raises e) h = h

left_of-Says :
    (events : List ChatEvent) (ending : Ending) → Says events ending (left_of events ending)
left_of-Says events ending = elim (Bool-cases (any is_done events)) [
  | inl h ↦
      let e : left_of events ending ≡ returned = rw (h, left_of) refl in
      subst (Says events ending) (sym e) h
  | inr h ↦
      let e : left_of events ending ≡ left_at ending = rw (h, left_of) refl in
      subst (Says events ending) (sym e) (left_at-Says events ending h)
]

is_empty-nil {ℓ} : {A : Type ℓ} (xs : List A) → not (is_empty xs) ≡ false → xs ≡ []
is_empty-nil [] h = refl
is_empty-nil (x ∷ xs) h = cc

Left-cases :
    (l : Left)
    → (l ≡ returned)
      ⊎ (l ≡ ended_without_done)
      ⊎ (l ≡ total_deadline_exceeded)
      ⊎ ((e : ProviderError) × (l ≡ failed e))
Left-cases returned = inl refl
Left-cases ended_without_done = inr (inl refl)
Left-cases total_deadline_exceeded = inr (inr (inl refl))
Left-cases (failed e) = inr (inr (inr (e, refl)))

module _ (max_retry_attempts : ℕ) (env : Streams) where
  -- The error of the provider's stream `j`, if its end is one that the provider's rules for retries judge.
  abbrev pub FailsWith : ℕ → ProviderError → Type 0
  FailsWith j e = left_of (env.events j) (env.ending j) ≡ failed e

  -- The stream `j` yielded nothing, failed, and another one followed.
  abbrev pub Skipped : ℕ → Type 0
  Skipped j =
      (env.events j ≡ [])
      × ((e : ProviderError) × FailsWith j e × (gives_up max_retry_attempts j e ≡ false))

  -- Why the stream ended as it did at the provider's stream `k`.
  abbrev pub Concludes : ℕ → Option AiError → Type 0
  Concludes k none = any is_done (env.events k) ≡ true
  Concludes k (some x) =
      (any is_done (env.events k) ≡ false)
      × (((env.ending k ≡ stops) × (x ≡ translate_provider_error stream_broken))
          ⊎ ((env.ending k ≡ total_expires) × (x ≡ provider_timeout))
          ⊎ (Skipped k × (env.sleep k ≡ expired) × (x ≡ provider_timeout))
          ⊎ ((e : ProviderError) × FailsWith k e
              × (x ≡ translate_provider_error e)
              × ((not (is_empty (env.events k)) || gives_up max_retry_attempts k e) ≡ true)))

  abbrev pub Yields : Streaming → Type 0
  Yields s =
      (k : ℕ) × (s.calls ≡ suc k)
      × (k ≤ max_retry_attempts)
      × ((j : ℕ) → j < k → Skipped j)
      × (s.yielded ≡ up_to_done (env.events k))
      × Concludes k s.raised

  Skipped-suc :
      (k : ℕ) → ((j : ℕ) → j < k → Skipped j) → Skipped k → (j : ℕ) → j < suc k → Skipped j
  Skipped-suc k before r j h = elim (le-cases j k (omega arith)) [
    | inl same ↦ subst Skipped (sym same) r
    | inr less ↦ before j less
  ]

  loop-Yields :
      (fuel k : ℕ)
      → fuel + k ≡ suc max_retry_attempts
      → ((j : ℕ) → j < k → Skipped j)
      → (s : Streaming) × (stream_with_retry fuel max_retry_attempts env k false [] ≡ some s)
        × Yields s
  unfolding stream_with_retry after_pull
  loop-Yields zero k f before =
      let (_, (e, _, still)) = before max_retry_attempts (omega arith) in absurd (ground arith)
  loop-Yields (suc fuel) k f before =
      let events = env.events k in
      let emitted : Bool = not (is_empty events) in
      let next = stream_with_retry fuel max_retry_attempts env (suc k) in
      let pulled =
        ap (after_pull next max_retry_attempts env k []) (pull_lem events (env.ending k) false) in
      let says = left_of-Says events (env.ending k) in
      let after : Left → Option Streaming =
        λ l. after_pull next max_retry_attempts env k [] (up_to_done events, emitted, l) in
      let last : Option AiError → Streaming =
        λ x. record { yielded = up_to_done events; raised = x; calls = suc k } in
      elim (Left-cases (left_of events (env.ending k))) [
        | inl l ↦ (
          last none,
          pulled ∙ ap after l,
          (k, refl, omega arith, before, refl, subst (Says events (env.ending k)) l says),
        )
        | inr (inl l) ↦
            let (n, e) = subst (Says events (env.ending k)) l says in
            (
              last (some (translate_provider_error stream_broken)),
              pulled ∙ ap after l,
              (k, refl, omega arith, before, refl, (n, inl (e, refl))),
            )
        | inr (inr (inl l)) ↦
            let (n, e) = subst (Says events (env.ending k)) l says in
            (
              last (some provider_timeout),
              pulled ∙ ap after l,
              (k, refl, omega arith, before, refl, (n, inr (inl (e, refl)))),
            )
        | inr (inr (inr (x, l))) ↦
            let n = subst (Says events (env.ending k)) l says in
            elim (Bool-cases (emitted || gives_up max_retry_attempts k x)) [
              | inl stop ↦
                  let q : after (failed x) ≡ some (last (some (translate_provider_error x))) =
                    rw (stop, after_pull) refl in
                  (
                    last (some (translate_provider_error x)),
                    pulled ∙ ap after l ∙ q,
                    (k, refl, omega arith, before, refl, (n, inr (inr (inr (x, l, refl, stop))))),
                  )
              | inr go ↦
                  let nothing : events ≡ [] = is_empty-nil events (ground arith) in
                  let skipped : Skipped k = (nothing, (x, l, ground arith)) in
                  elim (Wait-cases (env.sleep k)) [
                    | inl w ↦
                        let q : after (failed x) ≡ some (last (some provider_timeout)) =
                          rw (go, w, after_pull) refl in
                        (
                          last (some provider_timeout),
                          pulled ∙ ap after l ∙ q,
                          (
                            k,
                            refl,
                            omega arith,
                            before,
                            refl,
                            (n, inr (inr (inl (skipped, w, refl)))),
                          ),
                        )
                    | inr (_, w) ↦
                        let (s, q, r) =
                          loop-Yields fuel (suc k) (omega arith) (Skipped-suc k before skipped) in
                        let p : after (failed x) ≡ next false [] =
                          rw (go, w, after_pull)
                            (ap
                              (λ (evs : List ChatEvent). next (not (is_empty evs)) (up_to_done evs))
                              nothing) in
                        (s, pulled ∙ ap after l ∙ p ∙ q, r)
                  ]
            ]
      ]

-- A stream ends, and what it yields are the events of a single stream of the provider, up to its first
-- `ChatDone`: every stream of the provider before that one yielded nothing at all, failed with an error
-- that may be retried while retries were left, and the next one was asked for, so there are at most one
-- more than `max_retry_attempts`. No error is raised exactly if that stream has a `ChatDone`. Otherwise
-- the error says that it stopped without one, that the total deadline expired, that the wait before
-- another stream did, or it translates the error of the stream, which had yielded an event, may not be
-- retried, or came when no retry was left.
pub stream-Yields :
    (max_retry_attempts : ℕ) (env : Streams)
    → (s : Streaming) × (stream max_retry_attempts env ≡ some s) × Yields max_retry_attempts env s
unfolding stream
stream-Yields max_retry_attempts env =
    loop-Yields max_retry_attempts env (suc max_retry_attempts) 0 (omega arith)
      (λ j h. absurd (omega arith))
