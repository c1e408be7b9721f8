-- ===== src/Ai/Gateway/Preparing.antt =====
-- backend/app/ai/gateway.py, `_prepare_provider_call`: which requests reach a provider. A temperature
-- is any type with the source's range test, and a provider is the key that the factory is given.
use ai_knowledge_hub.Base.{
  ℕ, ◌+◌, ◌≤◌, ◌<◌, ◌≡◌, refl, ◌⊎◌, inl, inr, String, Bool, true, false, not, ◌||◌, Option, none,
  some, List, [], ◌∷◌, Result, ok, err, ◌>>=◌, ◌>>◌, raise_if, raise_if-elim, or_raise,
  Option-cases, Bool-cases, ltb, leb, arith, codes, if◌then◌else◌,
}
use ai_knowledge_hub.Ai.Provider.{AiError, invalid_model, invalid_request, ChatMessage, role_value}

abbrev utf8_bytes : List ℕ → ℕ
utf8_bytes [] = 0
utf8_bytes (c ∷ chars) =
    (if ltb c 0x80 then 1 else (if ltb c 0x800 then 2 else (if ltb c 0x10000 then 3 else 4)))
    + utf8_bytes chars

-- `len(text.encode("utf-8"))`
unfoldable pub utf8_length : String → ℕ
utf8_length s = utf8_bytes (codes s)

-- The messages' part of `_estimate_input_tokens_conservatively`.
abbrev pub message_tokens : List ChatMessage → ℕ
unfolding utf8_length
message_tokens [] = 0
message_tokens (m ∷ messages) =
    4 + utf8_length (role_value m.role) + utf8_length m.content + message_tokens messages

unfoldable pub estimate_input_tokens_conservatively : String → List ChatMessage → ℕ
unfolding message_tokens
estimate_input_tokens_conservatively provider_model messages = 2 + message_tokens messages

module _ (Temperature : Type 0) where
  pub record ChatRequest : Type 0 where
    pub request_id : String
    pub messages : List ChatMessage
    pub model_alias : Option String
    pub temperature : Option Temperature
    pub max_output_tokens : Option ℕ

  -- The fields of `AIModelConfig` that the gateway reads.
  pub record AiModelConfig : Type 0 where
    pub provider_key : String
    pub provider_model : String
    pub default_temperature : Temperature
    pub default_max_output_tokens : ℕ
    pub max_output_tokens : ℕ
    pub context_window_tokens : ℕ

  pub record ProviderChatRequest : Type 0 where
    pub request_id : String
    pub messages : List ChatMessage
    pub provider_model : String
    pub temperature : Temperature
    pub max_output_tokens : ℕ

  pub record PreparedProviderCall : Type 0 where
    pub model_alias : String
    pub provider_key : String
    pub provider_request : ProviderChatRequest

abbrev pub or_default {ℓ} : {A : Type ℓ} → Option A → A → A
or_default (some a) b = a
or_default none b = b

abbrev pub or_else {ℓ} : {A : Type ℓ} → Option A → Option A → Option A
or_else (some a) b = some a
or_else none b = b

range-cases {ℓ} :
    (output limit : ℕ) (C : Type ℓ)
    → (leb output 0 || ltb limit output) ≡ true
    → (output ≡ 0) ⊎ (limit < output) ⊎ C
range-cases output limit C h = elim (Bool-cases (leb output 0)) [
  | inl e ↦ inl (ground arith)
  | inr e ↦ inr (inl (ground arith))
]

module _ (Temperature : Type 0) (in_range : Temperature → Bool)
    (model_configs : String → Option (AiModelConfig Temperature))
    (default_model_alias : Option String)
    (input_token_estimator : String → List ChatMessage → ℕ) where
  -- The rest of `_prepare_provider_call`, of a configured model.
  abbrev pub prepare_for :
      ChatRequest Temperature
      → String
      → AiModelConfig Temperature
      → Result AiError (PreparedProviderCall Temperature)
  prepare_for request model_alias config =
      let temperature = or_default request.temperature config.default_temperature in
      let output = or_default request.max_output_tokens config.default_max_output_tokens in
      raise_if (not (in_range temperature)) invalid_request
      >> (raise_if (leb output 0 || ltb config.max_output_tokens output) invalid_request
          >> (raise_if
                (ltb config.context_window_tokens
                  (input_token_estimator config.provider_model request.messages + output))
                invalid_request
              >> ok (record {
                model_alias = model_alias;
                provider_key = config.provider_key;
                provider_request = record {
                  request_id = request.request_id;
                  messages = request.messages;
                  provider_model = config.provider_model;
                  temperature = temperature;
                  max_output_tokens = output;
                };
              })))

  unfoldable pub prepare_provider_call :
      ChatRequest Temperature → Result AiError (PreparedProviderCall Temperature)
  prepare_provider_call request = do
    model_alias ← or_raise (or_else request.model_alias default_model_alias) invalid_model
    config ← or_raise (model_configs model_alias) invalid_model
    prepare_for request model_alias config

  -- What `_prepare_provider_call` gives: a call that fits the model, or an error with its reason.
  abbrev pub Fits :
      ChatRequest Temperature
      → AiModelConfig Temperature
      → Result AiError (PreparedProviderCall Temperature)
      → Type 0
  Fits request config (ok p) =
      let q = p.provider_request in
      (in_range q.temperature ≡ true)
      × (1 ≤ q.max_output_tokens)
      × (q.max_output_tokens ≤ config.max_output_tokens)
      × (input_token_estimator q.provider_model q.messages + q.max_output_tokens
          ≤ config.context_window_tokens)
      × (q.messages ≡ request.messages)
      × (q.provider_model ≡ config.provider_model)
  Fits request config (err e) =
      (e ≡ invalid_request)
      × ((in_range (or_default request.temperature config.default_temperature) ≡ false)
          ⊎ (or_default request.max_output_tokens config.default_max_output_tokens ≡ 0)
          ⊎ (config.max_output_tokens
              < or_default request.max_output_tokens config.default_max_output_tokens)
          ⊎ (config.context_window_tokens
              < input_token_estimator config.provider_model request.messages
                + or_default request.max_output_tokens config.default_max_output_tokens))

  abbrev pub Prepares :
      ChatRequest Temperature → Result AiError (PreparedProviderCall Temperature) → Type 0
  Prepares request r =
      ((r ≡ err invalid_model) × (or_else request.model_alias default_model_alias ≡ none))
      ⊎ ((alias : String) × (or_else request.model_alias default_model_alias ≡ some alias)
          × (((r ≡ err invalid_model) × (model_configs alias ≡ none))
              ⊎ ((config : AiModelConfig Temperature) × (model_configs alias ≡ some config)
                  × Fits request config r)))

  prepare_for-Fits :
      (request : ChatRequest Temperature) (alias : String) (config : AiModelConfig Temperature)
      → Fits request config (prepare_for request alias config)
  prepare_for-Fits request alias config =
      let P = Fits request config in
      let output = or_default request.max_output_tokens config.default_max_output_tokens in
      let t = or_default request.temperature config.default_temperature in
      raise_if-elim P (not (in_range t)) _ _ (λ a. (refl, inl (ground arith)))
        (λ a.
          raise_if-elim P (leb output 0 || ltb config.max_output_tokens output) _ _
            (λ b. (refl, inr (range-cases output config.max_output_tokens _ b)))
            (λ b.
              raise_if-elim P
                (ltb config.context_window_tokens
                  (input_token_estimator config.provider_model request.messages + output))
                _ _ (λ c. (refl, inr (inr (inr (ground arith)))))
                (λ c. (ground arith, ground arith, ground arith, ground arith, refl, refl))))

  -- A request reaches a provider only for an alias, its own or the default one, that is configured, with a
  -- temperature in the range, at least one and at most the model's maximum of output tokens, and only if
  -- the estimate of its input and the output together fit the model's window. Each error says which of
  -- these fails.
  pub prepare_provider_call-Prepares :
      (request : ChatRequest Temperature) → Prepares request (prepare_provider_call request)
  unfolding prepare_provider_call
  prepare_provider_call-Prepares request =
      elim (Option-cases (or_else request.model_alias default_model_alias)) [
        | inl n ↦ inl (rw (n, prepare_provider_call) refl, n)
        | inr (alias, e) ↦ inr (
          alias,
          e,
          elim (Option-cases (model_configs alias)) [
            | inl n ↦ inl (rw (e, n, prepare_provider_call) refl, n)
            | inr (config, f) ↦ inr (
              config,
              f,
              rw (e, f, prepare_provider_call) (prepare_for-Fits request alias config),
            )
          ],
        )
      ]
