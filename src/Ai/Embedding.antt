-- ===== src/Ai/Embedding.antt =====
-- backend/app/ai/embedding_gateway.py: a batch of texts and its vectors. A component of a vector is any
-- type with the test `math.isfinite`; the provider's answer may come after the deadline.
use ai_knowledge_hub.Base.{
  ℕ, ◌≡◌, String, Bool, true, false, not, ◌||◌, Option, none, some, List, [], ◌∷◌, Result, ok, err,
  ◌>>=◌, ◌>>◌, >>=-eq-ok, raise_if, raise_if-eq-ok, or_raise, or_raise-eq-ok, subst, sym, ap, ◌∙◌,
  any, all, All, length, arith, ◌==◌, is_blank, if◌then◌else◌,
}
use ai_knowledge_hub.Ai.Provider.{
  ProviderError, AiError, invalid_model, invalid_request, provider_timeout, provider_unavailable,
  translate_provider_error,
}
use ai_knowledge_hub.Ai.Gateway.{Wait, finished, expired}

pub record EmbeddingRequest : Type 0 where
  pub request_id : String
  pub texts : List String
  pub model_alias : Option String

pub record EmbeddingModelConfig : Type 0 where
  pub provider_key : String
  pub provider_model : String
  pub tokenizer_encoding : String
  pub dimension : ℕ

pub record PreparedEmbeddingCall : Type 0 where
  pub model_alias : String
  pub dimension : ℕ
  pub provider_key : String
  pub texts : List String
  pub provider_model : String

abbrev pub no_texts : List String → Bool
no_texts [] = true
no_texts (_ ∷ _) = false

abbrev is_empty_text : String → Bool
is_empty_text String.[] = true
is_empty_text (String.◌∷◌ c s) = false

-- `request.model_alias or self._default_model_alias`: an empty alias counts as none.
abbrev pub alias_or : Option String → Option String → Option String
alias_or none default = default
alias_or (some alias) default = if is_empty_text alias then default else some alias

module _ (Number : Type 0) (is_finite : Number → Bool)
    (model_configs : String → Option EmbeddingModelConfig)
    (default_model_alias : Option String) where
  abbrev pub Vector : Type 0
  Vector = List Number

  unfoldable pub prepare_embedding_call : EmbeddingRequest → Result AiError PreparedEmbeddingCall
  prepare_embedding_call request = do
    raise_if (no_texts request.texts || any is_blank request.texts) invalid_request
    model_alias ← or_raise (alias_or request.model_alias default_model_alias) invalid_model
    config ← or_raise (model_configs model_alias) invalid_model
    ok (record {
      model_alias = model_alias;
      dimension = config.dimension;
      provider_key = config.provider_key;
      texts = request.texts;
      provider_model = config.provider_model;
    })

  -- The loop of `_validate_result`.
  unfoldable pub validate_vectors : List Vector → ℕ → Result AiError (Unit {0})
  validate_vectors [] expected_dimension = ok tt
  validate_vectors (v ∷ vectors) expected_dimension = do
    raise_if (not (length v == expected_dimension)) provider_unavailable
    raise_if (not (all is_finite v)) provider_unavailable
    validate_vectors vectors expected_dimension

  unfoldable pub validate_result : List Vector → ℕ → ℕ → Result AiError (Unit {0})
  unfolding validate_vectors
  validate_result vectors expected_count expected_dimension = do
    raise_if (not (length vectors == expected_count)) provider_unavailable
    validate_vectors vectors expected_dimension

  -- `embed` once the provider has answered or the deadline has expired.
  unfoldable pub check_answer :
      PreparedEmbeddingCall
      → Wait (Result ProviderError (List Vector))
      → Result AiError (List Vector)
  unfolding validate_result translate_provider_error
  check_answer call expired = err provider_timeout
  check_answer call (finished (err e)) = err (translate_provider_error e)
  check_answer call (finished (ok vectors)) = do
    validate_result vectors (length call.texts) call.dimension
    ok vectors

  unfoldable pub embed :
      (PreparedEmbeddingCall → Wait (Result ProviderError (List Vector)))
      → EmbeddingRequest
      → Result AiError (List Vector)
  unfolding prepare_embedding_call check_answer
  embed provider request = do
    call ← prepare_embedding_call request
    check_answer call (provider call)

  -- Every component of a vector is finite, and there are as many as the model says.
  abbrev pub IsVector : ℕ → Vector → Type 0
  IsVector dimension v = (length v ≡ dimension) × (all is_finite v ≡ true)

  validate_vectors-All :
      (vectors : List Vector) (dimension : ℕ) {u : Unit {0}}
      → validate_vectors vectors dimension ≡ ok u
      → All (IsVector dimension) vectors
  unfolding validate_vectors
  validate_vectors-All [] dimension h = tt
  validate_vectors-All (v ∷ vectors) dimension h =
      let (_, a, h₁) =
        >>=-eq-ok (raise_if (not (length v == dimension)) provider_unavailable) _ h in
      let (_, b, h₂) = >>=-eq-ok (raise_if (not (all is_finite v)) provider_unavailable) _ h₁ in
      let p = raise_if-eq-ok (not (length v == dimension)) provider_unavailable a in
      let q = raise_if-eq-ok (not (all is_finite v)) provider_unavailable b in
      ((ground arith, ground arith), validate_vectors-All vectors dimension h₂)

  check_answer-All :
      (call : PreparedEmbeddingCall) (answer : Wait (Result ProviderError (List Vector)))
      {vectors : List Vector}
      → check_answer call answer ≡ ok vectors
      → (length vectors ≡ length call.texts) × All (IsVector call.dimension) vectors
  unfolding check_answer validate_result
  check_answer-All call expired h = absurd (cc)
  check_answer-All call (finished (err e)) h = absurd (cc)
  check_answer-All call (finished (ok given)) {vectors} h =
      let (_, a, h₁) = >>=-eq-ok (validate_result given (length call.texts) call.dimension) _ h in
      let (_, b, h₂) =
        >>=-eq-ok (raise_if (not (length given == length call.texts)) provider_unavailable) _ a in
      let p = raise_if-eq-ok (not (length given == length call.texts)) provider_unavailable b in
      let same : given ≡ vectors = cc in
      subst (λ v. (length v ≡ length call.texts) × All (IsVector call.dimension) v) same
        (ground arith, validate_vectors-All given call.dimension h₂)

  -- The vectors that `embed` returns, whatever the provider answers, are as many as the texts, each of the
  -- dimension of the configured model and of finite numbers; and there was a text and no blank one.
  pub embed-IsVector :
      (provider : PreparedEmbeddingCall → Wait (Result ProviderError (List Vector)))
      (request : EmbeddingRequest) {vectors : List Vector}
      → embed provider request ≡ ok vectors
      → (alias : String) × (config : EmbeddingModelConfig) × (alias_or request.model_alias
            default_model_alias
          ≡ some alias)
        × (model_configs alias ≡ some config)
        × (length vectors ≡ length request.texts)
        × All (IsVector config.dimension) vectors
        × (any is_blank request.texts ≡ false)
  unfolding embed prepare_embedding_call
  embed-IsVector provider request {vectors} h =
      let (call, p, h₁) = >>=-eq-ok (prepare_embedding_call request) _ h in
      let (_, q, p₁) =
        >>=-eq-ok (raise_if (no_texts request.texts || any is_blank request.texts) invalid_request)
          _ p in
      let (alias, e, p₂) =
        >>=-eq-ok (or_raise (alias_or request.model_alias default_model_alias) invalid_model) _
          p₁ in
      let (config, f, p₃) = >>=-eq-ok (or_raise (model_configs alias) invalid_model) _ p₂ in
      let n =
        raise_if-eq-ok (no_texts request.texts || any is_blank request.texts) invalid_request q in
      let (size, each) = check_answer-All call (provider call) h₁ in
      let made : (record {
        model_alias = alias;
        dimension = config.dimension;
        provider_key = config.provider_key;
        texts = request.texts;
        provider_model = config.provider_model;
      })
          ≡ call =
        cc in
      (
        alias,
        config,
        or_raise-eq-ok _ _ e,
        or_raise-eq-ok _ _ f,
        size ∙ ap (λ c. length c.texts) (sym made),
        subst (λ d. All (IsVector d) vectors) (ap (λ c. c.dimension) (sym made)) each,
        ground arith,
      )
