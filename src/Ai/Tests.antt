-- ===== src/Ai/Tests.antt =====
-- The theorems of the gateways at small providers.
use ai_knowledge_hub.Base.{
  ℕ, zero, suc, ◌≡◌, refl, String, true, false, none, some, List, [], ◌∷◌, Result, ok, err, leb,
  All, length, any, is_blank,
}
use ai_knowledge_hub.Ai.Provider.{
  ProviderError, rate_limit, unavailable, ChatResult, ChatEvent, delta, done, FinishReason,
  ChatRole,
}
use ai_knowledge_hub.Ai.Gateway.{
  Wait, finished, Calls, Streams, Ending, raises, stops, Generation, Streaming, generate, stream,
}
use ai_knowledge_hub.Ai.Gateway.Attempts.{Generates, generate-Generates}
use ai_knowledge_hub.Ai.Gateway.Emission.{Yields, stream-Yields}
use ai_knowledge_hub.Ai.Gateway.Preparing.{
  ChatRequest, AiModelConfig, Prepares, prepare_provider_call, prepare_provider_call-Prepares,
  estimate_input_tokens_conservatively,
}
use ai_knowledge_hub.Ai.Embedding.{
  IsVector, EmbeddingRequest, EmbeddingModelConfig, PreparedEmbeddingCall, embed, embed-IsVector,
  alias_or,
}

abbrev answer_of : ℕ → Wait (Result ProviderError ChatResult)
answer_of zero = finished (err rate_limit)
answer_of (suc n) = finished (
    ok (record {
      request_id = "q";
      content = "hello";
      finish_reason = FinishReason.stop;
      usage = none;
    }))

-- A provider that refuses once and then answers.
abbrev second_time : Calls
second_time = record { answer = answer_of; sleep = λ n. finished tt }

generate_example : (g : Generation) × (generate 2 second_time ≡ some g) × Generates 2 second_time g
generate_example = generate-Generates 2 second_time

abbrev events_of : ℕ → List ChatEvent
events_of zero = []
events_of (suc n) = delta "q" "hel" ∷ delta "q" "lo" ∷ done "q" FinishReason.stop ∷ []

abbrev ending_of : ℕ → Ending
ending_of zero = raises unavailable
ending_of (suc n) = stops

abbrev second_stream : Streams
second_stream = record { events = events_of; ending = ending_of; sleep = λ n. finished tt }

stream_example : (s : Streaming) × (stream 2 second_stream ≡ some s) × Yields 2 second_stream s
stream_example = stream-Yields 2 second_stream

abbrev model : AiModelConfig ℕ
model = record {
  provider_key = "deepseek";
  provider_model = "chat";
  default_temperature = 1;
  default_max_output_tokens = 100;
  max_output_tokens = 200;
  context_window_tokens = 1000;
}

abbrev chat_request : ChatRequest ℕ
chat_request = record {
  request_id = "q";
  messages = (record { role = ChatRole.user; content = "hello" }) ∷ [];
  model_alias = none;
  temperature = some 2;
  max_output_tokens = some 150;
}

prepare_provider_call_example :
    Prepares ℕ
      (λ t. leb t 2)
      (λ alias. some model)
      (some "default")
      estimate_input_tokens_conservatively
      chat_request
      (prepare_provider_call ℕ
        (λ t. leb t 2)
        (λ alias. some model)
        (some "default")
        estimate_input_tokens_conservatively
        chat_request)
prepare_provider_call_example =
    prepare_provider_call-Prepares ℕ (λ t. leb t 2) (λ alias. some model) (some "default")
      estimate_input_tokens_conservatively chat_request

abbrev embedding_model : EmbeddingModelConfig
embedding_model = record {
  provider_key = "local";
  provider_model = "embed";
  tokenizer_encoding = "cl100k_base";
  dimension = 2;
}

abbrev embedding_request : EmbeddingRequest
embedding_request = record { request_id = "q"; texts = "one" ∷ "two" ∷ []; model_alias = none }

abbrev vectors : List (List ℕ)
vectors = (1 ∷ 2 ∷ []) ∷ (3 ∷ 4 ∷ []) ∷ []

abbrev embedder : PreparedEmbeddingCall → Wait (Result ProviderError (List (List ℕ)))
embedder call = finished (ok vectors)

embedded :
    embed ℕ (λ n. true) (λ alias. some embedding_model) (some "default") embedder embedding_request
    ≡ ok vectors
unfolding embed is_blank
embedded = refl

embed_example :
    (alias : String) × (config : EmbeddingModelConfig) × (alias_or none (some "default")
      ≡ some alias)
    × (some embedding_model ≡ some config)
    × (length vectors ≡ 2)
    × All
        (IsVector ℕ (λ n. true) (λ a. some embedding_model) (some "default") config.dimension)
        vectors
    × (any is_blank embedding_request.texts ≡ false)
embed_example =
    embed-IsVector ℕ (λ n. true) (λ alias. some embedding_model) (some "default") embedder
      embedding_request embedded
