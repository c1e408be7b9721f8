-- ===== src/Knowledge/Retrieval.antt =====
-- backend/app/services/knowledge_service.py, `search_knowledge`, and backend/app/knowledge/retrieval.py: the
-- candidates of the vector store, filtered by the tables. The other sessions may change the tables while the
-- query is embedded and searched. A score is kept beside its hit.
pub mod Hits
use ai_knowledge_hub.Base.{
  ℕ, suc, ◌*◌, String, Bool, true, false, not, ◌||◌, ◌&&◌, Option, none, some, List, [], ◌∷◌, ◌++◌,
  map, reverse, find_first, leb, ◌==◌, str_eq, is_blank, Result, ok, err, or_raise, raise_if, ◌>>=◌,
  ◌>>◌, if◌then◌else◌,
}
use ai_knowledge_hub.Ai.Provider.{ProviderError, AiError}
use ai_knowledge_hub.Ai.Gateway.{Wait}
use ai_knowledge_hub.Ai.Embedding.{
  EmbeddingRequest, EmbeddingModelConfig, PreparedEmbeddingCall, embed,
}
use ai_knowledge_hub.Knowledge.Text.{strip, is_empty_text}
use ai_knowledge_hub.Knowledge.Error.{KnowledgeError, VectorError}
use ai_knowledge_hub.Knowledge.Tables.{KnowledgeBase, Db}
use ai_knowledge_hub.Knowledge.Repository.{ActiveChunk, get_owned_base, list_active_chunks_by_ids}
use ai_knowledge_hub.Knowledge.Context.{RetrievalHit}
use ai_knowledge_hub.Knowledge.Indexing.{lift_ai}

pub record VectorSearchCandidate (Number : Type 0) : Type 0 where
  pub chunk_id : String
  pub score : Number

-- `{chunk.chunk_id: chunk for chunk in chunks}.get(id)`: the last chunk of an id.
abbrev pub chunk_by_id : List ActiveChunk → String → Option ActiveChunk
chunk_by_id chunks id = find_first (λ (c : ActiveChunk). str_eq c.chunk_id id) (reverse chunks)

abbrev pub hit_of : ActiveChunk → RetrievalHit
hit_of c = record {
  chunk_id = c.chunk_id;
  document_id = c.document_id;
  file_id = c.file_id;
  content = c.content;
  source_locator = c.source_locator;
}

-- What the vector store's errors become.
abbrev search_error {ℓ} : {A : Type ℓ} → Result VectorError A → Result KnowledgeError A
search_error (ok a) = ok a
search_error (err VectorError.unavailable) = err KnowledgeError.retrieval_unavailable
search_error (err _) = err KnowledgeError.retrieval_failed

-- Whether `KnowledgeRetrievalComponents.__post_init__` passes on the limits.
abbrev pub is_limited : ℕ → ℕ → Bool
is_limited top_k candidate_multiplier = not (leb top_k 0 || leb candidate_multiplier 0)

module _ {Number : Type 0} where
  -- The loop over the candidates, with the number of the hits so far; a `break` at `top_k` of them.
  unfoldable pub collect_hits :
      ℕ → List ActiveChunk → ℕ → List (VectorSearchCandidate Number) → List (RetrievalHit × Number)
  collect_hits top_k chunks taken [] = []
  collect_hits top_k chunks taken (c ∷ candidates) = elim (chunk_by_id chunks c.chunk_id) [
    | none ↦ collect_hits top_k chunks taken candidates
    | some chunk ↦
        let rest = collect_hits top_k chunks (suc taken) candidates in
        (hit_of chunk, c.score) ∷ (if suc taken == top_k then [] else rest)
  ]

  abbrev first_vector : List (List Number) → Result KnowledgeError (List Number)
  first_vector [] = err KnowledgeError.value_error
  first_vector (v ∷ vectors) = ok v

  module _ (is_finite : Number → Bool) (model_configs : String → Option EmbeddingModelConfig)
      (default_model_alias : Option String) (alias : String)
      (provider : PreparedEmbeddingCall → Wait (Result ProviderError (List (List Number))))
      (search : List Number
        → String
        → ℕ
        → Number
        → Result VectorError (List (VectorSearchCandidate Number)))
      (top_k candidate_multiplier : ℕ) (score_threshold : Number) where
    -- The embedding of the query, and the candidates of its vector.
    unfoldable pub find_candidates :
        String → String → Result KnowledgeError (List (VectorSearchCandidate Number))
    unfolding embed
    find_candidates normalized_query knowledge_base_id = do
      vectors ← lift_ai (
          embed Number is_finite model_configs default_model_alias provider (record {
            request_id = "request";
            texts = normalized_query ∷ [];
            model_alias = some alias;
          }))
      query_vector ← first_vector vectors
      search_error
          (search query_vector knowledge_base_id (top_k * candidate_multiplier) score_threshold)

    -- `search_knowledge`, for the tables at its first read and those at its last one.
    unfoldable pub search_knowledge :
        ℕ → String → String → Db → Db → Result KnowledgeError (List (RetrievalHit × Number))
    unfolding strip get_owned_base list_active_chunks_by_ids find_candidates collect_hits
    search_knowledge owner_id knowledge_base_id query db later = do
      raise_if (is_empty_text (strip query)) (KnowledgeError.ai_failed AiError.invalid_request)
      base ← or_raise (get_owned_base knowledge_base_id owner_id db) KnowledgeError.base_not_found
      candidates ← find_candidates (strip query) base.id
      ok (
          collect_hits top_k
            (list_active_chunks_by_ids base.id (map (λ c. c.chunk_id) candidates) later) 0
            candidates)
