-- ===== src/Knowledge/Retrieval/Hits.antt =====
-- backend/app/services/knowledge_service.py: what `search_knowledge` returns.
use mathlib.Core.List.{reverse_aux}
use ai_knowledge_hub.Base.{
  or_raise-eq-ok, ℕ, suc, ◌+◌, ◌≤◌, ◌<◌, ◌≡◌, refl, subst, String, Bool, true, ◌&&◌, Option, none,
  some, List, [], ◌∷◌, map, reverse, filter_map, any, all, length, find_first, str_eq, eq_refl,
  arith, Option-cases, inl, inr, Result, ok, or_raise, raise_if, >>=-eq-ok, ok-injective,
}
use ai_knowledge_hub.Base.Table.{find-any, find-all, all-implied, find-test}
use ai_knowledge_hub.Ai.Provider.{ProviderError, AiError}
use ai_knowledge_hub.Ai.Gateway.{Wait}
use ai_knowledge_hub.Ai.Embedding.{EmbeddingModelConfig, PreparedEmbeddingCall}
use ai_knowledge_hub.Knowledge.Text.{strip, is_empty_text}
use ai_knowledge_hub.Knowledge.Error.{KnowledgeError, VectorError}
use ai_knowledge_hub.Knowledge.Files.{is_ready}
use ai_knowledge_hub.Knowledge.Tables.{
  VersionStatus, KnowledgeBase, KnowledgeDocument, DocumentChunk, Db, version_is,
}
use ai_knowledge_hub.Knowledge.Repository.{
  ActiveChunk, is_active, is_active_chunk_of, active_chunk, get_owned_base,
  list_active_chunks_by_ids,
}
use ai_knowledge_hub.Knowledge.Context.{RetrievalHit}
use ai_knowledge_hub.Knowledge.Retrieval.{
  is_limited, VectorSearchCandidate, chunk_by_id, hit_of, collect_hits, find_candidates,
  search_knowledge,
}

-- A document of the base whose file is ready, and whose active version is indexed and the chunk's.
abbrev pub is_document_of : Db → String → DocumentChunk → String → String → KnowledgeDocument → Bool
is_document_of db knowledge_base_id c document_id file_id d =
    str_eq d.id document_id
    && str_eq d.file_id file_id
    && str_eq d.knowledge_base_id knowledge_base_id
    && any
        (λ v.
          str_eq c.document_version_id v.id
          && (str_eq v.document_id d.id
              && (is_active d.active_version_id v.id && version_is v.status VersionStatus.indexed)))
        db.versions
    && any (λ f. str_eq d.file_id f.id && is_ready f) db.files

-- A row of the chunks is the hit's, and of such a document.
abbrev pub is_source : Db → String → DocumentChunk → RetrievalHit → Bool
is_source db knowledge_base_id c h =
    str_eq c.id h.chunk_id
    && str_eq c.content h.content
    && any (is_document_of db knowledge_base_id c h.document_id h.file_id) db.documents

abbrev pub is_served : Db → String → RetrievalHit → Bool
is_served db knowledge_base_id h = any (λ c. is_source db knowledge_base_id c h) db.chunks

-- Each value that a `filter_map` keeps has a row that it comes from.
filter_map-all :
    {A B : Type 0} (f : A → Option B) (from : A → B → Bool) (xs : List A)
    → ((x : A) (y : B) → f x ≡ some y → from x y ≡ true)
    → all (λ y. any (λ x. from x y) xs) (filter_map f xs) ≡ true
unfolding filter_map
filter_map-all f from [] h = refl
filter_map-all f from (x ∷ xs) h =
    let rest =
      all-implied (λ y. any (λ z. from z y) xs) (λ y. any (λ z. from z y) (x ∷ xs))
        (filter_map f xs) (λ y k. ground arith) (filter_map-all f from xs h) in
    elim (Option-cases (f x)) [
      | inl q ↦ rw q rest
      | inr (y, q) ↦ rw q (ground (arith, rest, h x y q))
    ]

all-reverse_aux :
    {A : Type 0} (p : A → Bool) (xs before : List A)
    → all p xs ≡ true
    → all p before ≡ true
    → all p (reverse_aux xs before) ≡ true
all-reverse_aux p [] before h k = k
all-reverse_aux p (x ∷ xs) before h k =
    all-reverse_aux p xs (x ∷ before) (ground arith) (ground arith)

all-reverse :
    {A : Type 0} (p : A → Bool) (xs : List A) → all p xs ≡ true → all p (reverse xs) ≡ true
unfolding reverse
all-reverse p xs h = all-reverse_aux p xs [] h refl

active_chunk-is_source :
    (db : Db) (knowledge_base_id : String) (ids : List String) (c : DocumentChunk) (a : ActiveChunk)
    → active_chunk db knowledge_base_id ids c ≡ some a
    → is_source db knowledge_base_id c (hit_of a) ≡ true
active_chunk-is_source db knowledge_base_id ids c a h =
    elim (Option-cases (find_first (is_active_chunk_of knowledge_base_id ids db c) db.documents)) [
      | inl q ↦ absurd (cc (rw (active_chunk, q) at h))
      | inr (d, q) ↦
          let test =
            (find-test (is_active_chunk_of knowledge_base_id ids db c) db.documents d q).0 in
          let served =
            find-any (is_active_chunk_of knowledge_base_id ids db c)
              (is_document_of db knowledge_base_id c d.id d.file_id) db.documents d q
              (ground (arith, test, eq_refl d.id, eq_refl d.file_id)) in
          subst
            (λ o. elim o [
              | none ↦ Unit
              | some x ↦ is_source db knowledge_base_id c (hit_of x) ≡ true
            ])
            (rw (active_chunk, q) at h) (ground (arith, served, eq_refl c.id, eq_refl c.content))
    ]

list_active_chunks_by_ids-is_served :
    (knowledge_base_id : String) (ids : List String) (db : Db)
    → all
        (λ c. is_served db knowledge_base_id (hit_of c))
        (list_active_chunks_by_ids knowledge_base_id ids db)
      ≡ true
unfolding list_active_chunks_by_ids
list_active_chunks_by_ids-is_served knowledge_base_id ids db =
    filter_map-all (active_chunk db knowledge_base_id ids)
      (λ c a. is_source db knowledge_base_id c (hit_of a)) db.chunks
      (active_chunk-is_source db knowledge_base_id ids)

module _ {Number : Type 0} (top_k : ℕ) (chunks : List ActiveChunk) where
  length-collect_hits :
      (taken : ℕ) (candidates : List (VectorSearchCandidate Number))
      → taken < top_k
      → taken + length (collect_hits top_k chunks taken candidates) ≤ top_k
  unfolding collect_hits
  length-collect_hits taken [] h = omega arith
  length-collect_hits taken (c ∷ candidates) h =
      elim (Option-cases (chunk_by_id chunks c.chunk_id)) [
        | inl q ↦ rw (collect_hits, q) (length-collect_hits taken candidates h)
        | inr (chunk, q) ↦
            rw (collect_hits, q) (ground (arith, length-collect_hits (suc taken) candidates))
      ]

  all-collect_hits :
      (p : RetrievalHit → Bool) (taken : ℕ) (candidates : List (VectorSearchCandidate Number))
      → all (λ c. p (hit_of c)) (reverse chunks) ≡ true
      → all (λ h. p h.0) (collect_hits top_k chunks taken candidates) ≡ true
  unfolding collect_hits
  all-collect_hits p taken [] h = refl
  all-collect_hits p taken (c ∷ candidates) h =
      elim (Option-cases (chunk_by_id chunks c.chunk_id)) [
        | inl q ↦ rw (collect_hits, q) (all-collect_hits p taken candidates h)
        | inr (chunk, q) ↦
            let here =
              find-all (λ (x : ActiveChunk). str_eq x.chunk_id c.chunk_id) (λ x. p (hit_of x))
                (reverse chunks) chunk q h in
            rw (collect_hits, q) (ground (arith, here, all-collect_hits p (suc taken) candidates h))
      ]

module _ {Number : Type 0} (is_finite : Number → Bool)
    (model_configs : String → Option EmbeddingModelConfig) (default_model_alias : Option String)
    (alias : String)
    (provider : PreparedEmbeddingCall → Wait (Result ProviderError (List (List Number))))
    (search : List Number
      → String
      → ℕ
      → Number
      → Result VectorError (List (VectorSearchCandidate Number)))
    (top_k candidate_multiplier : ℕ) (score_threshold : Number) where
  -- Whatever candidates the vector store gives, a search with limits that the components accept returns at most
  -- `top_k` hits, and each is a row of the chunks of the active, indexed version of a document of the base that
  -- the user owns, whose file is ready, in the tables at the last read.
  pub search_knowledge-is_served :
      (owner_id : ℕ) (knowledge_base_id query : String) (db later : Db)
      {hits : List (RetrievalHit × Number)}
      → is_limited top_k candidate_multiplier ≡ true
      → search_knowledge is_finite model_configs default_model_alias alias provider search top_k
          candidate_multiplier score_threshold owner_id knowledge_base_id query db later
        ≡ ok hits
      → (base : KnowledgeBase) × (get_owned_base knowledge_base_id owner_id db ≡ some base)
        × (length hits ≤ top_k)
        × (all (λ h. is_served later base.id h.0) hits ≡ true)
  unfolding search_knowledge
  search_knowledge-is_served owner_id knowledge_base_id query db later {hits} limited h =
      let (_, _, h₁) =
        >>=-eq-ok
          (raise_if (is_empty_text (strip query))
            (KnowledgeError.ai_failed AiError.invalid_request))
          _ h in
      let (base, found, h₂) =
        >>=-eq-ok
          (or_raise (get_owned_base knowledge_base_id owner_id db) KnowledgeError.base_not_found) _
          h₁ in
      let (candidates, _, h₃) =
        >>=-eq-ok
          (find_candidates is_finite model_configs default_model_alias alias provider search top_k
            candidate_multiplier score_threshold (strip query) base.id)
          _ h₂ in
      let chunks = list_active_chunks_by_ids base.id (map (λ c. c.chunk_id) candidates) later in
      let served =
        all-reverse (λ c. is_served later base.id (hit_of c)) chunks
          (list_active_chunks_by_ids-is_served base.id (map (λ c. c.chunk_id) candidates) later) in
      subst
        (λ hits.
          (b : KnowledgeBase) × (get_owned_base knowledge_base_id owner_id db ≡ some b)
          × (length hits ≤ top_k)
          × (all (λ h. is_served later b.id h.0) hits ≡ true))
        (ok-injective _ hits refl h₃)
        (
          base,
          or_raise-eq-ok _ _ found,
          omega (arith, length-collect_hits top_k chunks 0 candidates (ground arith)),
          all-collect_hits top_k chunks (is_served later base.id) 0 candidates served,
        )
