-- ===== src/Knowledge/Indexing.antt =====
-- backend/app/services/knowledge_service.py: how a version is indexed. Every transaction and every call of
-- the vector store is one change of the world of tables and vectors; `others n` is what other sessions do
-- to it before the n-th of them, and `fails n` says whether the database refuses the transaction.
pub mod Run
pub mod Batches
pub mod Rows
pub mod Points
pub mod Embedded
pub mod Settling
pub mod Ingest
pub mod Tests
use ai_knowledge_hub.Base.{
  ℕ, zero, suc, String, Bool, true, false, not, ◌&&◌, ◌||◌, Option, none, some, List, [], ◌∷◌, ◌++◌,
  map, length, leb, str_eq, ◌==◌, Result, ok, err, raise_if, or_raise, ◌>>=◌, ◌>>◌, if◌then◌else◌,
}
use ai_knowledge_hub.Ai.Provider.{ProviderError, AiError}
use ai_knowledge_hub.Ai.Gateway.{Wait}
use ai_knowledge_hub.Ai.Embedding.{
  EmbeddingRequest, EmbeddingModelConfig, PreparedEmbeddingCall, embed,
}
use ai_knowledge_hub.Knowledge.Error.{KnowledgeError, VectorError}
use ai_knowledge_hub.Knowledge.Tables.{
  VersionStatus, KnowledgeDocument, DocumentVersion, DocumentChunk, Db,
}
use ai_knowledge_hub.Knowledge.Repository.{
  get_owned_document, complete_processing_version, fail_processing_version, promote_active_version,
  list_chunks,
}
use ai_knowledge_hub.Knowledge.Repository
use ai_knowledge_hub.Knowledge.Vectors.{
  VectorPoint, VectorStore, batches, cleanup_failed_vector_write, upsert_vector_points,
}

-- The transaction of `claim_pending_version`.
unfoldable pub claim_pending_version :
    ℕ → String → String → Bool → Db → Db × Result KnowledgeError (Option DocumentVersion)
unfolding get_owned_document
claim_pending_version owner_id document_id version_id fails db =
    elim (get_owned_document document_id owner_id db) [
      | none ↦ (db, err KnowledgeError.document_not_found)
      | some document ↦
          if fails
          then (db, err KnowledgeError.version_write)
          else (let (after, claimed) = Repository.claim_pending_version document.id version_id db in
              (after, ok claimed))
    ]

-- The transaction of `complete_version_indexing` once the document is found.
abbrev pub completed :
    String → Db → Db × Option DocumentVersion → Db × Result KnowledgeError (Option DocumentVersion)
completed document_id db (after, none) = (db, ok none)
completed document_id db (after, some version) = (
  (promote_active_version document_id version.id version.version_number after).0,
  ok (some version),
)

unfoldable pub complete_version_indexing :
    ℕ → String → String → Bool → Db → Db × Result KnowledgeError (Option DocumentVersion)
unfolding get_owned_document complete_processing_version promote_active_version
complete_version_indexing owner_id document_id version_id fails db =
    elim (get_owned_document document_id owner_id db) [
      | none ↦ (db, err KnowledgeError.document_not_found)
      | some document ↦
          if fails
          then (db, err KnowledgeError.version_write)
          else completed document.id db (complete_processing_version document.id version_id db)
    ]

abbrev pub failure_status : Bool → VersionStatus
failure_status true = VersionStatus.cleanup_required
failure_status false = VersionStatus.failed

-- `mark_version_indexing_failed(cleanup_required, failure_reason)`
unfoldable pub mark_version_indexing_failed :
    ℕ
    → String
    → String
    → Bool
    → String
    → Bool
    → Db
    → Db × Result KnowledgeError (Option DocumentVersion)
unfolding get_owned_document fail_processing_version
mark_version_indexing_failed owner_id document_id version_id cleanup_required failure_reason fails
      db =
    elim (get_owned_document document_id owner_id db) [
      | none ↦ (db, err KnowledgeError.document_not_found)
      | some document ↦
          if fails
          then (db, err KnowledgeError.version_write)
          else elim (fail_processing_version document.id version_id
              (failure_status cleanup_required) failure_reason db) [
                | none ↦ (db, err KnowledgeError.version_write)
                | some after ↦ (after.0, ok after.1)
              ]
    ]

module _ (Number : Type 0) where
  pub record ChunkVector : Type 0 where
    pub chunk_id : String
    pub vector : List Number

module _ {Number : Type 0} where
  -- `zip(batch, vectors, strict=True)`
  unfoldable pub zip_vectors :
      List DocumentChunk → List (List Number) → Result KnowledgeError (List (ChunkVector Number))
  zip_vectors [] [] = ok []
  zip_vectors [] (v ∷ vectors) = err KnowledgeError.value_error
  zip_vectors (c ∷ chunks) [] = err KnowledgeError.value_error
  zip_vectors (c ∷ chunks) (v ∷ vectors) = do
    rest ← zip_vectors chunks vectors
    ok (record { chunk_id = c.id; vector = v } ∷ rest)

  -- The loop of `build_vector_points`.
  unfoldable pub points_of :
      KnowledgeDocument
      → DocumentVersion
      → List DocumentChunk
      → List (ChunkVector Number)
      → Result KnowledgeError (List (VectorPoint (List Number)))
  points_of document version [] [] = ok []
  points_of document version [] (v ∷ vectors) = err KnowledgeError.value_error
  points_of document version (c ∷ chunks) [] = err KnowledgeError.value_error
  points_of document version (c ∷ chunks) (v ∷ vectors) = do
    raise_if (not (str_eq c.document_version_id version.id))
        (KnowledgeError.vector_failed VectorError.input)
    raise_if (not (str_eq v.chunk_id c.id)) (KnowledgeError.vector_failed VectorError.input)
    rest ← points_of document version chunks vectors
    ok (
        record {
          chunk_id = c.id;
          vector = v.vector;
          knowledge_base_id = document.knowledge_base_id;
          document_version_id = version.id;
        }
        ∷ rest)

  unfoldable pub build_vector_points :
      KnowledgeDocument
      → DocumentVersion
      → List DocumentChunk
      → List (ChunkVector Number)
      → Result KnowledgeError (List (VectorPoint (List Number)))
  unfolding points_of
  build_vector_points document version chunks vectors = do
    raise_if (not (str_eq version.document_id document.id))
        (KnowledgeError.vector_failed VectorError.input)
    raise_if (not (length chunks == length vectors))
        (KnowledgeError.vector_failed VectorError.input)
    points_of document version chunks vectors

-- `batch_chunks_for_embedding`
unfoldable pub batch_chunks_for_embedding :
    ℕ → List DocumentChunk → Result KnowledgeError (List (List DocumentChunk))
unfolding batches
batch_chunks_for_embedding batch_size chunks = do
  raise_if (leb batch_size 0) KnowledgeError.version_write
  ok (batches batch_size chunks)

abbrev pub lift_ai {ℓ} : {A : Type ℓ} → Result AiError A → Result KnowledgeError A
lift_ai (err e) = err (KnowledgeError.ai_failed e)
lift_ai (ok a) = ok a

-- `KnowledgeIndexingComponents`, as far as a run needs them: the settings, what the embedding provider answers
-- to its n-th call, and the vector store.
pub record KnowledgeIndexingComponents (Number : Type 0) : Type 1 where
  pub is_finite : Number → Bool
  pub model_configs : String → Option EmbeddingModelConfig
  pub default_model_alias : Option String
  pub alias : String
  pub embedding_batch_size : ℕ
  pub vector_upsert_batch_size : ℕ
  pub provider : ℕ → PreparedEmbeddingCall → Wait (Result ProviderError (List (List Number)))
  pub vector_store : VectorStore (List Number)

module _ {Number : Type 0} (components : KnowledgeIndexingComponents Number) where
  open components use {
    is_finite, model_configs, default_model_alias, alias, embedding_batch_size,
    vector_upsert_batch_size, provider, vector_store,
  }
  open components.vector_store use {Store}

  -- One turn of the loop of `embed_chunk_batches`.
  unfoldable pub embed_batch :
      ℕ → List DocumentChunk → Result KnowledgeError (List (ChunkVector Number))
  unfolding embed zip_vectors
  embed_batch n batch = do
    vectors ← lift_ai (
        embed Number is_finite model_configs default_model_alias (provider n) (record {
          request_id = "request";
          texts = map (λ c. c.content) batch;
          model_alias = some alias;
        }))
    zip_vectors batch vectors

  unfoldable pub embed_each :
      ℕ → List (List DocumentChunk) → Result KnowledgeError (List (ChunkVector Number))
  unfolding embed_batch
  embed_each n [] = ok []
  embed_each n (batch ∷ batches) = do
    first ← embed_batch n batch
    rest ← embed_each (suc n) batches
    ok (first ++ rest)

  unfoldable pub embed_chunk_batches :
      List DocumentChunk → Result KnowledgeError (List (ChunkVector Number))
  unfolding embed_each batch_chunks_for_embedding
  embed_chunk_batches chunks = do
    batched ← batch_chunks_for_embedding embedding_batch_size chunks
    embed_each 0 batched

  pub record World : Type 0 where
    pub db : Db
    pub vectors : Store

  abbrev pub with_db {ℓ} : {A : Type ℓ} → World → Db × A → World × A
  with_db w (db, a) = (record w { db = db }, a)

  -- The body of the `try` before the completion: the points, and their writing.
  unfoldable pub write_vectors :
      KnowledgeDocument
      → DocumentVersion
      → List DocumentChunk
      → Store
      → Store × Result KnowledgeError (Unit {0})
  unfolding embed_chunk_batches build_vector_points upsert_vector_points
  write_vectors document version chunks s =
      elim (embed_chunk_batches chunks >>= λ vectors.
      build_vector_points document version chunks vectors) [
        | err e ↦ (s, err e)
        | ok points ↦ upsert_vector_points vector_store vector_upsert_batch_size version.id points s
      ]

  module _ (others : ℕ → World → World) (fails : ℕ → Bool) (owner_id : ℕ) where
    abbrev pub mark :
        String
        → String
        → Bool
        → String
        → World
        → World × Result KnowledgeError (Option DocumentVersion)
    unfolding mark_version_indexing_failed
    mark document_id version_id cleanup_required reason w =
        let later = others 3 w in
        with_db later (
          mark_version_indexing_failed owner_id document_id version_id cleanup_required reason
            (fails 2) later.db)

    -- The handler of a `KnowledgeVersionWriteError` once the vectors are written.
    abbrev pub clear_and_mark :
        String → String → World → World × Result KnowledgeError (Option DocumentVersion)
    unfolding cleanup_failed_vector_write mark
    clear_and_mark document_id version_id w =
        let (cleared, result) = cleanup_failed_vector_write vector_store version_id w.vectors in
        elim result [
          | err e ↦
              mark document_id version_id true "vector_cleanup_failed"
                (record w { vectors = cleared })
          | ok _ ↦
              mark document_id version_id false "index_state_write_failed"
                (record w { vectors = cleared })
        ]

    -- The handlers of `index_document_version`, by the error and whether the vectors are written.
    unfoldable pub handle :
        String
        → String
        → Bool
        → KnowledgeError
        → World
        → World × Result KnowledgeError (Option DocumentVersion)
    unfolding mark clear_and_mark
    handle document_id version_id written KnowledgeError.vector_cleanup_required w =
        mark document_id version_id true "vector_cleanup_failed" w
    handle document_id version_id written (KnowledgeError.ai_failed e) w =
        mark document_id version_id false "embedding_failed" w
    handle document_id version_id written (KnowledgeError.vector_failed e) w =
        mark document_id version_id false "vector_store_failed" w
    handle document_id version_id true KnowledgeError.version_write w =
        clear_and_mark document_id version_id w
    handle document_id version_id false KnowledgeError.version_write w =
        mark document_id version_id false "index_state_write_failed" w
    handle document_id version_id written e w = (w, err e)
