-- ===== src/Knowledge/Indexing/Ingest.antt =====
-- backend/app/services/knowledge_service.py: `ingest_file_to_base`, from the upload of
-- backend/app/services/file_service.py to the indexing. `meanwhile` is what the other sessions commit before
-- and within the transactions that insert rows, and `refused` says which of these the database refuses.
use ai_knowledge_hub.Base.{ℕ, String, Bool, Option, none, some, List, Result, ok, err}
use ai_knowledge_hub.Knowledge.Chunking.{ChunkingConfig}
use ai_knowledge_hub.Knowledge.Error.{KnowledgeError}
use ai_knowledge_hub.Knowledge.Fingerprint.{EmbeddingProfile}
use ai_knowledge_hub.Knowledge.Tables.{
  KnowledgeBase, KnowledgeDocument, DocumentVersion, DocumentChunk, FileResource, Db,
}
use ai_knowledge_hub.Knowledge.Repository.{get_owned_base}
use ai_knowledge_hub.Knowledge.Ingestion.{
  ParsedDocument, PersistIds, add_file_to_base, prepare_document_version,
}
use ai_knowledge_hub.Knowledge.Indexing.{KnowledgeIndexingComponents, World}
use ai_knowledge_hub.Knowledge.Indexing.Run.{index_document_version}
use ai_knowledge_hub.Storage.{StorageProvider}
use ai_knowledge_hub.Storage.Service.{FileError, Fault, InspectedUpload, Files, upload}
use ai_knowledge_hub.Workflow.Payload.{Payload}

pub record KnowledgeIngestionResult : Type 0 where
  pub file_resource : FileResource
  pub document : KnowledgeDocument
  pub version : DocumentVersion
  pub chunks : List DocumentChunk

-- The two families of exceptions that an ingestion raises.
pub data IngestionError : Type 0 where
  upload_failed : FileError → IngestionError
  knowledge_failed : KnowledgeError → IngestionError

-- What is asked for: the base, the upload, and the new ids with the object key that is made of them.
pub record IngestionRequest (Content : Type 0) : Type 0 where
  pub owner_id : ℕ
  pub knowledge_base_id : String
  pub inspected : Result FileError InspectedUpload
  pub source : Content
  pub file_id : String
  pub object_key : String
  pub document_id : String
  pub persist_ids : PersistIds

-- What turns a file into the drafts and the fingerprint of a version.
pub record Preparation : Type 0 where
  pub parse : FileResource → Result KnowledgeError ParsedDocument
  pub split : String → List String
  pub count_tokens : String → ℕ
  pub config : ChunkingConfig
  pub dumps : Payload → Option String
  pub sha256 : String → String
  pub profile : EmbeddingProfile

abbrev pub indexed_or : Option DocumentVersion → DocumentVersion → DocumentVersion
indexed_or none version = version
indexed_or (some indexed) version = indexed

module _ {Number : Type 0} (components : KnowledgeIndexingComponents Number)
    (storage : StorageProvider) (storage_provider_name bucket : String) (chunk_size : ℕ)
    (preparation : Preparation) (others : ℕ → World components → World components)
    (fails : ℕ → Bool) (file_fails : ℕ → Fault) (meanwhile : ℕ → Db → Db) (refused : ℕ → Bool)
    (request : IngestionRequest storage.Content) where
  -- After `index_document_version`.
  abbrev pub ingested :
      FileResource
      → KnowledgeDocument
      → DocumentVersion
      → List DocumentChunk
      → World components × Result KnowledgeError (Option DocumentVersion)
      → World components × Result IngestionError KnowledgeIngestionResult
  ingested file document version chunks (w, err e) = (w, err (IngestionError.knowledge_failed e))
  ingested file document version chunks (w, ok indexed) = (
    w,
    ok (record {
      file_resource = file;
      document = document;
      version = indexed_or indexed version;
      chunks = chunks;
    }),
  )

  -- After `prepare_document_version`, with the vectors that it leaves alone.
  abbrev pub ingest_version :
      FileResource
      → KnowledgeDocument
      → World components
      → Db × Result KnowledgeError (DocumentVersion × List DocumentChunk)
      → World components × Result IngestionError KnowledgeIngestionResult
  unfolding index_document_version
  ingest_version file document w (db, err e) =
      (record w { db = db }, err (IngestionError.knowledge_failed e))
  ingest_version file document w (db, ok prepared) = ingested file document prepared.0 prepared.1 (
      index_document_version components others fails request.owner_id document.id prepared.0.id
        (record w { db = db }))

  -- After `add_file_to_base`.
  abbrev pub ingest_document :
      FileResource
      → World components
      → Db × Result KnowledgeError KnowledgeDocument
      → World components × Result IngestionError KnowledgeIngestionResult
  unfolding prepare_document_version ingest_version
  ingest_document file w (db, err e) =
      (record w { db = db }, err (IngestionError.knowledge_failed e))
  ingest_document file w (db, ok document) = ingest_version file document w (
      prepare_document_version preparation.parse preparation.split preparation.count_tokens
        preparation.config preparation.dumps preparation.sha256 request.owner_id document.id
        preparation.profile request.persist_ids (refused 1) (meanwhile 3) (meanwhile 2 db))

  -- After the upload, with the tables and the objects that it leaves.
  abbrev pub ingest_file :
      KnowledgeBase
      → World components
      → Files storage × Result FileError FileResource
      → (World components × storage.Store) × Result IngestionError KnowledgeIngestionResult
  unfolding add_file_to_base ingest_document
  ingest_file base w (files, err e) = (
    (record w { db = record w.db { files = files.rows } }, files.objects),
    err (IngestionError.upload_failed e),
  )
  ingest_file base w (files, ok file) =
      let stored = record w { db = record w.db { files = files.rows } } in
      let (after, result) = ingest_document file stored (
        add_file_to_base request.owner_id base.id file.id request.document_id (refused 0)
          (meanwhile 1) (meanwhile 0 stored.db)) in
      ((after, files.objects), result)

  unfoldable pub ingest_file_to_base :
      World components
      → storage.Store
      → (World components × storage.Store) × Result IngestionError KnowledgeIngestionResult
  unfolding get_owned_base upload ingest_file
  ingest_file_to_base w objects =
      elim (get_owned_base request.knowledge_base_id request.owner_id w.db) [
        | none ↦ ((w, objects), err (IngestionError.knowledge_failed KnowledgeError.base_not_found))
        | some base ↦ ingest_file base w (
            upload storage storage_provider_name bucket chunk_size file_fails request.owner_id
              request.file_id request.object_key request.inspected request.source
              (record { rows = w.db.files; objects = objects }))
      ]
