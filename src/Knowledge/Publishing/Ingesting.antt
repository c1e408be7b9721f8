-- ===== src/Knowledge/Publishing/Ingesting.antt =====
-- backend/app/services/knowledge_service.py: `ingest_file_to_base` as a sequence of the transactions.
use ai_knowledge_hub.Base.{
  ℕ, String, Bool, Option, List, Result, ok, err, Option-cases, Result-cases, inl, inr,
}
use ai_knowledge_hub.Knowledge.Error.{KnowledgeError}
use ai_knowledge_hub.Knowledge.Tables.{
  KnowledgeBase, KnowledgeDocument, DocumentVersion, DocumentChunk, FileResource, Db,
}
use ai_knowledge_hub.Knowledge.Repository.{get_owned_base}
use ai_knowledge_hub.Knowledge.Ingestion.{
  PersistIds, add_file_to_base, prepare_document_version, plan_version,
}
use ai_knowledge_hub.Knowledge.Indexing.{KnowledgeIndexingComponents, World}
use ai_knowledge_hub.Knowledge.Indexing.Run.{index_document_version}
use ai_knowledge_hub.Knowledge.Indexing.Ingest.{
  IngestionRequest, Preparation, ingested, ingest_version, ingest_document, ingest_file,
  ingest_file_to_base,
}
use ai_knowledge_hub.Knowledge.Publishing.System.{Reach}
use ai_knowledge_hub.Knowledge.Publishing.Runs.{index_document_version-Reach}
use ai_knowledge_hub.Storage.{StorageProvider}
use ai_knowledge_hub.Storage.Service.{FileError, Fault, Files, upload}

prepare_document_version-Reach :
    (p : Preparation) (owner_id : ℕ) (document_id : String) (ids : PersistIds) (fails : Bool)
    (others : Db → Db) (db : Db)
    → Reach db (others db)
    → Reach db
        (prepare_document_version p.parse p.split p.count_tokens p.config p.dumps p.sha256 owner_id
          document_id p.profile ids fails others db).0
unfolding prepare_document_version
prepare_document_version-Reach p owner_id document_id ids fails others db h =
    elim (Result-cases (
      plan_version p.parse p.split p.count_tokens p.config p.dumps p.sha256 owner_id document_id
        p.profile db)) [
          | inr (e, q) ↦ rw (prepare_document_version, q) Reach.begins
          | inl (plan, q) ↦
              rw (prepare_document_version, q)
                (Reach.persists owner_id document_id plan.0 plan.1 ids fails others Reach.begins h)
        ]

module _ {Number : Type 0} (components : KnowledgeIndexingComponents Number)
    (storage : StorageProvider) (storage_provider_name bucket : String) (chunk_size : ℕ)
    (preparation : Preparation) (others : ℕ → World components → World components)
    (fails : ℕ → Bool) (file_fails : ℕ → Fault) (meanwhile : ℕ → Db → Db) (refused : ℕ → Bool)
    (request : IngestionRequest storage.Content)
    (world_reach : (n : ℕ) (w : World components) → Reach w.db (others n w).db)
    (tables_reach : (n : ℕ) (db : Db) → Reach db (meanwhile n db)) where
  ingest_version-Reach :
      (file : FileResource) (document : KnowledgeDocument) (w : World components) (before : Db)
      (r : Db × Result KnowledgeError (DocumentVersion × List DocumentChunk))
      → Reach before r.0
      → Reach before
          (ingest_version components storage storage_provider_name bucket chunk_size preparation
            others fails file_fails meanwhile refused request file document w r).0.db
  unfolding index_document_version
  ingest_version-Reach file document w before (db, err e) h = h
  ingest_version-Reach file document w before (db, ok prepared) h =
      ingested-Reach
        (index_document_version components others fails request.owner_id document.id prepared.0.id
          (record w { db = db }))
        (Reach.then_reach h (
          index_document_version-Reach components others fails request.owner_id world_reach
            document.id prepared.0.id (record w { db = db })))
    where
      ingested-Reach :
          (s : World components × Result KnowledgeError (Option DocumentVersion))
          → Reach before s.0.db
          → Reach before
              (ingested components storage storage_provider_name bucket chunk_size preparation
                others fails file_fails meanwhile refused request file document prepared.0
                prepared.1 s).0.db
      ingested-Reach (v, err e) k = k
      ingested-Reach (v, ok indexed) k = k

  ingest_document-Reach :
      (file : FileResource) (w : World components) (before : Db)
      (r : Db × Result KnowledgeError KnowledgeDocument)
      → Reach before r.0
      → Reach before
          (ingest_document components storage storage_provider_name bucket chunk_size preparation
            others fails file_fails meanwhile refused request file w r).0.db
  unfolding prepare_document_version index_document_version
  ingest_document-Reach file w before (db, err e) h = h
  ingest_document-Reach file w before (db, ok document) h =
      ingest_version-Reach file document w before
        (prepare_document_version preparation.parse preparation.split preparation.count_tokens
          preparation.config preparation.dumps preparation.sha256 request.owner_id document.id
          preparation.profile request.persist_ids (refused 1) (meanwhile 3) (meanwhile 2 db))
        (Reach.then_reach h (
          Reach.then_reach (tables_reach 2 db) (
            prepare_document_version-Reach preparation request.owner_id document.id
              request.persist_ids (refused 1) (meanwhile 3) (meanwhile 2 db)
              (tables_reach 3 (meanwhile 2 db)))))

  ingest_file-Reach :
      (base : KnowledgeBase) (w : World components)
      (r : Files storage × Result FileError FileResource)
      → Reach w.db
          (ingest_file components storage storage_provider_name bucket chunk_size preparation others
            fails file_fails meanwhile refused request base w r).0.0.db
  unfolding add_file_to_base prepare_document_version index_document_version
  ingest_file-Reach base w (files, err e) = Reach.writes_files files.rows Reach.begins
  ingest_file-Reach base w (files, ok file) =
      let stored = record w.db { files = files.rows } in
      ingest_document-Reach file (record w { db = stored }) w.db
        (add_file_to_base request.owner_id base.id file.id request.document_id (refused 0)
          (meanwhile 1) (meanwhile 0 stored))
        (Reach.adds_file request.owner_id base.id file.id request.document_id (refused 0)
          (meanwhile 1)
          (Reach.then_reach (Reach.writes_files files.rows Reach.begins) (tables_reach 0 stored))
          (tables_reach 1 (meanwhile 0 stored)))

  -- Suppose that the other sessions change the tables only by transactions of the service. Then so does an
  -- ingestion of an uploaded file, up to the end of its indexing, whatever the storage, the parser, the
  -- embedding provider and the vector store answer and whichever commits are refused.
  pub ingest_file_to_base-Reach :
      (w : World components) (objects : storage.Store)
      → Reach w.db
          (ingest_file_to_base components storage storage_provider_name bucket chunk_size
            preparation others fails file_fails meanwhile refused request w objects).0.0.db
  unfolding ingest_file_to_base
  ingest_file_to_base-Reach w objects =
      elim (Option-cases (get_owned_base request.knowledge_base_id request.owner_id w.db)) [
        | inl q ↦ rw (ingest_file_to_base, q) Reach.begins
        | inr (base, q) ↦
            rw (ingest_file_to_base, q)
              (ingest_file-Reach base w (
                upload storage storage_provider_name bucket chunk_size file_fails request.owner_id
                  request.file_id request.object_key request.inspected request.source
                  (record { rows = w.db.files; objects = objects })))
      ]
