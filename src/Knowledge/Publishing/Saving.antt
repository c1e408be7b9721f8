-- ===== src/Knowledge/Publishing/Saving.antt =====
-- backend/app/services/knowledge_service.py: what `persist_chunks` promises.
use ai_knowledge_hub.Base.{
  ℕ, ◌≡◌, ◌⊎◌, String, true, false, ◌&&◌, List, any, Result, err, ok, str_eq,
}
use ai_knowledge_hub.Knowledge.Chunking.{ChunkDraft}
use ai_knowledge_hub.Knowledge.Error.{KnowledgeError}
use ai_knowledge_hub.Knowledge.Ingestion.{Processing, PersistIds, no_drafts}
use ai_knowledge_hub.Knowledge.Repository.{is_available}
use ai_knowledge_hub.Knowledge.Tables.{DocumentVersion, DocumentChunk, Db}
use ai_knowledge_hub.Knowledge.Publishing.Rows.{IsSaved}

-- The answer of a call: a version of the document with the fingerprint and its chunks, as the tables have
-- them afterwards, when the document was available to the user and there are drafts; or an error and no
-- change of the session's own.
abbrev pub Persists :
    ℕ
    → String
    → List ChunkDraft
    → Processing
    → (Db → Db)
    → Db
    → Db × Result KnowledgeError (DocumentVersion × List DocumentChunk)
    → Type 0
Persists owner_id document_id drafts p others db (after, ok prepared) =
    (any (λ d. str_eq d.id document_id && is_available owner_id db d) db.documents ≡ true)
    × (no_drafts drafts ≡ false)
    × IsSaved document_id p.processing_fingerprint after prepared
Persists owner_id document_id drafts p others db (after, err e) = (after ≡ db) ⊎ (after ≡ others db)

module _ (owner_id : ℕ) (document_id : String) (drafts : List ChunkDraft) (p : Processing)
    (ids : PersistIds) (others : Db → Db) (db : Db) where
  -- What is known before the insertion.
  abbrev Ready : Type 0
  Ready =
      (any (λ d. str_eq d.id document_id && is_available owner_id db d) db.documents ≡ true)
      × (no_drafts drafts ≡ false)

  abbrev Outcome : Db × Result KnowledgeError (DocumentVersion × List DocumentChunk) → Type 0
  Outcome = Persists owner_id document_id drafts p others db
