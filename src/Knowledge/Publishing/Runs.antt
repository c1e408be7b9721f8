-- ===== src/Knowledge/Publishing/Runs.antt =====
-- backend/app/services/knowledge_service.py: `index_document_version` as a sequence of the transactions.
use ai_knowledge_hub.Base.{
  ℕ, String, Bool, true, false, Option, none, some, Result, ok, err, Option-cases, Bool-cases, inl,
  inr, Result-cases,
}
use ai_knowledge_hub.Knowledge.Error.{KnowledgeError}
use ai_knowledge_hub.Knowledge.Tables.{KnowledgeDocument, DocumentVersion}
use ai_knowledge_hub.Knowledge.Repository.{get_owned_document, list_chunks}
use ai_knowledge_hub.Knowledge.Vectors.{cleanup_failed_vector_write}
use ai_knowledge_hub.Knowledge.Indexing.{
  KnowledgeIndexingComponents, mark_version_indexing_failed, complete_version_indexing, World, mark,
  clear_and_mark, handle,
}
use ai_knowledge_hub.Knowledge.Indexing.Run.{
  after_completion, after_writing, index_claimed, after_claim, index_document_version, no_chunks,
  written_vectors, complete, claim,
}
use ai_knowledge_hub.Knowledge.Publishing.System.{Reach}

module _ {Number : Type 0} (components : KnowledgeIndexingComponents Number) where
  open components use {vector_store}

  abbrev State : Type 0
  State = World components

  module _ (others : ℕ → State → State) (fails : ℕ → Bool) (owner_id : ℕ)
      (meanwhile : (n : ℕ) (w : State) → Reach w.db (others n w).db) where
    mark-Reach :
        (d a : String) (b : Bool) (reason : String) (w : State)
        → Reach w.db (mark components others fails owner_id d a b reason w).0.db
    unfolding mark_version_indexing_failed
    mark-Reach d a b reason w = Reach.marks owner_id d a b reason (fails 2) (meanwhile 3 w)

    abbrev cleared_state : String → State → State
    cleared_state a w = record w {
      vectors = (cleanup_failed_vector_write vector_store a w.vectors).0;
    }

    handle-Reach :
        (d a : String) (written : Bool) (e : KnowledgeError) (w : State)
        → Reach w.db (handle components others fails owner_id d a written e w).0.db
    unfolding handle cleanup_failed_vector_write
    handle-Reach d a written KnowledgeError.vector_cleanup_required w =
        mark-Reach d a true "vector_cleanup_failed" w
    handle-Reach d a written (KnowledgeError.ai_failed e) w =
        mark-Reach d a false "embedding_failed" w
    handle-Reach d a written (KnowledgeError.vector_failed e) w =
        mark-Reach d a false "vector_store_failed" w
    handle-Reach d a true KnowledgeError.version_write w =
        elim (Result-cases (cleanup_failed_vector_write vector_store a w.vectors).1) [
          | inl (u, q) ↦
              rw (clear_and_mark, q)
                (mark-Reach d a false "index_state_write_failed" (cleared_state a w))
          | inr (e, q) ↦
              rw (clear_and_mark, q)
                (mark-Reach d a true "vector_cleanup_failed" (cleared_state a w))
        ]
    handle-Reach d a false KnowledgeError.version_write w =
        mark-Reach d a false "index_state_write_failed" w
    handle-Reach d a written e w = Reach.begins

    after_completion-Reach :
        (d a : String) (before : State) (r : State × Result KnowledgeError (Option DocumentVersion))
        → Reach before.db r.0.db
        → Reach before.db (after_completion components others fails owner_id d a r).0.db
    unfolding handle
    after_completion-Reach d a before (w, err e) h = Reach.then_reach h (handle-Reach d a true e w)
    after_completion-Reach d a before (w, ok none) h =
        Reach.then_reach h (handle-Reach d a true KnowledgeError.version_write w)
    after_completion-Reach d a before (w, ok (some version)) h = h

    after_writing-Reach :
        (d a : String) (w : State) (r : vector_store.Store × Result KnowledgeError (Unit {0}))
        → Reach w.db (after_writing components others fails owner_id d a w r).0.db
    unfolding complete_version_indexing handle
    after_writing-Reach d a w (stored, err e) =
        handle-Reach d a false e (record w { vectors = stored })
    after_writing-Reach d a w (stored, ok u) =
        after_completion-Reach d a w
          (complete components others fails owner_id d a (others 2 (record w { vectors = stored })))
          (Reach.completes owner_id d a (fails 1) (meanwhile 2 (record w { vectors = stored })))

    index_claimed-Reach :
        (document : KnowledgeDocument) (version : DocumentVersion) (w : State)
        → Reach w.db (index_claimed components others fails owner_id document version w).0.db
    unfolding index_claimed
    index_claimed-Reach document version w =
        elim (Bool-cases (no_chunks (list_chunks version.id w.db))) [
          | inl b ↦
              rw (index_claimed, b) (mark-Reach document.id version.id false "missing_chunks" w)
          | inr b ↦
              rw (index_claimed, b)
                (after_writing-Reach document.id version.id w (
                  written_vectors components others fails owner_id document version
                    (list_chunks version.id w.db) w))
        ]

    after_claim-Reach :
        (before : State) (document : KnowledgeDocument)
        (r : State × Result KnowledgeError (Option DocumentVersion))
        → Reach before.db r.0.db
        → Reach before.db (after_claim components others fails owner_id document r).0.db
    unfolding index_claimed
    after_claim-Reach before document (w, err e) h = h
    after_claim-Reach before document (w, ok none) h = h
    after_claim-Reach before document (w, ok (some version)) h =
        Reach.then_reach h
          (Reach.then_reach (meanwhile 1 w) (index_claimed-Reach document version (others 1 w)))

    -- Suppose that the other sessions change the tables only by transactions of the service. Then so does a run
    -- of the indexing, whatever the embedding provider and the vector store answer.
    pub index_document_version-Reach :
        (document_id version_id : String) (w : State)
        → Reach w.db
            (index_document_version components others fails owner_id document_id version_id w).0.db
    unfolding index_document_version
    index_document_version-Reach document_id version_id w =
        elim (Option-cases (get_owned_document document_id owner_id w.db)) [
          | inl q ↦ rw (index_document_version, q) Reach.begins
          | inr (document, q) ↦
              rw (index_document_version, q)
                (after_claim-Reach w document
                  (claim components others fails owner_id document.id version_id (others 0 w))
                  (Reach.claims owner_id document.id version_id (fails 0) (meanwhile 0 w)))
        ]
