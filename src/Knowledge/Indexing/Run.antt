-- ===== src/Knowledge/Indexing/Run.antt =====
-- backend/app/services/knowledge_service.py: `index_document_version` and `retry_document_version`, put
-- together of the parts of their parent.
use ai_knowledge_hub.Base.{
  ℕ, String, Bool, true, false, not, Option, none, some, List, [], ◌∷◌, str_eq, Result, ok, err,
  or_raise, if◌then◌else◌,
}
use ai_knowledge_hub.Knowledge.Error.{KnowledgeError}
use ai_knowledge_hub.Knowledge.Tables.{
  VersionStatus, KnowledgeDocument, DocumentVersion, DocumentChunk, version_is,
}
use ai_knowledge_hub.Knowledge.Repository.{
  get_owned_document, get_version_for_document, list_chunks, count_chunks, requeue_failed_version,
}
use ai_knowledge_hub.Knowledge.Vectors.{cleanup_failed_vector_write}
use ai_knowledge_hub.Knowledge.Indexing.{
  KnowledgeIndexingComponents, claim_pending_version, complete_version_indexing, World, with_db,
  write_vectors, mark, handle,
}

abbrev pub no_chunks : List DocumentChunk → Bool
no_chunks [] = true
no_chunks (_ ∷ _) = false

module _ {Number : Type 0} (components : KnowledgeIndexingComponents Number) where
  open components use {vector_store}

  abbrev pub State : Type 0
  State = World components

  module _ (others : ℕ → State → State) (fails : ℕ → Bool) (owner_id : ℕ) where
    abbrev pub mark_failed :
        String
        → String
        → Bool
        → String
        → State
        → State × Result KnowledgeError (Option DocumentVersion)
    mark_failed = mark components others fails owner_id

    abbrev pub handle_error :
        String
        → String
        → Bool
        → KnowledgeError
        → State
        → State × Result KnowledgeError (Option DocumentVersion)
    unfolding handle
    handle_error = handle components others fails owner_id

    abbrev pub written_vectors :
        KnowledgeDocument
        → DocumentVersion
        → List DocumentChunk
        → State
        → vector_store.Store × Result KnowledgeError (Unit {0})
    unfolding write_vectors
    written_vectors document version chunks w =
        write_vectors components document version chunks w.vectors

    abbrev pub complete :
        String → String → State → State × Result KnowledgeError (Option DocumentVersion)
    unfolding complete_version_indexing
    complete document_id version_id w =
        with_db components w
          (complete_version_indexing owner_id document_id version_id (fails 1) w.db)

    -- After the attempt to complete: the row, or the handler of the error.
    abbrev pub after_completion :
        String
        → String
        → State × Result KnowledgeError (Option DocumentVersion)
        → State × Result KnowledgeError (Option DocumentVersion)
    unfolding handle_error
    after_completion document_id version_id (w, err e) =
        handle_error document_id version_id true e w
    after_completion document_id version_id (w, ok none) =
        handle_error document_id version_id true KnowledgeError.version_write w
    after_completion document_id version_id (w, ok (some version)) = (w, ok (some version))

    -- After the attempt to write the vectors.
    abbrev pub after_writing :
        String
        → String
        → State
        → vector_store.Store × Result KnowledgeError (Unit {0})
        → State × Result KnowledgeError (Option DocumentVersion)
    unfolding handle_error complete after_completion
    after_writing document_id version_id w (stored, err e) =
        handle_error document_id version_id false e (record w { vectors = stored })
    after_writing document_id version_id w (stored, ok _) =
        after_completion document_id version_id
          (complete document_id version_id (others 2 (record w { vectors = stored })))

    -- What `index_document_version` does once the version is claimed.
    unfoldable pub index_claimed :
        KnowledgeDocument
        → DocumentVersion
        → State
        → State × Result KnowledgeError (Option DocumentVersion)
    unfolding mark_failed after_writing written_vectors list_chunks
    index_claimed document version w =
        let chunks = list_chunks version.id w.db in
        if no_chunks chunks
        then mark_failed document.id version.id false "missing_chunks" w
        else after_writing document.id version.id w (written_vectors document version chunks w)

    -- After the claim, whose answer came with the world that it left.
    abbrev pub after_claim :
        KnowledgeDocument
        → State × Result KnowledgeError (Option DocumentVersion)
        → State × Result KnowledgeError (Option DocumentVersion)
    unfolding index_claimed
    after_claim document (w, err e) = (w, err e)
    after_claim document (w, ok none) = (w, ok none)
    after_claim document (w, ok (some version)) = index_claimed document version (others 1 w)

    abbrev pub claim :
        String → String → State → State × Result KnowledgeError (Option DocumentVersion)
    unfolding claim_pending_version
    claim document_id version_id w =
        with_db components w (claim_pending_version owner_id document_id version_id (fails 0) w.db)

    unfoldable pub index_document_version :
        String → String → State → State × Result KnowledgeError (Option DocumentVersion)
    unfolding get_owned_document after_claim claim
    index_document_version document_id version_id w =
        elim (get_owned_document document_id owner_id w.db) [
          | none ↦ (w, err KnowledgeError.document_not_found)
          | some document ↦ after_claim document (claim document.id version_id (others 0 w))
        ]

    -- `_get_document_version_or_raise`
    unfoldable pub get_document_version_or_raise :
        String → String → State → Result KnowledgeError DocumentVersion
    unfolding get_version_for_document
    get_document_version_or_raise document_id version_id w =
        or_raise (get_version_for_document document_id version_id w.db)
          KnowledgeError.version_not_found

    abbrev pub read_again : String → String → State → State × Result KnowledgeError DocumentVersion
    unfolding get_document_version_or_raise
    read_again document_id version_id w =
        (w, get_document_version_or_raise document_id version_id w)

    -- The transaction of the retry, and the row after it.
    abbrev pub requeue : String → String → State → State × Result KnowledgeError DocumentVersion
    unfolding requeue_failed_version read_again
    requeue document_id version_id w =
        let (after, requeued) = requeue_failed_version document_id version_id w.db in
        if fails 3 then (w, err KnowledgeError.version_write) else elim requeued [
          | some version ↦ (record w { db = after }, ok version)
          | none ↦ read_again document_id version_id (record w { db = after })
        ]

    -- The cleanup that a retry of `cleanup_required` begins with.
    abbrev pub clear : String → State → State × Result KnowledgeError (Unit {0})
    unfolding cleanup_failed_vector_write
    clear version_id w =
        let (cleared, result) = cleanup_failed_vector_write vector_store version_id w.vectors in
        (
          record w { vectors = cleared },
          elim result [ err e ↦ err KnowledgeError.version_retry | ok _ ↦ ok tt ],
        )

    -- The row with which the retry goes on, by the status that it has read.
    unfoldable pub prepare_retry :
        String → DocumentVersion → State → State × Result KnowledgeError DocumentVersion
    unfolding requeue clear
    prepare_retry document_id version w = elim version.status [
      | VersionStatus.cleanup_required ↦
          let (cleared, result) = clear version.id (others 4 w) in
          elim result [
            | err e ↦ (cleared, err e)
            | ok _ ↦ requeue document_id version.id (others 5 cleared)
          ]
      | VersionStatus.failed ↦ requeue document_id version.id (others 5 w)
      | VersionStatus.pending ↦ (w, ok version)
      | VersionStatus.processing ↦ (w, ok version)
      | VersionStatus.indexed ↦ (w, ok version)
    ]

    abbrev pub after_index :
        String
        → String
        → State × Result KnowledgeError (Option DocumentVersion)
        → State × Result KnowledgeError DocumentVersion
    unfolding read_again
    after_index document_id version_id (w, err e) = (w, err e)
    after_index document_id version_id (w, ok (some version)) = (w, ok version)
    after_index document_id version_id (w, ok none) = read_again document_id version_id w

    abbrev pub index_pending :
        String
        → State × Result KnowledgeError DocumentVersion
        → State × Result KnowledgeError DocumentVersion
    unfolding index_document_version after_index
    index_pending document_id (w, err e) = (w, err e)
    index_pending document_id (w, ok version) =
        if version_is version.status VersionStatus.pending
        then after_index document_id version.id (index_document_version document_id version.id w)
        else (w, ok version)

    -- The answer with the number of chunks.
    abbrev pub answer_retry :
        State × Result KnowledgeError DocumentVersion
        → State × Result KnowledgeError (DocumentVersion × ℕ)
    unfolding count_chunks
    answer_retry (w, err e) = (w, err e)
    answer_retry (w, ok version) = (w, ok (version, count_chunks version.id w.db))

    unfoldable pub retry_document_version :
        String → String → String → State → State × Result KnowledgeError (DocumentVersion × ℕ)
    unfolding get_owned_document get_version_for_document prepare_retry index_pending answer_retry
    retry_document_version knowledge_base_id document_id version_id w =
        elim (get_owned_document document_id owner_id w.db) [
          | none ↦ (w, err KnowledgeError.document_not_found)
          | some document ↦
              if not (str_eq document.knowledge_base_id knowledge_base_id)
              then (w, err KnowledgeError.document_not_found)
              else elim (get_version_for_document document.id version_id w.db) [
                | none ↦ (w, err KnowledgeError.version_not_found)
                | some version ↦
                    answer_retry (index_pending document.id (prepare_retry document.id version w))
              ]
        ]
