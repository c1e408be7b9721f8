-- ===== src/Knowledge/Indexing/Settling.antt =====
-- backend/app/services/knowledge_service.py: the ends of a run of `index_document_version`.
use ai_knowledge_hub.Base.{
  ℕ, ◌≡◌, refl, sym, subst, ◌∙◌, String, Bool, true, false, Option, some, List, map, all, count,
  Bool-cases, Option-cases, inl, inr, Result, ok, is_blank, is_space,
}
use ai_knowledge_hub.Base.Table.{all-implied}
use ai_knowledge_hub.Knowledge.Error.{KnowledgeError}
use ai_knowledge_hub.Knowledge.Tables.{VersionStatus, KnowledgeDocument, DocumentVersion}
use ai_knowledge_hub.Knowledge.Repository.{get_owned_document, list_chunks}
use ai_knowledge_hub.Knowledge.Vectors.{cleanup_failed_vector_write}
use ai_knowledge_hub.Knowledge.Indexing.{
  KnowledgeIndexingComponents, claim_pending_version, complete_version_indexing,
  mark_version_indexing_failed, World, mark, clear_and_mark, handle,
}
use ai_knowledge_hub.Knowledge.Indexing.Run.{
  after_completion, after_writing, index_claimed, after_claim, index_document_version, no_chunks,
  written_vectors, complete, claim,
}
use ai_knowledge_hub.Knowledge.Indexing.Rows.{
  get_owned_document-id, has_version_id, IsProcessing, IsAvailable, IsReason, SettlesAs,
  mark_version_indexing_failed-SettlesAs, complete_version_indexing-cases,
  claim_pending_version-IsProcessing,
}
use ai_knowledge_hub.Knowledge.Indexing.Points.{Written, is_caught}
use ai_knowledge_hub.Knowledge.Indexing.Embedded.{write_vectors-Written}

module _ {Number : Type 0} (components : KnowledgeIndexingComponents Number) where
  open components use {vector_store}
  open components.vector_store use {Store, holds, delete_by_document_version, holds-delete}

  abbrev State : Type 0
  State = World components

  -- What the store holds of a version, by the status that the run leaves.
  abbrev pub Outcome : String → List String → VersionStatus → Store → Type 0
  Outcome a ids VersionStatus.indexed s = all (holds s a) ids ≡ true
  Outcome a ids VersionStatus.failed s = (c : String) → holds s a c ≡ false
  Outcome a ids VersionStatus.cleanup_required s = Unit
  Outcome a ids VersionStatus.pending s = ⊥
  Outcome a ids VersionStatus.processing s = ⊥

  pub record IsSettled (a : String) (ids : List String) (w : State)
      (answer : Result KnowledgeError (Option DocumentVersion)) : Type 0 where
    pub status : VersionStatus
    pub settles : SettlesAs a status w.db answer
    pub outcome : Outcome a ids status w.vectors

  -- What the other sessions keep of a version that is processing.
  pub record Keeps (others : ℕ → State → State) (owner_id : ℕ) (d a : String) : Type 0 where
    pub processing : (n : ℕ) (w : State) → IsProcessing d a w.db → IsProcessing d a (others n w).db
    pub available :
        (n : ℕ) (w : State) → IsAvailable owner_id d w.db → IsAvailable owner_id d (others n w).db
    pub vectors :
        (n : ℕ) (w : State) (c : String) → holds (others n w).vectors a c ≡ holds w.vectors a c

  module _ (others : ℕ → State → State) (fails : ℕ → Bool) (owner_id : ℕ) (d a : String)
      (ids : List String) (keeps : Keeps others owner_id d a) (marked : fails 2 ≡ false) where
    abbrev Settled : State × Result KnowledgeError (Option DocumentVersion) → Type 0
    Settled r = IsSettled a ids r.0 r.1

    mark-cleared :
        (reason : String) (w : State)
        → IsReason reason
        → IsAvailable owner_id d w.db
        → IsProcessing d a w.db
        → ((c : String) → holds w.vectors a c ≡ false)
        → Settled (mark components others fails owner_id d a false reason w)
    unfolding mark_version_indexing_failed
    mark-cleared reason w h available row empty =
        rw (mark, marked)
          (record {
            status = VersionStatus.failed;
            settles =
                mark_version_indexing_failed-SettlesAs owner_id d a false reason (others 3 w).db h
                  (keeps.available 3 w available) (keeps.processing 3 w row);
            outcome = λ c. keeps.vectors 3 w c ∙ empty c;
          })

    mark-uncleared :
        (reason : String) (w : State)
        → IsReason reason
        → IsAvailable owner_id d w.db
        → IsProcessing d a w.db
        → Settled (mark components others fails owner_id d a true reason w)
    unfolding mark_version_indexing_failed
    mark-uncleared reason w h available row =
        rw (mark, marked)
          (record {
            status = VersionStatus.cleanup_required;
            settles =
                mark_version_indexing_failed-SettlesAs owner_id d a true reason (others 3 w).db h
                  (keeps.available 3 w available) (keeps.processing 3 w row);
            outcome = tt;
          })

    handle-Settled :
        (e : KnowledgeError) (w : State)
        → is_caught e ≡ true
        → IsAvailable owner_id d w.db
        → IsProcessing d a w.db
        → ((c : String) → holds w.vectors a c ≡ false)
        → Settled (handle components others fails owner_id d a false e w)
    unfolding handle is_blank is_space
    handle-Settled KnowledgeError.version_write w h available row empty =
        mark-cleared "index_state_write_failed" w refl available row empty
    handle-Settled (KnowledgeError.ai_failed e) w h available row empty =
        mark-cleared "embedding_failed" w refl available row empty
    handle-Settled (KnowledgeError.vector_failed e) w h available row empty =
        mark-cleared "vector_store_failed" w refl available row empty
    handle-Settled _ w h available row empty = absurd (cc)

    clear_and_mark-Settled :
        (w : State)
        → IsAvailable owner_id d w.db
        → IsProcessing d a w.db
        → Settled (clear_and_mark components others fails owner_id d a w)
    unfolding cleanup_failed_vector_write mark_version_indexing_failed is_blank is_space
    clear_and_mark-Settled w available row =
        elim (Option-cases (delete_by_document_version a w.vectors).1) [
          | inl q ↦
              rw (clear_and_mark, cleanup_failed_vector_write, q)
                (mark-cleared "index_state_write_failed" (cleared w) refl available row
                  (λ c. holds-delete a w.vectors c q))
          | inr (e, q) ↦
              rw (clear_and_mark, cleanup_failed_vector_write, q)
                (mark-uncleared "vector_cleanup_failed" (cleared w) refl available row)
        ]
      where
        cleared : State → State
        cleared v = record v { vectors = (delete_by_document_version a v.vectors).0 }

    after_completion-Settled :
        (w : State)
        → IsAvailable owner_id d w.db
        → IsProcessing d a w.db
        → all (holds w.vectors a) ids ≡ true
        → Settled (
            after_completion components others fails owner_id d a
              (complete components others fails owner_id d a w))
    unfolding complete_version_indexing handle
    after_completion-Settled w available row stored =
        elim (complete_version_indexing-cases owner_id d a (fails 1) w.db available row) [
          | inr q ↦ rw (complete, q) (clear_and_mark-Settled w available row)
          | inl settles ↦
              rw (complete, settles.answered)
                (record {
                  status = VersionStatus.indexed;
                  settles =
                      subst
                        (λ x.
                          SettlesAs a VersionStatus.indexed
                            (complete_version_indexing owner_id d a (fails 1) w.db).0 x)
                        settles.answered settles;
                  outcome = stored;
                })
        ]

    after_writing-Settled :
        (w : State) (r : Store × Result KnowledgeError (Unit {0}))
        → IsAvailable owner_id d w.db
        → IsProcessing d a w.db
        → Written vector_store a ids r
        → Settled (after_writing components others fails owner_id d a w r)
    unfolding complete_version_indexing handle is_blank is_space
    after_writing-Settled w r available row (Written.stored {s} h) =
        let later = others 2 (record w { vectors = s }) in
        after_completion-Settled later (keeps.available 2 (record w { vectors = s }) available)
          (keeps.processing 2 (record w { vectors = s }) row)
          (all-implied (holds s a) (holds later.vectors a) ids
            (λ c k. keeps.vectors 2 (record w { vectors = s }) c ∙ k) h)
    after_writing-Settled w r available row (Written.refused {s} e h empty) =
        handle-Settled e (record w { vectors = s }) h available row empty
    after_writing-Settled w r available row (Written.unclear {s}) =
        mark-uncleared "vector_cleanup_failed" (record w { vectors = s }) refl available row

  abbrev pub chunk_ids : String → State → List String
  chunk_ids a w = map (λ c. c.id) (list_chunks a w.db)

  module _ (others : ℕ → State → State) (fails : ℕ → Bool) (owner_id : ℕ)
      (marked : fails 2 ≡ false) where
    index_claimed-IsSettled :
        (document : KnowledgeDocument) (version : DocumentVersion) (w : State)
        → Keeps others owner_id document.id version.id
        → IsAvailable owner_id document.id w.db
        → IsProcessing document.id version.id w.db
        → ((c : String) → holds w.vectors version.id c ≡ false)
        → IsSettled version.id
            (chunk_ids version.id w)
            (index_claimed components others fails owner_id document version w).0
            (index_claimed components others fails owner_id document version w).1
    unfolding index_claimed is_blank is_space
    index_claimed-IsSettled document version w keeps available row empty =
        let chunks = list_chunks version.id w.db in
        let ids = chunk_ids version.id w in
        elim (Bool-cases (no_chunks chunks)) [
          | inl b ↦
              rw (index_claimed, b)
                (mark-cleared others fails owner_id document.id version.id ids keeps marked
                  "missing_chunks" w refl available row empty)
          | inr b ↦
              rw (index_claimed, b)
                (after_writing-Settled others fails owner_id document.id version.id ids keeps marked
                  w (written_vectors components others fails owner_id document version chunks w)
                  available row
                  (write_vectors-Written components document version chunks w.vectors empty))
        ]

    -- The world that the claim of a version leaves.
    abbrev pub claimed : String → String → State → State
    claimed d a w = record w { db = (claim_pending_version owner_id d a (fails 0) w.db).0 }

    abbrev ClaimSettles : KnowledgeDocument → DocumentVersion → State → String → String → Type 0
    ClaimSettles document version w d a =
        Keeps others owner_id d a
        → count (has_version_id a) w.db.versions ≡ 1
        → ((c : String) → holds w.vectors a c ≡ false)
        → (claim_pending_version owner_id d a (fails 0) w.db).1 ≡ ok (some version)
        → IsSettled a (chunk_ids a (others 1 (claimed d a w)))
            (after_claim components others fails owner_id document
              (claim components others fails owner_id d a w)).0
            (after_claim components others fails owner_id document
              (claim components others fails owner_id d a w)).1

    after_claim-IsSettled :
        (document : KnowledgeDocument) (version : DocumentVersion) (w : State)
        → ClaimSettles document version w document.id version.id
    unfolding claim_pending_version index_claimed
    after_claim-IsSettled document version w keeps unique empty h =
        let (available, row, _, _) =
          claim_pending_version-IsProcessing owner_id document.id version.id (fails 0) w.db version
            unique h in
        let now = claimed document.id version.id w in
        rw (claim, h)
          (index_claimed-IsSettled document version (others 1 now) keeps
            (keeps.available 1 now available) (keeps.processing 1 now row)
            (λ c. keeps.vectors 1 now c ∙ empty c))

    -- Suppose that the version's id is unique and the store holds none of its vectors when it is claimed, that
    -- the other sessions leave a processing version, its document's availability and its vectors alone, and
    -- that the database does not refuse to mark a failure. Then whatever the embedding provider, the vector
    -- store and the completing transaction do, a run that claims the version answers with the row that the
    -- table then has: indexed, with a vector stored for each of its chunks, or failed, with no vector left, or
    -- in need of a cleanup.
    pub index_document_version-IsSettled :
        (document_id version_id : String) (w : State) (document : KnowledgeDocument)
        (version : DocumentVersion)
        → Keeps others owner_id document_id version_id
        → get_owned_document document_id owner_id w.db ≡ some document
        → count (has_version_id version_id) (others 0 w).db.versions ≡ 1
        → ((c : String) → holds (others 0 w).vectors version_id c ≡ false)
        → (claim_pending_version owner_id document_id version_id (fails 0) (others 0 w).db).1
          ≡ ok (some version)
        → IsSettled version_id
            (chunk_ids version_id (others 1 (claimed document_id version_id (others 0 w))))
            (index_document_version components others fails owner_id document_id version_id w).0
            (index_document_version components others fails owner_id document_id version_id w).1
    unfolding index_document_version
    index_document_version-IsSettled document_id version_id w document version keeps found unique
          empty h =
        let start = others 0 w in
        let same_document = get_owned_document-id document_id owner_id w.db document found in
        let (_, _, same_version, _) =
          claim_pending_version-IsProcessing owner_id document_id version_id (fails 0) start.db
            version unique h in
        let settles : ClaimSettles document version start document_id version_id =
          subst (λ a. ClaimSettles document version start document_id a) same_version
            (subst (λ d. ClaimSettles document version start d version.id) same_document
              (after_claim-IsSettled document version start)) in
        rw (index_document_version, found)
          (subst
            (λ d.
              IsSettled version_id
                (chunk_ids version_id (others 1 (claimed document_id version_id start)))
                (after_claim components others fails owner_id document
                  (claim components others fails owner_id d version_id start)).0
                (after_claim components others fails owner_id document
                  (claim components others fails owner_id d version_id start)).1)
            (sym same_document) (settles keeps unique empty h))
