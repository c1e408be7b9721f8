-- ===== src/Knowledge/Publishing/Methods.antt =====
-- backend/app/services/knowledge_service.py: the transactions of a run and of a retry, and what is published.
use ai_knowledge_hub.Base.{
  subst, ℕ, ◌≡◌, refl, String, Bool, ◌||◌, not, Option, none, some, find_first, count, str_eq,
  arith, Bool-cases, Option-cases, inl, inr, ◌==◌, is_blank, ltb, length, codes,
}
use ai_knowledge_hub.Base.Table.{update}
use ai_knowledge_hub.Knowledge.Tables.{VersionStatus, DocumentVersion, Db}
use ai_knowledge_hub.Knowledge.Repository.{
  add_chunks, version_of, version_at, set_version, is_failure, get_owned_document, get_owned_base,
  get_document_by_base_and_file, create_document, create_version, create_chunks,
  complete_processing_version, fail_processing_version, promote_active_version,
  requeue_failed_version, failed_at, get_version_by_fingerprint, get_next_version_number,
}
use ai_knowledge_hub.Knowledge.Repository
use ai_knowledge_hub.Knowledge.Indexing.{
  claim_pending_version, completed, complete_version_indexing, mark_version_indexing_failed,
  failure_status,
}
use ai_knowledge_hub.Knowledge.Publishing.{Advances, Advances-refl}
use ai_knowledge_hub.Knowledge.Publishing.Transactions.{update-Advances, version_at-unindexed}
use ai_knowledge_hub.Knowledge.Publishing.Completion.{promotion-Advances}

pub claim_pending_version-Advances :
    (owner_id : ℕ) (document_id version_id : String) (fails : Bool) (db : Db)
    → Advances db (claim_pending_version owner_id document_id version_id fails db).0
unfolding claim_pending_version get_owned_document Repository.claim_pending_version
claim_pending_version-Advances owner_id document_id version_id fails db =
    elim (Option-cases (get_owned_document document_id owner_id db)) [
      | inl q ↦ rw (claim_pending_version, q) (Advances-refl db)
      | inr (d, q) ↦ elim (Bool-cases fails) [
        | inl f ↦ rw (claim_pending_version, q, f) (Advances-refl db)
        | inr f ↦
            rw (claim_pending_version, q, f)
              (update-Advances db (version_at d.id version_id VersionStatus.pending)
                VersionStatus.processing none
                (λ v. version_at-unindexed d.id version_id VersionStatus.pending v refl))
      ]
    ]

pub completed-Advances :
    (document_id version_id : String) (db : Db)
    → Advances db
        (completed document_id db (complete_processing_version document_id version_id db)).0
unfolding complete_processing_version
completed-Advances d a db =
    elim (Bool-cases (count (version_at d a VersionStatus.processing) db.versions == 1)) [
      | inr b ↦ rw (complete_processing_version, b) (Advances-refl db)
      | inl b ↦
          elim (Option-cases (
            find_first (λ v. str_eq v.id a)
              (update (version_at d a VersionStatus.processing)
                (set_version VersionStatus.indexed none) db.versions))) [
                  | inl q ↦ rw (complete_processing_version, b, q) (Advances-refl db)
                  | inr (version, q) ↦
                      rw (complete_processing_version, b, q)
                        (promotion-Advances db d a version (ground arith) q)
                ]
    ]

pub fail_processing_version-Advances :
    (d a : String) (status : VersionStatus) (reason : String) (db : Db)
    (after : Db × Option DocumentVersion)
    → fail_processing_version d a status reason db ≡ some after
    → Advances db after.0
unfolding fail_processing_version
fail_processing_version-Advances d a status reason db after h =
    elim (Bool-cases
      (not (is_failure status) || (is_blank reason || ltb 64 (length (codes reason))))) [
        | inl b ↦ absurd (cc (rw (fail_processing_version, b) at h))
        | inr b ↦
            subst (λ o. elim o [ none ↦ Unit | some x ↦ Advances db x.0 ])
              (rw (fail_processing_version, b) at h)
              (update-Advances db (version_at d a VersionStatus.processing) status (some reason)
                (λ v. version_at-unindexed d a VersionStatus.processing v refl))
      ]

pub complete_version_indexing-Advances :
    (owner_id : ℕ) (document_id version_id : String) (fails : Bool) (db : Db)
    → Advances db (complete_version_indexing owner_id document_id version_id fails db).0
unfolding complete_version_indexing get_owned_document complete_processing_version
complete_version_indexing-Advances owner_id document_id version_id fails db =
    elim (Option-cases (get_owned_document document_id owner_id db)) [
      | inl q ↦ rw (complete_version_indexing, q) (Advances-refl db)
      | inr (d, q) ↦ elim (Bool-cases fails) [
        | inl f ↦ rw (complete_version_indexing, q, f) (Advances-refl db)
        | inr f ↦ rw (complete_version_indexing, q, f) (completed-Advances d.id version_id db)
      ]
    ]

pub requeue_failed_version-Advances :
    (document_id version_id : String) (db : Db)
    → Advances db (requeue_failed_version document_id version_id db).0
unfolding requeue_failed_version
requeue_failed_version-Advances document_id version_id db =
    update-Advances db (failed_at document_id version_id) VersionStatus.pending none
      (λ v h. ground arith)

pub mark_version_indexing_failed-Advances :
    (owner_id : ℕ) (document_id version_id : String) (cleanup_required : Bool) (reason : String)
    (fails : Bool) (db : Db)
    → Advances db
        (mark_version_indexing_failed owner_id document_id version_id cleanup_required reason fails
          db).0
unfolding mark_version_indexing_failed get_owned_document fail_processing_version
mark_version_indexing_failed-Advances owner_id document_id version_id cleanup_required reason fails
      db =
    elim (Option-cases (get_owned_document document_id owner_id db)) [
      | inl q ↦ rw (mark_version_indexing_failed, q) (Advances-refl db)
      | inr (d, q) ↦ elim (Bool-cases fails) [
        | inl f ↦ rw (mark_version_indexing_failed, q, f) (Advances-refl db)
        | inr f ↦
            rw (mark_version_indexing_failed, q, f)
              (elim (Option-cases (
                fail_processing_version d.id version_id (failure_status cleanup_required) reason
                  db)) [
                    | inl r ↦ rw r (Advances-refl db)
                    | inr (after, r) ↦ rw r (
                        fail_processing_version-Advances d.id version_id
                          (failure_status cleanup_required) reason db after r)
                  ])
      ]
    ]
