-- ===== src/Knowledge/Publishing/Persisting.antt =====
-- backend/app/services/knowledge_service.py: the transactions that insert rows, and what is published.
use ai_knowledge_hub.Base.{
  subst, ℕ, ◌≡◌, refl, String, Bool, true, false, none, some, List, [], ◌∷◌, ◌++◌, any, str_eq,
  arith, Bool-cases, Option-cases, inl, inr, Result-cases,
}
use ai_knowledge_hub.Base.Table.{all-append, number-append}
use ai_knowledge_hub.Knowledge.Tables.{
  KnowledgeDocument, KnowledgeBase, DocumentVersion, DocumentChunk, Db, add_row, document_clashes,
  version_clashes,
}
use ai_knowledge_hub.Knowledge.Repository.{
  add_chunks, version_of, version_at, set_version, is_failure, get_owned_document, get_owned_base,
  get_document_by_base_and_file, create_document, create_version, create_chunks,
  complete_processing_version, fail_processing_version, promote_active_version,
  requeue_failed_version, failed_at, get_version_by_fingerprint, get_next_version_number,
}
use ai_knowledge_hub.Knowledge.Repository
use ai_knowledge_hub.Knowledge.Ingestion
use ai_knowledge_hub.Knowledge.Ingestion.{
  no_drafts, addable, insert_document, new_document, new_version, chunks_from, add_file_to_base,
  persist_chunks, insert_version, Processing, PersistIds,
}
use ai_knowledge_hub.Knowledge.Chunking.{ChunkDraft}
use ai_knowledge_hub.Knowledge.Publishing.{
  publishes, Advances, Advances-refl, Advances-trans, number_of,
}
use ai_knowledge_hub.Knowledge.Publishing.Transactions.{append-Advances}

pub same-Advances :
    (db after : Db)
    → after.documents ≡ db.documents
    → after.versions ≡ db.versions
    → Advances db after
same-Advances db after d v = (record {
  publishing = λ h. rw (d, v) h;
  raising = λ k. rw (d, v) (omega arith);
})

document-Advances :
    (db : Db) (d : KnowledgeDocument)
    → d.active_version_id ≡ none
    → Advances db (record db { documents = db.documents ++ d ∷ [] })
document-Advances db d a = (record {
  publishing = λ h. all-append (publishes db.versions) db.documents (d ∷ []) h (rw a refl);
  raising = λ k.
      number-append (λ d. str_eq d.id k) (λ d. number_of db.versions d.active_version_id)
        db.documents (d ∷ []);
})

module _ {A : Type 0} (clashes : A → A → Bool) (row : A) (rows : List A) (db : Db)
    (write : List A → Db) where
  -- A row that is added, and the tables with it.
  added-Advances :
      (after : Db)
      → (elim (add_row clashes row rows) [ none ↦ none | some more ↦ some (write more) ])
        ≡ some after
      → Advances db (write (rows ++ row ∷ []))
      → Advances db after
  added-Advances after h k = elim (Bool-cases (any (clashes row) rows)) [
    | inl b ↦ absurd (cc (rw b at h))
    | inr b ↦ subst (λ o. elim o [ none ↦ Unit | some x ↦ Advances db x ]) (rw b at h) k
  ]

create_document-Advances :
    (d : KnowledgeDocument) (db after : Db)
    → d.active_version_id ≡ none
    → create_document d db ≡ some after
    → Advances db after
unfolding create_document
create_document-Advances d db after a h =
    added-Advances document_clashes d db.documents db (λ rows. record db { documents = rows }) after
      h (document-Advances db d a)

create_version-Advances :
    (v : DocumentVersion) (db after : Db) → create_version v db ≡ some after → Advances db after
unfolding create_version
create_version-Advances v db after h =
    added-Advances version_clashes v db.versions db (λ rows. record db { versions = rows }) after h
      (append-Advances db (v ∷ []))

create_chunks-Advances :
    (chunks : List DocumentChunk) (db after : Db)
    → create_chunks chunks db ≡ some after
    → Advances db after
unfolding create_chunks
create_chunks-Advances chunks db after h = elim (Option-cases (add_chunks chunks db.chunks)) [
  | inl q ↦ absurd (cc (rw (create_chunks, q) at h))
  | inr (rows, q) ↦
      subst (λ o. elim o [ none ↦ Unit | some x ↦ Advances db x ]) (rw (create_chunks, q) at h)
        (same-Advances db (record db { chunks = rows }) refl refl)
]

pub create_base-Advances :
    (id : String) (owner_id : ℕ) (name : String) (fails : Bool) (db : Db)
    → Advances db (Ingestion.create_base id owner_id name fails db).0
unfolding Ingestion.create_base Repository.create_base
create_base-Advances id owner_id name true db = Advances-refl db
create_base-Advances id owner_id name false db =
    let base : KnowledgeBase = (record { id = id; owner_id = owner_id; name = name }) in
    elim (Bool-cases (any (λ c. str_eq c.id id) db.bases)) [
      | inl b ↦ rw (Ingestion.create_base, Repository.create_base, b) (Advances-refl db)
      | inr b ↦
          rw (Ingestion.create_base, Repository.create_base, b)
            (same-Advances db (record db { bases = db.bases ++ base ∷ [] }) refl refl)
    ]

pub insert_document-Advances :
    (d : KnowledgeDocument) (fails : Bool) (later : Db)
    → d.active_version_id ≡ none
    → Advances later (insert_document d fails later).0
unfolding create_document
insert_document-Advances d true later a = Advances-refl later
insert_document-Advances d false later a = elim (Option-cases (create_document d later)) [
  | inl q ↦ rw (insert_document, q) (Advances-refl later)
  | inr (after, q) ↦ rw (insert_document, q) (create_document-Advances d later after a q)
]

pub insert_version-Advances :
    (version : DocumentVersion) (chunks : List DocumentChunk) (fails : Bool) (later : Db)
    → Advances later (insert_version version chunks fails later).0
insert_version-Advances version chunks true later = Advances-refl later
insert_version-Advances version chunks false later =
    elim (Option-cases (create_version version later)) [
      | inl q ↦ rw (insert_version, q) (Advances-refl later)
      | inr (versioned, q) ↦ elim (Option-cases (create_chunks chunks versioned)) [
        | inl r ↦ rw (insert_version, q, r) (Advances-refl later)
        | inr (after, r) ↦
            rw (insert_version, q, r)
              (Advances-trans later versioned after
                (create_version-Advances version later versioned q)
                (create_chunks-Advances chunks versioned after r))
      ]
    ]

pub add_file_to_base-Advances :
    (owner_id : ℕ) (base_id file_id id : String) (fails : Bool) (others : Db → Db) (db : Db)
    → Advances db (others db)
    → Advances db (add_file_to_base owner_id base_id file_id id fails others db).0
unfolding add_file_to_base
add_file_to_base-Advances owner_id base_id file_id id fails others db meanwhile =
    elim (Result-cases (addable owner_id base_id file_id db)) [
      | inr (e, q) ↦ rw (add_file_to_base, q) (Advances-refl db)
      | inl (found, q) ↦
          elim (Option-cases (get_document_by_base_and_file found.0.id found.1.id db)) [
            | inr (existing, r) ↦ rw (add_file_to_base, q, r) (Advances-refl db)
            | inl r ↦
                rw (add_file_to_base, q, r)
                  (Advances-trans db (others db)
                    (insert_document (new_document id found.0.id found.1.id) fails (others db)).0
                    meanwhile
                    (insert_document-Advances (new_document id found.0.id found.1.id) fails
                      (others db) refl))
          ]
    ]

pub persist_chunks-Advances :
    (owner_id : ℕ) (document_id : String) (drafts : List ChunkDraft) (p : Processing)
    (ids : PersistIds) (fails : Bool) (others : Db → Db) (db : Db)
    → Advances db (others db)
    → Advances db (persist_chunks owner_id document_id drafts p ids fails others db).0
unfolding persist_chunks
persist_chunks-Advances owner_id document_id drafts p ids fails others db meanwhile =
    elim (Option-cases (get_owned_document document_id owner_id db)) [
      | inl q ↦ rw (persist_chunks, q) (Advances-refl db)
      | inr (d, q) ↦ elim (Bool-cases (no_drafts drafts)) [
        | inl b ↦ rw (persist_chunks, q, b) (Advances-refl db)
        | inr b ↦
            elim (Option-cases
              (get_version_by_fingerprint document_id p.processing_fingerprint db)) [
                | inr (v, r) ↦ rw (persist_chunks, q, b, r) (Advances-refl db)
                | inl r ↦
                    let version = new_version ids.version_id document_id p db in
                    let chunks = chunks_from ids.chunk_id ids.version_id 0 drafts in
                    rw (persist_chunks, q, b, r)
                      (Advances-trans db (others db)
                        (insert_version version chunks fails (others db)).0 meanwhile
                        (insert_version-Advances version chunks fails (others db)))
              ]
      ]
    ]
