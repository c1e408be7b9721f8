-- ===== src/Knowledge/Publishing/System.antt =====
-- The tables of the knowledge base as sessions change them: every sequence of the service's transactions
-- (backend/app/services/knowledge_service.py), with those of other sessions between them.
use ai_knowledge_hub.Base.{ℕ, ◌≤◌, refl, String, Bool, List}
use ai_knowledge_hub.Knowledge.Chunking.{ChunkDraft}
use ai_knowledge_hub.Knowledge.Tables.{FileResource, Db}
use ai_knowledge_hub.Knowledge.Repository.{requeue_failed_version}
use ai_knowledge_hub.Knowledge.Ingestion.{
  create_base, add_file_to_base, persist_chunks, Processing, PersistIds,
}
use ai_knowledge_hub.Knowledge.Indexing.{
  claim_pending_version, complete_version_indexing, mark_version_indexing_failed,
}
use ai_knowledge_hub.Knowledge.Publishing.{
  IsPublished, active_number, Advances, Advances-refl, Advances-trans,
}
use ai_knowledge_hub.Knowledge.Publishing.Methods.{
  claim_pending_version-Advances, complete_version_indexing-Advances,
  requeue_failed_version-Advances, mark_version_indexing_failed-Advances,
}
use ai_knowledge_hub.Knowledge.Publishing.Persisting.{
  same-Advances, create_base-Advances, add_file_to_base-Advances, persist_chunks-Advances,
}

-- What `db` may have become after transactions.
pub data Reach : Db → Db → Type 0 where
  begins : {db : Db} → Reach db db
  then_reach : {db now later : Db} → Reach db now → Reach now later → Reach db later
  writes_files :
      {db now : Db} (files : List FileResource)
      → Reach db now
      → Reach db (record now { files = files })
  creates_base :
      {db now : Db} (id : String) (owner_id : ℕ) (name : String) (fails : Bool)
      → Reach db now
      → Reach db (create_base id owner_id name fails now).0
  adds_file :
      {db now : Db} (owner_id : ℕ) (base_id file_id id : String) (fails : Bool) (others : Db → Db)
      → Reach db now
      → Reach now (others now)
      → Reach db (add_file_to_base owner_id base_id file_id id fails others now).0
  persists :
      {db now : Db} (owner_id : ℕ) (document_id : String) (drafts : List ChunkDraft)
      (p : Processing) (ids : PersistIds) (fails : Bool) (others : Db → Db)
      → Reach db now
      → Reach now (others now)
      → Reach db (persist_chunks owner_id document_id drafts p ids fails others now).0
  claims :
      {db now : Db} (owner_id : ℕ) (document_id version_id : String) (fails : Bool)
      → Reach db now
      → Reach db (claim_pending_version owner_id document_id version_id fails now).0
  completes :
      {db now : Db} (owner_id : ℕ) (document_id version_id : String) (fails : Bool)
      → Reach db now
      → Reach db (complete_version_indexing owner_id document_id version_id fails now).0
  marks :
      {db now : Db} (owner_id : ℕ) (document_id version_id : String) (cleanup_required : Bool)
      (reason : String) (fails : Bool)
      → Reach db now
      → Reach db
          (mark_version_indexing_failed owner_id document_id version_id cleanup_required reason
            fails now).0
  requeues :
      {db now : Db} (document_id version_id : String)
      → Reach db now
      → Reach db (requeue_failed_version document_id version_id now).0

Reach-Advances : (db later : Db) → Reach db later → Advances db later
Reach-Advances db later Reach.begins = Advances-refl db
Reach-Advances db later (Reach.then_reach {now = now} r s) =
    Advances-trans db now later (Reach-Advances db now r) (Reach-Advances now later s)
Reach-Advances db later (Reach.writes_files {now = now} files r) =
    Advances-trans db now later (Reach-Advances db now r)
      (same-Advances now (record now { files = files }) refl refl)
Reach-Advances db later (Reach.creates_base {now = now} id owner_id name fails r) =
    Advances-trans db now later (Reach-Advances db now r)
      (create_base-Advances id owner_id name fails now)
Reach-Advances db later (Reach.adds_file {now = now} owner_id base_id file_id id fails others r s) =
    Advances-trans db now later (Reach-Advances db now r) (
      add_file_to_base-Advances owner_id base_id file_id id fails others now
        (Reach-Advances now (others now) s))
Reach-Advances db later
      (Reach.persists {now = now} owner_id document_id drafts p ids fails others r s) =
    Advances-trans db now later (Reach-Advances db now r) (
      persist_chunks-Advances owner_id document_id drafts p ids fails others now
        (Reach-Advances now (others now) s))
Reach-Advances db later (Reach.claims {now = now} owner_id document_id version_id fails r) =
    Advances-trans db now later (Reach-Advances db now r)
      (claim_pending_version-Advances owner_id document_id version_id fails now)
Reach-Advances db later (Reach.completes {now = now} owner_id document_id version_id fails r) =
    Advances-trans db now later (Reach-Advances db now r)
      (complete_version_indexing-Advances owner_id document_id version_id fails now)
Reach-Advances db later
      (Reach.marks {now = now} owner_id document_id version_id cleanup_required reason fails r) =
    Advances-trans db now later (Reach-Advances db now r) (
      mark_version_indexing_failed-Advances owner_id document_id version_id cleanup_required reason
        fails now)
Reach-Advances db later (Reach.requeues {now = now} document_id version_id r) =
    Advances-trans db now later (Reach-Advances db now r)
      (requeue_failed_version-Advances document_id version_id now)

-- Tables in which every document's active version is an indexed version of that document are still such
-- tables after any transactions of the knowledge service.
pub Reach-IsPublished : (db later : Db) → IsPublished db → Reach db later → IsPublished later
Reach-IsPublished db later published r = (Reach-Advances db later r).publishing published

-- No transactions of the knowledge service take a document's active version back to one of a smaller number.
pub Reach-active_number :
    (db later : Db) (document_id : String)
    → Reach db later
    → active_number document_id db ≤ active_number document_id later
Reach-active_number db later document_id r = (Reach-Advances db later r).raising document_id
