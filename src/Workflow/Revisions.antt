-- ===== src/Workflow/Revisions.antt =====
-- backend/app/db/repositories/knowledge_revision_repository.py.
use ai_knowledge_hub.Base.{
  ℕ, String, Bool, ◌&&◌, Option, some, Result, ok, ◌>>=◌, ◌>>◌, raise_if, count, find_first, str_eq,
  leb, ◌==◌,
}
use ai_knowledge_hub.Base.Table.{update}
use ai_knowledge_hub.Workflow.Error.{Error, other_exception}
use ai_knowledge_hub.Workflow.Store.{
  RevisionStatus, KnowledgeRevision, Db, revision_is, insert_revision,
}

unfoldable pub create_revision : KnowledgeRevision → Db → Result Error Db
unfolding insert_revision
create_revision revision db = do
  revisions ← insert_revision revision db.revisions
  ok (record db { revisions = revisions })

unfoldable pub get_owned_revision : Db → String → ℕ → Option KnowledgeRevision
get_owned_revision db revision_id owner_id =
    find_first (λ r. str_eq r.id revision_id && r.owner_id == owner_id) db.revisions

abbrev pub revision_at : String → RevisionStatus → KnowledgeRevision → Bool
revision_at id status r = str_eq r.id id && revision_is r.status status

abbrev pub decide_row : RevisionStatus → Option ℕ → ℕ → KnowledgeRevision → KnowledgeRevision
decide_row status decided_by now r = record r {
  status = status;
  decided_by = decided_by;
  decided_at = some now;
}

unfoldable pub update_submitted_decision :
    String → RevisionStatus → Option ℕ → ℕ → Db → Result Error (Db × Bool)
update_submitted_decision revision_id status decided_by now db = do
  raise_if (revision_is status RevisionStatus.submitted) other_exception
  let revisions =
      update (revision_at revision_id RevisionStatus.submitted) (decide_row status decided_by now)
        db.revisions
  let matched = count (revision_at revision_id RevisionStatus.submitted) db.revisions
  ok (record db { revisions = revisions }, matched == 1)

unfoldable pub is_submitted_and_expired : KnowledgeRevision → ℕ → Bool
is_submitted_and_expired revision now =
    revision_is revision.status RevisionStatus.submitted && leb revision.expires_at now
