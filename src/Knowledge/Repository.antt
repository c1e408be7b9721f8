-- ===== src/Knowledge/Repository.antt =====
-- backend/app/db/repositories/knowledge_repository.py: the queries, and the conditional updates of a
-- version's status. An update gives the row as it is afterwards if it matched one row.
use ai_knowledge_hub.Base.{
  ℕ, ◌+◌, String, Bool, true, false, not, ◌&&◌, ◌||◌, Option, none, some, List, [], ◌∷◌, keep,
  filter_map, any, count, find_first, str_eq, ◌==◌, ltb, leb, is_blank, codes, length,
  if◌then◌else◌,
}
use ai_knowledge_hub.Base.Table.{update}
use ai_knowledge_hub.Workflow.Payload.{Payload}
use ai_knowledge_hub.Knowledge.Tables.{
  VersionStatus, KnowledgeBase, KnowledgeDocument, DocumentVersion, DocumentChunk, Db, version_is,
  document_clashes, version_clashes, chunk_clashes, add_row,
}
use ai_knowledge_hub.Knowledge.Files.{is_ready, is_owned_ready}

pub record ActiveChunk : Type 0 where
  pub chunk_id : String
  pub document_id : String
  pub file_id : String
  pub content : String
  pub source_locator : Payload

unfoldable pub get_owned_base : String → ℕ → Db → Option KnowledgeBase
get_owned_base knowledge_base_id owner_id db =
    find_first (λ b. str_eq b.id knowledge_base_id && b.owner_id == owner_id) db.bases

unfoldable pub get_document_by_base_and_file : String → String → Db → Option KnowledgeDocument
get_document_by_base_and_file knowledge_base_id file_id db =
    find_first (λ d. str_eq d.knowledge_base_id knowledge_base_id && str_eq d.file_id file_id)
      db.documents

-- The joins of `get_owned_document` for a row of the documents.
abbrev pub is_available : ℕ → Db → KnowledgeDocument → Bool
is_available owner_id db d =
    any (λ b. str_eq d.knowledge_base_id b.id && b.owner_id == owner_id) db.bases
    && any (λ f. str_eq d.file_id f.id && is_owned_ready owner_id f) db.files

unfoldable pub get_owned_document : String → ℕ → Db → Option KnowledgeDocument
get_owned_document document_id owner_id db =
    find_first (λ d. str_eq d.id document_id && is_available owner_id db d) db.documents

unfoldable pub create_document : KnowledgeDocument → Db → Option Db
create_document document db = elim (add_row document_clashes document db.documents) [
  | none ↦ none
  | some rows ↦ some (record db { documents = rows })
]

unfoldable pub create_base : KnowledgeBase → Db → Option Db
create_base base db = elim (add_row (λ b c. str_eq c.id b.id) base db.bases) [
  | none ↦ none
  | some rows ↦ some (record db { bases = rows })
]

unfoldable pub get_version_by_fingerprint : String → String → Db → Option DocumentVersion
get_version_by_fingerprint document_id processing_fingerprint db =
    find_first
      (λ v.
        str_eq v.document_id document_id && str_eq v.processing_fingerprint processing_fingerprint)
      db.versions

abbrev pub version_of : String → String → DocumentVersion → Bool
version_of document_id document_version_id v =
    str_eq v.id document_version_id && str_eq v.document_id document_id

unfoldable pub get_version_for_document : String → String → Db → Option DocumentVersion
get_version_for_document document_id document_version_id db =
    find_first (version_of document_id document_version_id) db.versions

-- `func.max`, with 0 for no row.
abbrev pub latest_number : String → List DocumentVersion → ℕ
latest_number document_id [] = 0
latest_number document_id (v ∷ versions) =
    let latest = latest_number document_id versions in
    if str_eq v.document_id document_id && ltb latest v.version_number
    then v.version_number
    else latest

unfoldable pub get_next_version_number : String → Db → ℕ
get_next_version_number document_id db = latest_number document_id db.versions + 1

unfoldable pub create_version : DocumentVersion → Db → Option Db
create_version version db = elim (add_row version_clashes version db.versions) [
  | none ↦ none
  | some rows ↦ some (record db { versions = rows })
]

-- The rows that an UPDATE of a version by its old status matches.
abbrev pub version_at : String → String → VersionStatus → DocumentVersion → Bool
version_at document_id document_version_id status v =
    version_of document_id document_version_id v && version_is v.status status

abbrev pub set_version : VersionStatus → Option String → DocumentVersion → DocumentVersion
set_version status failure_reason v = record v { status = status; failure_reason = failure_reason }

-- An UPDATE of the versions that pass a test, and the row of an id if it matched one row.
abbrev pub update_version :
    (DocumentVersion → Bool)
    → (DocumentVersion → DocumentVersion)
    → String
    → Db
    → Db × Option DocumentVersion
update_version test change document_version_id db =
    let rows = update test change db.versions in
    (
      record db { versions = rows },
      if count test db.versions == 1
          then find_first (λ v. str_eq v.id document_version_id) rows
          else none,
    )

unfoldable pub claim_pending_version : String → String → Db → Db × Option DocumentVersion
claim_pending_version document_id document_version_id =
    update_version (version_at document_id document_version_id VersionStatus.pending)
      (set_version VersionStatus.processing none) document_version_id

unfoldable pub complete_processing_version : String → String → Db → Db × Option DocumentVersion
complete_processing_version document_id document_version_id =
    update_version (version_at document_id document_version_id VersionStatus.processing)
      (set_version VersionStatus.indexed none) document_version_id

abbrev pub is_failure : VersionStatus → Bool
is_failure s = version_is s VersionStatus.failed || version_is s VersionStatus.cleanup_required

-- `fail_processing_version`; nothing for a `ValueError`.
unfoldable pub fail_processing_version :
    String → String → VersionStatus → String → Db → Option (Db × Option DocumentVersion)
unfolding is_blank
fail_processing_version document_id document_version_id target_status failure_reason db =
    if not (is_failure target_status)
      || (is_blank failure_reason || ltb 64 (length (codes failure_reason)))
    then none
    else some (
        update_version (version_at document_id document_version_id VersionStatus.processing)
          (set_version target_status (some failure_reason)) document_version_id db)

abbrev pub failed_at : String → String → DocumentVersion → Bool
failed_at document_id document_version_id v =
    version_of document_id document_version_id v && is_failure v.status

unfoldable pub requeue_failed_version : String → String → Db → Db × Option DocumentVersion
requeue_failed_version document_id document_version_id =
    update_version (failed_at document_id document_version_id)
      (set_version VersionStatus.pending none) document_version_id

-- The subquery of `promote_active_version`, compared with a number: a pointer without a row gives NULL,
-- which no comparison accepts.
abbrev pub is_older : Db → ℕ → Option String → Bool
is_older db version_number none = true
is_older db version_number (some active) = elim (find_first (λ v. str_eq v.id active) db.versions) [
  | none ↦ false
  | some v ↦ ltb v.version_number version_number
]

abbrev pub promotable : Db → String → ℕ → KnowledgeDocument → Bool
promotable db document_id version_number d =
    str_eq d.id document_id && is_older db version_number d.active_version_id

unfoldable pub promote_active_version : String → String → ℕ → Db → Db × Bool
promote_active_version document_id document_version_id version_number db = (
  record db {
    documents =
        update (promotable db document_id version_number)
          (λ d. record d { active_version_id = some document_version_id }) db.documents;
  },
  count (promotable db document_id version_number) db.documents == 1,
)

-- The insertions of one flush, one after the other.
abbrev pub add_chunks : List DocumentChunk → List DocumentChunk → Option (List DocumentChunk)
add_chunks [] rows = some rows
add_chunks (chunk ∷ chunks) rows = elim (add_row chunk_clashes chunk rows) [
  | none ↦ none
  | some more ↦ add_chunks chunks more
]

unfoldable pub create_chunks : List DocumentChunk → Db → Option Db
create_chunks chunks db = elim (add_chunks chunks db.chunks) [
  | none ↦ none
  | some rows ↦ some (record db { chunks = rows })
]

-- `ORDER BY chunk_index`: the place of a chunk among those already sorted.
abbrev pub insert_by_index : DocumentChunk → List DocumentChunk → List DocumentChunk
insert_by_index c [] = c ∷ []
insert_by_index c (d ∷ chunks) =
    let rest = insert_by_index c chunks in
    if leb c.chunk_index d.chunk_index then c ∷ d ∷ chunks else d ∷ rest

abbrev pub sort_by_index : List DocumentChunk → List DocumentChunk
sort_by_index [] = []
sort_by_index (c ∷ chunks) = insert_by_index c (sort_by_index chunks)

unfoldable pub list_chunks : String → Db → List DocumentChunk
list_chunks document_version_id db =
    sort_by_index (keep (λ c. str_eq c.document_version_id document_version_id) db.chunks)

unfoldable pub count_chunks : String → Db → ℕ
count_chunks document_version_id db =
    count (λ c. str_eq c.document_version_id document_version_id) db.chunks

abbrev pub is_active : Option String → String → Bool
is_active none id = false
is_active (some active) id = str_eq active id

-- The joins and conditions of `list_active_chunks_by_ids` for a document and a chunk.
abbrev pub is_active_chunk_of : String → List String → Db → DocumentChunk → KnowledgeDocument → Bool
is_active_chunk_of knowledge_base_id chunk_ids db c d =
    str_eq d.knowledge_base_id knowledge_base_id
    && any
        (λ v.
          str_eq c.document_version_id v.id
          && (str_eq v.document_id d.id
              && (is_active d.active_version_id v.id && version_is v.status VersionStatus.indexed)))
        db.versions
    && any (λ f. str_eq d.file_id f.id && is_ready f) db.files
    && any (str_eq c.id) chunk_ids

abbrev pub active_chunk : Db → String → List String → DocumentChunk → Option ActiveChunk
active_chunk db knowledge_base_id chunk_ids c =
    elim (find_first (is_active_chunk_of knowledge_base_id chunk_ids db c) db.documents) [
      | none ↦ none
      | some d ↦ some (record {
        chunk_id = c.id;
        document_id = d.id;
        file_id = d.file_id;
        content = c.content;
        source_locator = c.source_locator;
      })
    ]

unfoldable pub list_active_chunks_by_ids : String → List String → Db → List ActiveChunk
list_active_chunks_by_ids knowledge_base_id chunk_ids db =
    filter_map (active_chunk db knowledge_base_id chunk_ids) db.chunks
