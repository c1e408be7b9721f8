-- ===== src/Knowledge/Tables.antt =====
-- backend/app/models/knowledge_base.py, knowledge_document.py, document_version.py, document_chunk.py and
-- file_resource.py: the tables of the knowledge base, with their unique constraints. Times of creation that
-- the database sets are left out, and so is the order that they give.
use ai_knowledge_hub.Base.{
  ℕ, String, Bool, ◌&&◌, ◌||◌, Option, none, some, List, [], ◌∷◌, ◌++◌, any, str_eq, ◌==◌,
  if◌then◌else◌,
}
use ai_knowledge_hub.Workflow.Payload.{Payload}

pub data VersionStatus : Type 0 where
  pending processing indexed failed cleanup_required : VersionStatus

pub data FileStatus : Type 0 where
  pending_upload ready upload_failed deleting deleted cleanup_required : FileStatus

pub record KnowledgeBase : Type 0 where
  pub id : String
  pub owner_id : ℕ
  pub name : String

pub record KnowledgeDocument : Type 0 where
  pub id : String
  pub knowledge_base_id : String
  pub file_id : String
  pub active_version_id : Option String

pub record DocumentVersion : Type 0 where
  pub id : String
  pub document_id : String
  pub version_number : ℕ
  pub processing_fingerprint : String
  pub parser_name : String
  pub parser_version : String
  pub chunker_name : String
  pub chunker_config : Payload
  pub embedding_profile : String
  pub embedding_dimension : ℕ
  pub status : VersionStatus
  pub failure_reason : Option String

pub record DocumentChunk : Type 0 where
  pub id : String
  pub document_version_id : String
  pub chunk_index : ℕ
  pub content : String
  pub token_count : ℕ
  pub source_locator : Payload

pub record FileResource : Type 0 where
  pub id : String
  pub owner_id : ℕ
  pub storage_provider : String
  pub bucket : String
  pub object_key : String
  pub original_filename : String
  pub content_type : String
  pub size_bytes : ℕ
  pub sha256 : String
  pub status : FileStatus
  pub failure_reason : Option String
  pub deleted_at : Option ℕ

pub record Db : Type 0 where
  pub bases : List KnowledgeBase
  pub documents : List KnowledgeDocument
  pub versions : List DocumentVersion
  pub chunks : List DocumentChunk
  pub files : List FileResource

-- Equality of statuses, as the queries compare them.
abbrev version_rank : VersionStatus → ℕ
version_rank VersionStatus.pending = 0
version_rank VersionStatus.processing = 1
version_rank VersionStatus.indexed = 2
version_rank VersionStatus.failed = 3
version_rank VersionStatus.cleanup_required = 4

abbrev file_rank : FileStatus → ℕ
file_rank FileStatus.pending_upload = 0
file_rank FileStatus.ready = 1
file_rank FileStatus.upload_failed = 2
file_rank FileStatus.deleting = 3
file_rank FileStatus.deleted = 4
file_rank FileStatus.cleanup_required = 5

abbrev pub version_is : VersionStatus → VersionStatus → Bool
version_is s t = version_rank s == version_rank t

abbrev pub file_is : FileStatus → FileStatus → Bool
file_is s t = file_rank s == file_rank t

-- The rows that an insertion of a row may not meet, by the unique constraints.
abbrev pub document_clashes : KnowledgeDocument → KnowledgeDocument → Bool
document_clashes document d =
    str_eq d.id document.id
    || (str_eq d.knowledge_base_id document.knowledge_base_id && str_eq d.file_id document.file_id)

abbrev pub version_clashes : DocumentVersion → DocumentVersion → Bool
version_clashes version v =
    str_eq v.id version.id
    || (str_eq v.document_id version.document_id
        && (v.version_number == version.version_number
            || str_eq v.processing_fingerprint version.processing_fingerprint))

abbrev pub chunk_clashes : DocumentChunk → DocumentChunk → Bool
chunk_clashes chunk c =
    str_eq c.id chunk.id
    || (str_eq c.document_version_id chunk.document_version_id
        && c.chunk_index == chunk.chunk_index)

-- `add` and `flush` of a row; nothing for an `IntegrityError`.
abbrev pub add_row {ℓ} : {A : Type ℓ} → (A → A → Bool) → A → List A → Option (List A)
add_row clashes row rows = if any (clashes row) rows then none else some (rows ++ row ∷ [])
