-- ===== src/Knowledge/Ingestion.antt =====
-- backend/app/services/knowledge_service.py, up to the indexing: bases, documents, and the versions with
-- their chunks. A method takes the tables and gives those that it leaves. `fails` says whether the database
-- refuses its transaction with an error that is no `IntegrityError`, and `others` is what other sessions
-- commit between its reads and its insertions. New ids are arguments. What the storage and the parsers make
-- of a file is a parameter.
use ai_knowledge_hub.Base.{
  ℕ, suc, String, Bool, true, false, not, ◌&&◌, Option, none, some, List, [], ◌∷◌, ◌==◌, is_blank,
  Result, ok, err, or_raise, ◌>>=◌, if◌then◌else◌,
}
use ai_knowledge_hub.Workflow.Payload.{Payload, Value, Items}
use ai_knowledge_hub.Knowledge.Chunking.{ChunkingConfig, ChunkDraft, ParsedBlock, chunk}
use ai_knowledge_hub.Knowledge.Error.{KnowledgeError}
use ai_knowledge_hub.Knowledge.Fingerprint.{
  EmbeddingProfile, fields_of, build_processing_fingerprint,
}
use ai_knowledge_hub.Knowledge.Tables.{
  VersionStatus, KnowledgeBase, KnowledgeDocument, DocumentVersion, DocumentChunk, FileResource, Db,
}
use ai_knowledge_hub.Knowledge.Files.{get_owned_file}
use ai_knowledge_hub.Knowledge.Repository.{
  get_owned_base, get_document_by_base_and_file, get_owned_document, create_document,
  create_version, create_chunks, get_version_by_fingerprint, get_next_version_number, list_chunks,
}
use ai_knowledge_hub.Knowledge.Repository

pub record ParsedDocument : Type 0 where
  pub blocks : List ParsedBlock
  pub parser_name : String
  pub parser_version : String

abbrev are_numbered : ℕ → List ParsedBlock → Bool
are_numbered n [] = true
are_numbered n (b ∷ blocks) = b.block_index == n && are_numbered (suc n) blocks

abbrev has_blocks : List ParsedBlock → Bool
has_blocks [] = false
has_blocks (_ ∷ _) = true

-- Whether `ParsedDocument.__post_init__` passes.
unfoldable pub is_parsed_document : ParsedDocument → Bool
unfolding is_blank
is_parsed_document d =
    has_blocks d.blocks
    && are_numbered 0 d.blocks
    && not (is_blank d.parser_name)
    && not (is_blank d.parser_version)

unfoldable pub create_base :
    String → ℕ → String → Bool → Db → Db × Result KnowledgeError KnowledgeBase
create_base id owner_id name fails db =
    let base : KnowledgeBase = (record { id = id; owner_id = owner_id; name = name }) in
    elim (if fails then none else Repository.create_base base db) [
      | none ↦ (db, err KnowledgeError.base_write)
      | some after ↦ (after, ok base)
    ]

-- After an `IntegrityError`: the document that another session has created.
abbrev pub existing_document : String → String → Db → Db × Result KnowledgeError KnowledgeDocument
existing_document knowledge_base_id file_id db = (
  db,
  or_raise (get_document_by_base_and_file knowledge_base_id file_id db)
      KnowledgeError.document_write,
)

abbrev pub insert_document :
    KnowledgeDocument → Bool → Db → Db × Result KnowledgeError KnowledgeDocument
insert_document document true later = (later, err KnowledgeError.document_write)
insert_document document false later = elim (create_document document later) [
  | none ↦ existing_document document.knowledge_base_id document.file_id later
  | some after ↦ (after, ok document)
]

abbrev pub new_document : String → String → String → KnowledgeDocument
new_document id knowledge_base_id file_id = record {
  id = id;
  knowledge_base_id = knowledge_base_id;
  file_id = file_id;
  active_version_id = none;
}

-- The reads of `add_file_to_base`: the base and the file.
abbrev pub addable : ℕ → String → String → Db → Result KnowledgeError (KnowledgeBase × FileResource)
addable owner_id knowledge_base_id file_id db = do
  base ← or_raise (get_owned_base knowledge_base_id owner_id db) KnowledgeError.base_not_found
  file ← or_raise (get_owned_file file_id owner_id db.files) KnowledgeError.file_not_found
  ok (base, file)

unfoldable pub add_file_to_base :
    ℕ
    → String
    → String
    → String
    → Bool
    → (Db → Db)
    → Db
    → Db × Result KnowledgeError KnowledgeDocument
unfolding get_owned_base get_owned_file get_document_by_base_and_file create_document
add_file_to_base owner_id knowledge_base_id file_id id fails others db =
    elim (addable owner_id knowledge_base_id file_id db) [
      | err e ↦ (db, err e)
      | ok found ↦ elim (get_document_by_base_and_file found.0.id found.1.id db) [
        | some existing ↦ (db, ok existing)
        | none ↦ insert_document (new_document id found.0.id found.1.id) fails (others db)
      ]
    ]

abbrev sources_of : List (ℕ × Payload) → Items
sources_of [] = Items.nil
sources_of ((index, locator) ∷ sources) =
    Items.cons
      (Value.object (
        fields_of (
          ("block_index", Value.number index)
          ∷ ("locator", Value.object (fields_of locator))
          ∷ [])))
      (sources_of sources)

-- The `source_locator` of a draft, as a dict.
abbrev draft_locator : ChunkDraft → Payload
draft_locator d =
    ("block_start", Value.number d.block_start)
    ∷ ("block_end", Value.number d.block_end)
    ∷ ("sources", Value.array (sources_of d.sources))
    ∷ []

-- `enumerate(drafts)` from an index on, with the ids of the new rows by their index.
abbrev pub chunks_from : (ℕ → String) → String → ℕ → List ChunkDraft → List DocumentChunk
chunks_from ids version_id index [] = []
chunks_from ids version_id index (d ∷ drafts) =
    (record {
      id = ids index;
      document_version_id = version_id;
      chunk_index = index;
      content = d.content;
      token_count = d.token_count;
      source_locator = draft_locator d;
    })
    ∷ chunks_from ids version_id (suc index) drafts

-- What identifies how a version was made.
pub record Processing : Type 0 where
  pub processing_fingerprint : String
  pub parser_name : String
  pub parser_version : String
  pub chunker_name : String
  pub chunker_config : Payload
  pub embedding_profile : String
  pub embedding_dimension : ℕ

pub record PersistIds : Type 0 where
  pub version_id : String
  pub chunk_id : ℕ → String

abbrev pub no_drafts : List ChunkDraft → Bool
no_drafts [] = true
no_drafts (_ ∷ _) = false

abbrev pub with_chunks : Db → DocumentVersion → DocumentVersion × List DocumentChunk
with_chunks db version = (version, list_chunks version.id db)

-- After an `IntegrityError`: the version that another session has created.
abbrev pub existing_version :
    String → String → Db → Db × Result KnowledgeError (DocumentVersion × List DocumentChunk)
existing_version document_id processing_fingerprint db = (
  db,
  elim (get_version_by_fingerprint document_id processing_fingerprint db) [
    | none ↦ err KnowledgeError.version_write
    | some version ↦ ok (with_chunks db version)
  ],
)

-- The transaction that inserts the version and its chunks.
abbrev pub insert_version :
    DocumentVersion
    → List DocumentChunk
    → Bool
    → Db
    → Db × Result KnowledgeError (DocumentVersion × List DocumentChunk)
insert_version version chunks true later = (later, err KnowledgeError.version_write)
insert_version version chunks false later = elim (create_version version later) [
  | none ↦ existing_version version.document_id version.processing_fingerprint later
  | some versioned ↦ elim (create_chunks chunks versioned) [
    | none ↦ existing_version version.document_id version.processing_fingerprint later
    | some after ↦ (after, ok (version, chunks))
  ]
]

abbrev pub new_version : String → String → Processing → Db → DocumentVersion
new_version id document_id p db = record {
  id = id;
  document_id = document_id;
  version_number = get_next_version_number document_id db;
  processing_fingerprint = p.processing_fingerprint;
  parser_name = p.parser_name;
  parser_version = p.parser_version;
  chunker_name = p.chunker_name;
  chunker_config = p.chunker_config;
  embedding_profile = p.embedding_profile;
  embedding_dimension = p.embedding_dimension;
  status = VersionStatus.pending;
  failure_reason = none;
}

unfoldable pub persist_chunks :
    ℕ
    → String
    → List ChunkDraft
    → Processing
    → PersistIds
    → Bool
    → (Db → Db)
    → Db
    → Db × Result KnowledgeError (DocumentVersion × List DocumentChunk)
unfolding get_owned_document get_version_by_fingerprint get_next_version_number create_version
    create_chunks list_chunks
persist_chunks owner_id document_id drafts p ids fails others db =
    elim (get_owned_document document_id owner_id db) [
      | none ↦ (db, err KnowledgeError.document_not_found)
      | some document ↦
          if no_drafts drafts
          then (db, err KnowledgeError.version_write)
          else elim (get_version_by_fingerprint document_id p.processing_fingerprint db) [
            | some version ↦ (db, ok (with_chunks db version))
            | none ↦
                insert_version (new_version ids.version_id document_id p db)
                  (chunks_from ids.chunk_id ids.version_id 0 drafts) fails (others db)
          ]
    ]

-- `_get_owned_ready_file`
unfoldable pub get_owned_ready_file : String → ℕ → Db → Result KnowledgeError FileResource
unfolding get_owned_document get_owned_file
get_owned_ready_file document_id owner_id db = do
  document ← or_raise (get_owned_document document_id owner_id db) KnowledgeError.document_not_found
  or_raise (get_owned_file document.file_id owner_id db.files) KnowledgeError.file_not_found

module _ (parse : FileResource → Result KnowledgeError ParsedDocument)
    (split : String → List String) (count : String → ℕ) (config : ChunkingConfig)
    (dumps : Payload → Option String) (sha256 : String → String) where
  abbrev chunk_document : ParsedDocument → Result KnowledgeError (List ChunkDraft)
  unfolding chunk
  chunk_document parsed = elim (chunk split count config parsed.blocks) [
    | err e ↦ err (KnowledgeError.chunking_failed e)
    | ok drafts ↦ ok drafts
  ]

  unfoldable pub parse_and_chunk : ℕ → String → Db → Result KnowledgeError (List ChunkDraft)
  unfolding get_owned_ready_file chunk_document
  parse_and_chunk owner_id document_id db = do
    file ← get_owned_ready_file document_id owner_id db
    parsed ← parse file
    chunk_document parsed

  -- `ChunkingConfig.fingerprint_payload`
  abbrev chunker_config : Payload
  chunker_config =
      ("max_tokens", Value.number config.max_tokens)
      ∷ ("overlap_tokens", Value.number config.overlap_tokens)
      ∷ []

  -- `prepare_document_version` up to the writing.
  unfoldable pub plan_version :
      ℕ → String → EmbeddingProfile → Db → Result KnowledgeError (List ChunkDraft × Processing)
  unfolding get_owned_ready_file chunk_document build_processing_fingerprint
  plan_version owner_id document_id profile db = do
    file ← get_owned_ready_file document_id owner_id db
    parsed ← parse file
    drafts ← chunk_document parsed
    processing_fingerprint ←
        build_processing_fingerprint dumps sha256 file.sha256 parsed.parser_name
          parsed.parser_version "structure-aware" chunker_config profile
    ok (
      drafts,
      (record {
        processing_fingerprint = processing_fingerprint;
        parser_name = parsed.parser_name;
        parser_version = parsed.parser_version;
        chunker_name = "structure-aware";
        chunker_config = chunker_config;
        embedding_profile = profile.alias;
        embedding_dimension = profile.dimension;
      }),
    )

  unfoldable pub prepare_document_version :
      ℕ
      → String
      → EmbeddingProfile
      → PersistIds
      → Bool
      → (Db → Db)
      → Db
      → Db × Result KnowledgeError (DocumentVersion × List DocumentChunk)
  unfolding plan_version persist_chunks
  prepare_document_version owner_id document_id profile ids fails others db =
      elim (plan_version owner_id document_id profile db) [
        | err e ↦ (db, err e)
        | ok plan ↦ persist_chunks owner_id document_id plan.0 plan.1 ids fails others db
      ]
