-- ===== src/Knowledge/Publishing/Tests.antt =====
-- The theorems on additions and new versions at a small knowledge base.
use ai_knowledge_hub.Base.{false, List, [], ◌∷◌}
use ai_knowledge_hub.Workflow.Payload.{number}
use ai_knowledge_hub.Knowledge.Chunking.{ChunkDraft}
use ai_knowledge_hub.Knowledge.Tables.{Db}
use ai_knowledge_hub.Knowledge.Ingestion.{Processing, PersistIds, add_file_to_base}
use ai_knowledge_hub.Knowledge.Indexing.Tests.{start}
use ai_knowledge_hub.Knowledge.Publishing.Adding.{AddsFile, add_file_to_base-AddsFile}

abbrev empty : Db
empty = record start.db { documents = []; versions = []; chunks = [] }

add_file_to_base_example :
    AddsFile 1 "b" "f" (λ db. db) empty (add_file_to_base 1 "b" "f" "e" false (λ db. db) empty)
add_file_to_base_example = add_file_to_base-AddsFile 1 "b" "f" "e" false (λ db. db) empty

abbrev unsaved : Db
unsaved = record start.db { versions = []; chunks = [] }

abbrev drafts : List ChunkDraft
drafts =
    (record {
      content = "hello";
      token_count = 1;
      block_start = 0;
      block_end = 0;
      sources = (0, ("page", number 1) ∷ []) ∷ [];
    })
    ∷ []

abbrev processing : Processing
processing = record {
  processing_fingerprint = "p";
  parser_name = "text";
  parser_version = "1";
  chunker_name = "structure-aware";
  chunker_config = [];
  embedding_profile = "default";
  embedding_dimension = 2;
}

abbrev ids : PersistIds
ids = record { version_id = "w"; chunk_id = λ n. "x" }
