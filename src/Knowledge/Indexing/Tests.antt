-- ===== src/Knowledge/Indexing/Tests.antt =====
-- The theorems on indexing, publishing and searching at a small knowledge base.
use ai_knowledge_hub.Base.{
  ℕ, ◌≤◌, ◌≡◌, refl, String, Bool, true, false, not, ◌&&◌, ◌||◌, none, some, List, [], ◌∷◌, ◌++◌,
  map, any, all, keep, length, str_eq, arith, Result, ok, All, is_blank, filter_map,
}
use ai_knowledge_hub.Ai.Provider.{ProviderError}
use ai_knowledge_hub.Ai.Gateway.{Wait, finished}
use ai_knowledge_hub.Ai.Embedding.{EmbeddingModelConfig, PreparedEmbeddingCall}
use ai_knowledge_hub.Knowledge.Error.{VectorError}
use ai_knowledge_hub.Knowledge.Tables.{
  VersionStatus, FileStatus, KnowledgeBase, KnowledgeDocument, DocumentVersion, DocumentChunk,
  FileResource, Db,
}
use ai_knowledge_hub.Knowledge.Repository.{
  get_owned_document, get_owned_base, list_active_chunks_by_ids, complete_processing_version,
  promote_active_version,
}
use ai_knowledge_hub.Knowledge.Repository
use ai_knowledge_hub.Knowledge.Vectors.{
  VectorPoint, VectorStore, is_point_of, has_chunk_id, batches,
}
use ai_knowledge_hub.Knowledge.Indexing.{
  KnowledgeIndexingComponents, claim_pending_version, complete_version_indexing, World,
}
use ai_knowledge_hub.Knowledge.Indexing.Run.{index_document_version}
use ai_knowledge_hub.Knowledge.Indexing.Batches.{concat, IsBatch, batches-parts}
use ai_knowledge_hub.Knowledge.Indexing.Settling.{
  Keeps, IsSettled, chunk_ids, claimed, index_document_version-IsSettled,
}
use ai_knowledge_hub.Knowledge.Publishing.{IsPublished, active_number}
use ai_knowledge_hub.Knowledge.Publishing.System.{Reach, Reach-IsPublished, Reach-active_number}
use ai_knowledge_hub.Knowledge.Context.{RetrievalHit}
use ai_knowledge_hub.Knowledge.Retrieval.{VectorSearchCandidate, search_knowledge}
use ai_knowledge_hub.Knowledge.Retrieval.Hits.{is_served, search_knowledge-is_served}

abbrev numbers : List ℕ
numbers = 1 ∷ 2 ∷ 3 ∷ []

batches_example : (concat (batches 2 numbers) ≡ numbers) × All (IsBatch 2) (batches 2 numbers)
batches_example = batches-parts 2 numbers (omega arith)

-- A vector store in memory: the version and the chunk of each point.
abbrev Points : Type 0
Points = List (String × String)

abbrev holds : Points → String → String → Bool
holds s version_id chunk_id =
    any (λ (p : String × String). str_eq p.0 version_id && str_eq p.1 chunk_id) s

abbrev stored : List (VectorPoint (List ℕ)) → Points
stored points = map (λ p. (p.document_version_id, p.chunk_id)) points

abbrev without : String → Points → Points
without version_id s = keep (λ (p : String × String). not (str_eq p.0 version_id)) s

pub holds-stored :
    (points : List (VectorPoint (List ℕ))) (s : Points) (version_id chunk_id : String)
    → all (is_point_of version_id) points ≡ true
    → holds (stored points ++ s) version_id chunk_id
      ≡ (any (has_chunk_id chunk_id) points || holds s version_id chunk_id)
holds-stored [] s version_id chunk_id h = refl
holds-stored (p ∷ points) s version_id chunk_id h =
    ground (arith, holds-stored points s version_id chunk_id)

pub holds-without :
    (version_id : String) (s : Points) (chunk_id : String)
    → holds (without version_id s) version_id chunk_id ≡ false
holds-without version_id [] chunk_id = refl
holds-without version_id (p ∷ s) chunk_id = ground (arith, holds-without version_id s chunk_id)

abbrev memory : VectorStore (List ℕ)
memory = record {
  Store = Points;
  holds = holds;
  upsert = λ points s. (stored points ++ s, none);
  delete_by_document_version = λ version_id s. (without version_id s, none);
  holds-upsert = λ points s version_id chunk_id h k. holds-stored points s version_id chunk_id h;
  holds-delete = λ version_id s chunk_id h. holds-without version_id s chunk_id;
}

abbrev base : KnowledgeBase
base = record { id = "b"; owner_id = 1; name = "notes" }

abbrev document : KnowledgeDocument
document = record { id = "d"; knowledge_base_id = "b"; file_id = "f"; active_version_id = none }

abbrev version_in : VersionStatus → DocumentVersion
version_in status = record {
  id = "v";
  document_id = "d";
  version_number = 1;
  processing_fingerprint = "p";
  parser_name = "text";
  parser_version = "1";
  chunker_name = "structure-aware";
  chunker_config = [];
  embedding_profile = "default";
  embedding_dimension = 2;
  status = status;
  failure_reason = none;
}

abbrev first_chunk : DocumentChunk
first_chunk = record {
  id = "c";
  document_version_id = "v";
  chunk_index = 0;
  content = "hello";
  token_count = 1;
  source_locator = [];
}

abbrev file : FileResource
file = record {
  id = "f";
  owner_id = 1;
  storage_provider = "local";
  bucket = "files";
  object_key = "users/1/f";
  original_filename = "notes.txt";
  content_type = "text/plain";
  size_bytes = 5;
  sha256 = "digest";
  status = FileStatus.ready;
  failure_reason = none;
  deleted_at = none;
}

abbrev tables : VersionStatus → Db
tables status = record {
  bases = base ∷ [];
  documents = document ∷ [];
  versions = version_in status ∷ [];
  chunks = first_chunk ∷ [];
  files = file ∷ [];
}

Reach-IsPublished_example :
    IsPublished (complete_version_indexing 1 "d" "v" false (tables VersionStatus.processing)).0
Reach-IsPublished_example =
    Reach-IsPublished (tables VersionStatus.processing)
      (complete_version_indexing 1 "d" "v" false (tables VersionStatus.processing)).0 refl
      (Reach.completes 1 "d" "v" false Reach.begins)

Reach-active_number_example :
    active_number "d" (tables VersionStatus.processing)
    ≤ active_number "d"
        (complete_version_indexing 1 "d" "v" false (tables VersionStatus.processing)).0
Reach-active_number_example =
    Reach-active_number (tables VersionStatus.processing)
      (complete_version_indexing 1 "d" "v" false (tables VersionStatus.processing)).0 "d"
      (Reach.completes 1 "d" "v" false Reach.begins)

abbrev embedding_model : EmbeddingModelConfig
embedding_model = record {
  provider_key = "local";
  provider_model = "embed";
  tokenizer_encoding = "cl100k_base";
  dimension = 2;
}

abbrev embedder : PreparedEmbeddingCall → Wait (Result ProviderError (List (List ℕ)))
embedder call = finished (ok ((1 ∷ 2 ∷ []) ∷ []))

abbrev pub components : KnowledgeIndexingComponents ℕ
components = record {
  is_finite = λ n. true;
  model_configs = λ alias. some embedding_model;
  default_model_alias = none;
  alias = "default";
  embedding_batch_size = 8;
  vector_upsert_batch_size = 8;
  provider = λ n. embedder;
  vector_store = memory;
}

abbrev State : Type 0
State = World components

abbrev pub start : State
start = record { db = tables VersionStatus.pending; vectors = [] }

abbrev pub alone : ℕ → State → State
alone n w = w

abbrev accepted : ℕ → Bool
accepted n = false

alone-Keeps : Keeps components alone 1 "d" "v"
alone-Keeps = record { processing = λ n w h. h; available = λ n w h. h; vectors = λ n w c. refl }

version_claimed :
    (claim_pending_version 1 "d" "v" false (tables VersionStatus.pending)).1
    ≡ ok (some (version_in VersionStatus.processing))
unfolding claim_pending_version get_owned_document Repository.claim_pending_version
version_claimed = refl

document_found : get_owned_document "d" 1 (tables VersionStatus.pending) ≡ some document
unfolding get_owned_document
document_found = refl

index_document_version-IsSettled_example :
    IsSettled components "v"
      (chunk_ids components "v" (claimed components alone accepted 1 refl "d" "v" start))
      (index_document_version components alone accepted 1 "d" "v" start).0
      (index_document_version components alone accepted 1 "d" "v" start).1
index_document_version-IsSettled_example =
    index_document_version-IsSettled components alone accepted 1 refl "d" "v" start document
      (version_in VersionStatus.processing) alone-Keeps document_found refl (λ c. refl)
      version_claimed

-- The tables once the version is active.
abbrev published : Db
published = record {
  bases = base ∷ [];
  documents = (record document { active_version_id = some "v" }) ∷ [];
  versions = version_in VersionStatus.indexed ∷ [];
  chunks = first_chunk ∷ [];
  files = file ∷ [];
}

abbrev search : List ℕ → String → ℕ → ℕ → Result VectorError (List (VectorSearchCandidate ℕ))
search vector base_id limit threshold =
    ok ((record { chunk_id = "c"; score = 9 }) ∷ (record { chunk_id = "old"; score = 8 }) ∷ [])

abbrev hits : List (RetrievalHit × ℕ)
hits =
    (
      (record {
        chunk_id = "c";
        document_id = "d";
        file_id = "f";
        content = "hello";
        source_locator = [];
      }),
      9,
    )
    ∷ []

searched :
    search_knowledge
      (λ (n : ℕ). true)
      (λ alias. some embedding_model)
      none
      "default"
      embedder
      search
      3
      2
      5
      1
      "b"
      " hello "
      published
      published
    ≡ ok hits
unfolding search_knowledge is_blank filter_map
searched = refl

search_knowledge_example :
    (b : KnowledgeBase) × (get_owned_base "b" 1 published ≡ some b)
    × (length hits ≤ 3)
    × (all (λ (h : RetrievalHit × ℕ). is_served published b.id h.0) hits ≡ true)
search_knowledge_example =
    search_knowledge-is_served (λ (n : ℕ). true) (λ alias. some embedding_model) none "default"
      embedder search 3 2 5 1 "b" " hello " published published refl searched
