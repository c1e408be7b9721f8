-- ===== src/Knowledge/Error.antt =====
-- backend/app/knowledge/exceptions.py, and the other exceptions that the knowledge service raises or
-- lets through.
use ai_knowledge_hub.Ai.Provider.{AiError}
use ai_knowledge_hub.Knowledge.Chunking.{ChunkingError}

-- What the vector store raises.
pub data VectorError : Type 0 where
  input unavailable operation configuration : VectorError

pub data KnowledgeError : Type 0 where
  base_not_found base_write document_not_found document_write version_not_found version_retry
        version_write retrieval_failed retrieval_unavailable vector_cleanup_required file_not_found
        parsing_failed fingerprint_input value_error :
      KnowledgeError
  vector_failed : VectorError → KnowledgeError
  ai_failed : AiError → KnowledgeError
  chunking_failed : ChunkingError → KnowledgeError
