-- ===== src/Knowledge.antt =====
-- backend/app/knowledge: what of the knowledge base goes into a prompt.
pub mod Text
pub mod Budget
pub mod Context
pub mod Chunking
pub mod Tables
pub mod Files
pub mod Repository
pub mod Error
pub mod Fingerprint
pub mod Ingestion
pub mod Vectors
pub mod Indexing
pub mod Publishing
pub mod Retrieval
pub mod Tests
