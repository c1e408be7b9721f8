-- ===== src/Ai.antt =====
-- backend/app/ai: the gateways to the AI providers.
pub mod Provider
pub mod Gateway
pub mod Embedding
pub mod Tests
