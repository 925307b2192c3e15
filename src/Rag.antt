-- ===== src/Rag.antt =====
-- Retrieval: agent/rag/rag.go.
pub mod Split
pub mod Store
