-- ===== src/Mcp.antt =====
-- The connection pool of agent/mcp/pool.go.
pub mod Pool
