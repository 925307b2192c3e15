-- ===== src/RateLimit.antt =====
-- agent/ratelimit: windowed counters, the lease store and the limiter in front of it.
pub mod Counter
pub mod Types
pub mod MemoryStore
