-- ===== src/Redis.antt =====
-- api/src/services/redis.ts.
pub mod Member
pub mod Server
pub mod Queue
pub mod DeadLetters
pub mod Connect
