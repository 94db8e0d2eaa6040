-- ===== src/Ratelimit.antt =====
-- server/internal/ratelimit/ratelimit.go: at most so many requests of a class in any minute, for
-- each account, credential and address.
pub mod Window
pub mod Tables
pub mod Keys
pub mod Allow
pub mod Retry
pub mod Sliding
pub mod Reserve
mod Examples
