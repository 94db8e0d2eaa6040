-- ===== src/Boards.antt =====
-- server/internal/boards: lists (buckets), tasks and their conversation entries.
pub mod Types
pub mod Validation
pub mod Database
pub mod Quota
pub mod Buckets
pub mod Tasks
mod Examples
