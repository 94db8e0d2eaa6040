-- ===== src/Watcher.antt =====
-- The task watcher of the command line (cli/cmd/slate): it offers an agent's queued tasks to
-- executors, watches their runs, and keeps or discards their worktrees.
pub mod Api
pub mod Backoff
pub mod Inspect
pub mod Supervise
pub mod Attempt
pub mod Registry
pub mod Dispatch
mod Examples
