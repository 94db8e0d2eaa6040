-- ===== src/Lib.antt =====
-- Slate: the state and the operations of the control plane, and what makes them correct.
--
-- Slate keeps lists (buckets) of tasks for an account, and lets the account's agents take tasks
-- up, run them and report on them in a task's conversation. The control plane (server/internal)
-- stores everything in PostgreSQL and serves people, agents and the command line over one API.
--
-- The parts, and the modules that model them:
--   * Entitlements (server/internal/entitlements/entitlements.go): module Entitlements. `resolve`,
--     `limits_for_plan` and the two plans are Resolve, LimitsForPlan and the plan catalogue.
--   * Rows, inputs and validators (server/internal/boards/types.go, and the end of
--     server/internal/boards/store.go): Boards.Types and Boards.Validation. The tables and the
--     locking reads that operations share (lockedBucket, lockedTaskForAgent,
--     activeAgentAssignment, accountLimitsForUpdate) are Boards.Database.
--   * The storage quota (server/internal/boards/storage_quota.go): Boards.Quota, with
--     lock_storage_quota and apply.
--   * Lists (server/internal/boards/store.go): Boards.Buckets and its children. CreateBucket,
--     UpdateBucket, DeleteBucket, SeedDefaultLists, ReorderBuckets and ensureInboxBucketID keep
--     their names in snake case; Boards.Buckets.History runs them in sequence.
--   * Tasks (server/internal/boards/store.go): Boards.Tasks. Claim has claimTask, Update has
--     updateTask and its callers, Create has createTask and its callers, Move has MoveTask,
--     Positions has the statements on the order of a list, Reorder has ReorderTasks and
--     ReorderSubtasks, Delete has DeleteTask, Entries has CreateTaskEntry, Accounting compares
--     the counters with the rows, and History runs the operations that change tasks in place in
--     sequence.
--   * Rate limits (server/internal/ratelimit/ratelimit.go): Ratelimit. Window has the active times
--     of a row and the wait, Keys has normalizedKeys, Tables the SQL statements, Allow has Allow,
--     Reserve the four operations on a credential's reservation. Sliding is the limiter without
--     tables that Allow is compared with.
--   * The task watcher (cli/cmd/slate): Watcher. Api has the errors of a read (api.go,
--     backoff.go), Backoff the waits (backoff.go), Inspect and Supervise have inspectRun and
--     superviseRun, Attempt has attempt, with the worktrees of gitrepo.go, and Dispatch the loop of run (watch.go); Registry has the
--     run registry and cleanRun (registry.go, runs.go).
--
-- Lists and tasks meet in one Database record, whose tables every operation reads and writes; task
-- and list operations share the quota's counters, and the account's limits come from Entitlements.
--
-- How the code is translated. An operation of the store is one transaction, so it is a function
-- from the database to an error or to an answer and a new database; where the source rolls back,
-- the function returns an error and no database. The clock, the ID that the database draws, the
-- rows that other transactions lock, the order in which Go visits a map, and SHA-256 are
-- arguments. A SELECT ... FOR UPDATE is a search of the table, an UPDATE is `update_where` with
-- the same condition and the same columns, a DELETE is `keep`. IDs are the canonical lower-case
-- texts in which the database prints them, and NULL is the empty text; a text that is no ID
-- matches no row. Answers are rows: the columns that a RETURNING clause leaves out are not taken
-- off. Integers are exact: counters and positions stay far below 64 bits under the plans' limits.
-- Errors of the database other than a missing row are not modelled, and row locks are what makes
-- each transaction run alone. The trigger that sets a task's owner from its list
-- (maintain_task_storage_usage of server/internal/migrations/046_lists_leave_boards.sql) is no part of
-- the statements: a row that is put into a list keeps its owner. Boards.Tasks.Move.Housed has what
-- the trigger would make of the rows.
--
-- The watcher acts on a world that it does not control. What the server answers, what processes,
-- git and files do, and when the operator interrupts are the fields of a Round, of Events or of an
-- Offer, so a theorem about all of them is one about every behaviour of that world. The jitter of a
-- wait is computed from the bytes that are drawn, with exact products where the source multiplies
-- floating-point numbers.
--
-- Fuel: the cascade of a deletion goes as deep as the table has rows, and a chain of distinct
-- parents is never longer.
--
-- Not modelled: queries that only read (pages, summaries, the inbox view), the HTTP handlers,
-- authentication, agents, the migrations, configuration and clean-up, the web application, and the
-- commands of the command line but the watcher's.
pub mod Prelude
pub mod Entitlements
pub mod Boards
pub mod Ratelimit
pub mod Watcher
