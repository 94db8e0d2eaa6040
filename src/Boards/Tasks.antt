-- ===== src/Boards/Tasks.antt =====
-- The task operations of server/internal/boards/store.go. The time of a transaction, the ID that
-- the database draws for a new row, and SHA-256 are arguments.
pub mod Positions
pub mod Claim
pub mod Update
pub mod Delete
pub mod Move
pub mod Reorder
pub mod Create
pub mod Entries
pub mod Accounting
pub mod History
use slate_do.Prelude.{String, Bool, ◌&&◌, Option, ◌==◌, string_eq}
use slate_do.Boards.Types.{Task}

-- `WHERE owner_user_id = $1 AND id = $2`
abbrev pub named : String → String → Task → Bool
named user_id id t = t.owner_user_id == user_id && t.id == id

abbrev pub owned : String → Task → Bool
owned user_id t = t.owner_user_id == user_id
