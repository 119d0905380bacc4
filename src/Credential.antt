-- ===== src/Credential.antt =====
-- crates/mountmate-core/src/credential.rs: secrets in the credential store of the system, and the
-- migration of a connection between this store and secrets that rclone obscures.
mod Types
mod Changes
mod Migrations
mod Commits
pub mod Faithful
pub mod Undo
pub mod Replaced
pub mod Migrated
pub mod Atomic
pub mod Removed
pub mod Restored
pub mod SystemStore
pub mod Retired
unfoldable pub use Types.*
unfoldable pub use Changes.*
unfoldable pub use Migrations.*
unfoldable pub use Commits.*
