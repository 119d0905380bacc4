-- ===== src/Transfer.antt =====
-- crates/mountmate-core/src/transfer.rs: rclone's upload queue, its VFS statistics and its running
-- transfers, joined into the snapshot that the application shows. The JSON value `id` is its text.
mod Defs
pub mod Claim
pub mod Names
pub mod Totals
pub mod Counts
unfoldable pub use Defs.*
