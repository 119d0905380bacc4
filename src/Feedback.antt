-- ===== src/Feedback.antt =====
-- crates/mountmate-app/src/mount_feedback.rs: what the application knows of each mounted session.
-- `Sessions` holds the map of sessions and their generations, `Transfers` the state of the
-- transfer polls of one session, `Progress` the smoothing of its totals.
mod Progress
mod Transfers
mod Sessions
pub mod Polls
pub mod Smooth
pub mod Stale
pub mod Lifecycle
unfoldable pub use Progress.*
unfoldable pub use Transfers.*
unfoldable pub use Sessions.*
