-- ===== src/Install/HelperRun.antt =====
-- update_helper.rs: the update is applied by a process of its own, which starts the new version,
-- waits until it reports that it is healthy, and takes the update back if it does not.
mod Types
mod Plan
mod Wait
mod Whole
mod Parent
mod Entry
unfoldable pub use Types.*
unfoldable pub use Plan.*
unfoldable pub use Wait.*
unfoldable pub use Whole.*
unfoldable pub use Parent.*
unfoldable pub use Entry.*
