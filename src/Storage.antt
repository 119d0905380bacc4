-- ===== src/Storage.antt =====
-- crates/mountmate-core/src/storage.rs: the operations that change the list of saved connections.
-- Locks, reading and writing the file are parts of a world that an operation meets.
mod Edits
mod Preferences
pub mod Order
pub mod Fields
unfoldable pub use Edits.*
unfoldable pub use Preferences.*
