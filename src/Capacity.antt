-- ===== src/Capacity.antt =====
-- crates/mountmate-core/src/capacity.rs: the capacity of a mount from a file system's usage, from
-- `rclone about` and from the tables that `lfs quota` and `df` print. Running the commands, their
-- timeouts and the JSON decoding are outside.
mod Defs
pub mod Tables
pub mod Consistent
pub mod Rows
pub mod Bounds
pub mod Query
unfoldable pub use Defs.*
