-- ===== src/Mountpoint.antt =====
-- crates/mountmate-core/src/mountpoint.rs: where a server is mounted. The file system, the
-- assignment of drive letters and `Path::join` belong to the host and are a record of functions;
-- the Unicode table of alphanumeric characters is a parameter.
mod Paths
mod Custom
mod Allocator
pub mod Reserved
pub mod Folders
unfoldable pub use Paths.*
unfoldable pub use Custom.*
unfoldable pub use Allocator.*
