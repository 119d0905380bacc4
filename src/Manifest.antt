-- ===== src/Manifest.antt =====
-- crates/mountmate-core/src/update_manifest.rs: the registry of trusted update keys and the
-- verification of a signed release manifest. JSON, Base64, UTF-8, Ed25519, SHA-256, SemVer and URLs
-- are parameters: functions of a record.
mod Types
mod Registry
mod Verify
pub mod Trust
pub mod Published
pub mod Release
unfoldable pub use Types.*
unfoldable pub use Registry.*
unfoldable pub use Verify.*
