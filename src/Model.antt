-- ===== src/Model.antt =====
-- crates/mountmate-core/src/model.rs: connections with their mount mappings, the settings and
-- their migration. The Unicode table of alphanumeric characters and the random part of a generated
-- identifier are parameters.
mod Types
mod Server
mod Defaults
pub mod Tags
pub mod Ports
pub mod Targets
pub mod Historic
pub mod Ruled
pub mod Stepped
pub mod Migration
pub mod Identifiers
unfoldable pub use Types.*
unfoldable pub use Server.*
unfoldable pub use Defaults.*
