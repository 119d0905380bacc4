-- ===== src/Install.antt =====
-- crates/mountmate-core/src/update_install.rs and update_helper.rs: how an update takes the place
-- of the installation, and how it is taken back.
mod Types
mod Names
mod Directory
mod Check
mod Apply
mod Recover
pub mod HelperRun
pub mod Moves
pub mod Swap
pub mod Applied
pub mod Safe
pub mod Lengths
pub mod Distinct
pub mod Placed
pub mod Whole
pub mod Removal
pub mod Completed
pub mod Run
pub mod Healthy
pub mod Authorized
pub mod Started
pub mod Written
pub mod Planned
pub mod Recovered
pub mod Detect
pub mod Evidence
pub mod Detected
unfoldable pub use Types.*
unfoldable pub use Names.*
unfoldable pub use Directory.*
unfoldable pub use Check.*
unfoldable pub use Apply.*
unfoldable pub use Recover.*
