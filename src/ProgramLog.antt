-- ===== src/ProgramLog.antt =====
-- crates/mountmate-app/src/program_log.rs: the bounded log of the application. The clock is an
-- argument and `str::to_lowercase` a parameter; the text of the editor is what its last paste has
-- left. The split of the panes, the selection and the clipboard are not modelled.
mod Defs
pub mod Bounded
pub mod Repeats
unfoldable pub use Defs.*
