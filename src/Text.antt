-- ===== src/Text.antt =====
-- Rust's text operations that the program uses, over code points. A `String`, a `&str` and a path
-- are a `Text`. What depends on the Unicode tables beyond white space (alphanumeric characters,
-- lower case) is a parameter where the program calls it.
mod Defs
mod Equality
pub mod Trim
pub mod Decimal
pub mod Affixes
unfoldable pub use Defs.*
pub use Equality.*
