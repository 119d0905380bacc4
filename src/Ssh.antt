-- ===== src/Ssh.antt =====
-- crates/mountmate-core/src/ssh.rs: the spellings of a host in known_hosts, the words of the SSH
-- configuration, the choice of the transport and the pinning of host keys. HMAC, Base64, the parser
-- of public keys and the file system are parameters.
mod Hosts
mod Words
mod Config
mod Pin
mod Include
pub mod Markers
pub mod Quoting
pub mod Pinned
pub mod Included
unfoldable pub use Hosts.*
unfoldable pub use Words.*
unfoldable pub use Config.*
unfoldable pub use Pin.*
unfoldable pub use Include.*
