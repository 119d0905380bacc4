-- ===== src/Lib.antt =====
-- SSH MountMate mounts directories of SSH servers with rclone. This library models the parts of
-- the program that decide: in the crate mountmate-core what rclone's answers mean (transfers,
-- capacities), where a server is mounted, what a configuration file holds, which host keys and
-- which updates are trusted, how the saved connections change; in the crate mountmate-app what the
-- window shows of them (feedback of the mounts, program log, navigation).
--
-- How the parts interact. A connection (Model) has mount mappings; each becomes a mount target, to
-- which the allocator (Mountpoint) gives a path, and which rclone mounts. For each mount the
-- application asks rclone for its transfers (Transfer) and for its capacity (Capacity), on threads
-- that may answer late; the answers pass through the feedback of the mounts (Feedback), which
-- refuses those of a session that is over, and errors go to the program log (ProgramLog). The SSH
-- part (Ssh) reads and writes the files of OpenSSH, the storage (Storage) edits the list of saved
-- connections under a lock. The secrets of a connection move between the keyring and its record as
-- a transaction (Credential): what was written to the keyring is undone where a later step fails.
-- The update that is offered is the latest release of the channel (Releases). It is installed only
-- with a manifest that the update part (Manifest) accepts; a process of its own then puts it in
-- the place of the installation, starts it and waits until it reports that it is healthy, or puts
-- the installation back (Install).
--
-- Files and code:
--   Base          Boolean tests, lists, machine words, results: the language, no code of its own
--   Text          Rust's operations on texts, as lists of code points, and decimal numbers
--   Dict          hash maps with text keys, as association lists
--   Action        fallible operations on a state, for Credential and Install
--   Transfer      crates/mountmate-core/src/transfer.rs (build_transfer_snapshot, transfer_matches)
--   Capacity      crates/mountmate-core/src/capacity.rs (mounted_capacity, parse_lustre_quota,
--                 parse_filesystem_capacity, capacity_from_about)
--   Feedback      crates/mountmate-app/src/mount_feedback.rs (MountFeedbacks, TransferState,
--                 TransferProgressHistory)
--   Model         crates/mountmate-core/src/model.rs (ServerConfig, Settings, normalize_tags,
--                 normalize_port, sanitize_id)
--   Mountpoint    crates/mountmate-core/src/mountpoint.rs (MountpointAllocator, validate_custom_path)
--   Ssh           crates/mountmate-core/src/ssh.rs (known_hosts markers, quote_ssh_value,
--                 split_ssh_words, ResolvedSshConfig, choose_transport, pin_first_seen_with,
--                 the text of ensure_managed_include)
--   Storage       crates/mountmate-core/src/storage.rs (remove_servers, reorder_servers,
--                 update_server_preferences_batch)
--   Credential    crates/mountmate-core/src/credential.rs (SystemCredentialStore, replace_verified,
--                 prepare_server_to_system, prepare_server_to_obscure, CredentialMigration,
--                 delete_credential_references)
--   Manifest      crates/mountmate-core/src/update_manifest.rs (TrustedUpdateKeySet,
--                 verify_release_manifest)
--   Releases      crates/mountmate-core/src/update.rs (select_release_for_channel,
--                 release_candidates_for_channel, parse_version)
--   Install       crates/mountmate-core/src/update_install.rs (apply_prepared_update,
--                 rollback_applied_update, commit_applied_update, plan_transaction_paths,
--                 recover_previous_update, detect_install_layout),
--                 crates/mountmate-core/src/update_helper.rs
--                 (run_update_helper, write_update_plan, load_authenticated_plan,
--                 wait_for_parent_exit, complete_applied_update, rollback_and_relaunch)
--   ProgramLog    crates/mountmate-app/src/program_log.rs (publish, update, set_locale)
--   Navigation    crates/mountmate-app/src/navigation.rs
--   Tests         runs of definitions, and of each theorem at a concrete input
--
-- State and operations. A struct is a record and an enum a data type with the source's names. A
-- method with `&mut self` takes the state and returns the new one; a method that may fail returns
-- a `Result` or an `Option`, with `?` as the bind of a do block. A `String`, a `&str` and a path
-- are a list of code points; where the source counts bytes, the length in UTF-8 is computed. `u8`,
-- `u16` and `u64` are natural numbers whose saturating and wrapping operations are written out.
--
-- Bounds and fuel. All functions are structural recursions. The decimal print takes fuel that is
-- one above the number, which each digit divides by ten. The search for a folder has the 999 steps
-- of the loop over `1..1000`. The waits for the parent and for a new version take the list of what
-- their rounds see, and after the last one the deadline is over: every list is a run, so that no
-- fuel is missing.
--
-- Parameters. `f64` is a record of the operations that are used. The Unicode table of alphanumeric
-- characters, `str::to_lowercase`, `Path::join`, the answers of the file system and of the drive
-- assignments, the random part of an identifier, the clock, and what the crates for JSON, Base64,
-- HMAC, Ed25519, SemVer, URLs, SSH keys and the keyring compute are arguments of the definitions
-- that use them. Of the directory of an installation, what each entry holds is a parameter, with
-- what is read from it (file types, digests, layouts); each move may be refused by the system, at
-- a place and with an error that are arguments too.
--
-- Not modelled. The window itself (main.rs and its dialogs), the tray, translations and icons; the
-- processes of rclone, ssh and the helpers; file locks, atomic writes, permissions; the downloads
-- of updates; the registration with SAI. Of ssh.rs, the walk over included files, private keys and
-- host key scans; of mountpoint.rs, the queries of the operating system; of capacity.rs, the
-- commands that are run; of storage.rs, upsert, loading and the settings file; of
-- update_install.rs, the copying of a payload, its digests and where it lies in an archive; of
-- update_helper.rs, the atomic writing of files and the copy of the helper; of program_log.rs,
-- panes, selection and clipboard.
pub mod Base
pub mod Text
pub mod Dict
pub mod Action
pub mod Transfer
pub mod Feedback
pub mod Capacity
pub mod Model
pub mod Mountpoint
pub mod Ssh
pub mod Storage
pub mod Credential
pub mod Manifest
pub mod Releases
pub mod Install
pub mod ProgramLog
pub mod Navigation
pub mod Tests
