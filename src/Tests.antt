-- ===== src/Tests.antt =====
-- Runs of the definitions and of the theorems at concrete inputs.
mod Values
mod Feedback
mod Transfer
mod Capacity
mod Credential
mod Model
mod Mountpoint
mod Ssh
mod Storage
mod Manifest
mod Program
mod Releases
mod Install
