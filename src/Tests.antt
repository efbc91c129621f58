-- ===== src/Tests.antt =====
-- The theorems at concrete inputs: packets of the protocol, and a worker in the middle of a session.
pub mod Data
mod Wire
mod Keys
mod Client
mod Lines
mod Settings
mod Worker
mod Main
mod System
mod Installer
mod Driver
mod Host
