-- ===== src/Probes.antt =====
-- The programs of dos/pc98 that show what the device driver, the ports and the keyboard answer.
pub mod DeviceTest
pub mod ComStatus
pub mod ComOpen
pub mod Keys
pub mod Int14
pub mod Ends
pub mod Unlogged
