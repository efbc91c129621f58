-- ===== src/Resident.antt =====
-- The resident worker, dos/pc98/foreground.c, in the release build, where the debug calls are empty
-- macros (dos/pc98/debug_serial_pc98.h): the state (`State`), opening and closing the link
-- (`Link`), receiving (`Receive`), delivering to the key queue (`Deliver`), the hotkey (`Hotkey`),
-- and the service entry that runs them all (`Service`); `Diagnostics` is what a debug build tells.
pub mod State
pub mod Link
pub mod Receive
pub mod Deliver
pub mod Hotkey
pub mod Service
pub mod Session
pub mod Safety
pub mod Diagnostics
