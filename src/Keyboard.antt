-- ===== src/Keyboard.antt =====
-- Keyboard injection on the PC-98, dos/pc98/inject_bios_pc98.c: the BIOS data area (`Memory`), the
-- key words of a text (`Encode`), the key queue (`Queue`), and the two whole-text routines of the
-- foreground client (`Inject`).
pub mod Memory
pub mod Encode
pub mod Queue
pub mod Inject
