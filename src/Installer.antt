-- ===== src/Installer.antt =====
-- The program that installs and removes the resident one: dos/pc98/tsr_main.c, and the vectors'
-- part of dos/pc98/tsr_hook.S.
pub mod Machine
pub mod Hooks
pub mod Start
pub mod Endings
pub mod Installed
pub mod Removal
pub mod Size
