-- ===== src/Client.antt =====
-- The foreground client: dos/pc98/main.c and dos/pc98/ime98_control.c.
pub mod Receive
pub mod Exchange
pub mod Control
pub mod Log
pub mod Hello
pub mod Main
