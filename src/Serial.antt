-- ===== src/Serial.antt =====
-- COM1 on the PC-98: the I/O ports (`Port`), the polled line of dos/pc98/serial_pc98.c (`Line`), its
-- settings file (`Settings`), and the receive buffer that the interrupt fills (`Capture`).
pub mod Port
pub mod Line
pub mod Debug
pub mod Settings
pub mod Capture
