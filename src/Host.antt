-- ===== src/Host.antt =====
-- The Windows side of the protocol, host/ImeDosBridge: the packets (`Codec`), reading them from the
-- stream (`Stream`), and the session (`Session`); and a request with its answer between the two sides
-- (`Conversation`).
pub mod Codec
pub mod Stream
pub mod Session
pub mod Heard
pub mod Conversation
pub mod Typing
