-- ===== src/Protocol.antt =====
-- The packet protocol shared by the DOS programs and the host: dos/include/protocol.h and
-- dos/common/protocol.c. `Crc` is the checksum, `Packet` builds and parses packets.
pub mod Crc
pub mod Packet
pub mod Kind
