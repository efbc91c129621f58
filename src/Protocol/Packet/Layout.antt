-- ===== src/Protocol/Packet/Layout.antt =====
-- When `parse` accepts a packet, said field by field.
use pc98imebridge.Common.{◌+◌, ◌≤◌, ◌≡◌, some, Bytes, length, take, drop, arith}
use pc98imebridge.Protocol.Crc.{crc16}
use pc98imebridge.Protocol.Packet.{
  magic0, magic1, version, max_payload, Packet, byte_at, word_at, parse,
}

pub record IsAccepted (packet : Bytes) (message : Packet) : Type 0 where
  pub first : byte_at packet 0 ≡ magic0
  pub second : byte_at packet 1 ≡ magic1
  pub third : byte_at packet 2 ≡ version
  pub small : word_at packet 6 ≤ max_payload
  pub size : length packet ≡ word_at packet 6 + 10
  pub checksum : word_at packet (word_at packet 6 + 8) ≡ crc16 (take (word_at packet 6 + 8) packet)
  pub kind : message.kind ≡ byte_at packet 3
  pub sequence : message.sequence ≡ word_at packet 4
  pub payload : message.payload ≡ take (word_at packet 6) (drop 8 packet)

pub parse-IsAccepted :
    (packet : Bytes) {message : Packet} → parse packet ≡ some message → IsAccepted packet message
unfolding parse
parse-IsAccepted packet e = ground arith

pub IsAccepted-parse :
    (packet : Bytes) {message : Packet} → IsAccepted packet message → parse packet ≡ some message
unfolding parse
IsAccepted-parse packet a = ground arith
