-- ===== src/Protocol/Packet.antt =====
-- `ime_packet_build` and `ime_packet_parse` of dos/common/protocol.c.
pub mod RoundTrip
pub mod Corruption
mod Layout
pub mod Fields
use pc98imebridge.Common.{
  ℕ, ◌+◌, Bool, not, ◌||◌, List, [], ◌∷◌, ◌++◌, Option, none, some, Bytes, length, get_or, take,
  drop, ltb, ◌==◌, if◌then◌else◌, u8, u16, ◌<<<◌, ◌>>>◌, bit_or,
}
use pc98imebridge.Protocol.Crc.{crc16}

abbrev pub magic0 : ℕ
magic0 = 0x49

abbrev pub magic1 : ℕ
magic1 = 0x44

abbrev pub version : ℕ
version = 1

abbrev pub max_payload : ℕ
max_payload = 512

-- What `ime_packet_parse` hands out through its pointers.
pub record Packet : Type 0 where
  pub kind : ℕ
  pub sequence : ℕ
  pub payload : Bytes

-- The bytes that the checksum covers.
abbrev pub header_and_payload : ℕ → ℕ → Bytes → Bytes
header_and_payload kind sequence payload =
    magic0
    ∷ magic1
    ∷ version
    ∷ kind
    ∷ u8 sequence
    ∷ u8 (sequence >>> 8)
    ∷ u8 (length payload)
    ∷ u8 (length payload >>> 8)
    ∷ payload

abbrev pub checksum_bytes : ℕ → Bytes
checksum_bytes crc = u8 crc ∷ u8 (crc >>> 8) ∷ []

-- `none` is the return value 0; otherwise the first bytes of `out`, as many as are returned.
unfoldable pub build : ℕ → ℕ → Bytes → Option Bytes
build kind sequence payload =
    if ltb max_payload (length payload)
    then none
    else let body = header_and_payload kind sequence payload in
      some (body ++ checksum_bytes (crc16 body))

-- A byte of the packet. Every index that `parse` uses is in range once the test before it passed.
abbrev pub byte_at : Bytes → ℕ → ℕ
byte_at packet i = get_or packet i 0

-- Two bytes, the low one first.
abbrev pub word_at : Bytes → ℕ → ℕ
word_at packet i = bit_or (byte_at packet i) (byte_at packet (i + 1) <<< 8)

abbrev pub bad_header : Bytes → Bool
bad_header packet =
    ltb (length packet) 10
    || not (byte_at packet 0 == magic0)
    || not (byte_at packet 1 == magic1)
    || not (byte_at packet 2 == version)

-- `none` is the return value 0.
unfoldable pub parse : Bytes → Option Packet
parse packet =
    if bad_header packet
    then none
    else let len = word_at packet 6 in
      if ltb max_payload len || not (length packet == u16 (len + 10))
      then none
      else if not (word_at packet (len + 8) == crc16 (take (len + 8) packet))
      then none
      else some (record {
        kind = byte_at packet 3;
        sequence = word_at packet 4;
        payload = take len (drop 8 packet);
      })
