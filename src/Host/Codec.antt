-- ===== src/Host/Codec.antt =====
-- `Packet` of host/ImeDosBridge/Protocol.cs.
pub mod Agreement
use pc98imebridge.Common.{
  ℕ, zero, suc, ◌+◌, ◌*◌, Bool, not, ◌||◌, Option, none, some, [], ◌∷◌, ◌++◌, Bytes, length, get_or,
  take, drop, ltb, ◌==◌, if◌then◌else◌, u8, u16, ◌>>>◌, has_bits, bit_xor,
}
use pc98imebridge.Protocol.Packet.{Packet}

-- The inner loop of `Crc16`, with the rounds left.
unfoldable pub checksum_bits : ℕ → ℕ → ℕ
checksum_bits zero crc = crc
checksum_bits (suc left) crc =
    checksum_bits left
      (if has_bits crc 1 then u16 (bit_xor (crc >>> 1) 0xA001) else u16 (crc >>> 1))

unfoldable pub checksum_from : ℕ → Bytes → ℕ
checksum_from crc [] = crc
checksum_from crc (value ∷ wire) = checksum_from (checksum_bits 8 (bit_xor crc value)) wire

-- `Crc16`
abbrev pub checksum : Bytes → ℕ
checksum wire = checksum_from 0xFFFF wire

-- `BinaryPrimitives.WriteUInt16LittleEndian`
abbrev pub word_bytes : ℕ → Bytes
word_bytes value = u8 value ∷ u8 (value >>> 8) ∷ []

-- `BinaryPrimitives.ReadUInt16LittleEndian`, of the two bytes from `i` on.
abbrev pub read_little : Bytes → ℕ → ℕ
read_little wire i = get_or wire i 0 + get_or wire (i + 1) 0 * 256

-- What the checksum covers.
abbrev pub covered : Packet → Bytes
covered p =
    0x49
    ∷ 0x44
    ∷ 1
    ∷ p.kind
    ∷ (word_bytes p.sequence ++ word_bytes (u16 (length p.payload)) ++ p.payload)

-- `Encode`; `none` is the exception.
unfoldable pub encode : Packet → Option Bytes
encode p =
    if ltb 512 (length p.payload)
    then none
    else some (covered p ++ word_bytes (checksum (covered p)))

-- `Decode`; `none` is one of the three exceptions.
unfoldable pub decode : Bytes → Option Packet
decode wire =
    if ltb (length wire) 10
      || not (get_or wire 0 0 == 0x49)
      || not (get_or wire 1 0 == 0x44)
      || not (get_or wire 2 0 == 1)
    then none
    else let len = read_little wire 6 in
      if ltb 512 len || not (length wire == 10 + len)
      then none
      else if not (read_little wire (8 + len) == checksum (take (8 + len) wire))
      then none
      else some (record {
        kind = get_or wire 3 0;
        sequence = read_little wire 4;
        payload = take len (drop 8 wire);
      })
