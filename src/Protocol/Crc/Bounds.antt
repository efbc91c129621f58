-- ===== src/Protocol/Crc/Bounds.antt =====
-- The checksum is a 16-bit word.
use pc98imebridge.Common.{ℕ, zero, suc, ◌/◌, ◌<◌, [], ◌∷◌, Bytes, AreBytes, arith}
use pc98imebridge.Common.Bits.{bit_xor-lt}
use pc98imebridge.Protocol.Crc.{polynomial, crc_bit, crc_bits, crc_byte, crc_from, crc16}

pub crc_bit-lt : (crc : ℕ) → crc < 65536 → crc_bit crc < 65536
unfolding crc_bit
crc_bit-lt crc h = ground (arith, bit_xor-lt 16 (crc / 2) polynomial (omega arith) (omega arith))

pub crc_bits-lt : (left crc : ℕ) → crc < 65536 → crc_bits left crc < 65536
unfolding crc_bits
crc_bits-lt zero crc h = h
crc_bits-lt (suc left) crc h = crc_bits-lt left (crc_bit crc) (crc_bit-lt crc h)

pub crc_byte-lt : (crc byte : ℕ) → crc < 65536 → byte < 256 → crc_byte crc byte < 65536
unfolding crc_byte
crc_byte-lt crc byte h b = crc_bits-lt 8 _ (bit_xor-lt 16 crc byte h (omega arith))

pub crc_from-lt :
    (crc : ℕ) (bytes : Bytes) → crc < 65536 → AreBytes bytes → crc_from crc bytes < 65536
unfolding crc_from
crc_from-lt crc [] h all = h
crc_from-lt crc (byte ∷ bytes) h all =
    crc_from-lt (crc_byte crc byte) bytes (crc_byte-lt crc byte h all.0) all.1

pub crc16-lt : (bytes : Bytes) → AreBytes bytes → crc16 bytes < 65536
unfolding crc16
crc16-lt bytes all = crc_from-lt _ bytes (omega arith) all
