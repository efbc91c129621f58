-- ===== src/Protocol/Crc.antt =====
-- `ime_crc16` of dos/common/protocol.c: CRC16 with polynomial A001h and initial value FFFFh.
pub mod Bounds
pub mod Injective
use pc98imebridge.Common.{ℕ, suc, zero, List, [], ◌∷◌, Bytes, has_bits, if◌then◌else◌, ◌>>>◌}
use pc98imebridge.Common.{bit_xor}

abbrev pub polynomial : ℕ
polynomial = 0xA001

abbrev pub initial : ℕ
initial = 0xFFFF

-- The body of the inner loop.
unfoldable pub crc_bit : ℕ → ℕ
crc_bit crc = if has_bits crc 1 then bit_xor (crc >>> 1) polynomial else crc >>> 1

-- The inner loop, with the rounds left.
unfoldable pub crc_bits : ℕ → ℕ → ℕ
unfolding crc_bit
crc_bits zero crc = crc
crc_bits (suc left) crc = crc_bits left (crc_bit crc)

-- The body of the outer loop.
unfoldable pub crc_byte : ℕ → ℕ → ℕ
unfolding crc_bits
crc_byte crc byte = crc_bits 8 (bit_xor crc byte)

unfoldable pub crc_from : ℕ → Bytes → ℕ
unfolding crc_byte
crc_from crc [] = crc
crc_from crc (byte ∷ bytes) = crc_from (crc_byte crc byte) bytes

unfoldable pub crc16 : Bytes → ℕ
unfolding crc_from
crc16 bytes = crc_from initial bytes
