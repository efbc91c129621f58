-- ===== src/Host/Codec/Agreement.antt =====
-- host/ImeDosBridge/Protocol.cs and dos/common/protocol.c against each other.
use pc98imebridge.Common.{
  ℕ, zero, suc, ◌+◌, ◌<◌, ◌≤◌, ◌≡◌, refl, sym, ap, ◌∙◌, Bool, false, not, ◌||◌, Option, none, some,
  [], ◌∷◌, ◌++◌, Bytes, AreBytes, All-take, IsByte, length, take, drop, ltb, ◌==◌, if◌then◌else◌,
  u16, ◌>>>◌, has_bits, bit_xor, dec_lt, ◌/◌, word-join, get_or-IsByte, arith,
}
use pc98imebridge.Common.Bits.{bit_xor-lt}
use pc98imebridge.Protocol.Crc.{polynomial, crc_bit, crc_bits, crc_byte, crc_from, crc16}
use pc98imebridge.Protocol.Crc.Bounds.{crc_bit-lt, crc_bits-lt}
use pc98imebridge.Protocol.Packet.{Packet, build, parse, byte_at, word_at, bad_header, max_payload}
use pc98imebridge.Protocol.Packet.RoundTrip.{IsMessage, body, body-AreBytes}
use pc98imebridge.Host.Codec.{
  checksum_bits, checksum_from, checksum, word_bytes, read_little, covered, encode, decode,
}

checksum_bit :
    (crc : ℕ)
    → crc < 65536
    → (if has_bits crc 1 then u16 (bit_xor (crc >>> 1) 0xA001) else u16 (crc >>> 1)) ≡ crc_bit crc
unfolding crc_bit
checksum_bit crc fits =
    ground (arith, bit_xor-lt 16 (crc / 2) polynomial (omega arith) (omega arith))

checksum_bits-crc_bits : (left crc : ℕ) → crc < 65536 → checksum_bits left crc ≡ crc_bits left crc
unfolding checksum_bits crc_bits
checksum_bits-crc_bits zero crc fits = refl
checksum_bits-crc_bits (suc left) crc fits =
    let below = crc_bit-lt crc fits in
    ap (checksum_bits left) (checksum_bit crc fits)
    ∙ checksum_bits-crc_bits left (crc_bit crc) (crc_bit-lt crc fits)

checksum_from-crc_from :
    (crc : ℕ) (wire : Bytes)
    → crc < 65536
    → AreBytes wire
    → checksum_from crc wire ≡ crc_from crc wire
unfolding checksum_from crc_from crc_byte
checksum_from-crc_from crc [] fits all = refl
checksum_from-crc_from crc (value ∷ wire) fits all =
    let mixed = bit_xor-lt 16 crc value fits (omega arith) in
    ap (λ c. checksum_from c wire) (checksum_bits-crc_bits 8 (bit_xor crc value) mixed)
    ∙ checksum_from-crc_from (crc_bits 8 (bit_xor crc value)) wire (crc_bits-lt 8 _ mixed) all.1

checksum-crc16 : (wire : Bytes) → AreBytes wire → checksum wire ≡ crc16 wire
unfolding crc16
checksum-crc16 wire all = checksum_from-crc_from 0xFFFF wire (omega arith) all

covered-body : (m : Packet) → length m.payload ≤ 512 → covered m ≡ body m.kind m.sequence m.payload
covered-body m small =
    let fits : u16 (length m.payload) ≡ length m.payload = omega arith in
    ap (λ n. 0x49 ∷ 0x44 ∷ 1 ∷ m.kind ∷ (word_bytes m.sequence ++ word_bytes n ++ m.payload)) fits

-- The host writes a message as `ime_packet_build` does, when its fields fit their types.
pub encode-build : (m : Packet) → IsMessage m → encode m ≡ build m.kind m.sequence m.payload
unfolding encode build
encode-build m v = elim (dec_lt 512 (length m.payload)) [
  | yes large ↦ ground (arith, large)
  | no small ↦
      let fits : ltb 512 (length m.payload) ≡ false = ground (arith, small) in
      let same = covered-body m (omega arith) in
      let sum =
        checksum-crc16 (body m.kind m.sequence m.payload)
          (body-AreBytes m.kind m.sequence m.payload v.kind_byte v.payload_bytes) in
      rw fits (
        ap (λ wire. some (wire ++ word_bytes (checksum wire))) same
        ∙ ap (λ crc. some (body m.kind m.sequence m.payload ++ word_bytes crc)) sum)
]

read_little-word_at : (wire : Bytes) (i : ℕ) → AreBytes wire → read_little wire i ≡ word_at wire i
read_little-word_at wire i all =
    sym (word-join (byte_at wire i) (byte_at wire (i + 1)) (get_or-IsByte wire i all))

-- Both test the length alike: behind the first test the sum does not wrap.
same_size :
    (size len : ℕ)
    → (ltb 512 len || not (size == 10 + len))
      ≡ (ltb max_payload len || not (size == u16 (len + 10)))
same_size size len = elim (dec_lt 512 len) [
  | yes large ↦ ground (arith, large)
  | no small ↦ let fits : u16 (len + 10) ≡ 10 + len = omega arith in rw fits refl
]

-- What is made of a packet once it is known whether its size is wrong.
abbrev sized : Bytes → ℕ → Bool → Option Packet
sized wire len wrong =
    if bad_header wire
    then none
    else if wrong
    then none
    else if not (word_at wire (len + 8) == crc16 (take (len + 8) wire))
    then none
    else some (record {
      kind = byte_at wire 3;
      sequence = word_at wire 4;
      payload = take len (drop 8 wire);
    })

-- The host reads a packet of bytes as `ime_packet_parse` does, and refuses the same ones.
pub decode-parse : (wire : Bytes) → AreBytes wire → decode wire ≡ parse wire
unfolding decode parse
decode-parse wire all =
    let length_read = read_little-word_at wire 6 all in
    let sequence_read = read_little-word_at wire 4 all in
    let len : ℕ = word_at wire 6 in
    let turned : 8 + len ≡ len + 8 = omega arith in
    let sum_read = read_little-word_at wire (len + 8) all in
    let sum = checksum-crc16 (take (len + 8) wire) (All-take IsByte (len + 8) wire all) in
    rw length_read (
      rw sequence_read
        (rw turned (rw sum_read (rw sum (ap (sized wire len) (same_size (length wire) len))))))
