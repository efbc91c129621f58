-- ===== src/Host/Stream/Frames.antt =====
-- Packets of dos/common/protocol.c in the stream that the host reads.
use pc98imebridge.Common.{
  ℕ, ◌+◌, ◌≡◌, ◌≢◌, ◌≤◌, refl, sym, ap, ◌∙◌, some, [], ◌∷◌, ◌++◌, All, IsByte, Bytes, AreBytes,
  All-append, length, length-append, drop, take-append_eq, drop-append_eq, ltb, false, u8, ◌>>>◌,
  arith,
}
use pc98imebridge.Protocol.Crc.{crc16}
use pc98imebridge.Protocol.Packet.{Packet, build, parse, checksum_bytes}
use pc98imebridge.Protocol.Packet.RoundTrip.{
  IsMessage, parse-build, build-some, body, whole, length-whole, body-AreBytes,
}
use pc98imebridge.Host.Codec.{read_little, decode}
use pc98imebridge.Host.Codec.Agreement.{decode-parse}
use pc98imebridge.Host.Stream.{got, find_magic, read_rest, read_found, read_packet}

-- No byte of the noise is the first of the magic.
abbrev pub IsNoise : Bytes → Type 0
IsNoise noise = All (λ b. b ≢ 0x49) noise

find_magic-noise :
    (noise rest : Bytes) → IsNoise noise → find_magic (noise ++ 0x49 ∷ 0x44 ∷ rest) ≡ some rest
unfolding find_magic
find_magic-noise [] rest v = refl
find_magic-noise (a ∷ []) rest v = ground (arith, v.0)
find_magic-noise (a ∷ b ∷ noise) rest v = ground (arith, v.0, find_magic-noise (b ∷ noise) rest v.1)

-- A whole packet behind its magic, whose header gives its length.
read_rest-frame :
    (rest later : Bytes) (len : ℕ) (m : Packet)
    → length rest ≡ len + 8
    → len ≤ 512
    → read_little (rest ++ later) 4 ≡ len
    → decode (0x49 ∷ 0x44 ∷ rest) ≡ some m
    → read_rest (rest ++ later) ≡ got m later
unfolding read_rest
read_rest-frame rest later len m size small told decoded =
    let total = length-append rest later in
    let long : ltb (length (rest ++ later)) 6 ≡ false = ground (arith, total, size) in
    let fits : ltb 512 len ≡ false = ground (arith, small) in
    let there : ltb (length (rest ++ later)) (len + 8) ≡ false = ground (arith, total, size) in
    let front = take-append_eq (len + 8) rest later size in
    let left : got m (drop (read_little (rest ++ later) 4 + 8) (rest ++ later)) ≡ got m later =
      ap (got m)
        (ap (λ n. drop (n + 8) (rest ++ later)) told ∙ drop-append_eq (len + 8) rest later size) in
    rw told (rw long (rw fits (rw there (rw front (rw decoded left)))))

-- What stands behind the magic of a packet.
abbrev behind_magic : Packet → Bytes
behind_magic m =
    1
    ∷ m.kind
    ∷ u8 m.sequence
    ∷ u8 (m.sequence >>> 8)
    ∷ u8 (length m.payload)
    ∷ u8 (length m.payload >>> 8)
    ∷ (m.payload ++ checksum_bytes (crc16 (body m.kind m.sequence m.payload)))

whole-AreBytes : (m : Packet) → IsMessage m → AreBytes (whole m.kind m.sequence m.payload)
whole-AreBytes m v =
    All-append IsByte (body m.kind m.sequence m.payload)
      (checksum_bytes (crc16 (body m.kind m.sequence m.payload)))
      (body-AreBytes m.kind m.sequence m.payload v.kind_byte v.payload_bytes)
      (omega arith, (omega arith, tt))

read_packet-found :
    (stream rest : Bytes) → find_magic stream ≡ some rest → read_packet stream ≡ read_rest rest
unfolding read_packet
read_packet-found stream rest found = ap read_found found

-- Behind noise without the first byte of the magic, the host reads a message whose fields fit their C
-- types from the packet that `ime_packet_build` made of it, and leaves the bytes behind the packet.
pub read_packet-message :
    (noise packet later : Bytes) (m : Packet)
    → IsNoise noise
    → IsMessage m
    → build m.kind m.sequence m.payload ≡ some packet
    → read_packet (noise ++ (packet ++ later)) ≡ got m later
read_packet-message noise packet later m quiet v built =
    let (small, shape) = build-some m.kind m.sequence m.payload built in
    let decoded : decode (whole m.kind m.sequence m.payload) ≡ some m =
      decode-parse (whole m.kind m.sequence m.payload) (whole-AreBytes m v)
      ∙ ap parse (sym shape)
      ∙ parse-build m packet v built in
    let size = length-whole m.kind m.sequence m.payload in
    let found : find_magic (noise ++ (whole m.kind m.sequence m.payload ++ later))
        ≡ some (behind_magic m ++ later) =
      find_magic-noise noise (behind_magic m ++ later) quiet in
    rw shape (
      read_packet-found (noise ++ (whole m.kind m.sequence m.payload ++ later))
        (behind_magic m ++ later) found
      ∙ read_rest-frame (behind_magic m) later (length m.payload) m (omega (arith, size)) small
          (omega arith) decoded)
