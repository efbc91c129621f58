-- ===== src/Protocol/Packet/RoundTrip.antt =====
-- `ime_packet_build` and `ime_packet_parse` against each other.
use pc98imebridge.Common.{
  word-join, word-split, get_or-IsByte, ℕ, suc, ◌+◌, ◌*◌, ◌≤◌, ◌<◌, ◌≡◌, refl, ◌∙◌, ap, ap₂, sym,
  some, [], ◌∷◌, ◌++◌, Bytes, AreBytes, length, take, drop, u8, bit_or, ◌<<<◌, ◌>>>◌, arith,
  length-append, length-take, take-append_eq, get_or-append_eq, take-append, take_last_two,
}
use pc98imebridge.Protocol.Crc.{crc16}
use pc98imebridge.Protocol.Crc.Bounds.{crc16-lt}
use pc98imebridge.Protocol.Packet.{
  Packet, byte_at, word_at, header_and_payload, checksum_bytes, max_payload, build, parse,
}
use pc98imebridge.Protocol.Packet.Layout.{IsAccepted, parse-IsAccepted, IsAccepted-parse}

-- The fields that C's types allow.
pub record IsMessage (message : Packet) : Type 0 where
  pub kind_byte : message.kind < 256
  pub sequence_word : message.sequence < 65536
  pub payload_bytes : AreBytes message.payload

module _ (kind sequence : ℕ) (payload : Bytes) where
  abbrev pub body : Bytes
  body = header_and_payload kind sequence payload

  abbrev pub whole : Bytes
  whole = body ++ checksum_bytes (crc16 body)

  length-body : length body ≡ length payload + 8
  length-body = omega arith

  pub length-whole : length whole ≡ length payload + 10
  length-whole = omega (arith, length-append body (checksum_bytes (crc16 body)))

  pub body-AreBytes : kind < 256 → AreBytes payload → AreBytes body
  body-AreBytes hk hp = ground arith

  word_at-whole : kind < 256 → AreBytes payload → word_at whole (length payload + 8) ≡ crc16 body
  word_at-whole hk hp =
      let sums : Bytes = checksum_bytes (crc16 body) in
      ap₂ (λ lo hi. bit_or lo (hi <<< 8))
        (get_or-append_eq (length payload + 8) 0 body sums 0 (omega arith))
        (get_or-append_eq (length payload + 8 + 1) 1 body sums 0 (omega arith))
      ∙ word-split (crc16 body) (crc16-lt body (body-AreBytes hk hp))

  take-whole : take (length payload + 8) whole ≡ body
  take-whole = take-append_eq (length payload + 8) body (checksum_bytes (crc16 body)) length-body

  whole-IsAccepted :
      kind < 256
      → sequence < 65536
      → AreBytes payload
      → length payload ≤ max_payload
      → IsAccepted whole (record { kind = kind; sequence = sequence; payload = payload })
  whole-IsAccepted hk hs hp hn =
      let len : word_at whole 6 ≡ length payload = word-split (length payload) (omega arith) in
      record {
        first = refl;
        second = refl;
        third = refl;
        small = rw len hn;
        size = rw len length-whole;
        checksum = rw (len, take-whole) (word_at-whole hk hp);
        kind = refl;
        sequence = sym (word-split sequence hs);
        payload = rw len (sym (take-append payload (checksum_bytes (crc16 body))));
      }

pub build-some :
    (kind sequence : ℕ) (payload : Bytes) {packet : Bytes}
    → build kind sequence payload ≡ some packet
    → (length payload ≤ max_payload) × (packet ≡ whole kind sequence payload)
unfolding build
build-some kind sequence payload e = ground arith

build-fits :
    (kind sequence : ℕ) (payload : Bytes)
    → length payload ≤ max_payload
    → build kind sequence payload ≡ some (whole kind sequence payload)
unfolding build
build-fits kind sequence payload h = ground arith

-- What `ime_packet_build` makes of a message whose fields fit their C types, `ime_packet_parse` gives
-- back.
pub parse-build :
    (message : Packet) (packet : Bytes)
    → IsMessage message
    → build message.kind message.sequence message.payload ≡ some packet
    → parse packet ≡ some message
parse-build m packet ok built =
    let (small, shape) = build-some m.kind m.sequence m.payload built in
    rw shape (
      IsAccepted-parse (whole m.kind m.sequence m.payload) (
        whole-IsAccepted m.kind m.sequence m.payload ok.kind_byte ok.sequence_word ok.payload_bytes
          small))

header_of_accepted :
    (packet : Bytes) (message : Packet)
    → AreBytes packet
    → IsAccepted packet message
    → header_and_payload message.kind message.sequence message.payload
      ≡ take (word_at packet 6 + 8) packet
header_of_accepted (a0 ∷ a1 ∷ a2 ∷ a3 ∷ a4 ∷ a5 ∷ a6 ∷ a7 ∷ rest) m all a =
    let n : ℕ = bit_or a6 (a7 <<< 8) in
    let past : n + 8 ≡ suc (suc (suc (suc (suc (suc (suc (suc n))))))) = omega arith in
    let size : length m.payload ≡ n = ap length a.payload ∙ length-take n rest ∙ omega arith in
    let join4 : bit_or a4 (a5 <<< 8) ≡ a4 + a5 * 256 = word-join a4 a5 (omega arith) in
    let join6 : n ≡ a6 + a7 * 256 = word-join a6 a7 (omega arith) in
    let seq_lo : u8 m.sequence ≡ a4 = omega (arith, a.sequence) in
    let seq_hi : u8 (m.sequence >>> 8) ≡ a5 = omega (arith, a.sequence) in
    let len_lo : u8 (length m.payload) ≡ a6 = omega arith in
    let len_hi : u8 (length m.payload >>> 8) ≡ a7 = omega arith in
    rw past (cc (a.first, a.second, a.third, a.kind, a.payload, seq_lo, seq_hi, len_lo, len_hi))
header_of_accepted packet m all a = absurd (omega (arith, a.size))

checksum_of_accepted :
    (packet : Bytes) (message : Packet)
    → AreBytes packet
    → IsAccepted packet message
    → checksum_bytes (crc16 (take (word_at packet 6 + 8) packet))
      ≡ byte_at packet (word_at packet 6 + 8) ∷ byte_at packet (word_at packet 6 + 8 + 1) ∷ []
checksum_of_accepted packet m all a =
    let k : ℕ = word_at packet 6 + 8 in
    let joined : word_at packet k ≡ byte_at packet k + byte_at packet (k + 1) * 256 =
      word-join (byte_at packet k) (byte_at packet (k + 1)) (get_or-IsByte packet k all) in
    let lo : byte_at packet k < 256 = get_or-IsByte packet k all in
    let hi : byte_at packet (k + 1) < 256 = get_or-IsByte packet (k + 1) all in
    rw (← a.checksum) (ap₂ (λ x y. x ∷ y ∷ []) (omega arith) (omega arith))

-- A packet of bytes that `ime_packet_parse` accepts is the one that `ime_packet_build` makes of
-- the message that it returns.
pub build-parse :
    (packet : Bytes) (message : Packet)
    → AreBytes packet
    → parse packet ≡ some message
    → build message.kind message.sequence message.payload ≡ some packet
build-parse packet m all e =
    let a : IsAccepted packet m = parse-IsAccepted packet e in
    let n : ℕ = word_at packet 6 in
    let header = header_of_accepted packet m all a in
    let sums = checksum_of_accepted packet m all a in
    let rebuilt : whole m.kind m.sequence m.payload ≡ packet =
      ap (λ (b : Bytes). b ++ checksum_bytes (crc16 b)) header
      ∙ ap (λ (c : Bytes). take (n + 8) packet ++ c) sums
      ∙ take_last_two (n + 8) packet 0 (a.size ∙ omega arith) in
    let size : length m.payload ≤ max_payload =
      rw a.payload (omega (arith, length-take n (drop 8 packet), a.small)) in
    build-fits m.kind m.sequence m.payload size ∙ ap some rebuilt
