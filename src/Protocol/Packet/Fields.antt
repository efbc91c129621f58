-- ===== src/Protocol/Packet/Fields.antt =====
-- The fields that `ime_packet_parse` hands out fit their C types.
use pc98imebridge.Common.{
  ℕ, ◌+◌, ◌≤◌, ◌<◌, ◌≡◌, sym, subst, some, Bytes, AreBytes, IsByte, length, drop, arith, word-join,
  get_or-IsByte, length-take, All-take, All-drop,
}
use pc98imebridge.Protocol.Packet.{Packet, byte_at, word_at, max_payload, parse}
use pc98imebridge.Protocol.Packet.Layout.{IsAccepted, parse-IsAccepted}
use pc98imebridge.Protocol.Packet.RoundTrip.{IsMessage}

word_at-lt : (p : Bytes) (i : ℕ) → AreBytes p → word_at p i < 65536
word_at-lt p i all = omega (
  arith,
  word-join (byte_at p i) (byte_at p (i + 1)) (get_or-IsByte p i all),
  get_or-IsByte p i all,
  get_or-IsByte p (i + 1) all,
)

-- A message from a packet of bytes has fields that fit, and a payload of at most 512 bytes.
pub parse-IsMessage :
    (packet : Bytes) (m : Packet)
    → AreBytes packet
    → parse packet ≡ some m
    → IsMessage m × (length m.payload ≤ max_payload)
parse-IsMessage packet m all e =
    let a : IsAccepted packet m = parse-IsAccepted packet e in
    let n : ℕ = word_at packet 6 in
    (
      record {
        kind_byte = subst (λ k. k < 256) (sym a.kind) (get_or-IsByte packet 3 all);
        sequence_word = subst (λ k. k < 65536) (sym a.sequence) (word_at-lt packet 4 all);
        payload_bytes =
            subst AreBytes (sym a.payload)
              (All-take IsByte n (drop 8 packet) (All-drop IsByte 8 packet all));
      },
      subst (λ p. length p ≤ max_payload) (sym a.payload)
          (omega (arith, length-take n (drop 8 packet), a.small)),
    )
