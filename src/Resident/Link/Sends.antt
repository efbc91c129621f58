-- ===== src/Resident/Link/Sends.antt =====
-- `send_packet` on a line whose transmitter is always ready.
use pc98imebridge.Common.{
  ℕ, ◌≤◌, ◌≡◌, sym, ap, subst, ◌∙◌, Bool, true, some, Bytes, length, has_bits, u8, arith,
}
use pc98imebridge.Protocol.Packet.{Packet, build}
use pc98imebridge.Protocol.Packet.RoundTrip.{whole}
use pc98imebridge.Serial.Line.{Config, Line, serial_write}
use pc98imebridge.Serial.Line.Write.{AlwaysReady, serial_write-ready, serial_write-Wrote}
use pc98imebridge.Resident.Link.{send_line}

pub build-whole :
    (m : Packet)
    → length m.payload ≤ 512
    → build m.kind m.sequence m.payload ≡ some (whole m.kind m.sequence m.payload)
unfolding build
build-whole m small = ground (arith, small)

pub send_line-built :
    (kind sequence : ℕ) (payload : Bytes) {packet : Bytes} (line : Line)
    → build kind sequence payload ≡ some packet
    → send_line kind sequence payload line ≡ serial_write packet line
unfolding send_line
send_line-built kind sequence payload line built = ground (arith, built)

-- The packet went out, on a line that is otherwise as it was, but for its ports.
pub record Sent (line : Line) (r : Bool × Line) : Type 0 where
  pub succeeded : r.0 ≡ true
  pub opened : r.1.opened ≡ true
  pub same_config : r.1.config ≡ line.config
  pub same_answer : r.1.ports.answer ≡ line.ports.answer

pub send_line-Sent :
    (m : Packet) (line : Line)
    → length m.payload ≤ 512
    → line.opened ≡ true
    → AlwaysReady line
    → Sent line (send_line m.kind m.sequence m.payload line)
send_line-Sent m line small opened ready =
    let built = build-whole m small in
    let w = serial_write-Wrote (whole m.kind m.sequence m.payload) line opened in
    subst (Sent line) (sym (send_line-built m.kind m.sequence m.payload line built)) (record {
      succeeded = serial_write-ready _ line opened ready;
      opened = w.same_opened ∙ opened;
      same_config = w.same_config;
      same_answer = w.same_answer;
    })

-- What the line answers stays true of a line with the same settings and the same answers.
pub kept_answers :
    (mask : ℕ) (flag : Bool) (line line' : Line)
    → line'.config ≡ line.config
    → line'.ports.answer ≡ line.ports.answer
    → ((k : ℕ) → has_bits (u8 (line.ports.answer k line.config.status_port)) mask ≡ flag)
    → (k : ℕ) → has_bits (u8 (line'.ports.answer k line'.config.status_port)) mask ≡ flag
kept_answers mask flag line line' config answer all k =
    ap (λ (c : Config). has_bits (u8 (line'.ports.answer k c.status_port)) mask) config
    ∙ ap (λ (f : ℕ → ℕ → ℕ). has_bits (u8 (f k line.config.status_port)) mask) answer
    ∙ all k
