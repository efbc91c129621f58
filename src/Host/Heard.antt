-- ===== src/Host/Heard.antt =====
-- What the resident worker sends (`send_packet` of dos/pc98/foreground.c), as the host reads it.
use mathlib.Core.List.{map}
use pc98imebridge.Common.{
  ℕ, ◌≡◌, ◌≤◌, sym, ap, ap₂, ◌∙◌, Bool, true, List, [], ◌++◌, Bytes, length, append-nil, take,
  take-append, u8,
}
use pc98imebridge.Protocol.Packet.{Packet}
use pc98imebridge.Protocol.Packet.RoundTrip.{IsMessage, whole}
use pc98imebridge.Serial.Line.{Config, Line, serial_write}
use pc98imebridge.Serial.Line.Write.{serial_write-Wrote}
use pc98imebridge.Resident.Link.{send_line}
use pc98imebridge.Resident.Link.Sends.{build-whole, send_line-built}
use pc98imebridge.Host.Stream.{got, read_packet}
use pc98imebridge.Host.Stream.Frames.{read_packet-message}

-- What was put out on the data port between the two states of the line, the host reads as this
-- message, to its last byte.
pub record Heard (m : Packet) (before after : Line) : Type 0 where
  pub wire : Bytes
  pub written :
      after.ports.writes ≡ before.ports.writes ++ map (λ b. (before.config.data_port, u8 b)) wire
  pub heard : read_packet wire ≡ got m []

take-length : (bytes : Bytes) (n : ℕ) → n ≡ length bytes → take n bytes ≡ bytes
take-length bytes n e =
    ap (λ k. take k bytes) e
    ∙ ap (take (length bytes)) (sym (append-nil bytes))
    ∙ take-append bytes []

-- A write that succeeds puts all bytes out.
serial_write-all :
    (bytes : Bytes) (line : Line)
    → line.opened ≡ true
    → (serial_write bytes line).0 ≡ true
    → (serial_write bytes line).1.ports.writes
      ≡ line.ports.writes ++ map (λ b. (line.config.data_port, u8 b)) bytes
serial_write-all bytes line opened sent =
    let w = serial_write-Wrote bytes line opened in
    w.out
    ∙ ap (λ out. line.ports.writes ++ map (λ b. (line.config.data_port, u8 b)) out)
        (take-length bytes w.sent (w.complete sent))

-- A message that goes out on the open line is read by the host as it was sent.
pub send_line-Heard :
    (m : Packet) (line : Line)
    → line.opened ≡ true
    → IsMessage m
    → length m.payload ≤ 512
    → (send_line m.kind m.sequence m.payload line).0 ≡ true
    → Heard m line (send_line m.kind m.sequence m.payload line).1
send_line-Heard m line opened v small sent =
    let built = build-whole m small in
    let written = send_line-built m.kind m.sequence m.payload line built in
    record {
      wire = whole m.kind m.sequence m.payload;
      written =
          ap (λ (r : Bool × Line). r.1.ports.writes) written
          ∙ serial_write-all _ line opened (ap (λ (r : Bool × Line). r.0) (sym written) ∙ sent);
      heard = ap read_packet (sym (append-nil _)) ∙ read_packet-message [] _ [] m tt v built;
    }

-- The line before may be another one with the same writes and settings.
pub Heard-behind :
    {m : Packet} (before line after : Line)
    → line.ports.writes ≡ before.ports.writes
    → line.config ≡ before.config
    → Heard m line after
    → Heard m before after
Heard-behind before line after same_writes same_config h = record {
  wire = h.wire;
  written =
      h.written
      ∙ ap₂ (λ (out : List (ℕ × ℕ)) (c : Config). out ++ map (λ b. (c.data_port, u8 b)) h.wire)
          same_writes same_config;
  heard = h.heard;
}
