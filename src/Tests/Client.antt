-- ===== src/Tests/Client.antt =====
-- The foreground client at a line on which a host answers PONG.
use pc98imebridge.Common.{
  ℕ, ◌-◌, ◌/◌, ◌≤◌, ◌≡◌, refl, true, some, [], ◌∷◌, Bytes, length, arith, get_or, if◌then◌else◌,
  ◌==◌,
}
use pc98imebridge.Protocol.Packet.{Packet}
use pc98imebridge.Serial.Port.{port_in}
use pc98imebridge.Serial.Line.{Line, default_config, no_error, wait_status, serial_read_byte}
use pc98imebridge.Client.Receive.{
  initially, stored_byte, received_byte, read_round, read_rounds, read_packet,
}
use pc98imebridge.Client.Receive.Bounds.{read_packet-ends, read_packet-short}

abbrev pong : Packet
pong = record { kind = 3; sequence = 1; payload = [] }

abbrev pong_bytes : Bytes
pong_bytes = 0x49 ∷ 0x44 ∷ 1 ∷ 3 ∷ 1 ∷ 0 ∷ 0 ∷ 0 ∷ 0xc4 ∷ 0x78 ∷ []

-- A status read and a data read for each byte of the answer, behind `sent` status reads of a write.
abbrev answering : ℕ → Line
answering sent = record {
  config = default_config;
  opened = true;
  error = no_error;
  ports = record {
    answer = λ count port. if port == 0x32 then 3 else get_or pong_bytes ((count - sent) / 2) 0;
    reads = 0;
    writes = [];
  };
}

pong_read : (read_packet (answering 0)).0 ≡ some pong_bytes
unfolding read_packet read_rounds read_round received_byte stored_byte serial_read_byte wait_status
    port_in
pong_read = refl

read_packet-short_example : length pong_bytes ≤ 128
read_packet-short_example = read_packet-short (answering 0) pong_bytes pong_read

read_packet-ends_example : read_rounds 1000 initially (answering 0) ≡ read_packet (answering 0)
read_packet-ends_example = read_packet-ends 1000 (answering 0) (omega arith)
