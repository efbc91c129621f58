-- ===== src/Resident/Link.antt =====
-- `send_packet`, `reset_link`, `send_open_ime`, `close_ime`, `pc98_prepare_uninstall` and
-- `start_link` of dos/pc98/foreground.c.
pub mod Sends
use pc98imebridge.Common.{ℕ, ◌+◌, Bool, true, false, none, some, [], ◌∷◌, Bytes, if◌then◌else◌, u16}
use pc98imebridge.Protocol.Kind
use pc98imebridge.Protocol.Packet.{build}
use pc98imebridge.Serial.Line.{Line, serial_open, serial_close, serial_write, with_ports}
use pc98imebridge.Serial.Capture.{capture_begin, capture_end}
use pc98imebridge.Resident.State.{Resident, closed, hello_wait, is_closed, is_ready}

unfoldable pub send_line : ℕ → ℕ → Bytes → Line → Bool × Line
send_line kind seq payload line = elim (build kind seq payload) [
  | none ↦ (false, line)
  | some packet ↦ serial_write packet line
]

unfoldable pub send_packet : ℕ → ℕ → Bytes → Resident → Bool × Resident
send_packet kind seq payload s =
    let (sent, line) = send_line kind seq payload s.line in (sent, record s { line = line })

unfoldable pub reset_link : Resident → Resident
reset_link s =
    let (c, p) = capture_end s.captured s.line.ports in
    record s {
      captured = c;
      line = serial_close (with_ports s.line p);
      link_state = closed;
      ime_active = false;
      wait_ticks = 0;
      rx = [];
      rx_expected = 0;
    }

unfoldable pub send_open_ime : Resident → Resident
unfolding send_packet reset_link
send_open_ime s =
    let next : ℕ = u16 (s.sequence + 1) in
    let (sent, s1) =
      send_packet Kind.open_ime next [] (record s { sequence = next; open_sequence = next }) in
    if sent
    then record s1 { ime_active = true; open_pending = false; wait_ticks = 0 }
    else record (reset_link s1) { open_pending = true }

unfoldable pub close_ime : Resident → Resident
unfolding send_packet reset_link
close_ime s =
    let s1 =
      if is_ready s.link_state then (send_packet Kind.close_ime s.open_sequence [] s).1 else s in
    let s2 = if is_closed s1.link_state then s1 else reset_link s1 in
    record s2 {
      ime_enabled = false;
      open_pending = false;
      ime_active = false;
      pending_text = [];
      pending_offset = 0;
      pending_key_active = false;
      wait_ticks = 0;
    }

unfoldable pub prepare_uninstall : Resident → Resident
unfolding close_ime
prepare_uninstall s = close_ime s

-- Platform PC-98, client version 2, "CP932\0", 512 bytes of text, injection mode 2.
abbrev pub hello_payload : Bytes
hello_payload = 0x01 ∷ 0x02 ∷ b'C' ∷ b'P' ∷ b'9' ∷ b'3' ∷ b'2' ∷ 0 ∷ 0x00 ∷ 0x02 ∷ 0x02 ∷ []

-- `pc98_serial_open` always returns 1.
unfoldable pub start_link : Resident → Resident
unfolding send_packet reset_link
start_link s =
    let opened : Line = serial_open s.line in
    let (c, p) = capture_begin s.captured opened.ports in
    let next : ℕ = u16 (s.sequence + 1) in
    let (sent, s1) = send_packet Kind.hello next hello_payload (record s {
      direct_poll_reads = 0;
      line = with_ports opened p;
      captured = c;
      sequence = next;
    }) in
    if sent
    then record s1 { link_state = hello_wait; wait_ticks = 0; diagnostic_delay = 2 }
    else reset_link s1
