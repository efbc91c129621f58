-- ===== src/Resident/Session/Steps.antt =====
-- The functions of the link and of receiving, and the flags of a session.
use pc98imebridge.Common.{
  ℕ, true, ◌≡◌, refl, [], ◌∷◌, Bytes, arith, Bool-cases, inl, inr, Option-cases, u16, ◌+◌, ◌++◌,
}
use pc98imebridge.Protocol.Packet.{Packet, build, parse}
use pc98imebridge.Serial.Line.{Line, serial_write, serial_close}
use pc98imebridge.Serial.Line.Write.{serial_write-Wrote, serial_write-closed}
use pc98imebridge.Serial.Capture.{capture_end}
use pc98imebridge.Resident.State.{Resident, hello_wait, ready}
use pc98imebridge.Resident.Link.{send_line, send_packet, reset_link, send_open_ime, close_ime}
use pc98imebridge.Resident.Receive.{
  become_ready, handle_message, handle_packet, accept_byte, after_store,
}
use pc98imebridge.Resident.Session.{IsSession}

serial_write-opened_kept :
    (bytes : Bytes) (line : Line) → (serial_write bytes line).1.opened ≡ line.opened
serial_write-opened_kept bytes line = elim (Bool-cases line.opened) [
  | inl up ↦ (serial_write-Wrote bytes line up).same_opened
  | inr down ↦ rw (serial_write-closed bytes line down) refl
]

pub send_line-opened :
    (kind seq : ℕ) (payload : Bytes) (line : Line)
    → (send_line kind seq payload line).1.opened ≡ line.opened
unfolding send_line
send_line-opened kind seq payload line = elim (Option-cases (build kind seq payload)) [
  | inl none_built ↦ rw (none_built, send_line) refl
  | inr (packet, built) ↦ rw (built, send_line) (serial_write-opened_kept packet line)
]

pub reset_link-IsSession :
    {s : Resident} → IsSession s → s.open_pending ≡ true → IsSession (reset_link s)
unfolding reset_link capture_end serial_close
reset_link-IsSession v e = ground arith

pub send_open_ime-IsSession :
    {s : Resident}
    → IsSession s
    → s.link_state ≡ ready
    → s.open_pending ≡ true
    → IsSession (send_open_ime s)
unfolding send_open_ime send_packet reset_link capture_end serial_close
send_open_ime-IsSession {s} v up waiting =
    ground (arith, send_line-opened 4 (u16 (s.sequence + 1)) [] s.line)

pub close_ime-IsSession : {s : Resident} → IsSession s → IsSession (close_ime s)
unfolding close_ime send_packet reset_link capture_end serial_close
close_ime-IsSession {s} v = ground (arith, send_line-opened 7 s.open_sequence [] s.line)

become_ready-IsSession :
    {s : Resident}
    → IsSession s
    → s.link_state ≡ hello_wait
    → IsSession (become_ready (record s { link_state = ready; wait_ticks = 0 }))
unfolding become_ready
become_ready-IsSession {s} v up =
    let now : Resident = record s { link_state = ready; wait_ticks = 0 } in
    let held : IsSession now = ground arith in
    ground (arith, send_open_ime-IsSession {s = now} held refl, held)

handle_message-IsSession :
    (m : Packet) {s : Resident} → IsSession s → IsSession (handle_message m s)
unfolding handle_message
handle_message-IsSession m {s} v = ground (arith, become_ready-IsSession v, close_ime-IsSession v)

handle_packet-IsSession : {s : Resident} → IsSession s → IsSession (handle_packet s)
unfolding handle_packet
handle_packet-IsSession {s} v = elim (Option-cases (parse s.rx)) [
  | inl bad ↦ rw (bad, handle_packet) v
  | inr (m, good) ↦ rw (good, handle_packet) (handle_message-IsSession m v)
]

-- The framing fields do not matter to the session.
reframe-IsSession :
    {s : Resident} (rx : Bytes) (expected : ℕ)
    → IsSession s
    → IsSession (record s { rx = rx; rx_expected = expected })
reframe-IsSession rx expected v = ground arith

pub accept_byte-IsSession :
    (value : ℕ) {s : Resident} → IsSession s → IsSession (accept_byte value s)
unfolding accept_byte
accept_byte-IsSession value {s} v =
    let (rx, expected) = after_store (s.rx ++ value ∷ []) s.rx_expected in
    ground (arith, handle_packet-IsSession (reframe-IsSession rx expected v))
