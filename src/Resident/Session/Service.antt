-- ===== src/Resident/Session/Service.antt =====
-- The steps of `pc98_service_foreground` and the flags of a session.
use pc98imebridge.Common.{
  ℕ, zero, suc, true, ◌≡◌, sym, subst, [], Option-cases, arith, inl, inr, u16, ◌+◌,
}
use pc98imebridge.Serial.Line.{Line, with_ports, serial_open, serial_close, serial_try_read_byte}
use pc98imebridge.Serial.Port.{port_in}
use pc98imebridge.Serial.Capture.{Capture, capture_begin, capture_end, try_read_byte}
use pc98imebridge.Keyboard.Queue.{enqueue_word, discard_hotkey_space}
use pc98imebridge.Keyboard.Encode.{encode_key}
use pc98imebridge.Resident.State.{Resident, closed}
use pc98imebridge.Resident.Link.{send_packet, reset_link, start_link, hello_payload}
use pc98imebridge.Resident.Receive.{poll_loop, poll_transport}
use pc98imebridge.Resident.Receive.Poll.{
  from_capture, from_line, from_neither, poll_loop-captured, poll_loop-direct, poll_loop-idle,
}
use pc98imebridge.Resident.Deliver.{
  text_loop, acknowledge_text, inject_pending_text, inject_pending_key,
}
use pc98imebridge.Resident.Hotkey.{poll_hotkey, toggle_ime_hotkey, service_returned_hotkey}
use pc98imebridge.Resident.Service.{
  serve_hotkey, serve_transport, serve_text, serve_key, serve_open, serve_timer, service_foreground,
}
use pc98imebridge.Resident.Session.{IsSession}
use pc98imebridge.Resident.Session.Steps.{
  send_line-opened, send_open_ime-IsSession, close_ime-IsSession, accept_byte-IsSession,
}

try_read_byte-kept :
    (c : Capture)
    → ((try_read_byte c).1.capture ≡ c.capture)
      × ((try_read_byte c).1.pic_mask_saved ≡ c.pic_mask_saved)
unfolding try_read_byte
try_read_byte-kept c = ground arith

serial_try_read_byte-opened : (line : Line) → (serial_try_read_byte line).1.opened ≡ line.opened
unfolding serial_try_read_byte port_in
serial_try_read_byte-opened line = ground arith

poll_loop-IsSession : (budget : ℕ) {s : Resident} → IsSession s → IsSession (poll_loop budget s)
unfolding poll_loop
poll_loop-IsSession zero v = v
poll_loop-IsSession (suc budget) {s} v =
    let v1 : IsSession (from_capture s) = ground (arith, try_read_byte-kept s.captured) in
    let kept = serial_try_read_byte-opened s.line in
    let v2 : IsSession (from_line s) = ground (arith, try_read_byte-kept s.captured, kept) in
    let v3 : IsSession (from_neither s) = ground (arith, try_read_byte-kept s.captured, kept) in
    elim (Option-cases (try_read_byte s.captured).0) [
      | inr (value, e) ↦
          subst IsSession (sym (poll_loop-captured budget s value e))
            (poll_loop-IsSession budget (accept_byte-IsSession value v1))
      | inl e ↦ elim (Option-cases (serial_try_read_byte s.line).0) [
        | inr (value, d) ↦
            subst IsSession (sym (poll_loop-direct budget s value e d))
              (poll_loop-IsSession budget (accept_byte-IsSession value v2))
        | inl d ↦ subst IsSession (sym (poll_loop-idle budget s e d)) v3
      ]
    ]

text_loop-IsSession : (budget : ℕ) {s : Resident} → IsSession s → IsSession (text_loop budget s).1
unfolding text_loop
text_loop-IsSession zero v = v
text_loop-IsSession (suc budget) {s} v =
    let (key, input) = encode_key s.pending_text s.pending_offset in
    let m = (enqueue_word key s.memory).1 in
    let v1 : IsSession (record s { memory = m; pending_offset = input + 1 }) = ground arith in
    ground (arith, text_loop-IsSession budget v1)

acknowledge_text-IsSession : {s : Resident} → IsSession s → IsSession (acknowledge_text s)
unfolding acknowledge_text send_packet
acknowledge_text-IsSession {s} v = ground (arith, send_line-opened 6 s.pending_sequence [] s.line)

inject_pending_text-IsSession : {s : Resident} → IsSession s → IsSession (inject_pending_text s)
unfolding inject_pending_text
inject_pending_text-IsSession {s} v =
    let looped = text_loop-IsSession 16 v in
    ground (arith, looped, acknowledge_text-IsSession looped)

inject_pending_key-IsSession : {s : Resident} → IsSession s → IsSession (inject_pending_key s)
unfolding inject_pending_key send_packet
inject_pending_key-IsSession {s} v = ground (arith, send_line-opened 9 s.pending_sequence [] s.line)

toggle_ime_hotkey-IsSession : {s : Resident} → IsSession s → IsSession (toggle_ime_hotkey s)
unfolding toggle_ime_hotkey
toggle_ime_hotkey-IsSession v = ground (arith, close_ime-IsSession v)

poll_hotkey-IsSession : {s : Resident} → IsSession s → IsSession (poll_hotkey s).1
unfolding poll_hotkey
poll_hotkey-IsSession v = ground arith

serve_hotkey-IsSession : {s : Resident} → IsSession s → IsSession (serve_hotkey s)
unfolding serve_hotkey
serve_hotkey-IsSession {s} v =
    let polled = poll_hotkey-IsSession v in
    let m = (discard_hotkey_space (poll_hotkey s).1.memory).1 in
    let taken : IsSession (record (poll_hotkey s).1 { memory = m }) = ground (arith, polled) in
    ground (arith, polled, taken, toggle_ime_hotkey-IsSession taken)

start_link-IsSession :
    {s : Resident}
    → IsSession s
    → s.open_pending ≡ true
    → s.link_state ≡ closed
    → IsSession (start_link s)
unfolding start_link send_packet reset_link capture_begin capture_end serial_open serial_close
start_link-IsSession {s} v waiting down =
    let opened : Line = serial_open s.line in
    let line : Line = with_ports opened (capture_begin s.captured opened.ports).1 in
    ground (arith, send_line-opened 1 (u16 (s.sequence + 1)) hello_payload line)

serve_open-IsSession : {s : Resident} → IsSession s → IsSession (serve_open s)
unfolding serve_open
serve_open-IsSession v = ground (arith, send_open_ime-IsSession v, start_link-IsSession v)

pub serve_timer-IsSession : {s : Resident} → IsSession s → IsSession (serve_timer s)
unfolding serve_timer reset_link capture_end serial_close
serve_timer-IsSession v = ground arith

serve_transport-IsSession : {s : Resident} → IsSession s → IsSession (serve_transport s)
unfolding serve_transport poll_transport
serve_transport-IsSession v = ground (arith, poll_loop-IsSession 32 v)

serve_text-IsSession : {s : Resident} → IsSession s → IsSession (serve_text s)
unfolding serve_text
serve_text-IsSession v = ground (arith, inject_pending_text-IsSession v)

serve_key-IsSession : {s : Resident} → IsSession s → IsSession (serve_key s)
unfolding serve_key
serve_key-IsSession v = ground (arith, inject_pending_key-IsSession v)

-- Whatever the ports, the keyboard and the host do, a call of the service entry keeps the flags in
-- agreement with the hardware session where they agree before: COM1 is open and captured exactly
-- while a link is up.
pub service_foreground-IsSession : {s : Resident} → IsSession s → IsSession (service_foreground s)
unfolding service_foreground
service_foreground-IsSession v = serve_timer-IsSession (
    serve_open-IsSession (
      serve_key-IsSession
        (serve_text-IsSession (serve_transport-IsSession (serve_hotkey-IsSession v)))))

-- The entry that the blocking keyboard read calls keeps the flags in agreement with the hardware
-- session where they agree before.
pub service_returned_hotkey-IsSession :
    {s : Resident} → IsSession s → IsSession (service_returned_hotkey s).1
unfolding service_returned_hotkey
service_returned_hotkey-IsSession {s} v =
    let polled = poll_hotkey-IsSession v in
    ground (arith, polled, toggle_ime_hotkey-IsSession polled)
