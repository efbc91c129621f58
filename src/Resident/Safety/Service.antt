-- ===== src/Resident/Safety/Service.antt =====
-- The steps of `pc98_service_foreground` and the bounds of the state.
use pc98imebridge.Common.{
  ℕ, zero, suc, ◌≡◌, ◌≤◌, ◌<◌, sym, subst, [], AreBytes, length, get_or-IsByte, Option-cases, arith,
  some, inl, inr, u16, ◌+◌, dec_lt, if◌then◌else◌, ◌==◌, ◌-◌,
}
use pc98imebridge.Serial.Line.{Line, with_ports, serial_open, serial_try_read_byte}
use pc98imebridge.Serial.Port.{port_in}
use pc98imebridge.Serial.Capture.{Capture, capture_begin, try_read_byte}
use pc98imebridge.Serial.Capture.Ring.{IsRing, try_read_byte_refines}
use pc98imebridge.Keyboard.Memory.{Memory}
use pc98imebridge.Keyboard.Queue.{enqueue_word, discard_hotkey_space}
use pc98imebridge.Keyboard.Queue.Ring.{IsQueue}
use pc98imebridge.Keyboard.Queue.Refine.{enqueue_word_refines}
use pc98imebridge.Keyboard.Queue.Removal.{discard_hotkey_space_refines}
use pc98imebridge.Keyboard.Inject.Whole.{encode_key-lt}
use pc98imebridge.Keyboard.Encode.{encode_key}
use pc98imebridge.Keyboard.Encode.Keys.{encode_key_lem}
use pc98imebridge.Resident.State.{Resident}
use pc98imebridge.Resident.Link.{start_link, hello_payload}
use pc98imebridge.Resident.Receive.{poll_loop, poll_transport}
use pc98imebridge.Resident.Receive.Poll.{
  from_capture, from_line, from_neither, poll_loop-captured, poll_loop-direct, poll_loop-idle,
}
use pc98imebridge.Resident.Deliver.{
  text_loop, acknowledge_text, inject_pending_text, inject_pending_key,
}
use pc98imebridge.Resident.Hotkey.{poll_hotkey, toggle_ime_hotkey, service_returned_hotkey}
use pc98imebridge.Resident.Service.{
  serve_hotkey, serve_transport, serve_text, serve_key, serve_open, serve_timer, service_foreground,
}
use pc98imebridge.Resident.Safety.{IsSafe}
use pc98imebridge.Resident.Safety.Steps.{
  reset_link-IsSafe, send_packet-IsSafe, send_open_ime-IsSafe, close_ime-IsSafe, accept_byte-IsSafe,
  capture_begin-IsRing,
}

-- A buffer read changes the read position only, and gives a byte.
try_read_byte-fits :
    (c : Capture)
    → IsRing c
    → AreBytes c.buffer
    → IsRing (try_read_byte c).1 × AreBytes (try_read_byte c).1.buffer
try_read_byte-fits c r all =
    let (same, r', _, _) = try_read_byte_refines c r in
    (r', unfold try_read_byte in ground (arith, all))

try_read_byte-IsByte :
    (c : Capture) {value : ℕ} → AreBytes c.buffer → (try_read_byte c).0 ≡ some value → value < 256
unfolding try_read_byte
try_read_byte-IsByte c all e = ground (arith, get_or-IsByte c.buffer c.read_pos all)

serial_try_read_byte-IsByte :
    (line : Line) {value : ℕ} → (serial_try_read_byte line).0 ≡ some value → value < 256
unfolding serial_try_read_byte port_in
serial_try_read_byte-IsByte line e = ground arith

from_capture-IsSafe : {s : Resident} → IsSafe s → IsSafe (from_capture s)
from_capture-IsSafe {s} v =
    let (r, all) = try_read_byte-fits s.captured v.ring v.ring_bytes in ground (arith, v, r, all)

-- The line and the count of direct reads do not matter.
on_line-IsSafe :
    {s : Resident} (line : Line) (reads : ℕ)
    → IsSafe s
    → IsSafe (record s { line = line; direct_poll_reads = reads })
on_line-IsSafe line reads v = ground (arith, v)

poll_loop-IsSafe : (budget : ℕ) {s : Resident} → IsSafe s → IsSafe (poll_loop budget s)
unfolding poll_loop
poll_loop-IsSafe zero v = v
poll_loop-IsSafe (suc budget) {s} v =
    let v1 : IsSafe (from_capture s) = from_capture-IsSafe v in
    let line : Line = (serial_try_read_byte s.line).1 in
    let v2 : IsSafe (from_line s) = on_line-IsSafe line (u16 (s.direct_poll_reads + 1)) v1 in
    let v3 : IsSafe (from_neither s) = on_line-IsSafe line s.direct_poll_reads v1 in
    elim (Option-cases (try_read_byte s.captured).0) [
      | inr (value, e) ↦ subst IsSafe (sym (poll_loop-captured budget s value e)) (
          poll_loop-IsSafe budget
            (accept_byte-IsSafe value (try_read_byte-IsByte s.captured v.ring_bytes e) v1))
      | inl e ↦ elim (Option-cases (serial_try_read_byte s.line).0) [
        | inr (value, d) ↦ subst IsSafe (sym (poll_loop-direct budget s value e d)) (
            poll_loop-IsSafe budget
              (accept_byte-IsSafe value (serial_try_read_byte-IsByte s.line d) v2))
        | inl d ↦ subst IsSafe (sym (poll_loop-idle budget s e d)) v3
      ]
    ]

-- A queue that is well-formed may take the place of the one before, and an offset within the text.
requeue-IsSafe :
    {s : Resident} (m : Memory) (offset : ℕ)
    → IsQueue m
    → offset ≤ length s.pending_text
    → IsSafe s
    → IsSafe (record s { memory = m; pending_offset = offset })
requeue-IsSafe m offset q inside v = ground (arith, v, q)

text_loop-IsSafe : (budget : ℕ) {s : Resident} → IsSafe s → IsSafe (text_loop budget s).1
unfolding text_loop
text_loop-IsSafe zero v = v
text_loop-IsSafe (suc budget) {s} v =
    let key : ℕ = (encode_key s.pending_text s.pending_offset).0 in
    let input : ℕ = (encode_key s.pending_text s.pending_offset).1 in
    let m : Memory = (enqueue_word key s.memory).1 in
    let small = encode_key-lt s.pending_text s.pending_offset v.text_bytes in
    let q : IsQueue m = (enqueue_word_refines s.memory key v.queue small).1 in
    elim (dec_lt s.pending_offset (length s.pending_text)) [
      | yes inside ↦
          let (split, on, last) = encode_key_lem s.pending_text s.pending_offset inside in
          let next : IsSafe (record s { memory = m; pending_offset = input + 1 }) =
            requeue-IsSafe m (input + 1) q (omega (arith, last)) v in
          let same : IsSafe (record s { memory = m }) =
            requeue-IsSafe m s.pending_offset q v.offset_in v in
          let ih = text_loop-IsSafe budget next in ground (arith, ih, same, v)
      | no past ↦ ground (arith, v)
    ]

acknowledge_text-IsSafe : {s : Resident} → IsSafe s → IsSafe (acknowledge_text s)
unfolding acknowledge_text
acknowledge_text-IsSafe {s} v = ground (arith, send_packet-IsSafe 6 s.pending_sequence [] v)

inject_pending_text-IsSafe : {s : Resident} → IsSafe s → IsSafe (inject_pending_text s)
unfolding inject_pending_text
inject_pending_text-IsSafe {s} v =
    let looped = text_loop-IsSafe 16 v in ground (arith, looped, acknowledge_text-IsSafe looped)

inject_pending_key-IsSafe : {s : Resident} → IsSafe s → IsSafe (inject_pending_key s)
unfolding inject_pending_key
inject_pending_key-IsSafe {s} v =
    let (same, q) = enqueue_word_refines s.memory s.pending_key v.queue v.key_in in
    let queued =
      requeue-IsSafe (enqueue_word s.pending_key s.memory).1 s.pending_offset q v.offset_in v in
    ground (arith, queued, send_packet-IsSafe 9 s.pending_sequence [] queued)

toggle_ime_hotkey-IsSafe : {s : Resident} → IsSafe s → IsSafe (toggle_ime_hotkey s)
unfolding toggle_ime_hotkey
toggle_ime_hotkey-IsSafe v = ground (arith, v, close_ime-IsSafe v)

poll_hotkey-IsSafe : {s : Resident} → IsSafe s → IsSafe (poll_hotkey s).1
unfolding poll_hotkey
poll_hotkey-IsSafe v = ground (arith, v)

serve_hotkey-IsSafe : {s : Resident} → IsSafe s → IsSafe (serve_hotkey s)
unfolding serve_hotkey
serve_hotkey-IsSafe {s} v =
    let polled = poll_hotkey-IsSafe v in
    let t : Resident = (poll_hotkey s).1 in
    let (same, q) = discard_hotkey_space_refines t.memory polled.queue in
    let taken =
      requeue-IsSafe (discard_hotkey_space t.memory).1 t.pending_offset q polled.offset_in polled in
    ground (arith, polled, taken, toggle_ime_hotkey-IsSafe taken)

-- The line opened and the capture begun.
begun-IsSafe :
    {s : Resident} (line : Line) (c : Capture) (next : ℕ)
    → next < 65536
    → IsRing c
    → AreBytes c.buffer
    → IsSafe s
    → IsSafe (record s { direct_poll_reads = 0; line = line; captured = c; sequence = next })
begun-IsSafe line c next small r all v = ground (arith, v, r, all)

start_link-IsSafe : {s : Resident} → IsSafe s → IsSafe (start_link s)
unfolding start_link
start_link-IsSafe {s} v =
    let opened : Line = serial_open s.line in
    let (r, same) = capture_begin-IsRing s.captured opened.ports v.ring in
    let next : ℕ = u16 (s.sequence + 1) in
    let now =
      begun-IsSafe (with_ports opened (capture_begin s.captured opened.ports).1)
        (capture_begin s.captured opened.ports).0 next (omega arith) r
        (subst AreBytes (sym same) v.ring_bytes) v in
    let sent = send_packet-IsSafe 1 next hello_payload now in
    ground (arith, sent, reset_link-IsSafe sent)

serve_open-IsSafe : {s : Resident} → IsSafe s → IsSafe (serve_open s)
unfolding serve_open
serve_open-IsSafe v = ground (arith, v, send_open_ime-IsSafe v, start_link-IsSafe v)

serve_timer-IsSafe : {s : Resident} → IsSafe s → IsSafe (serve_timer s)
unfolding serve_timer
serve_timer-IsSafe {s} v =
    let now : IsSafe (record s {
      wait_ticks = u16 (s.wait_ticks + 1);
      diagnostic_delay = if s.diagnostic_delay == 0 then 0 else s.diagnostic_delay - 1;
    }) =
      ground (arith, v) in
    ground (arith, v, now, reset_link-IsSafe now)

serve_transport-IsSafe : {s : Resident} → IsSafe s → IsSafe (serve_transport s)
unfolding serve_transport poll_transport
serve_transport-IsSafe v = ground (arith, v, poll_loop-IsSafe 32 v)

serve_text-IsSafe : {s : Resident} → IsSafe s → IsSafe (serve_text s)
unfolding serve_text
serve_text-IsSafe v = ground (arith, v, inject_pending_text-IsSafe v)

serve_key-IsSafe : {s : Resident} → IsSafe s → IsSafe (serve_key s)
unfolding serve_key
serve_key-IsSafe v = ground (arith, v, inject_pending_key-IsSafe v)

-- A call of the service entry keeps every index within its array and every word within its type,
-- whatever the ports, the keyboard and the host do.
pub service_foreground-IsSafe : {s : Resident} → IsSafe s → IsSafe (service_foreground s)
unfolding service_foreground
service_foreground-IsSafe v = serve_timer-IsSafe (
    serve_open-IsSafe
      (serve_key-IsSafe (serve_text-IsSafe (serve_transport-IsSafe (serve_hotkey-IsSafe v)))))

pub service_returned_hotkey-IsSafe :
    {s : Resident} → IsSafe s → IsSafe (service_returned_hotkey s).1
unfolding service_returned_hotkey
service_returned_hotkey-IsSafe v =
    let polled = poll_hotkey-IsSafe v in ground (arith, polled, toggle_ime_hotkey-IsSafe polled)
