-- ===== src/Resident/Deliver/Turn.antt =====
-- A call of `pc98_service_foreground` while a text is staged and nothing else comes in.
use pc98imebridge.Common.{
  ℕ, ◌+◌, ◌-◌, ◌<◌, ◌≡◌, refl, ap, ◌∙◌, true, false, none, [], has_bits, u8, u16, ◌==◌,
  if◌then◌else◌, arith,
}
use pc98imebridge.Protocol.Kind
use pc98imebridge.Serial.Port.{port_in}
use pc98imebridge.Serial.Line.{Line, rx_ready, serial_try_read_byte}
use pc98imebridge.Serial.Line.Write.{AlwaysReady}
use pc98imebridge.Serial.Capture.Ring.{try_read_byte-empty}
use pc98imebridge.Resident.State.{Resident, ready}
use pc98imebridge.Resident.Link.{send_line, send_open_ime}
use pc98imebridge.Resident.Receive.{poll_transport}
use pc98imebridge.Resident.Receive.Poll.{poll_loop-idle}
use pc98imebridge.Resident.Hotkey.{hotkey_down, poll_hotkey}
use pc98imebridge.Resident.Service.{
  serve_hotkey, serve_transport, serve_text, serve_key, serve_open, serve_timer, service_foreground,
  timeout_ticks,
}

-- No status read says that a byte has come in.
abbrev pub Silent : Line → Type 0
Silent line = (k : ℕ) → has_bits (u8 (line.ports.answer k line.config.status_port)) rx_ready ≡ false

-- A request is open on a ready link with the IME on and no key staged; the hotkey is up, nothing has
-- come in and nothing does, the transmitter is ready, and that many calls do not reach the timeout.
pub record Undisturbed (calls : ℕ) (s : Resident) : Type 0 where
  pub released : hotkey_down s ≡ false
  pub linked : s.link_state ≡ ready
  pub active : s.ime_active ≡ true
  pub enabled : s.ime_enabled ≡ true
  pub no_key : s.pending_key_active ≡ false
  pub none_captured : s.captured.read_pos ≡ s.captured.write_pos
  pub opened : s.line.opened ≡ true
  pub silent : Silent s.line
  pub sends : AlwaysReady s.line
  pub in_time : s.wait_ticks + calls < timeout_ticks

-- The line behind one more status read.
abbrev pub read_once : Line → Line
read_once line = record line { ports = record line.ports { reads = line.ports.reads + 1 } }

-- The worker behind its first two steps.
abbrev pub polled : Resident → Resident
polled s = record s { hotkey_latched = false; line = read_once s.line }

serial_try_read_byte-Silent :
    (line : Line)
    → line.opened ≡ true
    → Silent line
    → serial_try_read_byte line ≡ (none, read_once line)
unfolding serial_try_read_byte port_in
serial_try_read_byte-Silent line opened silent = ground (arith, opened, silent line.ports.reads)

serve_hotkey-released :
    (s : Resident) → hotkey_down s ≡ false → serve_hotkey s ≡ record s { hotkey_latched = false }
unfolding serve_hotkey poll_hotkey
serve_hotkey-released s up = ground (arith, up)

serve_transport-linked :
    (s : Resident) → s.link_state ≡ ready → serve_transport s ≡ poll_transport s
unfolding serve_transport
serve_transport-linked s linked = rw linked refl

poll_transport-Silent :
    (s : Resident)
    → s.captured.read_pos ≡ s.captured.write_pos
    → s.line.opened ≡ true
    → Silent s.line
    → poll_transport s ≡ record s { line = read_once s.line }
unfolding poll_transport
poll_transport-Silent s none_captured opened silent =
    let empty = try_read_byte-empty s.captured none_captured in
    let nothing = serial_try_read_byte-Silent s.line opened silent in
    poll_loop-idle 31 s (ap (λ r. r.0) empty) (ap (λ r. r.0) nothing)
    ∙ ap (λ c. record s { captured = c; line = (serial_try_read_byte s.line).1 })
        (ap (λ r. r.1) empty)
    ∙ ap (λ l. record s { line = l }) (ap (λ r. r.1) nothing)

-- The first two steps only look.
pub front_lem :
    {calls : ℕ} (s : Resident) → Undisturbed calls s → serve_transport (serve_hotkey s) ≡ polled s
front_lem s v =
    ap serve_transport (serve_hotkey-released s v.released)
    ∙ serve_transport-linked (record s { hotkey_latched = false }) v.linked
    ∙ poll_transport-Silent (record s { hotkey_latched = false }) v.none_captured v.opened v.silent

-- The timer goes on by one.
abbrev pub ticked : Resident → Resident
ticked s = record s {
  wait_ticks = s.wait_ticks + 1;
  diagnostic_delay = if s.diagnostic_delay == 0 then 0 else s.diagnostic_delay - 1;
}

serve_key-none : (s : Resident) → s.pending_key_active ≡ false → serve_key s ≡ s
unfolding serve_key
serve_key-none s no_key = rw no_key refl

serve_open-active : (s : Resident) → s.ime_active ≡ true → serve_open s ≡ s
unfolding serve_open
serve_open-active s active = ground (arith, active)

serve_timer-active :
    (s : Resident)
    → s.ime_active ≡ true
    → s.wait_ticks + 1 < timeout_ticks
    → serve_timer s ≡ ticked s
unfolding serve_timer
serve_timer-active s active early =
    let next : u16 (s.wait_ticks + 1) ≡ s.wait_ticks + 1 = omega (arith, early) in
    ground (arith, active, early, next)

-- The last three steps while the request stays open.
pub back-open :
    (s : Resident)
    → s.pending_key_active ≡ false
    → s.ime_active ≡ true
    → s.wait_ticks + 1 < timeout_ticks
    → serve_timer (serve_open (serve_key s)) ≡ ticked s
back-open s no_key active early =
    ap (λ t. serve_timer (serve_open t)) (serve_key-none s no_key)
    ∙ ap serve_timer (serve_open-active s active)
    ∙ serve_timer-active s active early

pub send_open_ime-sent :
    (s : Resident)
    → (send_line Kind.open_ime (u16 (s.sequence + 1)) [] s.line).0 ≡ true
    → send_open_ime s ≡ record s {
      sequence = u16 (s.sequence + 1);
      open_sequence = u16 (s.sequence + 1);
      line = (send_line Kind.open_ime (u16 (s.sequence + 1)) [] s.line).1;
      ime_active = true;
      open_pending = false;
      wait_ticks = 0;
    }
unfolding send_open_ime
send_open_ime-sent s sent = rw sent refl

serve_open-waiting :
    (s : Resident)
    → s.open_pending ≡ true
    → s.ime_active ≡ false
    → s.link_state ≡ ready
    → serve_open s ≡ send_open_ime s
unfolding serve_open
serve_open-waiting s waiting idle linked = rw (waiting, idle, linked) refl

-- The worker that has sent its next request.
abbrev pub asked_next : Resident → Resident
asked_next s = record s {
  sequence = u16 (s.sequence + 1);
  open_sequence = u16 (s.sequence + 1);
  line = (send_line Kind.open_ime (u16 (s.sequence + 1)) [] s.line).1;
  ime_active = true;
  open_pending = false;
  wait_ticks = 0;
}

-- The last three steps when a request waits: it is sent.
pub back-waiting :
    (s : Resident)
    → s.pending_key_active ≡ false
    → s.open_pending ≡ true
    → s.ime_active ≡ false
    → s.link_state ≡ ready
    → (send_line Kind.open_ime (u16 (s.sequence + 1)) [] s.line).0 ≡ true
    → serve_timer (serve_open (serve_key s)) ≡ ticked (asked_next s)
back-waiting s no_key waiting idle linked sent =
    ap (λ t. serve_timer (serve_open t)) (serve_key-none s no_key)
    ∙ ap serve_timer (serve_open-waiting s waiting idle linked ∙ send_open_ime-sent s sent)
    ∙ serve_timer-active (asked_next s) refl (omega arith)

-- A call, once it is known what its text step makes.
pub service_foreground-Undisturbed :
    {calls : ℕ} (s : Resident) {t u : Resident}
    → Undisturbed calls s
    → serve_text (polled s) ≡ t
    → serve_timer (serve_open (serve_key t)) ≡ u
    → service_foreground s ≡ u
unfolding service_foreground
service_foreground-Undisturbed s v text rest =
    ap (λ r. serve_timer (serve_open (serve_key (serve_text r)))) (front_lem s v)
    ∙ ap (λ r. serve_timer (serve_open (serve_key r))) text
    ∙ rest
