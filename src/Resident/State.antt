-- ===== src/Resident/State.antt =====
-- The static variables of dos/pc98/foreground.c, and of the files that it calls.
use pc98imebridge.Common.{ℕ, Bool, true, false, Bytes}
use pc98imebridge.Keyboard.Memory.{Memory}
use pc98imebridge.Serial.Line.{Line}
use pc98imebridge.Serial.Capture.{Capture}

pub data LinkState : Type 0 where
  closed hello_wait ready : LinkState

abbrev pub is_closed : LinkState → Bool
is_closed closed = true
is_closed hello_wait = false
is_closed ready = false

abbrev pub is_hello_wait : LinkState → Bool
is_hello_wait closed = false
is_hello_wait hello_wait = true
is_hello_wait ready = false

abbrev pub is_ready : LinkState → Bool
is_ready closed = false
is_ready hello_wait = false
is_ready ready = true

-- `rx` is `rx_packet[0 .. rx_count)` and `pending_text` is `pending_text[0 .. pending_length)`; what
-- the arrays hold behind these is never read. `hotkey_latched` is that of keyboard_bios.c. The line,
-- the capture buffer and the BIOS memory are those of the other files.
pub record Resident : Type 0 where
  pub link_state : LinkState
  pub open_pending : Bool
  pub ime_active : Bool
  pub ime_enabled : Bool
  pub sequence : ℕ
  pub open_sequence : ℕ
  pub wait_ticks : ℕ
  pub diagnostic_delay : ℕ
  pub direct_poll_reads : ℕ
  pub rx : Bytes
  pub rx_expected : ℕ
  pub pending_text : Bytes
  pub pending_offset : ℕ
  pub pending_sequence : ℕ
  pub pending_key : ℕ
  pub pending_key_active : Bool
  pub hotkey_latched : Bool
  pub line : Line
  pub captured : Capture
  pub memory : Memory

-- `sizeof(rx_packet)`
abbrev pub rx_size : ℕ
rx_size = 522
