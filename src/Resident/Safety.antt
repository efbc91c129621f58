-- ===== src/Resident/Safety.antt =====
-- What keeps every index and every word of dos/pc98/foreground.c within its array and its type.
pub mod Steps
pub mod Service
use pc98imebridge.Common.{ℕ, ◌<◌, ◌≤◌, AreBytes, length}
use pc98imebridge.Protocol.Packet.{max_payload}
use pc98imebridge.Serial.Capture.Ring.{IsRing}
use pc98imebridge.Keyboard.Queue.Ring.{IsQueue}
use pc98imebridge.Resident.State.{Resident, rx_size}

-- The received prefix and the staged text lie within `rx_packet` and `pending_text`, the offset
-- within the text, the positions of the receive buffer and of the BIOS queue within theirs; bytes are
-- bytes and words are words.
pub record IsSafe (s : Resident) : Type 0 where
  pub rx_in : length s.rx ≤ rx_size
  pub rx_bytes : AreBytes s.rx
  pub text_in : length s.pending_text ≤ max_payload
  pub text_bytes : AreBytes s.pending_text
  pub offset_in : s.pending_offset ≤ length s.pending_text
  pub key_in : s.pending_key < 65536
  pub sequence_in : s.sequence < 65536
  pub open_in : s.open_sequence < 65536
  pub pending_in : s.pending_sequence < 65536
  pub ring : IsRing s.captured
  pub ring_bytes : AreBytes s.captured.buffer
  pub queue : IsQueue s.memory
