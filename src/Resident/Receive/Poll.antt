-- ===== src/Resident/Receive/Poll.antt =====
-- The three ways that a round of `poll_loop` goes.
use pc98imebridge.Common.{ℕ, suc, ◌+◌, ◌≡◌, some, none, arith, u16}
use pc98imebridge.Serial.Line.{serial_try_read_byte}
use pc98imebridge.Serial.Capture.{try_read_byte}
use pc98imebridge.Resident.State.{Resident}
use pc98imebridge.Resident.Receive.{accept_byte, poll_loop}

-- A byte was captured, or the direct read gave one.
abbrev pub from_capture : Resident → Resident
from_capture s = record s { captured = (try_read_byte s.captured).1 }

abbrev pub from_line : Resident → Resident
from_line s = record s {
  captured = (try_read_byte s.captured).1;
  line = (serial_try_read_byte s.line).1;
  direct_poll_reads = u16 (s.direct_poll_reads + 1);
}

abbrev pub from_neither : Resident → Resident
from_neither s = record s {
  captured = (try_read_byte s.captured).1;
  line = (serial_try_read_byte s.line).1;
}

module _ (budget : ℕ) (s : Resident) where
  pub poll_loop-captured :
      (value : ℕ)
      → (try_read_byte s.captured).0 ≡ some value
      → poll_loop (suc budget) s ≡ poll_loop budget (accept_byte value (from_capture s))
  unfolding poll_loop
  poll_loop-captured value e = ground arith

  pub poll_loop-direct :
      (value : ℕ)
      → (try_read_byte s.captured).0 ≡ none
      → (serial_try_read_byte s.line).0 ≡ some value
      → poll_loop (suc budget) s ≡ poll_loop budget (accept_byte value (from_line s))
  unfolding poll_loop
  poll_loop-direct value e d = ground arith

  pub poll_loop-idle :
      (try_read_byte s.captured).0 ≡ none
      → (serial_try_read_byte s.line).0 ≡ none
      → poll_loop (suc budget) s ≡ from_neither s
  unfolding poll_loop
  poll_loop-idle e d = ground arith
