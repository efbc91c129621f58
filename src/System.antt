-- ===== src/System.antt =====
-- The resident program among the interrupts that enter it: `pc98_serial_irq_hook`,
-- `pc98_input_hook` and `pc98_uninstall_prepare_entry` of dos/pc98/tsr_hook.S, and the state that
-- `main` of dos/pc98/tsr_main.c starts from. The wrappers run the worker with interrupts off, so that
-- each of its calls is one step.
pub mod Soundness
pub mod Input
pub mod Wrapper
use pc98imebridge.Common.{
  ℕ, zero, suc, ◌+◌, Bool, true, false, not, [], ◌∷◌, Bytes, ◌==◌, if◌then◌else◌, has_bits, u16,
}
use pc98imebridge.Keyboard.Memory.{Memory}
use pc98imebridge.Keyboard.Queue.{dequeue}
use pc98imebridge.Keyboard.Queue.Ring.{IsQueue}
use pc98imebridge.Serial.Port.{Ports, port_in, port_out}
use pc98imebridge.Serial.Line.{Config, Line, no_error, rx_ready, with_ports}
use pc98imebridge.Serial.Capture.{Capture, irq_store}
use pc98imebridge.Resident.State.{Resident, closed}
use pc98imebridge.Resident.Link.{prepare_uninstall}
use pc98imebridge.Resident.Hotkey.{service_returned_hotkey}
use pc98imebridge.Resident.Service.{service_foreground}

unfoldable pub cleared_bytes : ℕ → Bytes
cleared_bytes zero = []
cleared_bytes (suc n) = 0 ∷ cleared_bytes n

abbrev pub cleared_capture : Capture
cleared_capture = record {
  capture = false;
  read_pos = 0;
  write_pos = 0;
  buffer = cleared_bytes 128;
  entry_count = 0;
  rx_ready_count = 0;
  stored_count = 0;
  saved_pic_mask = 0;
  pic_mask_saved = false;
}

-- The state once `clear_resident_state` has run and the settings are read; the memory is what the
-- BIOS has made of it.
unfoldable pub installed : Config → Ports → Memory → Resident
installed config ports memory = record {
  link_state = closed;
  open_pending = false;
  ime_active = false;
  ime_enabled = false;
  sequence = 0;
  open_sequence = 0;
  wait_ticks = 0;
  diagnostic_delay = 0;
  direct_poll_reads = 0;
  rx = [];
  rx_expected = 0;
  pending_text = [];
  pending_offset = 0;
  pending_sequence = 0;
  pending_key = 0;
  pending_key_active = false;
  hotkey_latched = false;
  line = record { config = config; opened = false; error = no_error; ports = ports };
  captured = cleared_capture;
  memory = memory;
}

-- The counts and the ports after the tests that come first in the handler.
abbrev pub counted_entry : Resident → Ports → Resident
counted_entry s p = record s {
  captured = record s.captured { entry_count = u16 (s.captured.entry_count + 1) };
  line = with_ports s.line p;
}

-- The byte is stored and the interrupt acknowledged.
unfoldable pub received : ℕ → Ports → Resident → Resident
received byte p s = record s {
  captured =
      irq_store byte (record s.captured { rx_ready_count = u16 (s.captured.rx_ready_count + 1) });
  line = with_ports s.line (port_out 0x0000 0x20 p);
}

-- An interrupt that is not for the program goes on to the handler before it, which leaves the
-- program's state alone.
unfoldable pub serial_irq_hook : Resident → Resident
serial_irq_hook s =
    if not s.captured.capture
    then s
    else let (status, p1) = port_in s.line.config.status_port s.line.ports in
      let s1 = counted_entry s p1 in
      if not (has_bits status rx_ready)
      then s1
      else let (byte, p2) = port_in s.line.config.data_port p1 in
        service_foreground (received byte p2 s1)

-- What can happen next. The BIOS and its clients change the key queue between the steps of the
-- program, and leave it well-formed.
pub data Step : Resident → Resident → Type 0 where
  serial_irq : {s : Resident} → Step s (serial_irq_hook s)
  input_call : {s : Resident} → Step s (service_foreground s)
  returned_space : {s : Resident} → Step s (service_returned_hotkey s).1
  removed_key : {s : Resident} → Step s (record s { memory = (dequeue s.memory).2 })
  bios : {s : Resident} (m : Memory) → IsQueue m → Step s (record s { memory = m })
  uninstall : {s : Resident} → Step s (prepare_uninstall s)

pub data Reach (s : Resident) : Resident → Type 0 where
  here : Reach s s
  next : {t u : Resident} → Reach s t → Step t u → Reach s u
