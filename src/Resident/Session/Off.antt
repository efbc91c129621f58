-- ===== src/Resident/Session/Off.antt =====
-- The ways that end in the OFF state: closing the IME, the resident uninstall, and the timeout.
use pc98imebridge.Common.{
  ℕ, zero, suc, ◌≡◌, ◌≢◌, Bool, false, ◌||◌, List, [], ◌∷◌, ◌++◌, arith, u8, if◌then◌else◌,
}
use pc98imebridge.Protocol.Kind
use pc98imebridge.Serial.Line.{serial_close}
use pc98imebridge.Serial.Port.{port_out}
use pc98imebridge.Serial.Capture.{capture_end, pic_mask_port}
use pc98imebridge.Resident.State.{Resident, closed, is_hello_wait, is_ready}
use pc98imebridge.Resident.Link.{send_line, send_packet, reset_link, close_ime, prepare_uninstall}
use pc98imebridge.Resident.Service.{serve_timer}
use pc98imebridge.Resident.Session.{IsSession}
use pc98imebridge.Resident.Session.Steps.{send_line-opened}

-- COM1 is given back and the IME is off.
pub record IsOff (s : Resident) : Type 0 where
  pub link_closed : s.link_state ≡ closed
  pub line_closed : s.line.opened ≡ false
  pub not_capturing : s.captured.capture ≡ false
  pub mask_restored : s.captured.pic_mask_saved ≡ false
  pub inactive : s.ime_active ≡ false
  pub disabled : s.ime_enabled ≡ false
  pub nothing_pending : s.open_pending ≡ false

-- Besides, nothing staged is left to deliver.
pub record IsCleared (s : Resident) : Type 0 where
  pub off : IsOff s
  pub no_text : s.pending_text ≡ []
  pub no_key : s.pending_key_active ≡ false
  pub ticks_zero : s.wait_ticks ≡ 0

-- From every state of a session `close_ime`, and so the uninstall entry, ends in the OFF state with
-- nothing staged.
pub prepare_uninstall-IsCleared : (s : Resident) → IsSession s → IsCleared (prepare_uninstall s)
unfolding prepare_uninstall close_ime send_packet reset_link capture_end serial_close
prepare_uninstall-IsCleared s v = ground (arith, send_line-opened 7 s.open_sequence [] s.line)

-- What is on the ports once `close_ime` has tried to tell the host.
abbrev told : Resident → List (ℕ × ℕ)
told s =
    (if is_ready s.link_state
      then (send_line Kind.close_ime s.open_sequence [] s.line).1
      else s.line).ports.writes

-- While a link is up in a session, the last thing that `close_ime` writes to a port is the interrupt
-- mask that was saved when the link began.
pub close_ime-restores_mask :
    (s : Resident)
    → IsSession s
    → s.link_state ≢ closed
    → (before : List (ℕ × ℕ)) × ((close_ime s).line.ports.writes
        ≡ before ++ (pic_mask_port, u8 s.captured.saved_pic_mask) ∷ [])
unfolding close_ime send_packet reset_link capture_end serial_close port_out
close_ime-restores_mask s v up = (told s, ground arith)

-- `n` calls whose timer step finds nothing else changed.
unfoldable pub timer_steps : ℕ → Resident → Resident
timer_steps zero s = s
timer_steps (suc n) s = timer_steps n (serve_timer s)

-- The worker waits for an answer of the host.
abbrev pub awaits : Resident → Bool
awaits s = is_hello_wait s.link_state || s.ime_active
