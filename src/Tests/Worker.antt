-- ===== src/Tests/Worker.antt =====
-- The resident worker at concrete states.
use pc98imebridge.Common.{
  ℕ, ◌≡◌, refl, true, false, List, [], ◌∷◌, ◌++◌, AreBytes, arith, inl, if◌then◌else◌,
}
use pc98imebridge.Keyboard.Memory.{read_byte}
use pc98imebridge.Keyboard.Queue.Ring.{contents, IsQueue}
use pc98imebridge.Keyboard.Queue.Removal.{pop_last_space}
use pc98imebridge.Serial.Capture.{pic_mask_port}
use pc98imebridge.Protocol.Packet.{Packet}
use pc98imebridge.Resident.Link.{send_line, close_ime, prepare_uninstall}
use pc98imebridge.Resident.Receive.{handle_message}
use pc98imebridge.Resident.Receive.Messages.{handle_message-ignored, enter, key-delivered}
use pc98imebridge.Resident.Deliver.{inject_pending_text, inject_pending_key}
use pc98imebridge.Resident.Deliver.Lossless.{Delivery, inject_pending_text-Delivery}
use pc98imebridge.Resident.Hotkey.{hotkey_down}
use pc98imebridge.Resident.Hotkey.Space.{serve_hotkey-down}
use pc98imebridge.Resident.Service.{serve_hotkey, service_foreground}
use pc98imebridge.Resident.Session.{IsSession}
use pc98imebridge.Resident.Session.Service.{service_foreground-IsSession}
use pc98imebridge.Resident.Session.Off.{
  IsCleared, prepare_uninstall-IsCleared, close_ime-restores_mask,
}
use pc98imebridge.Tests.Data.{asking, staged_a, pressing}
use pc98imebridge.Tests.Keys.{no_keys-IsQueue, a_and_space-IsQueue}

asking-IsSession : IsSession asking
asking-IsSession = ground arith

service_foreground-IsSession_example : IsSession (service_foreground asking)
service_foreground-IsSession_example = service_foreground-IsSession asking-IsSession

pressing-IsSession : IsSession pressing
pressing-IsSession = ground arith

prepare_uninstall-IsCleared_example : IsCleared (prepare_uninstall asking)
prepare_uninstall-IsCleared_example = prepare_uninstall-IsCleared asking asking-IsSession

close_ime-restores_mask_example :
    (before : List (ℕ × ℕ)) × ((close_ime asking).line.ports.writes
      ≡ before ++ (pic_mask_port, 0x3d) ∷ [])
close_ime-restores_mask_example = close_ime-restores_mask asking asking-IsSession (ground arith)

a-AreBytes : AreBytes (0x41 ∷ [])
a-AreBytes = ground arith

inject_pending_text-Delivery_example : Delivery staged_a (inject_pending_text staged_a)
inject_pending_text-Delivery_example =
    inject_pending_text-Delivery staged_a a-AreBytes no_keys-IsQueue (omega arith)

-- A TEXT for a request that is no longer open.
abbrev stale : Packet
stale = record { kind = 5; sequence = 0; payload = 0x41 ∷ [] }

handle_message-ignored_example : handle_message stale asking ≡ asking
handle_message-ignored_example = handle_message-ignored stale asking refl (inl (omega arith))

-- KEY Enter for the open request.
abbrev key_enter : Packet
key_enter = record { kind = 8; sequence = 1; payload = 1 ∷ [] }

key-delivered_example :
    (contents (inject_pending_key (handle_message key_enter asking)).memory
      ≡ contents asking.memory ++ 0x1c0d ∷ [])
    × IsQueue (inject_pending_key (handle_message key_enter asking)).memory
    × ((inject_pending_key (handle_message key_enter asking)).line
        ≡ (send_line 9 1 [] asking.line).1)
    × ((inject_pending_key (handle_message key_enter asking)).pending_key_active ≡ false)
    × ((inject_pending_key (handle_message key_enter asking)).ime_active ≡ false)
    × ((inject_pending_key (handle_message key_enter asking)).open_pending ≡ true)
unfolding read_byte
key-delivered_example =
    key-delivered key_enter asking 1 0x1c0d refl refl refl enter no_keys-IsQueue (omega arith)

pressing-down : hotkey_down pressing ≡ true
unfolding hotkey_down read_byte
pressing-down = refl

serve_hotkey-down_example :
    (contents (serve_hotkey pressing).memory ≡ (pop_last_space (contents pressing.memory)).1)
    × IsQueue (serve_hotkey pressing).memory
    × ((serve_hotkey pressing).ime_enabled
        ≡ (if (pop_last_space (contents pressing.memory)).0 then false else true))
serve_hotkey-down_example = serve_hotkey-down pressing pressing-down a_and_space-IsQueue
