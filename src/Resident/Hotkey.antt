-- ===== src/Resident/Hotkey.antt =====
-- `toggle_ime_hotkey` and `pc98_service_returned_hotkey` of dos/pc98/foreground.c, and
-- `pc98_poll_hotkey` of dos/pc98/tsr_hook.S.
pub mod Space
use pc98imebridge.Common.{ℕ, Bool, true, false, not, ◌&&◌, ◌||◌, if◌then◌else◌, has_bits, ◌==◌}
use pc98imebridge.Keyboard.Memory.{Memory, read_byte}
use pc98imebridge.Resident.State.{Resident}
use pc98imebridge.Resident.Link.{close_ime}

unfoldable pub toggle_ime_hotkey : Resident → Resident
toggle_ime_hotkey s =
    if s.ime_enabled then close_ime s else record s { ime_enabled = true; open_pending = true }

-- The configured modifier and Space are both down in the BIOS key bitmap.
unfoldable pub hotkey_down : Resident → Bool
hotkey_down s =
    has_bits (read_byte s.memory 0x053a) s.line.config.hotkey_modifier_mask
    && has_bits (read_byte s.memory 0x0530) 0x10

-- The word in AX, 0, 1 for the edge or 2 while held, is only tested against 0 by its callers.
unfoldable pub poll_hotkey : Resident → ℕ × Resident
unfolding hotkey_down
poll_hotkey s =
    if hotkey_down s
    then (if s.hotkey_latched then 2 else 1, record s { hotkey_latched = true })
    else (0, record s { hotkey_latched = false })

unfoldable pub service_returned_hotkey : Resident → Bool × Resident
unfolding poll_hotkey
service_returned_hotkey s =
    let (state, s1) = poll_hotkey s in
    if state == 0 then (false, s1) else (true, toggle_ime_hotkey s1)
