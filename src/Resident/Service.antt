-- ===== src/Resident/Service.antt =====
-- `pc98_service_foreground` of dos/pc98/foreground.c, which the interrupt wrappers call.
use pc98imebridge.Common.{ℕ, ◌+◌, ◌-◌, false, not, ◌&&◌, ◌||◌, length, ◌==◌, if◌then◌else◌, u16}
use pc98imebridge.Keyboard.Queue.{discard_hotkey_space}
use pc98imebridge.Resident.State.{Resident, is_closed, is_ready, is_hello_wait}
use pc98imebridge.Resident.Link.{reset_link, send_open_ime, start_link}
use pc98imebridge.Resident.Receive.{poll_transport}
use pc98imebridge.Resident.Deliver.{inject_pending_text, inject_pending_key}
use pc98imebridge.Resident.Hotkey.{poll_hotkey, toggle_ime_hotkey}

-- The toggle happens only when the hotkey's Space could be taken out of the queue.
unfoldable pub serve_hotkey : Resident → Resident
serve_hotkey s =
    let (state, s1) = poll_hotkey s in
    if state == 0
    then s1
    else let (taken, m) = discard_hotkey_space s1.memory in
      let s2 = record s1 { memory = m } in if taken then toggle_ime_hotkey s2 else s2

unfoldable pub serve_transport : Resident → Resident
serve_transport s = if is_closed s.link_state then s else poll_transport s

unfoldable pub serve_text : Resident → Resident
serve_text s = if length s.pending_text == 0 then s else inject_pending_text s

unfoldable pub serve_key : Resident → Resident
serve_key s = if s.pending_key_active then inject_pending_key s else s

unfoldable pub serve_open : Resident → Resident
serve_open s =
    if s.open_pending && not s.ime_active
    then (if is_ready s.link_state
        then send_open_ime s
        else if is_closed s.link_state
        then start_link s
        else s)
    else s

abbrev pub timeout_ticks : ℕ
timeout_ticks = 0xffff

-- The response timer. The diagnostics that it logs are empty in the release build.
unfoldable pub serve_timer : Resident → Resident
serve_timer s =
    if is_hello_wait s.link_state || s.ime_active
    then (let ticks : ℕ = u16 (s.wait_ticks + 1) in
        let delay : ℕ = if s.diagnostic_delay == 0 then 0 else s.diagnostic_delay - 1 in
        let s1 = record s { wait_ticks = ticks; diagnostic_delay = delay } in
        if ticks == timeout_ticks
        then record (reset_link s1) { ime_enabled = false; open_pending = false }
        else s1)
    else s

unfoldable pub service_foreground : Resident → Resident
service_foreground s =
    serve_timer (serve_open (serve_key (serve_text (serve_transport (serve_hotkey s)))))
