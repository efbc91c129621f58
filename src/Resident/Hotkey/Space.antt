-- ===== src/Resident/Hotkey/Space.antt =====
-- The hotkey step of `pc98_service_foreground` and the Space in the key queue.
use pc98imebridge.Common.{
  ◌≡◌, refl, ap, sym, subst, ◌∙◌, Bool, true, false, not, arith, if◌then◌else◌,
}
use pc98imebridge.Keyboard.Queue.{discard_hotkey_space}
use pc98imebridge.Keyboard.Queue.Ring.{contents, IsQueue}
use pc98imebridge.Keyboard.Queue.Removal.{pop_last_space, discard_hotkey_space_refines}
use pc98imebridge.Resident.State.{Resident}
use pc98imebridge.Resident.Link.{close_ime, send_packet, reset_link}
use pc98imebridge.Resident.Hotkey.{hotkey_down, poll_hotkey, toggle_ime_hotkey}
use pc98imebridge.Resident.Service.{serve_hotkey}

toggle-enabled : (s : Resident) → (toggle_ime_hotkey s).ime_enabled ≡ not s.ime_enabled
unfolding toggle_ime_hotkey close_ime
toggle-enabled s = ground arith

toggle-memory : (s : Resident) → (toggle_ime_hotkey s).memory ≡ s.memory
unfolding toggle_ime_hotkey close_ime send_packet reset_link
toggle-memory s = ground arith

-- The latch set and the queue as `discard_hotkey_space` leaves it.
abbrev pressed : Resident → Resident
pressed s = record s { hotkey_latched = true; memory = (discard_hotkey_space s.memory).1 }

serve_hotkey-pressed :
    (s : Resident)
    → hotkey_down s ≡ true
    → serve_hotkey s
      ≡ (if (discard_hotkey_space s.memory).0 then toggle_ime_hotkey (pressed s) else pressed s)
unfolding serve_hotkey poll_hotkey
serve_hotkey-pressed s down = ground arith

toggled_if :
    (b : Bool) (p : Resident)
    → let s' = if b then toggle_ime_hotkey p else p in
      (s'.memory ≡ p.memory) × (s'.ime_enabled ≡ (if b then not p.ime_enabled else p.ime_enabled))
toggled_if true p = (toggle-memory p, toggle-enabled p)
toggled_if false p = (refl, refl)

-- With the hotkey down and a well-formed queue, serving it takes off the newest key exactly when
-- that is a Space, and toggles the IME exactly then; every other key stays.
pub serve_hotkey-down :
    (s : Resident)
    → hotkey_down s ≡ true
    → IsQueue s.memory
    → let (taken, rest) = pop_last_space (contents s.memory) in
      let s' = serve_hotkey s in
      (contents s'.memory ≡ rest)
      × IsQueue s'.memory
      × (s'.ime_enabled ≡ (if taken then not s.ime_enabled else s.ime_enabled))
serve_hotkey-down s down v =
    let (same, v') = discard_hotkey_space_refines s.memory v in
    let taken = ap (λ r. r.0) same in
    let rest = ap (λ r. r.1) same in
    let (kept, enabled) = toggled_if (discard_hotkey_space s.memory).0 (pressed s) in
    rw (serve_hotkey-pressed s down) (
      ap contents kept ∙ rest,
      subst IsQueue (sym kept) v',
      enabled ∙ ap (λ b. if b then not s.ime_enabled else s.ime_enabled) taken,
    )
