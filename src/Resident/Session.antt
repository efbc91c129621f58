-- ===== src/Resident/Session.antt =====
-- What the flags of dos/pc98/foreground.c say of the hardware session.
pub mod Steps
pub mod Service
pub mod Off
use pc98imebridge.Common.{Bool, true, false, not, ◌≡◌}
use pc98imebridge.Resident.State.{Resident, LinkState, ready, is_closed}

-- The line is open, the interrupt captured and the interrupt mask kept for restoring exactly while
-- the link is not closed; a request is open only on a ready link with the IME on, and then none is
-- waiting to be sent; one waits only with the IME on.
pub record IsSession (s : Resident) : Type 0 where
  pub line_open : s.line.opened ≡ not (is_closed s.link_state)
  pub capturing : s.captured.capture ≡ not (is_closed s.link_state)
  pub mask_kept : s.captured.pic_mask_saved ≡ not (is_closed s.link_state)
  pub active_ready : s.ime_active ≡ true → s.link_state ≡ ready
  pub active_enabled : s.ime_active ≡ true → s.ime_enabled ≡ true
  pub active_alone : s.ime_active ≡ true → s.open_pending ≡ false
  pub pending_enabled : s.open_pending ≡ true → s.ime_enabled ≡ true
