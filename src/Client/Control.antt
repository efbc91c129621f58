-- ===== src/Client/Control.antt =====
-- The sessions of the IME98$ device: dos/pc98/ime98_control.c.
use pc98imebridge.Common.{ℕ, Bool, true, false, not, [], ◌∷◌, Bytes, codes, if◌then◌else◌}
use pc98imebridge.Dos.{Dos, int21, open_file, close_file, ioctl_write}

pub record Control : Type 0 where
  pub device_handle : ℕ
  pub device_last_ax : ℕ
  pub device_is_open : Bool

abbrev pub device_name : Bytes
device_name = codes "IME98$"

-- `command_packet`
abbrev pub command_packet : ℕ → Bytes
command_packet command = b'I' ∷ b'9' ∷ b'8' ∷ 1 ∷ command ∷ []

unfoldable pub control_open : Control → Dos → Bool × Control × Dos
control_open k d =
    let (ax, failed, d') = int21 (open_file 2 device_name) d in
    let k0 = record k { device_is_open = false; device_handle = 0 } in
    if failed
    then (false, k0, d')
    else (true, record k0 { device_handle = ax; device_is_open = true }, d')

unfoldable pub control_command : ℕ → Control → Dos → Bool × Control × Dos
control_command command k d =
    let (ax, failed, d') = int21 (ioctl_write k.device_handle (command_packet command)) d in
    if not k.device_is_open
    then (false, k, d)
    else (not failed, record k { device_last_ax = ax }, d')

unfoldable pub control_close : Control → Dos → Control × Dos
control_close k d =
    if not k.device_is_open
    then (k, d)
    else (record k { device_is_open = false }, (int21 (close_file k.device_handle) d).2)
