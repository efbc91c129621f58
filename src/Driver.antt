-- ===== src/Driver.antt =====
-- The IME98$ device: dos/pc98/device_driver.S.
pub mod Dispatch
pub mod Sessions
use pc98imebridge.Common.{
  ℕ, ◌+◌, ◌-◌, Bool, true, false, not, ◌||◌, [], ◌∷◌, ◌++◌, drop, Bytes, get_or, ltb, ◌==◌,
  if◌then◌else◌,
}

pub record Driver : Type 0 where
  pub open_count : ℕ
  pub last_command : ℕ
  pub session_state : ℕ

-- The state as it is loaded.
abbrev pub loaded : Driver
loaded = record { open_count = 0; last_command = 0xff; session_state = 0 }

-- What a request is given back: its status, the count, and what stands at the transfer address.
pub record Reply : Type 0 where
  pub status : ℕ
  pub count : ℕ
  pub buffer : Bytes

abbrev pub request_done : ℕ
request_done = 0x0100

abbrev pub bad_length : ℕ
bad_length = 0x8105

abbrev pub bad_packet : ℕ
bad_packet = 0x810c

abbrev pub unsupported_command : ℕ
unsupported_command = 0x8103

unfoldable pub device_open : Driver → Driver
device_open k = if k.open_count == 0xff then k else record k { open_count = k.open_count + 1 }

unfoldable pub device_close : Driver → Driver
device_close k = if k.open_count == 0 then k else record k { open_count = k.open_count - 1 }

-- A request that is rejected transfers nothing.
abbrev pub rejected : ℕ → Bytes → Driver → Reply × Driver
rejected status buffer k = (record { status = status; count = 0; buffer = buffer }, k)

-- Command 1 starts a session and command 2 ends it.
abbrev pub session_after : ℕ → ℕ → ℕ
session_after command state = if command == 1 then 1 else if command == 2 then 0 else state

unfoldable pub ioctl_output : ℕ → Bytes → Driver → Reply × Driver
ioctl_output count buffer k =
    let command = get_or buffer 4 0 in
    if ltb count 5
    then rejected bad_length buffer k
    else if not (get_or buffer 0 0 == b'I')
        || not (get_or buffer 1 0 == b'9')
        || not (get_or buffer 2 0 == b'8')
        || not (get_or buffer 3 0 == 1)
    then rejected bad_packet buffer k
    else if ltb 2 command
    then rejected unsupported_command buffer k
    else (
      record { status = request_done; count = 5; buffer = buffer },
      record k { last_command = command; session_state = session_after command k.session_state },
    )

unfoldable pub ioctl_input : ℕ → Bytes → Driver → Reply × Driver
ioctl_input count buffer k =
    let status =
      b'I' ∷ b'9' ∷ b'8' ∷ 1 ∷ k.open_count ∷ k.last_command ∷ k.session_state ∷ 0 ∷ [] in
    if ltb count 8
    then rejected bad_length buffer k
    else (record { status = request_done; count = 8; buffer = status ++ drop 8 buffer }, k)

-- The request with this command code, count and buffer. Loading prints a message and changes none of
-- the three variables.
unfoldable pub interrupt_entry : ℕ → ℕ → Bytes → Driver → Reply × Driver
interrupt_entry command count buffer k =
    let done : Reply = record { status = request_done; count = count; buffer = buffer } in
    if command == 0x00
    then (done, k)
    else if command == 0x03
    then ioctl_input count buffer k
    else if command == 0x0c
    then ioctl_output count buffer k
    else if command == 0x0d
    then (done, device_open k)
    else if command == 0x0e
    then (done, device_close k)
    else (record { status = unsupported_command; count = count; buffer = buffer }, k)
