-- ===== src/Serial/Line.antt =====
-- The polled RS-232C line of dos/pc98/serial_pc98.c.
pub mod Waits
pub mod Write
use pc98imebridge.Common.{
  ℕ, zero, suc, Bool, true, false, not, ◌||◌, Option, none, some, [], ◌∷◌, Bytes, ◌==◌,
  if◌then◌else◌, has_bits, ◌>>>◌,
}
use pc98imebridge.Serial.Port.{Ports, port_in, port_out}

-- What `serial_error` can point to.
pub data LineError : Type 0 where
  no_error tx_timeout rx_timeout : LineError

-- The settings that IME98.CFG can change.
pub record Config : Type 0 where
  pub data_port : ℕ
  pub status_port : ℕ
  pub mode : ℕ
  pub command : ℕ
  pub timer_count : ℕ
  pub hotkey_modifier_mask : ℕ

abbrev pub default_config : Config
default_config = record {
  data_port = 0x0030;
  status_port = 0x0032;
  mode = 0x02;
  command = 0x27;
  timer_count = 0x0008;
  hotkey_modifier_mask = 0x01;
}

pub record Line : Type 0 where
  pub config : Config
  pub opened : Bool
  pub error : LineError
  pub ports : Ports

abbrev pub with_ports : Line → Ports → Line
with_ports line p = record line { ports = p }

-- It always returns 1.
unfoldable pub serial_open : Line → Line
serial_open line =
    let status = line.config.status_port in
    let p1 = port_out status 0x00 line.ports in
    let p2 = port_out status 0x00 p1 in
    let p3 = port_out status 0x00 p2 in
    let p4 = port_out status 0x40 p3 in
    let p5 = port_out status line.config.mode p4 in
    let p6 = port_out status line.config.command p5 in
    let p7 = port_out 0x0077 0xb6 p6 in
    let p8 = port_out 0x0075 line.config.timer_count p7 in
    let p9 = port_out 0x0075 (line.config.timer_count >>> 8) p8 in
    record line { opened = true; error = no_error; ports = p9 }

unfoldable pub serial_close : Line → Line
serial_close line = record line { opened = false }

-- `while (!(port_in(port) & mask) && --timeout);` from `timeout` on; the result is `timeout` at
-- the end. Both loops start above 0.
unfoldable pub wait_status : ℕ → ℕ → ℕ → Ports → ℕ × Ports
wait_status zero port mask p = (0, p)
wait_status (suc left) port mask p =
    let (status, p') = port_in port p in
    elim (has_bits status mask) [ true ↦ (suc left, p') | false ↦ wait_status left port mask p' ]

abbrev pub tx_ready : ℕ
tx_ready = 0x01

abbrev pub rx_ready : ℕ
rx_ready = 0x02

abbrev pub tx_timeout_count : ℕ
tx_timeout_count = 0x2000

abbrev pub rx_timeout_count : ℕ
rx_timeout_count = 0xffff

-- The `for` loop over the bytes that are left.
unfoldable pub write_bytes : Bytes → Line → Bool × Line
write_bytes [] line = (true, line)
write_bytes (byte ∷ bytes) line =
    let (timeout, p) = wait_status tx_timeout_count line.config.status_port tx_ready line.ports in
    let sent = with_ports line (port_out line.config.data_port byte p) in
    elim (timeout == 0) [
      | true ↦ (false, record line { error = tx_timeout; ports = p })
      | false ↦ write_bytes bytes sent
    ]

unfoldable pub serial_write : Bytes → Line → Bool × Line
serial_write bytes line = if not line.opened then (false, line) else write_bytes bytes line

-- `none` is the return value -1.
unfoldable pub serial_read_byte : Line → Option ℕ × Line
serial_read_byte line =
    if not line.opened
    then (none, line)
    else let (timeout, p) =
        wait_status rx_timeout_count line.config.status_port rx_ready line.ports in
      if timeout == 0
      then (none, record line { error = rx_timeout; ports = p })
      else let (value, p') = port_in line.config.data_port p in (some value, with_ports line p')

-- `none` is the return value -1. A line that is not open is not read.
unfoldable pub serial_try_read_byte : Line → Option ℕ × Line
serial_try_read_byte line =
    if not line.opened
    then (none, line)
    else let (status, p) = port_in line.config.status_port line.ports in
      if not (has_bits status rx_ready)
      then (none, with_ports line p)
      else let (value, p') = port_in line.config.data_port p in (some value, with_ports line p')

unfoldable pub serial_status : Line → ℕ × Line
serial_status line =
    let (value, p) = port_in line.config.status_port line.ports in (value, with_ports line p)

unfoldable pub serial_system_port : Line → ℕ × Line
serial_system_port line = let (value, p) = port_in 0x0035 line.ports in (value, with_ports line p)

unfoldable pub serial_pic_mask : Line → ℕ × Line
serial_pic_mask line = let (value, p) = port_in 0x0002 line.ports in (value, with_ports line p)
