-- ===== src/Serial/Debug.antt =====
-- Output to the second port: dos/pc98/debug_serial_pc98.c.
pub mod Output
use pc98imebridge.Common.{
  ℕ, zero, suc, ◌≡◌, Bool, not, ◌==◌, Option, none, some, List, [], ◌∷◌, ◌++◌, Bytes, codes,
  has_bits, if◌then◌else◌,
}
use pc98imebridge.Dos.{hex_byte, hex_word}
use pc98imebridge.Serial.Port.{Ports, port_in, port_out}

abbrev pub debug_data_port : ℕ
debug_data_port = 0x00b1

abbrev pub debug_status_port : ℕ
debug_status_port = 0x00b3

-- The waiting loop behind the last write is left out.
unfoldable pub debug_open : Ports → Ports
debug_open p =
    let p1 = port_out debug_status_port 0x00 p in
    let p2 = port_out debug_status_port 0x00 p1 in
    let p3 = port_out debug_status_port 0x00 p2 in
    let p4 = port_out debug_status_port 0x40 p3 in
    let p5 = port_out debug_status_port 0x02 p4 in port_out debug_status_port 0x27 p5

-- The loop, with what is left of the budget. The text ends at its first 0.
unfoldable pub write_within : ℕ → Bytes → Ports → Ports
write_within budget [] p = p
write_within zero (c ∷ text) p = p
write_within (suc budget) (c ∷ text) p =
    let written = write_within budget text (port_out debug_data_port c p) in
    if c == 0 then p else written

unfoldable pub debug_write : Bytes → Ports → Ports
debug_write text p = write_within 128 text p

-- Bytes to the data port, one after the other.
unfoldable pub write_all : Bytes → Ports → Ports
write_all [] p = p
write_all (c ∷ text) p = write_all text (port_out debug_data_port c p)

unfoldable pub debug_write_hex_byte : ℕ → Ports → Ports
debug_write_hex_byte value p = write_all (hex_byte value ++ codes "\r\n") p

unfoldable pub debug_write_hex_word : ℕ → Ports → Ports
debug_write_hex_word value p = write_all (hex_word value ++ codes "\r\n") p

-- `none` is the return value 0 of `pc98_debug_read` and -1 of `pc98_debug_read_byte`.
unfoldable pub debug_read : Ports → Option ℕ × Ports
debug_read p =
    let (status, p1) = port_in debug_status_port p in
    if not (has_bits status 0x02)
    then (none, p1)
    else let (value, p2) = port_in debug_data_port p1 in (some value, p2)
