-- ===== src/Serial/Capture.antt =====
-- The receive buffer that the COM1 interrupt fills and the worker empties:
-- dos/pc98/serial_irq_buffer_pc98.c, and the interrupt's store at `pc98_serial_irq_hook` of
-- dos/pc98/tsr_hook.S.
pub mod Ring
use pc98imebridge.Common.{
  ℕ, ◌+◌, Bool, true, false, Option, none, some, Bytes, get_or, set, ◌==◌, if◌then◌else◌, bit_and,
  has_bits, u8, u16,
}
use pc98imebridge.Serial.Port.{Ports, port_in, port_out}

pub record Capture : Type 0 where
  pub capture : Bool
  pub read_pos : ℕ
  pub write_pos : ℕ
  pub buffer : Bytes
  pub entry_count : ℕ
  pub rx_ready_count : ℕ
  pub stored_count : ℕ
  pub saved_pic_mask : ℕ
  pub pic_mask_saved : Bool

abbrev pub pic_mask_port : ℕ
pic_mask_port = 0x0002

-- The mask register with the COM1 bit cleared, `saved & (unsigned char)~0x10`.
abbrev pub unmasked : ℕ → ℕ
unmasked mask = bit_and mask 0xef

unfoldable pub capture_begin : Capture → Ports → Capture × Ports
capture_begin c p =
    let (mask, p') = port_in pic_mask_port p in
    (
      record c {
        read_pos = 0;
        write_pos = 0;
        entry_count = 0;
        rx_ready_count = 0;
        stored_count = 0;
        capture = true;
        saved_pic_mask = mask;
        pic_mask_saved = true;
      },
      port_out pic_mask_port (unmasked mask) p',
    )

unfoldable pub capture_end : Capture → Ports → Capture × Ports
capture_end c p =
    if c.pic_mask_saved
    then (
      record c { capture = false; pic_mask_saved = false; read_pos = c.write_pos },
      port_out pic_mask_port c.saved_pic_mask p,
    )
    else (record c { capture = false; read_pos = c.write_pos }, p)

-- The place behind one of the buffer, `(position + 1) & 0x7f`.
abbrev pub next_place : ℕ → ℕ
next_place position = bit_and (position + 1) 0x7f

-- `none` is the return value -1.
unfoldable pub try_read_byte : Capture → Option ℕ × Capture
try_read_byte c =
    let position = c.read_pos in
    if position == c.write_pos
    then (none, c)
    else (some (get_or c.buffer position 0), record c { read_pos = next_place position })

-- The interrupt's own store: a byte that finds the buffer full is dropped.
unfoldable pub irq_store : ℕ → Capture → Capture
irq_store byte c =
    let next = bit_and (u8 (c.write_pos + 1)) 0x7f in
    if next == c.read_pos then c else record c {
      buffer = set c.buffer c.write_pos byte;
      write_pos = next;
      stored_count = u16 (c.stored_count + 1);
    }
