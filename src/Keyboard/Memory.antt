-- ===== src/Keyboard/Memory.antt =====
-- The first 64 KB of PC-98 memory, which `bios_byte` and `bios_word` of
-- dos/pc98/inject_bios_pc98.c address, and the places of the key queue in it.
pub mod Laws
use pc98imebridge.Common.{ℕ, ◌+◌, ◌*◌, ◌/◌, Bytes, ◌==◌, if◌then◌else◌, u8, u16, ◌>>>◌, ◌<◌}

-- The byte at each offset of segment 0.
abbrev pub Memory : Type 0
Memory = ℕ → ℕ

abbrev pub buffer_start : ℕ
buffer_start = 0x0502

abbrev pub buffer_end : ℕ
buffer_end = 0x0522

abbrev pub head_address : ℕ
head_address = 0x0524

abbrev pub tail_address : ℕ
tail_address = 0x0526

abbrev pub count_address : ℕ
count_address = 0x0528

abbrev pub capacity : ℕ
capacity = 16

unfoldable pub read_byte : Memory → ℕ → ℕ
read_byte m a = m a

unfoldable pub write_byte : Memory → ℕ → ℕ → Memory
write_byte m a v b = if b == a then u8 v else m b

-- A word is stored low byte first, and wraps at the end of the segment.
unfoldable pub read_word : Memory → ℕ → ℕ
unfolding read_byte
read_word m a = read_byte m a + read_byte m (u16 (a + 1)) * 256

unfoldable pub write_word : Memory → ℕ → ℕ → Memory
unfolding write_byte
write_word m a v = write_byte (write_byte m a v) (u16 (a + 1)) (v >>> 8)

abbrev pub IsMemory : Memory → Type 0
IsMemory m = (a : ℕ) → m a < 256
