-- ===== src/Keyboard/Memory/Laws.antt =====
-- Reads after writes in the BIOS data area.
use pc98imebridge.Common.{ℕ, ◌+◌, ◌<◌, ◌≡◌, ◌≢◌, ◌⊎◌, arith, u16}
use pc98imebridge.Keyboard.Memory.{Memory, IsMemory, read_byte, write_byte, read_word, write_word}

pub byte-write_byte_self : (m : Memory) (a v : ℕ) → v < 256 → read_byte (write_byte m a v) a ≡ v
unfolding read_byte write_byte
byte-write_byte_self m a v h = ground arith

pub byte-write_byte_ne :
    (m : Memory) (a b v : ℕ) → b ≢ a → read_byte (write_byte m a v) b ≡ read_byte m b
unfolding read_byte write_byte
byte-write_byte_ne m a b v h = ground arith

pub word-write_byte_ne :
    (m : Memory) (a b v : ℕ)
    → b < 65535
    → b ≢ a
    → b + 1 ≢ a
    → read_word (write_byte m a v) b ≡ read_word m b
unfolding read_word write_byte
word-write_byte_ne m a b v fits p q = ground arith

pub byte-write_word_ne :
    (m : Memory) (a b v : ℕ)
    → a < 65535
    → b ≢ a
    → b ≢ a + 1
    → read_byte (write_word m a v) b ≡ read_byte m b
unfolding read_byte write_word
byte-write_word_ne m a b v fits p q = ground arith

pub word-write_word_self :
    (m : Memory) (a v : ℕ) → a < 65535 → v < 65536 → read_word (write_word m a v) a ≡ v
unfolding read_word write_word
word-write_word_self m a v fits h = ground arith

pub word-write_word_ne :
    (m : Memory) (a b v : ℕ)
    → a < 65535
    → b < 65535
    → (a + 1 < b) ⊎ (b + 1 < a)
    → read_word (write_word m a v) b ≡ read_word m b
unfolding read_word write_word
word-write_word_ne m a b v fa fb apart = ground arith

pub write_byte-IsMemory : (m : Memory) (a v : ℕ) → IsMemory m → IsMemory (write_byte m a v)
unfolding write_byte
write_byte-IsMemory m a v ok b = ground (arith, ok b)

pub write_word-IsMemory : (m : Memory) (a v : ℕ) → IsMemory m → IsMemory (write_word m a v)
unfolding write_word
write_word-IsMemory m a v ok b = ground (arith, ok b)

pub read_word-lt : (m : Memory) (a : ℕ) → IsMemory m → read_word m a < 65536
unfolding read_word
read_word-lt m a ok = omega (arith, ok a, ok (u16 (a + 1)))

pub read_byte-lt : (m : Memory) (a : ℕ) → IsMemory m → read_byte m a < 256
unfolding read_byte
read_byte-lt m a ok = ok a
