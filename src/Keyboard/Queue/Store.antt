-- ===== src/Keyboard/Queue/Store.antt =====
-- What `store_key` leaves at each place of the BIOS data area, and the two position steps.
use pc98imebridge.Common.{ℕ, ◌+◌, ◌-◌, ◌%◌, ◌<◌, ◌≡◌, ◌≢◌, ◌∙◌, ◌⊎◌, false, arith, ap}
use pc98imebridge.Common.Bits.{bit_and-one}
use pc98imebridge.Keyboard.Memory.{
  Memory, IsMemory, tail_address, count_address, capacity, read_byte, read_word, write_word,
}
use pc98imebridge.Keyboard.Memory.Laws.{
  byte-write_byte_self, byte-write_byte_ne, word-write_byte_ne, byte-write_word_ne,
  word-write_word_self, word-write_word_ne, write_byte-IsMemory, write_word-IsMemory,
}
use pc98imebridge.Keyboard.Queue.{bad_position, next_position, previous_position, store_key}
use pc98imebridge.Keyboard.Queue.Ring.{slot, count}

pub bad_position-slot : (t : ℕ) → t < capacity → bad_position (slot t) ≡ false
bad_position-slot t h = ground (arith, bit_and-one (slot t))

pub next_position-slot : (t : ℕ) → t < capacity → next_position (slot t) ≡ slot ((t + 1) % capacity)
next_position-slot t h = ground arith

pub previous_position-slot :
    (t : ℕ) → t < capacity → previous_position (slot ((t + 1) % capacity)) ≡ slot t
previous_position-slot t h = ground arith

module _ (m : Memory) (t key : ℕ) (h : t < capacity) where
  abbrev stored : Memory
  stored = write_word m (slot t) key

  abbrev moved : Memory
  moved = write_word stored tail_address (next_position (slot t))

  -- Neither word write touches the count.
  count-moved : read_byte moved count_address ≡ count m
  count-moved =
      byte-write_word_ne stored tail_address count_address (next_position (slot t)) (omega arith)
        (omega arith) (omega arith)
      ∙ byte-write_word_ne m (slot t) count_address key (omega arith) (omega arith) (omega arith)

  pub count-store_key : count m < 255 → count (store_key m (slot t) key) ≡ count m + 1
  count-store_key small =
      byte-write_byte_self moved count_address (read_byte moved count_address + 1)
        (omega (arith, count-moved))
      ∙ ap (λ c. c + 1) count-moved

  pub tail-store_key : read_word (store_key m (slot t) key) tail_address ≡ slot ((t + 1) % capacity)
  tail-store_key =
      word-write_byte_ne moved count_address tail_address (read_byte moved count_address + 1)
        (omega arith) (omega arith) (omega arith)
      ∙ word-write_word_self stored tail_address (next_position (slot t)) (omega arith)
          (omega (arith, next_position-slot t h))
      ∙ next_position-slot t h

  -- Every word that lies below the tail pointer, and is not the one stored, is kept.
  pub word-store_key_ne :
      (b : ℕ)
      → b < tail_address - 1
      → (slot t + 1 < b) ⊎ (b + 1 < slot t)
      → read_word (store_key m (slot t) key) b ≡ read_word m b
  word-store_key_ne b below apart =
      word-write_byte_ne moved count_address b (read_byte moved count_address + 1) (omega arith)
        (omega arith) (omega arith)
      ∙ word-write_word_ne stored tail_address b (next_position (slot t)) (omega arith)
          (omega arith) (omega arith)
      ∙ word-write_word_ne m (slot t) b key (omega arith) (omega arith) apart

  pub word-store_key_self : key < 65536 → read_word (store_key m (slot t) key) (slot t) ≡ key
  word-store_key_self fits =
      word-write_byte_ne moved count_address (slot t) (read_byte moved count_address + 1)
        (omega arith) (omega arith) (omega arith)
      ∙ word-write_word_ne stored tail_address (slot t) (next_position (slot t)) (omega arith)
          (omega arith) (omega arith)
      ∙ word-write_word_self m (slot t) key (omega arith) fits

  pub store_key-IsMemory : IsMemory m → IsMemory (store_key m (slot t) key)
  store_key-IsMemory ok =
      write_byte-IsMemory moved count_address _
        (write_word-IsMemory stored tail_address _ (write_word-IsMemory m (slot t) key ok))

  -- Outside the stored word, the tail and the count nothing changes.
  pub byte-store_key_ne :
      (b : ℕ)
      → b ≢ slot t
      → b ≢ slot t + 1
      → (b < tail_address) ⊎ (count_address < b)
      → read_byte (store_key m (slot t) key) b ≡ read_byte m b
  byte-store_key_ne b p q away =
      byte-write_byte_ne moved count_address b (read_byte moved count_address + 1) (omega arith)
      ∙ byte-write_word_ne stored tail_address b (next_position (slot t)) (omega arith)
          (omega arith) (omega arith)
      ∙ byte-write_word_ne m (slot t) b key (omega arith) p q
