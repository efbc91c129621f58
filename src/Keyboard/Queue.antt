-- ===== src/Keyboard/Queue.antt =====
-- The operations on the BIOS key queue: `pc98_bios_enqueue_word` and
-- `pc98_bios_discard_hotkey_space` of dos/pc98/inject_bios_pc98.c, and the removal of the oldest
-- word at `pc98_input_dequeue` of dos/pc98/tsr_hook.S. Each runs with interrupts off, so it is one
-- step.
pub mod Ring
mod Store
pub mod Removal
pub mod Oldest
pub mod Refine
use pc98imebridge.Common.{
  ℕ, ◌+◌, ◌-◌, Bool, true, false, not, ◌||◌, ltb, leb, ◌==◌, if◌then◌else◌, has_bits, u8, u16,
  ◌>>>◌,
}
use pc98imebridge.Keyboard.Memory.{
  Memory, buffer_start, buffer_end, head_address, tail_address, count_address, capacity, read_byte,
  write_byte, read_word, write_word,
}
use pc98imebridge.Keyboard.Encode.{scan_space}

-- Outside the buffer, or between two words.
abbrev pub bad_position : ℕ → Bool
bad_position position = ltb position buffer_start || leb buffer_end position || has_bits position 1

-- The place behind `position`, round the end of the buffer.
abbrev pub next_position : ℕ → ℕ
next_position position =
    let next = u16 (position + 2) in if leb buffer_end next then buffer_start else next

-- Stores a key at `position`, which is the tail, and counts it.
abbrev pub store_key : Memory → ℕ → ℕ → Memory
store_key m position key =
    let stored = write_word m position key in
    let moved = write_word stored tail_address (next_position position) in
    write_byte moved count_address (read_byte moved count_address + 1)

unfoldable pub enqueue_word : ℕ → Memory → Bool × Memory
enqueue_word key m =
    let position = read_word m tail_address in
    if leb capacity (read_byte m count_address) || bad_position position
    then (false, m)
    else (true, store_key m position key)

-- The place before `position`, round the start of the buffer.
abbrev pub previous_position : ℕ → ℕ
previous_position position = if position == buffer_start then buffer_end - 2 else position - 2

-- `--*count` runs only at a count above 0.
unfoldable pub discard_hotkey_space : Memory → Bool × Memory
discard_hotkey_space m =
    let position = read_word m tail_address in
    if read_byte m count_address == 0 || bad_position position
    then (false, m)
    else let previous = previous_position position in
      let key = read_word m previous in
      if not (u8 key == b' ') || not (u8 (key >>> 8) == scan_space)
      then (false, m)
      else let moved = write_word m tail_address previous in
        (true, write_byte moved count_address (read_byte moved count_address - 1))

-- `none` while the queue is empty and the caller waits.
unfoldable pub dequeue : Memory → Bool × ℕ × Memory
dequeue m =
    if read_byte m count_address == 0
    then (false, 0, m)
    else let counted = write_byte m count_address (read_byte m count_address - 1) in
      let position = read_word counted head_address in
      let key = read_word counted position in
      let next = u16 (position + 2) in
      let stored = if ltb next buffer_end then next else buffer_start in
      (true, key, write_word counted head_address stored)
