-- ===== src/Keyboard/Inject.antt =====
-- `pc98_bios_inject` and `pc98_bios_inject_verify` of dos/pc98/inject_bios_pc98.c, which the
-- foreground client uses for a whole text.
pub mod Whole
pub mod Verify
pub mod Answers
use pc98imebridge.Common.{
  ℕ, zero, suc, ◌+◌, Bool, true, false, not, ◌||◌, Bytes, length, ltb, leb, ◌==◌, if◌then◌else◌,
  has_bits,
}
use pc98imebridge.Keyboard.Memory.{
  Memory, head_address, tail_address, count_address, capacity, read_byte, read_word,
}
use pc98imebridge.Keyboard.Encode.{encode_key, normalized_length}
use pc98imebridge.Keyboard.Queue.{store_key}

-- The loop at `i`, with at most `left` rounds to go. It stores at the tail as it finds it. `false`
-- is the return value -1, with what was stored before it.
unfoldable pub inject_loop : ℕ → Bytes → ℕ → Memory → Bool × Memory
inject_loop zero text i m = (true, m)
inject_loop (suc left) text i m =
    let (key, last) = encode_key text i in
    let rest = inject_loop left text (last + 1) (store_key m (read_word m tail_address) key) in
    if ltb i (length text)
    then (if leb capacity (read_byte m count_address) then (false, m) else rest)
    else (true, m)

-- `false` is the return value -1, `true` is 1. A round moves `i` on, so the length bounds them.
unfoldable pub inject : Bytes → Memory → Bool × Memory
unfolding inject_loop
inject text m =
    let output_length = normalized_length text in
    if output_length == 0
      || ltb capacity output_length
      || not (read_byte m count_address == 0)
      || not (read_word m head_address == read_word m tail_address)
    then (false, m)
    else inject_loop (length text) text 0 m

-- The return values 1, 0 and -1.
pub data Verdict : Type 0 where
  verified mismatch refused : Verdict

-- INT 18h with AX = 0500h, which the BIOS serves: the registers AX and BX that it returns, and the
-- memory that it leaves.
abbrev pub KeyRead : Type 0
KeyRead = Memory → ℕ × ℕ × Memory

module _ (read_key : KeyRead) where
  unfoldable pub verify_loop : ℕ → Bytes → ℕ → Memory → Verdict × Memory
  verify_loop zero text input m = (verified, m)
  verify_loop (suc left) text input m =
      let (expected, last) = encode_key text input in
      let (ax, bx, m') = read_key m in
      let rest = verify_loop left text (last + 1) m' in
      if ltb input (length text)
      then (if not (has_bits bx 0x0100) || not (ax == expected) then (mismatch, m') else rest)
      else (verified, m)

  unfoldable pub inject_verify : Bytes → Memory → Verdict × Memory
  unfolding verify_loop
  inject_verify text m =
      let (done, m') = inject text m in
      if not done then (refused, m') else verify_loop (length text) text 0 m'
