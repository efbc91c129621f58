-- ===== src/Keyboard/Encode.antt =====
-- `normalized_length` and `pc98_bios_encode_key` of dos/pc98/inject_bios_pc98.c.
pub mod Keys
use pc98imebridge.Common.{
  ℕ, zero, suc, ◌+◌, Bool, ◌&&◌, [], ◌∷◌, Bytes, length, get_or, ltb, ◌==◌, if◌then◌else◌, bit_or,
  ◌<<<◌, u16,
}

abbrev pub scan_esc : ℕ
scan_esc = 0x00

abbrev pub scan_backspace : ℕ
scan_backspace = 0x0e

abbrev pub scan_tab : ℕ
scan_tab = 0x0f

abbrev pub scan_return : ℕ
scan_return = 0x1c

abbrev pub scan_space : ℕ
scan_space = 0x34

abbrev pub char_at : Bytes → ℕ → ℕ
char_at text i = get_or text i 0

-- A line feed stands right behind place `i`, within the text.
abbrev pub line_feed_after : Bytes → ℕ → Bool
line_feed_after text i = ltb (i + 1) (length text) && char_at text (i + 1) == b'\n'

-- The loop at `input`, with `output` counted so far and at most `left` rounds to go.
unfoldable pub normalized_loop : ℕ → Bytes → ℕ → ℕ → ℕ
normalized_loop zero text input output = output
normalized_loop (suc left) text input output =
    let skip : ℕ =
      if char_at text input == b'\r' && line_feed_after text input then input + 1 else input in
    let rest = normalized_loop left text (skip + 1) (output + 1) in
    if ltb input (length text) then rest else output

-- A round moves `input` on by at least one, so the text's length bounds the rounds.
unfoldable pub normalized_length : Bytes → ℕ
unfolding normalized_loop
normalized_length text = normalized_loop (length text) text 0 0

abbrev pub key_word : ℕ → ℕ → ℕ
key_word character scan = bit_or character (scan <<< 8)

-- The key word, and `*input` as the function leaves it.
unfoldable pub encode_key : Bytes → ℕ → ℕ × ℕ
encode_key text input =
    let character = char_at text input in
    if character == b'\r'
    then (key_word b'\r' scan_return, if line_feed_after text input then input + 1 else input)
    else if character == b'\n'
    then (key_word b'\r' scan_return, input)
    else if character == 0x08
    then (key_word 0x08 scan_backspace, input)
    else if character == b'\t'
    then (key_word b'\t' scan_tab, input)
    else if character == 0x1b
    then (key_word 0x1b scan_esc, input)
    else (key_word character 0, input)
