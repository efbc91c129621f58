-- ===== src/Dos.antt =====
-- DOS behind INT 21h, as the inline assembly of dos/pc98 calls it.
use pc98imebridge.Common.{ℕ, Bool, List, [], ◌∷◌, ◌++◌, Bytes, codes, get_or, u16, ◌>>>◌, bit_and}

-- What a call asks for: the function, and what its registers hold or point to.
pub data Call : Type 0 where
  -- AH = 02h, DL
  put_char : ℕ → Call
  -- AX = 3C00h, the name at DX
  create_file : Bytes → Call
  -- AX = 3Dxxh, the mode in AL and the name at DX
  open_file : ℕ → Bytes → Call
  -- AX = 3E00h, BX
  close_file : ℕ → Call
  -- AX = 4000h, BX, and CX bytes at DX
  write_file : ℕ → Bytes → Call
  -- AX = 3F00h, BX, CX
  read_file : ℕ → ℕ → Call
  -- AX = 4403h, BX, and CX bytes at DX
  ioctl_write : ℕ → Bytes → Call
  -- AX = 4402h, BX, CX
  ioctl_read : ℕ → ℕ → Call

-- What a call returns is not ours to say: `answer` gives AX and the carry flag for each call behind
-- those before it, and `filled` the bytes that it puts at DX. The calls are kept in order.
pub record Dos : Type 0 where
  pub answer : List Call → Call → ℕ × Bool
  pub filled : List Call → Call → Bytes
  pub calls : List Call

-- AX, whether the carry flag is set, and DOS behind the call.
unfoldable pub int21 : Call → Dos → ℕ × Bool × Dos
int21 call d =
    let (ax, failed) = d.answer d.calls call in
    (u16 ax, failed, record d { calls = d.calls ++ call ∷ [] })

-- `dos_print`
unfoldable pub dos_print : Bytes → Dos → Dos
dos_print [] d = d
dos_print (c ∷ text) d = dos_print text (int21 (put_char c) d).2

abbrev pub digits : Bytes
digits = codes "0123456789ABCDEF"

-- `digits[n]`, for a value of four bits.
abbrev pub hex_digit : ℕ → ℕ
hex_digit n = get_or digits n 0

-- The two digits of a byte.
unfoldable pub hex_byte : ℕ → Bytes
hex_byte value = hex_digit (value >>> 4) ∷ hex_digit (bit_and value 0x0f) ∷ []

-- The four digits of a word.
unfoldable pub hex_word : ℕ → Bytes
hex_word value =
    hex_digit (bit_and (value >>> 12) 0x0f)
    ∷ hex_digit (bit_and (value >>> 8) 0x0f)
    ∷ hex_digit (bit_and (value >>> 4) 0x0f)
    ∷ hex_digit (bit_and value 0x0f)
    ∷ []
