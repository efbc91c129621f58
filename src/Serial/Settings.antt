-- ===== src/Serial/Settings.antt =====
-- The reading of IME98.CFG in dos/pc98/serial_pc98.c.
pub mod Lines
pub mod Reads
pub mod Hex
pub mod File
use pc98imebridge.Common.{
  ℕ, ◌+◌, ◌-◌, Bool, true, false, not, ◌&&◌, ◌||◌, Option, none, some, List, [], ◌∷◌, ◌++◌, Bytes,
  length, get_or, drop, ltb, leb, ◌==◌, if◌then◌else◌, u8, u16, ◌<<<◌, bit_or,
}
use pc98imebridge.Serial.Line.{Config}

-- A string is its bytes before the final zero, which stands behind them.
abbrev pub first_char : Bytes → ℕ
first_char text = get_or text 0 0

abbrev pub is_blank : ℕ → Bool
is_blank b = b == b' ' || b == b'\t'

-- `while (*text == ' ' || *text == '\t') ++text;`
unfoldable pub skip_blanks : Bytes → Bytes
skip_blanks [] = []
skip_blanks (b ∷ text) = let rest = skip_blanks text in if is_blank b then rest else b ∷ text

-- FFh is no digit.
unfoldable pub hex_value : ℕ → ℕ
hex_value value =
    if leb b'0' value && leb value b'9'
    then value - b'0'
    else if leb b'A' value && leb value b'F'
    then value - b'A' + 10
    else if leb b'a' value && leb value b'f'
    then value - b'a' + 10
    else 0xff

-- The loop over the digits: the result and their count.
unfoldable pub hex_loop : Bytes → ℕ → ℕ → ℕ × ℕ
hex_loop [] result count = (result, count)
hex_loop (b ∷ text) result count =
    let digit : ℕ = hex_value b in
    let rest = hex_loop text (u16 (bit_or (result <<< 4) digit)) (count + 1) in
    if not (digit == 0xff) && ltb count 4 then rest else (result, count)

abbrev pub has_prefix : Bytes → Bool
has_prefix text = first_char text == b'0' && (get_or text 1 0 == b'x' || get_or text 1 0 == b'X')

-- `none` is the return value 0.
unfoldable pub parse_hex : Bytes → Option ℕ
parse_hex text =
    let digits : Bytes = skip_blanks text in
    let (result, count) = hex_loop (if has_prefix digits then drop 2 digits else digits) 0 0 in
    if count == 0 then none else some result

unfoldable pub config_key : Bytes → Bytes → Bool
config_key line [] = first_char line == b'='
config_key [] (k ∷ key) = false
config_key (b ∷ line) (k ∷ key) = let rest = config_key line key in if b == k then rest else false

unfoldable pub config_value : Bytes → Bytes → Bool
config_value text [] = first_char (skip_blanks text) == 0
config_value [] (v ∷ value) = false
config_value (b ∷ text) (v ∷ value) =
    let rest = config_value text value in if b == v then rest else false

-- The value behind `key` and its sign of equality.
unfoldable pub hex_setting : Bytes → Bytes → Option ℕ
hex_setting line key = if config_key line key then parse_hex (drop (length key + 1) line) else none

abbrev pub data_port_key : Bytes
data_port_key = b'D' ∷ b'A' ∷ b'T' ∷ b'A' ∷ b'_' ∷ b'P' ∷ b'O' ∷ b'R' ∷ b'T' ∷ []

abbrev pub status_port_key : Bytes
status_port_key = b'S' ∷ b'T' ∷ b'A' ∷ b'T' ∷ b'U' ∷ b'S' ∷ b'_' ∷ b'P' ∷ b'O' ∷ b'R' ∷ b'T' ∷ []

abbrev pub mode_key : Bytes
mode_key = b'M' ∷ b'O' ∷ b'D' ∷ b'E' ∷ []

abbrev pub command_key : Bytes
command_key = b'C' ∷ b'O' ∷ b'M' ∷ b'M' ∷ b'A' ∷ b'N' ∷ b'D' ∷ []

abbrev pub timer_count_key : Bytes
timer_count_key = b'T' ∷ b'I' ∷ b'M' ∷ b'E' ∷ b'R' ∷ b'_' ∷ b'C' ∷ b'O' ∷ b'U' ∷ b'N' ∷ b'T' ∷ []

abbrev pub hotkey_key : Bytes
hotkey_key = b'H' ∷ b'O' ∷ b'T' ∷ b'K' ∷ b'E' ∷ b'Y' ∷ []

abbrev pub plus_space : Bytes
plus_space = b'+' ∷ b'S' ∷ b'P' ∷ b'A' ∷ b'C' ∷ b'E' ∷ []

-- The last branch, for the hotkey.
unfoldable pub hotkey_setting : Bytes → Config → Config
hotkey_setting line config =
    let hotkey : Bytes = skip_blanks (drop 7 line) in
    if not (config_key line hotkey_key)
    then config
    else if config_value hotkey (b'S' ∷ b'H' ∷ b'I' ∷ b'F' ∷ b'T' ∷ plus_space)
    then record config { hotkey_modifier_mask = 0x01 }
    else if config_value hotkey (b'G' ∷ b'R' ∷ b'A' ∷ b'P' ∷ b'H' ∷ plus_space)
    then record config { hotkey_modifier_mask = 0x08 }
    else if config_value hotkey (b'C' ∷ b'T' ∷ b'R' ∷ b'L' ∷ plus_space)
    then record config { hotkey_modifier_mask = 0x10 }
    else config

-- The chain of keys on a line without leading blanks.
unfoldable pub apply_line : Bytes → Config → Config
apply_line line config = elim (hex_setting line data_port_key) [
  | some value ↦ record config { data_port = value }
  | none ↦ elim (hex_setting line status_port_key) [
    | some value ↦ record config { status_port = value }
    | none ↦ elim (hex_setting line mode_key) [
      | some value ↦ record config { mode = u8 value }
      | none ↦ elim (hex_setting line command_key) [
        | some value ↦ record config { command = u8 value }
        | none ↦ elim (hex_setting line timer_count_key) [
          | some value ↦ record config { timer_count = value }
          | none ↦ hotkey_setting line config
        ]
      ]
    ]
  ]
]

abbrev pub is_comment : ℕ → Bool
is_comment b = b == b';' || b == b'#'

unfoldable pub parse_config_line : Bytes → Config → Config
parse_config_line line config =
    let text : Bytes = skip_blanks line in
    if first_char text == 0 || is_comment (first_char text) then config else apply_line text config

-- The variables of the loop in `pc98_serial_load_config`; `line` is `line[0 .. line_length)`.
pub record Reader : Type 0 where
  pub config : Config
  pub line : Bytes
  pub overflow : Bool
  pub started : Bool
  pub comment : Bool

abbrev pub fresh : Config → Reader
fresh config = record {
  config = config;
  line = [];
  overflow = false;
  started = false;
  comment = false;
}

-- `sizeof(line)`
abbrev pub line_size : ℕ
line_size = 128

abbrev pub ends_line : ℕ → Bool
ends_line value = value == b'\r' || value == b'\n'

-- A byte of the line itself.
abbrev pub append_byte : ℕ → Reader → Reader
append_byte value r =
    if ltb (length r.line + 1) line_size
    then record r { line = r.line ++ value ∷ [] }
    else record r { overflow = true }

unfoldable pub read_config_byte : ℕ → Reader → Reader
read_config_byte value r =
    if ends_line value
    then fresh
        (if not r.overflow && not r.comment then parse_config_line r.line r.config else r.config)
    else if not r.overflow && not r.comment
    then if not r.started
      then if is_blank value
        then r
        else if is_comment value
        then record r { started = true; comment = true }
        else append_byte value (record r { started = true })
      else append_byte value r
    else r

-- The bytes that one `dos_read` returned.
unfoldable pub read_config_bytes : Bytes → Reader → Reader
read_config_bytes [] r = r
read_config_bytes (value ∷ bytes) r = read_config_bytes bytes (read_config_byte value r)

-- The reads of the file, in order, until one returns nothing.
unfoldable pub read_config_chunks : List Bytes → Reader → Reader
read_config_chunks [] r = r
read_config_chunks (chunk ∷ chunks) r =
    let rest = read_config_chunks chunks (read_config_bytes chunk r) in
    if length chunk == 0 then r else rest

-- Behind the last read: a line without an end counts as one.
abbrev pub last_line : Reader → Config
last_line r =
    if not (length r.line == 0) && not r.overflow && not r.comment
    then parse_config_line r.line r.config
    else r.config

-- `none` is a file that cannot be opened.
unfoldable pub load_config : Option (List Bytes) → Config → Bool × Config
load_config none config = (false, config)
load_config (some chunks) config = (true, last_line (read_config_chunks chunks (fresh config)))
