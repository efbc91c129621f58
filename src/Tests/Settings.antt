-- ===== src/Tests/Settings.antt =====
-- The settings file at concrete lines.
use pc98imebridge.Dos.{
  Call, Dos, put_char, create_file, open_file, close_file, write_file, read_file, ioctl_write,
  ioctl_read,
}
use pc98imebridge.Serial.Settings.File.{read_settings}
use pc98imebridge.Serial.Settings.File.Served.{left_of, IsServed, read_settings-served}
use pc98imebridge.Common.{
  codes, Bool, true, false, take, ℕ, ◌≡◌, refl, inl, inr, List, [], ◌∷◌, ◌++◌, Bytes, length, arith,
}
use pc98imebridge.Serial.Line.{default_config}
use pc98imebridge.Serial.Settings.{
  load_config, last_line, skip_blanks, hex_value, hex_loop, parse_hex, config_key, hex_setting,
  apply_line, parse_config_line, fresh, read_config_bytes,
}
use pc98imebridge.Serial.Settings.Lines.{IsLine, read_config_bytes-line}

-- " MODE=0x1a"
abbrev mode_line : Bytes
mode_line = b' ' ∷ b'M' ∷ b'O' ∷ b'D' ∷ b'E' ∷ b'=' ∷ b'0' ∷ b'x' ∷ b'1' ∷ b'a' ∷ []

mode_line-IsLine : IsLine mode_line
mode_line-IsLine = ground arith

mode_line-sets : parse_config_line mode_line default_config ≡ record default_config { mode = 0x1a }
unfolding parse_config_line skip_blanks apply_line hex_setting config_key parse_hex hex_loop
    hex_value
mode_line-sets = refl

read_config_bytes-line_example :
    read_config_bytes (mode_line ++ b'\r' ∷ b'\n' ∷ []) (fresh default_config)
    ≡ fresh (parse_config_line mode_line default_config)
read_config_bytes-line_example =
    read_config_bytes-line mode_line b'\r' (b'\n' ∷ []) default_config mode_line-IsLine (inl refl)
      (inr refl, tt) (omega arith)

abbrev file_content : Bytes
file_content = codes "mode=4e\r\n"

-- DOS has that file at handle 5.
unfoldable file_answer : List Call → Call → ℕ × Bool
file_answer calls (put_char c) = (c, false)
file_answer calls (create_file name) = (6, false)
file_answer calls (open_file mode name) = (5, false)
file_answer calls (close_file h) = (0, false)
file_answer calls (write_file h bytes) = (0, true)
file_answer calls (read_file h count) = (length (take count (left_of 5 file_content calls)), false)
file_answer calls (ioctl_write h bytes) = (0, true)
file_answer calls (ioctl_read h count) = (0, true)

unfoldable file_filled : List Call → Call → Bytes
file_filled calls (put_char c) = []
file_filled calls (create_file name) = []
file_filled calls (open_file mode name) = []
file_filled calls (close_file h) = []
file_filled calls (write_file h bytes) = []
file_filled calls (read_file h count) = take count (left_of 5 file_content calls)
file_filled calls (ioctl_write h bytes) = []
file_filled calls (ioctl_read h count) = []

abbrev with_file : Dos
with_file = record { answer = file_answer; filled = file_filled; calls = [] }

with_file-IsServed : IsServed 5 file_content with_file
unfolding file_answer file_filled
with_file-IsServed = record { opens = λ calls. refl; counts = λ calls. refl; fills = λ calls. refl }

read_settings-served_example :
    load_config (read_settings 10 with_file).0 default_config
    ≡ (true, last_line (read_config_bytes file_content (fresh default_config)))
read_settings-served_example =
    read_settings-served 10 5 file_content with_file default_config (omega arith) with_file-IsServed
      (omega arith)
