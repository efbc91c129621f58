-- ===== src/Client/Log.antt =====
-- The state of the client of dos/pc98/main.c, its log and what it prints.
pub mod Kept
use pc98imebridge.Common.{ℕ, [], ◌∷◌, ◌++◌, Bytes, codes, ◌==◌, take, if◌then◌else◌}
use pc98imebridge.Dos.{Dos, int21, create_file, write_file, dos_print, hex_byte}
use pc98imebridge.Keyboard.Memory.{Memory}
use pc98imebridge.Serial.Line.{Line}
use pc98imebridge.Client.Control.{Control}

-- The state of the program and of what it calls.
pub record Client : Type 0 where
  pub dos : Dos
  pub control : Control
  pub log_handle : ℕ
  pub line : Line
  pub memory : Memory

-- The carry flag is not looked at.
unfoldable pub log_open : Client → Client
log_open c =
    let (ax, failed, d) = int21 (create_file (codes "Z:\\IME98.LOG")) c.dos in
    record c { log_handle = ax; dos = d }

unfoldable pub log_write : Bytes → Client → Client
log_write text c =
    if c.log_handle == 0xffff
    then c
    else record c { dos = (int21 (write_file c.log_handle text) c.dos).2 }

-- What it puts out on the debug port is an empty macro in the release build, here and below.
unfoldable pub log_line : Bytes → Client → Client
log_line text c = log_write text c

-- The bytes in digits, each with a space behind it.
unfoldable pub hex_line : Bytes → Bytes
hex_line [] = []
hex_line (b ∷ bytes) = hex_byte b ++ b' ' ∷ hex_line bytes

unfoldable pub log_packet_prefix : Bytes → Client → Client
log_packet_prefix packet c = log_line (codes "RX " ++ hex_line (take 32 packet) ++ codes "\r\n") c

unfoldable pub print : Bytes → Client → Client
print text c = record c { dos = dos_print text c.dos }
