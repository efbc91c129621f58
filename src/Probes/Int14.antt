-- ===== src/Probes/Int14.antt =====
-- `main` of dos/pc98/int14_probe.c.
use pc98imebridge.Common.{ℕ, ◌++◌, Bytes, codes, u8, ◌>>>◌}
use pc98imebridge.Dos.{Dos, dos_print, hex_byte}

-- INT 14h with DX = 0: AX behind the call, for the number of the call and AX before it.
abbrev pub Int14 : Type 0
Int14 = ℕ → ℕ → ℕ

abbrev pub high_byte : ℕ → ℕ
high_byte ax = u8 (ax >>> 8)

unfoldable pub int14_text : Int14 → Bytes
int14_text int14 =
    let init = int14 0 0x00a3 in
    let status = int14 1 0x0300 in
    let send = int14 2 0x0155 in
    codes "INT 14h COM1 probe\r\n"
    ++ codes "INIT AX="
    ++ hex_byte (high_byte init)
    ++ codes " "
    ++ hex_byte (u8 init)
    ++ codes "\r\nSTAT AH="
    ++ hex_byte (high_byte status)
    ++ codes " AL="
    ++ hex_byte (u8 status)
    ++ codes "\r\nSEND AH="
    ++ hex_byte (high_byte send)
    ++ codes "\r\n"

-- What it prints between the calls. Its exit code is 0.
unfoldable pub int14_probe : Int14 → Dos → Dos
int14_probe int14 d = dos_print (int14_text int14) d
