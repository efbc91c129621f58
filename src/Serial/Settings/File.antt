-- ===== src/Serial/Settings/File.antt =====
-- The DOS calls of `pc98_serial_load_config` (dos/pc98/serial_pc98.c): the file is opened, read in
-- pieces of 64 bytes, and closed.
pub mod Served
use pc98imebridge.Common.{
  ℕ, zero, suc, Bool, true, false, Option, none, some, List, [], ◌∷◌, Bytes, codes, length, take,
  ◌==◌, if◌then◌else◌,
}
use pc98imebridge.Dos.{Dos, int21, open_file, read_file, close_file}

abbrev pub settings_name : Bytes
settings_name = codes "IME98.CFG"

-- `PC98_CONFIG_READ_SIZE`
abbrev pub read_size : ℕ
read_size = 64

-- `dos_read`: the bytes that the caller looks at.
unfoldable pub dos_read : ℕ → ℕ → Dos → Bytes × Dos
dos_read handle size d =
    let (ax, failed, d1) = int21 (read_file handle size) d in
    (if failed then [] else take ax (d.filled d.calls (read_file handle size)), d1)

-- The reads until one returns nothing, as many as `left` allows.
unfoldable pub read_pieces : ℕ → ℕ → Dos → List Bytes × Dos
read_pieces zero handle d = ([], d)
read_pieces (suc left) handle d =
    let (piece, d1) = dos_read handle read_size d in
    let (later, d2) = read_pieces left handle d1 in
    if length piece == 0 then ([], d1) else (piece ∷ later, d2)

-- The handle, and whether the call failed.
abbrev pub dos_open_readonly : Bytes → Dos → ℕ × Bool × Dos
dos_open_readonly name d = int21 (open_file 0 name) d

abbrev pub dos_close : ℕ → Dos → Dos
dos_close handle d = (int21 (close_file handle) d).2

-- The file is opened, read and closed; `none` is a file that cannot be opened.
unfoldable pub read_settings : ℕ → Dos → Option (List Bytes) × Dos
read_settings left d =
    let (handle, failed, d1) = dos_open_readonly settings_name d in
    let (pieces, d2) = read_pieces left handle d1 in
    if failed then (none, d1) else (some pieces, dos_close handle d2)
