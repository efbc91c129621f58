-- ===== src/Probes/ComOpen.antt =====
-- `main` of dos/pc98/com_probe.c.
use pc98imebridge.Common.{List, [], ◌∷◌, ◌++◌, Bytes, codes, if◌then◌else◌}
use pc98imebridge.Dos.{Dos, int21, open_file, close_file, dos_print, hex_word}

abbrev pub com_names : List Bytes
com_names = codes "COM1" ∷ codes "COM2" ∷ codes "COM3" ∷ codes "COM4" ∷ []

-- One name: the device is opened, what came of it is printed, and it is closed again.
unfoldable pub probe_name : Bytes → Dos → Dos
probe_name name d =
    let (ax, failed, d1) = int21 (open_file 2 name) d in
    if failed
    then dos_print (name ++ codes ": FAIL AX=" ++ hex_word ax ++ codes "\r\n") d1
    else (int21 (close_file ax)
        (dos_print (name ++ codes ": OPEN handle=" ++ hex_word ax ++ codes "\r\n") d1)).2

unfoldable pub probe_names : List Bytes → Dos → Dos
probe_names [] d = d
probe_names (name ∷ names) d = probe_names names (probe_name name d)

-- Its exit code is 0.
unfoldable pub com_probe : Dos → Dos
com_probe d = probe_names com_names d
