-- ===== src/Probes/DeviceTest.antt =====
-- `main` of dos/pc98/device_test.c.
use pc98imebridge.Common.{ℕ, Bool, not, ◌&&◌, ◌++◌, Bytes, codes, get_or, ◌==◌, if◌then◌else◌}
use pc98imebridge.Dos.{
  Call, Dos, int21, open_file, close_file, ioctl_write, ioctl_read, dos_print, hex_byte,
}
use pc98imebridge.Client.Control.{device_name, command_packet}

-- Whether the call succeeded, AX, and DOS behind it.
unfoldable pub device_ioctl : Call → Dos → Bool × ℕ × Dos
device_ioctl call d = let (ax, failed, d') = int21 call d in (not failed, ax, d')

-- The output of a command whose five bytes all went out.
unfoldable pub sends_command : ℕ → ℕ → Dos → Bool × Dos
sends_command command handle d =
    let (done, transferred, d') = device_ioctl (ioctl_write handle (command_packet command)) d in
    (done && transferred == 5, d')

-- The tests of the bytes of the status.
abbrev pub good_status : Bytes → Bool
good_status status =
    (get_or status 0 0 == b'I')
    && (get_or status 1 0 == b'9')
    && (get_or status 2 0 == b'8')
    && (get_or status 3 0 == 1)
    && not (get_or status 4 0 == 0)
    && (get_or status 5 0 == 1)
    && (get_or status 6 0 == 1)

-- The status of eight bytes: whether all came and pass, the bytes, and DOS behind the call.
unfoldable pub reads_status : ℕ → Dos → Bool × Bytes × Dos
reads_status handle d =
    let call = ioctl_read handle 8 in
    let status = d.filled d.calls call in
    let (done, transferred, d') = device_ioctl call d in
    (done && transferred == 8 && good_status status, status, d')

-- A failure behind the opening: the exit code, and DOS.
unfoldable pub fail : Bytes → ℕ → Dos → ℕ × Dos
fail text handle d = (1, (int21 (close_file handle) (dos_print text d)).2)

unfoldable pub passed_text : Bytes → Bytes
passed_text status =
    codes "PASS: version="
    ++ hex_byte (get_or status 3 0)
    ++ codes " open-count="
    ++ hex_byte (get_or status 4 0)
    ++ codes " command="
    ++ hex_byte (get_or status 5 0)
    ++ codes "\r\n"

-- The session is closed and then the device.
unfoldable pub close_test : ℕ → Dos → ℕ × Dos
close_test handle d =
    let (closed, d1) = sends_command 2 handle d in
    if closed
    then (0, (int21 (close_file handle) d1).2)
    else fail (codes "FAIL: IOCTL session close\r\n") handle d1

unfoldable pub status_test : ℕ → Dos → ℕ × Dos
status_test handle d =
    let (good, status, d1) = reads_status handle d in
    if good
    then close_test handle (dos_print (passed_text status) d1)
    else fail (codes "FAIL: IOCTL input\r\n") handle d1

unfoldable pub session_test : ℕ → Dos → ℕ × Dos
session_test handle d =
    let (opened, d1) = sends_command 1 handle d in
    if opened then status_test handle d1 else fail (codes "FAIL: IOCTL output\r\n") handle d1

unfoldable pub device_test : Dos → ℕ × Dos
device_test d =
    let (handle, failed, d1) =
      int21 (open_file 2 device_name) (dos_print (codes "IME98 device IOCTL test\r\n") d) in
    if failed
    then (1, dos_print (codes "FAIL: cannot open IME98$\r\n") d1)
    else session_test handle d1
