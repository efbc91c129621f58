-- ===== src/Tests/Driver.antt =====
-- The test program of dos/pc98/device_test.c on a DOS that drives the device at handle 5.
use pc98imebridge.Common.{ℕ, ◌≡◌, refl, Bool, false, List, [], Bytes, length, arith}
use pc98imebridge.Dos.{
  Call, Dos, put_char, create_file, open_file, close_file, write_file, read_file, ioctl_write,
  ioctl_read,
}
use pc98imebridge.Probes.DeviceTest.{device_test}
use pc98imebridge.Driver.{Reply, interrupt_entry}
use pc98imebridge.Driver.Dispatch.{call_devices, driver_of, failed, IsDriven}
use pc98imebridge.Driver.Sessions.{device_test-passes}

abbrev told : Reply → ℕ × Bool
told reply = (reply.count, failed reply)

unfoldable driven_answer : List Call → Call → ℕ × Bool
driven_answer calls (put_char c) = (c, false)
driven_answer calls (create_file name) = (6, false)
driven_answer calls (open_file mode name) = (5, false)
driven_answer calls (close_file h) = (0, false)
driven_answer calls (write_file h bytes) = (length bytes, false)
driven_answer calls (read_file h count) = (0, false)
driven_answer calls (ioctl_write h bytes) =
    told (interrupt_entry 0x0c (length bytes) bytes (driver_of 5 calls)).0
driven_answer calls (ioctl_read h count) =
    told (interrupt_entry 0x03 count [] (driver_of 5 calls)).0

unfoldable driven_filled : List Call → Call → Bytes
driven_filled calls (put_char c) = []
driven_filled calls (create_file name) = []
driven_filled calls (open_file mode name) = []
driven_filled calls (close_file h) = []
driven_filled calls (write_file h bytes) = []
driven_filled calls (read_file h count) = []
driven_filled calls (ioctl_write h bytes) = []
driven_filled calls (ioctl_read h count) =
    (interrupt_entry 0x03 count [] (driver_of 5 calls)).0.buffer

abbrev driven : Dos
driven = record { answer = driven_answer; filled = driven_filled; calls = [] }

driven-IsDriven : IsDriven 5 driven
unfolding driven_answer driven_filled
driven-IsDriven = record {
  opens = λ calls. refl;
  outputs = λ calls bytes. refl;
  inputs = λ calls count. refl;
  fills = λ calls count. refl;
}

driver_idle : ((driver_of 5 driven.calls).open_count ≡ 0)
unfolding call_devices
driver_idle = refl

device_test-passes_example :
    ((device_test driven).0 ≡ 0)
    × (driver_of 5 (device_test driven).1.calls
        ≡ record (driver_of 5 driven.calls) { last_command = 2; session_state = 0 })
device_test-passes_example =
    device_test-passes 5 driven (omega arith) driven-IsDriven (omega (arith, driver_idle))
