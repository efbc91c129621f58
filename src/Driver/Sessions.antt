-- ===== src/Driver/Sessions.antt =====
-- The programs of dos/pc98 that open the device, on a DOS that drives it.
use pc98imebridge.Common.{
  ℕ, ◌≡◌, ◌≢◌, ◌<◌, refl, sym, ap, subst, ◌∙◌, true, false, [], ◌∷◌, Bytes, codes, u16, arith,
}
use pc98imebridge.Dos.{Dos, int21, open_file, close_file, ioctl_write, ioctl_read, dos_print}
use pc98imebridge.Client.Control.{device_name, command_packet}
use pc98imebridge.Probes.DeviceTest.{
  device_ioctl, sends_command, good_status, reads_status, passed_text, close_test, status_test,
  session_test, device_test,
}
use pc98imebridge.Driver.{
  Driver, Reply, device_open, device_close, ioctl_output, ioctl_input, interrupt_entry,
  session_after, request_done,
}
use pc98imebridge.Driver.Dispatch.{
  call_device, driver_of, failed, IsDriven, driver_of-int21, driver_of-dos_print, int21-IsDriven,
  dos_print-IsDriven,
}

-- The commands of the two programs are accepted: all five bytes go out, and the session is as the
-- command says.
accepted :
    (command : ℕ) (k : Driver)
    → command < 3
    → interrupt_entry 0x0c 5 (command_packet command) k ≡ (
      record { status = request_done; count = 5; buffer = command_packet command },
      record k { last_command = command; session_state = session_after command k.session_state },
    )
unfolding interrupt_entry ioctl_output
accepted command k small = ground arith

sends_command-driven :
    (command handle : ℕ) (d : Dos)
    → command < 3
    → IsDriven handle d
    → sends_command command handle d
      ≡ (true, (int21 (ioctl_write handle (command_packet command)) d).2)
unfolding sends_command device_ioctl int21
sends_command-driven command handle d small v =
    let answer =
      v.outputs d.calls (command_packet command)
      ∙ ap (λ (r : Reply × Driver). (r.0.count, failed r.0))
          (accepted command (driver_of handle d.calls) small) in
    rw answer refl

driver_of-command :
    (command handle : ℕ) (d : Dos)
    → command < 3
    → let k = driver_of handle d.calls in
      driver_of handle (int21 (ioctl_write handle (command_packet command)) d).2.calls
      ≡ record k { last_command = command; session_state = session_after command k.session_state }
unfolding call_device
driver_of-command command handle d small =
    driver_of-int21 handle (ioctl_write handle (command_packet command)) d
    ∙ ground (arith, accepted command (driver_of handle d.calls) small)

device_open-some : (k : Driver) → (device_open k).open_count ≢ 0
unfolding device_open
device_open-some k = ground arith

device_close-device_open :
    (k : Driver) (command state : ℕ)
    → k.open_count < 255
    → device_close (record (device_open k) { last_command = command; session_state = state })
      ≡ record k { last_command = command; session_state = state }
unfolding device_open device_close
device_close-device_open k command state room = ground arith

driver_of-open :
    (handle : ℕ) (d : Dos)
    → driver_of handle (int21 (open_file 2 device_name) d).2.calls
      ≡ device_open (driver_of handle d.calls)
unfolding call_device interrupt_entry
driver_of-open handle d = driver_of-int21 handle (open_file 2 device_name) d

driver_of-close :
    (handle : ℕ) (d : Dos)
    → driver_of handle (int21 (close_file handle) d).2.calls
      ≡ device_close (driver_of handle d.calls)
unfolding call_device interrupt_entry
driver_of-close handle d = driver_of-int21 handle (close_file handle) d ∙ ground arith

-- The status that a driver with an open session gives.
status_of : Driver → Bytes
status_of k = b'I' ∷ b'9' ∷ b'8' ∷ 1 ∷ k.open_count ∷ k.last_command ∷ k.session_state ∷ 0 ∷ []

status_given :
    (k : Driver)
    → interrupt_entry 0x03 8 [] k
      ≡ (record { status = request_done; count = 8; buffer = status_of k }, k)
unfolding interrupt_entry ioctl_input status_of
status_given k = refl

good_status-open :
    (k : Driver)
    → k.open_count ≢ 0
    → k.last_command ≡ 1
    → k.session_state ≡ 1
    → good_status (status_of k) ≡ true
unfolding status_of
good_status-open k some_open last up = ground arith

reads_status-driven :
    (handle : ℕ) (d : Dos)
    → (driver_of handle d.calls).open_count ≢ 0
    → (driver_of handle d.calls).last_command ≡ 1
    → (driver_of handle d.calls).session_state ≡ 1
    → IsDriven handle d
    → reads_status handle d
      ≡ (true, status_of (driver_of handle d.calls), (int21 (ioctl_read handle 8) d).2)
unfolding reads_status device_ioctl int21 status_of
reads_status-driven handle d some_open last up v =
    let k : Driver = driver_of handle d.calls in
    let given = status_given k in
    let answer = v.inputs d.calls 8 ∙ ap (λ (r : Reply × Driver). (r.0.count, failed r.0)) given in
    let filled = v.fills d.calls 8 ∙ ap (λ (r : Reply × Driver). r.0.buffer) given in
    rw answer (
      rw filled (
        ap (λ b. (b, status_of k, (int21 (ioctl_read handle 8) d).2))
          (good_status-open k some_open last up)))

driver_of-read :
    (handle : ℕ) (d : Dos)
    → driver_of handle (int21 (ioctl_read handle 8) d).2.calls ≡ driver_of handle d.calls
unfolding call_device
driver_of-read handle d =
    driver_of-int21 handle (ioctl_read handle 8) d
    ∙ ground (arith, ap (λ (r : Reply × Driver). r.1) (status_given (driver_of handle d.calls)))

close_test-driven :
    (handle : ℕ) (d : Dos)
    → IsDriven handle d
    → close_test handle d
      ≡ (0, (int21 (close_file handle) (int21 (ioctl_write handle (command_packet 2)) d).2).2)
unfolding close_test
close_test-driven handle d v = rw (sends_command-driven 2 handle d (omega arith) v) refl

-- What the test has done at its end.
passed : (handle : ℕ) (d : Dos) → Dos
passed handle d =
    let opened : Dos = (int21 (ioctl_write handle (command_packet 1)) d).2 in
    let asked : Dos = (int21 (ioctl_read handle 8) opened).2 in
    let told : Dos = dos_print (passed_text (status_of (driver_of handle opened.calls))) asked in
    (int21 (close_file handle) (int21 (ioctl_write handle (command_packet 2)) told).2).2

session_test-driven :
    (handle : ℕ) (d : Dos)
    → (driver_of handle d.calls).open_count ≢ 0
    → IsDriven handle d
    → session_test handle d ≡ (0, passed handle d)
unfolding session_test status_test passed
session_test-driven handle d some_open v =
    let opened : Dos = (int21 (ioctl_write handle (command_packet 1)) d).2 in
    let now = driver_of-command 1 handle d (omega arith) in
    let v1 : IsDriven handle opened = int21-IsDriven (ioctl_write handle (command_packet 1)) v in
    rw (sends_command-driven 1 handle d (omega arith) v) (
      rw
        (reads_status-driven handle opened
          (subst (λ (k : Driver). k.open_count ≢ 0) (sym now) some_open)
          (ap (λ (k : Driver). k.last_command) now) (ap (λ (k : Driver). k.session_state) now) v1)
        (close_test-driven handle _
          (dos_print-IsDriven _ (int21-IsDriven (ioctl_read handle 8) v1))))

driver_of-passed :
    (handle : ℕ) (d : Dos)
    → let k = driver_of handle d.calls in
      driver_of handle (passed handle d).calls
      ≡ device_close (record k { last_command = 2; session_state = 0 })
unfolding passed
driver_of-passed handle d =
    let k : Driver = driver_of handle d.calls in
    let opened : Dos = (int21 (ioctl_write handle (command_packet 1)) d).2 in
    let asked : Dos = (int21 (ioctl_read handle 8) opened).2 in
    let told : Dos = dos_print (passed_text (status_of (driver_of handle opened.calls))) asked in
    let same : driver_of handle told.calls ≡ record k { last_command = 1; session_state = 1 } =
      driver_of-dos_print handle (passed_text (status_of (driver_of handle opened.calls))) asked
      ∙ driver_of-read handle opened
      ∙ driver_of-command 1 handle d (omega arith) in
    driver_of-close handle (int21 (ioctl_write handle (command_packet 2)) told).2
    ∙ ap device_close (
        driver_of-command 2 handle told (omega arith)
        ∙ ap (λ (j : Driver). record j { last_command = 2; session_state = 0 }) same)

open_file-driven :
    (handle : ℕ) (d : Dos)
    → handle < 65536
    → IsDriven handle d
    → int21 (open_file 2 device_name) d ≡ (handle, false, (int21 (open_file 2 device_name) d).2)
unfolding int21
open_file-driven handle d fits v =
    let same : u16 handle ≡ handle = omega arith in
    rw (v.opens d.calls) (ap (λ h. (h, false, (int21 (open_file 2 device_name) d).2)) same)

-- On a DOS that drives the device, with fewer than 255 handles open to it, the test passes; the driver
-- ends with the session closed and as many handles open as before.
pub device_test-passes :
    (handle : ℕ) (d : Dos)
    → handle < 65536
    → IsDriven handle d
    → (driver_of handle d.calls).open_count < 255
    → ((device_test d).0 ≡ 0)
      × (driver_of handle (device_test d).1.calls
          ≡ record (driver_of handle d.calls) { last_command = 2; session_state = 0 })
unfolding device_test
device_test-passes handle d fits v room =
    let greeted : Dos = dos_print (codes "IME98 device IOCTL test\r\n") d in
    let opened : Dos = (int21 (open_file 2 device_name) greeted).2 in
    let same = driver_of-dos_print handle (codes "IME98 device IOCTL test\r\n") d in
    let v1 : IsDriven handle greeted = dos_print-IsDriven _ v in
    let now = driver_of-open handle greeted ∙ ap device_open same in
    let some_open = subst (λ (k : Driver). k.open_count ≢ 0) (sym now) (device_open-some _) in
    let ran = session_test-driven handle opened some_open (int21-IsDriven _ v1) in
    let first : device_test d ≡ session_test handle opened =
      rw (open_file-driven handle greeted fits v1) refl in
    (
      ap (λ r. r.0) (first ∙ ran),
      ap (λ (r : ℕ × Dos). driver_of handle r.1.calls) (first ∙ ran)
          ∙ driver_of-passed handle opened
          ∙ ap (λ (k : Driver). device_close (record k { last_command = 2; session_state = 0 })) now
          ∙ device_close-device_open (driver_of handle d.calls) 2 0 room,
    )
