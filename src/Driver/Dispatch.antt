-- ===== src/Driver/Dispatch.antt =====
-- DOS with the driver of dos/pc98/device_driver.S behind its calls.
use pc98imebridge.Common.{
  ℕ, ◌≡◌, refl, ◌∙◌, Bool, false, List, [], ◌∷◌, ◌++◌, Bytes, length, same_list, ◌==◌,
  if◌then◌else◌, has_bits,
}
use pc98imebridge.Dos.{
  Call, Dos, int21, put_char, create_file, open_file, close_file, write_file, read_file,
  ioctl_write, ioctl_read, dos_print,
}
use pc98imebridge.Client.Control.{device_name}
use pc98imebridge.Driver.{Driver, Reply, loaded, interrupt_entry}

-- The requests that DOS makes of the driver for a call, with the device at `handle`.
unfoldable pub call_device : ℕ → Call → Driver → Driver
call_device handle (put_char c) k = k
call_device handle (create_file name) k = k
call_device handle (open_file mode name) k =
    if same_list name device_name then (interrupt_entry 0x0d 0 [] k).1 else k
call_device handle (close_file h) k = if h == handle then (interrupt_entry 0x0e 0 [] k).1 else k
call_device handle (write_file h bytes) k = k
call_device handle (read_file h count) k = k
call_device handle (ioctl_write h bytes) k =
    if h == handle then (interrupt_entry 0x0c (length bytes) bytes k).1 else k
call_device handle (ioctl_read h count) k =
    if h == handle then (interrupt_entry 0x03 count [] k).1 else k

unfoldable pub call_devices : ℕ → List Call → Driver → Driver
call_devices handle [] k = k
call_devices handle (call ∷ calls) k = call_devices handle calls (call_device handle call k)

-- The driver's state behind all calls so far.
abbrev pub driver_of : ℕ → List Call → Driver
driver_of handle calls = call_devices handle calls loaded

-- The carry flag is the error bit of the status.
abbrev pub failed : Reply → Bool
failed reply = has_bits reply.status 0x8000

-- DOS opens the device at `handle`, and hands its IOCTL calls to the driver and the driver's answers
-- to the caller.
pub record IsDriven (handle : ℕ) (d : Dos) : Type 0 where
  pub opens : (calls : List Call) → d.answer calls (open_file 2 device_name) ≡ (handle, false)
  pub outputs :
      (calls : List Call) (bytes : Bytes)
      → let reply = (interrupt_entry 0x0c (length bytes) bytes (driver_of handle calls)).0 in
        d.answer calls (ioctl_write handle bytes) ≡ (reply.count, failed reply)
  pub inputs :
      (calls : List Call) (count : ℕ)
      → let reply = (interrupt_entry 0x03 count [] (driver_of handle calls)).0 in
        d.answer calls (ioctl_read handle count) ≡ (reply.count, failed reply)
  pub fills :
      (calls : List Call) (count : ℕ)
      → d.filled calls (ioctl_read handle count)
        ≡ (interrupt_entry 0x03 count [] (driver_of handle calls)).0.buffer

pub call_devices-append :
    (handle : ℕ) (xs ys : List Call) (k : Driver)
    → call_devices handle (xs ++ ys) k ≡ call_devices handle ys (call_devices handle xs k)
unfolding call_devices
call_devices-append handle [] ys k = refl
call_devices-append handle (x ∷ xs) ys k = call_devices-append handle xs ys (call_device handle x k)

-- A call is the last of those behind it.
pub driver_of-int21 :
    (handle : ℕ) (call : Call) (d : Dos)
    → driver_of handle (int21 call d).2.calls ≡ call_device handle call (driver_of handle d.calls)
unfolding int21 call_devices
driver_of-int21 handle call d = call_devices-append handle d.calls (call ∷ []) loaded

pub driver_of-dos_print :
    (handle : ℕ) (text : Bytes) (d : Dos)
    → driver_of handle (dos_print text d).calls ≡ driver_of handle d.calls
unfolding dos_print call_device
driver_of-dos_print handle [] d = refl
driver_of-dos_print handle (c ∷ text) d =
    driver_of-dos_print handle text (int21 (put_char c) d).2 ∙ driver_of-int21 handle (put_char c) d

-- Printing and calling leave what DOS answers as it is.
pub int21-IsDriven :
    {handle : ℕ} (call : Call) {d : Dos} → IsDriven handle d → IsDriven handle (int21 call d).2
unfolding int21
int21-IsDriven call v = record {
  opens = v.opens;
  outputs = v.outputs;
  inputs = v.inputs;
  fills = v.fills;
}

pub dos_print-IsDriven :
    {handle : ℕ} (text : Bytes) {d : Dos} → IsDriven handle d → IsDriven handle (dos_print text d)
unfolding dos_print
dos_print-IsDriven [] v = v
dos_print-IsDriven (c ∷ text) v = dos_print-IsDriven text (int21-IsDriven (put_char c) v)
