-- ===== src/Lib.antt =====
-- The DOS side of the PC-98 IME bridge: a resident program that lets the Japanese input method of
-- a Windows host type into DOS programs, over an emulated RS-232C line.
--
-- The program. The resident worker (dos/pc98/foreground.c) is called from interrupt wrappers
-- (dos/pc98/tsr_hook.S). A hotkey turns the IME on; the worker then opens the line, says HELLO, asks
-- the host for text (OPEN_IME), puts the text or key that comes back into the BIOS key queue and
-- acknowledges it, and asks again. Packets carry a magic, a sequence number and a CRC16
-- (dos/common/protocol.c). Received bytes come from a ring that the COM1 interrupt fills, or from
-- the line itself.
--
-- Which file models what, and how the state corresponds:
--   Common     naturals, bytes, Boolean tests, lists and bitwise operations.
--   Protocol   dos/include/protocol.h and dos/common/protocol.c. Protocol/Kind has the packet types
--              and keys, Protocol/Crc `ime_crc16`, Protocol/Packet `ime_packet_build` and
--              `ime_packet_parse`. A buffer with a length is a list of bytes, and the return value
--              0 is `none`.
--   Keyboard   dos/pc98/inject_bios_pc98.c. Memory is a function from the offsets of segment 0 to
--              bytes. Keyboard/Encode turns text into key words, Keyboard/Queue has the operations on
--              the BIOS queue, with the wrapper's removal of the oldest key, and Keyboard/Inject the
--              injection of a whole text. Keyboard/Queue/Ring reads the queue as a list of words.
--   Serial     Serial/Port has the ports, Serial/Line the line of dos/pc98/serial_pc98.c,
--              Serial/Settings its reading of IME98.CFG, with the DOS calls in
--              Serial/Settings/File, Serial/Debug the second port of
--              dos/pc98/debug_serial_pc98.c, Serial/Capture
--              dos/pc98/serial_irq_buffer_pc98.c with the store of the COM1 interrupt.
--   Resident   dos/pc98/foreground.c. Resident/State has its static variables, those of the files
--              that it calls and the BIOS memory in one record; Resident/Link the connection,
--              Resident/Receive framing and messages, Resident/Deliver the staged text and key,
--              Resident/Hotkey the hotkey, and Resident/Service the entry
--              `pc98_service_foreground` as six steps one after the other. Resident/Session has the
--              invariant of the flags, Resident/Safety that of the indices and words, and
--              Resident/Deliver/Turn and Resident/Deliver/Rounds whole calls of the worker in turns
--              with a program that reads its keys, and Resident/Diagnostics what a debug build tells
--              of the transport.
--   System     dos/pc98/tsr_hook.S: the resident program as a transition system of the interrupts that
--              enter it, from the state that dos/pc98/tsr_main.c starts it in, System/Input the
--              keyboard read with its wait for a key, and System/Wrapper the registers and stacks
--              around each call of the C code.
--   Dos        DOS behind INT 21h as the client and the probes call it, and the digits that the programs print.
--   Client     dos/pc98/main.c: Client/Receive has `read_packet`, Client/Exchange `exchange` and
--              `string_equal`, Client/Log the log, Client/Hello `hello_exchange`, Client/Control
--              dos/pc98/ime98_control.c, and Client/Main `main`, with an exit of the program as a
--              pair of the exit code and the state, each stage a function that ends in the next one.
--   Installer  dos/pc98/tsr_main.c and the vectors' part of dos/pc98/tsr_hook.S. Installer/Machine has
--              the services of DOS and the copies of the program by segment, Installer/Hooks the
--              setting and restoring of vectors and the uninstaller, Installer/Start `main`.
--   Probes     dos/pc98/device_test.c, com_status_probe.c, com_probe.c, key_probe.c and int14_probe.c,
--              which show what the device driver, the ports and the keyboard answer.
--   Driver     dos/pc98/device_driver.S: the three variables of the device and its requests.
--              Driver/Dispatch has a DOS that passes calls on to it, the programs' side of which is
--              Client/Control and Probes/DeviceTest.
--   Host       host/ImeDosBridge, the other end of the line: Host/Codec has Protocol.cs; Host/Stream
--              `ReadPacketAsync` and Host/Session `ServeAsync`, `SendText`, `SendKey` and
--              `SendCloseIme` of BridgeForm.cs. Host/Heard, Host/Conversation and Host/Typing put the
--              host and the resident worker together, byte for byte.
--   Tests      the theorems at concrete inputs.
--
-- Integers. Numbers are naturals; unsigned char and unsigned short keep their wrap-around as `u8`
-- and `u16` wherever an operation can leave the range. Fields of two bytes are written low byte
-- first, as the machine stores them.
--
-- Ports. What a read returns is a parameter: a function of the number of reads so far and the
-- port. Nothing is assumed of it, except where a theorem says so. The writes are kept in order.
-- INT 18h is a parameter of `inject_verify`, with the behaviour of a BIOS as a hypothesis. For
-- the client and the probes, what a call of DOS returns is a function of the calls so far and the
-- call. For the installer, DOS is a record of its services with the laws of the interrupt vectors,
-- and the settings file is the sequence of reads. The offsets that the linker gives to the
-- installer's labels are a record, of which nothing is assumed.
--
-- Builds. The programs are modelled in their release build, where the calls of the debug port are
-- empty macros (dos/pc98/debug_serial_pc98.h); Serial/Debug and Resident/Diagnostics are what the
-- debug build has in their place.
--
-- Bounds. The wait for a status bit counts down from the number in the source, so it ends. The
-- loops over a text or a packet have its length as fuel, which is enough since each round moves on;
-- the worker's loops have the budgets of the source, 32 bytes and 16 keys a call. The
-- client's receiver has 516 rounds, four for each of 129 bytes. The settings file is read as often as
-- a number says, which is enough when it is more than the bytes of the file. An operation on
-- the queue is one step, since the source runs it with interrupts off, and a call of the worker is
-- one step, since the wrappers do not enter it twice.
--
-- Not modelled: the values of the counters in the wrappers, the hooks of INT 28h and INT 08h as
-- events, which nothing installs, waiting loops that touch nothing else, and of the host its windows,
-- key bindings, pipes and sockets, and writes that fail.
pub mod Common
pub mod Protocol
pub mod Keyboard
pub mod Serial
pub mod Resident
pub mod System
pub mod Dos
pub mod Client
pub mod Installer
pub mod Probes
pub mod Driver
pub mod Host
pub mod Tests
