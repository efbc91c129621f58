-- ===== src/Client/Main.antt =====
-- `main` of dos/pc98/main.c.
mod Start
pub mod Stages
pub mod GivenBack
pub mod Delivered
use pc98imebridge.Common.{
  ℕ, ◌+◌, Bool, true, false, not, ◌&&◌, Option, none, some, List, [], ◌∷◌, ◌++◌, Bytes, codes, ◌==◌,
  take, if◌then◌else◌,
}
use pc98imebridge.Dos.{Dos, int21, create_file, write_file, dos_print, hex_byte, hex_word}
use pc98imebridge.Protocol.Kind
use pc98imebridge.Protocol.Packet.{Packet, build}
use pc98imebridge.Keyboard.Memory.{Memory}
use pc98imebridge.Keyboard.Inject.{
  Verdict, verified, mismatch, refused, KeyRead, inject, inject_verify,
}
use pc98imebridge.Serial.Line.{
  Line, LineError, no_error, tx_timeout, rx_timeout, serial_open, serial_close, serial_write,
}
use pc98imebridge.Serial.Settings.{load_config}
use pc98imebridge.Serial.Settings.File.{read_settings}
use pc98imebridge.Client.Control.{Control, control_open, control_command, control_close}
use pc98imebridge.Client.Exchange.{request, exchange, string_equal}
use pc98imebridge.Client.Log.{
  Client, log_open, log_write, log_line, hex_line, log_packet_prefix, print,
}
use pc98imebridge.Client.Hello.{hello_exchange}

unfoldable pub close_session : Client → Client
close_session c =
    let (sent, k1, d1) = control_command 2 c.control c.dos in
    let (k2, d2) = control_close k1 d1 in
    record c { line = serial_close c.line; control = k2; dos = d2 }

-- An error behind the first one: the exit code and the state.
unfoldable pub give_up : Bytes → Bytes → Client → ℕ × Client
give_up log message c = (1, close_session (print message (log_line log c)))

-- `pc98_serial_last_error`
abbrev pub error_text : LineError → Bytes
error_text no_error = codes "no error"
error_text tx_timeout = codes "TX timeout"
error_text rx_timeout = codes "RX timeout"

abbrev pub hello_payload : Bytes
hello_payload = 0x01 ∷ 0x01 ∷ b'C' ∷ b'P' ∷ b'9' ∷ b'3' ∷ b'2' ∷ 0 ∷ 16 ∷ 0 ∷ 0x01 ∷ []

-- The HELLO packet, sequence 1.
abbrev pub hello_packet : Bytes
hello_packet = elim (build Kind.hello 1 hello_payload) [ none ↦ [] | some packet ↦ packet ]

abbrev pub verdict_text : Verdict → Bytes
verdict_text verified = codes "BIOS INJECTION VERIFIED\r\n"
verdict_text refused = codes "BIOS INJECTION SKIPPED: KEY QUEUE BUSY OR TEXT TOO LONG\r\n"
verdict_text mismatch = codes "BIOS INJECTION VERIFY FAILED\r\n"

-- `verify` is the option /VERIFY, `read_key` the INT 18h that the verification calls.
module _ (read_key : KeyRead) (verify : Bool) where
  -- The verification, when it was asked for.
  unfoldable pub checked_text : Bytes → Client → Client
  checked_text text c =
      let (verdict, m) = inject_verify read_key text c.memory in
      if verify
      then log_line (verdict_text verdict) (record c { memory = m })
      else log_line (codes "BIOS INJECTION QUEUE MODE\r\n") c

  -- Behind the TEXT_ACK: the text goes to the program that runs next.
  unfoldable pub finish : Bytes → Client → ℕ × Client
  finish text c =
      let closed : Client = close_session c in
      let (queued, m) = inject text closed.memory in
      if verify
      then (0, log_line (codes "PASS\r\n") closed)
      else (if queued then 0 else 1, record closed { memory = m })

  -- From the TEXT on.
  unfoldable pub got_text : Bytes → Client → ℕ × Client
  got_text text c =
      let logged : Client = log_packet_prefix text (log_line (codes "TEXT RECEIVED\r\n") c) in
      let checked : Client = checked_text text logged in
      let (sent, line) = serial_write (request Kind.text_ack 3) checked.line in
      let acked : Client = record checked { line = line } in
      if not sent
      then give_up (codes "ERROR TEXT ACK\r\n") (codes "ERROR: TEXT_ACK send failed\r\n") acked
      else finish text acked

  -- The response to the OPEN_IME.
  unfoldable pub text_answer : Option Packet → Client → ℕ × Client
  text_answer none c = give_up (codes "ERROR OPEN_IME TEXT\r\n") (codes "ERROR: TEXT failed\r\n") c
  text_answer (some m) c =
      if m.kind == Kind.text
      then got_text m.payload c
      else give_up (codes "ERROR OPEN_IME TEXT\r\n") (codes "ERROR: TEXT failed\r\n") c

  unfoldable pub ask_text : Client → ℕ × Client
  ask_text c =
      let (answer, line) = exchange Kind.open_ime 3 c.line in
      text_answer answer (record c { line = line })

  -- The response to the PING.
  unfoldable pub pong_answer : Option Packet → Client → ℕ × Client
  pong_answer none c = give_up (codes "ERROR PING\r\n") (codes "ERROR: PING failed\r\n") c
  pong_answer (some m) c =
      if m.kind == Kind.pong
      then ask_text (log_line (codes "PONG RECEIVED\r\n") (print (codes "PONG received\r\n") c))
      else give_up (codes "ERROR PING\r\n") (codes "ERROR: PING failed\r\n") c

  unfoldable pub ask_pong : Client → ℕ × Client
  ask_pong c =
      let (answer, line) = exchange Kind.ping 2 c.line in
      pong_answer answer (record c { line = line })

  -- The outcome of the HELLO.
  unfoldable pub hello_outcome : Option Packet → Client → ℕ × Client
  hello_outcome none c =
      give_up (codes "ERROR HELLO\r\n")
        (codes "ERROR: HELLO failed: " ++ error_text c.line.error ++ codes "\r\n") c
  hello_outcome (some m) c =
      ask_pong
        (log_line (codes "HELLO ACKNOWLEDGED\r\n") (print (codes "HELLO acknowledged\r\n") c))

  -- On the open line.
  unfoldable pub say_hello : Client → ℕ × Client
  say_hello c = let (answer, told) = hello_exchange hello_packet c in hello_outcome answer told

  -- From the opening of the line on, which does not fail.
  unfoldable pub open_line : Client → ℕ × Client
  open_line c =
      let opened : Client =
        log_line (codes "IME98 SESSION OPENED\r\n") (print (codes "IME98$ session opened\r\n") c) in
      let up : Client = record opened { line = serial_open opened.line } in
      say_hello (
        log_line (codes "SERIAL OPENED\r\n")
          (print (codes "COM device opened: PC-98 RS-232C (IME98.CFG)\r\n") up))

  -- From the session command on, with the device open.
  unfoldable pub open_session : Client → ℕ × Client
  open_session c =
      let (done, k, d) = control_command 1 c.control c.dos in
      let asked : Client = record c { control = k; dos = d } in
      if not done
      then give_up (codes "ERROR IME98 SESSION OPEN\r\n")
          (codes "ERROR: IME98$ session command failed AX="
            ++ hex_word asked.control.device_last_ax
            ++ codes "\r\n")
          asked
      else open_line asked

  -- `reads` is how often DOS is asked for the next piece of IME98.CFG at most.
  unfoldable pub run : ℕ → Client → ℕ × Client
  run reads c =
      let started : Client =
        log_line (codes "START\r\n")
          (log_open (print (codes "PC-98 IME Bridge test client\r\n") c)) in
      let (settings, dos) = read_settings reads started.dos in
      let config = (load_config settings started.line.config).1 in
      let configured : Client =
        log_line (codes "CONFIG LOADED\r\n")
          (record started { dos = dos; line = record started.line { config = config } }) in
      let (found, k, d) = control_open configured.control configured.dos in
      let ready : Client = record configured { control = k; dos = d } in
      if not found
      then (
        1,
        print (codes "ERROR: cannot open IME98$\r\n")
            (log_line (codes "ERROR IME98 OPEN\r\n") ready),
      )
      else open_session ready

-- `argument` is `argv[1]`, if there is one.
unfoldable pub asks_verify : Option Bytes → Bool
asks_verify none = false
asks_verify (some option) = string_equal option (codes "/VERIFY")

unfoldable pub main : Option Bytes → KeyRead → ℕ → Client → ℕ × Client
main argument read_key reads c = run read_key (asks_verify argument) reads c
