-- ===== src/Client/Hello.antt =====
-- `hello_exchange` of dos/pc98/main.c, with its log. The delay between attempts is left out.
pub mod Answered
use pc98imebridge.Common.{
  ℕ, zero, suc, Bool, true, false, not, ◌||◌, Option, none, some, Bytes, codes, ◌==◌, if◌then◌else◌,
}
use pc98imebridge.Protocol.Kind
use pc98imebridge.Protocol.Packet.{Packet, parse}
use pc98imebridge.Serial.Line.{serial_open, serial_close, serial_write}
use pc98imebridge.Client.Receive.{read_packet}
use pc98imebridge.Client.Log.{Client, log_line, log_packet_prefix}

-- What `ime_packet_parse` made of the response.
unfoldable pub hello_parsed : Option Packet → Client → Option Packet × Client
hello_parsed none c = (none, log_line (codes "HELLO PARSE FAILED\r\n") c)
hello_parsed (some m) c =
    if not (m.sequence == 1) || not (m.kind == Kind.pong)
    then (none, log_line (codes "HELLO RESPONSE INVALID\r\n") c)
    else (some m, c)

-- What `read_packet` returned.
unfoldable pub hello_response : Option Bytes → Client → Option Packet × Client
hello_response none c = (none, log_line (codes "HELLO READ TIMEOUT\r\n") c)
hello_response (some packet) c =
    hello_parsed (parse packet) (log_packet_prefix packet (log_line (codes "HELLO READ OK\r\n") c))

-- Behind a write that succeeded.
unfoldable pub hello_read : Client → Option Packet × Client
hello_read c =
    let (response, line) = read_packet c.line in hello_response response (record c { line = line })

-- What `pc98_serial_write` returned.
unfoldable pub hello_written : Bool → Client → Option Packet × Client
hello_written false c = (none, log_line (codes "HELLO WRITE FAILED\r\n") c)
hello_written true c =
    hello_read (log_line (codes "HELLO READ BEGIN\r\n") (log_line (codes "HELLO WRITE OK\r\n") c))

-- One attempt, on an open line.
unfoldable pub hello_attempt : Bytes → Client → Option Packet × Client
hello_attempt packet c =
    let begun : Client = log_line (codes "HELLO WRITE BEGIN\r\n") c in
    let (sent, line) = serial_write packet begun.line in
    hello_written sent (record begun { line = line })

-- The attempts behind the first: the line is closed and opened again, which does not fail.
unfoldable pub hello_retries : ℕ → Bytes → Client → Option Packet × Client
hello_retries zero packet c = (none, log_line (codes "HELLO FAILED\r\n") c)
hello_retries (suc left) packet c =
    let told : Client = log_line (codes "HELLO ATTEMPT\r\n") c in
    let (answer, c1) =
      hello_attempt packet (record told { line = serial_open (serial_close told.line) }) in
    elim answer [
      | some m ↦ (some m, c1)
      | none ↦ hello_retries left packet (log_line (codes "HELLO RETRY\r\n") c1)
    ]

-- `none` is the return value 0.
unfoldable pub hello_exchange : Bytes → Client → Option Packet × Client
hello_exchange packet c =
    let (answer, c1) = hello_attempt packet (log_line (codes "HELLO ATTEMPT\r\n") c) in
    elim answer [
      | some m ↦ (some m, c1)
      | none ↦ hello_retries 3 packet (log_line (codes "HELLO RETRY\r\n") c1)
    ]
