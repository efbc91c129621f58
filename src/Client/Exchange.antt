-- ===== src/Client/Exchange.antt =====
-- `exchange` and `string_equal` of dos/pc98/main.c.
pub mod Answers
use pc98imebridge.Common.{
  ℕ, zero, suc, ◌-◌, Bool, true, false, ◌&&◌, Option, none, some, [], ◌∷◌, Bytes, leb, ◌==◌,
  if◌then◌else◌,
}
use pc98imebridge.Protocol.Kind
use pc98imebridge.Protocol.Packet.{Packet, build, parse}
use pc98imebridge.Serial.Line.{Line, serial_open, serial_close, serial_write}
use pc98imebridge.Client.Receive.{read_packet}

-- The bytes that a call of `ime_packet_build` leaves to be written: none at the return value 0.
unfoldable pub request : ℕ → ℕ → Bytes
request kind sequence = elim (build kind sequence []) [ none ↦ [] | some packet ↦ packet ]

-- What is made of the packet that came back.
unfoldable pub answer_to : ℕ → Option Bytes → Option Packet
answer_to sequence none = none
answer_to sequence (some packet) = elim (parse packet) [
  | none ↦ none
  | some m ↦ if m.sequence == sequence then some m else none
]

-- `none` is the return value 0; otherwise the type and the payload of the response.
unfoldable pub exchange : ℕ → ℕ → Line → Option Packet × Line
exchange kind sequence line =
    let (sent, line1) = serial_write (request kind sequence) line in
    elim sent [
      | false ↦ (none, line1)
      | true ↦ let (response, line2) = read_packet line1 in (answer_to sequence response, line2)
    ]

abbrev pub upper : ℕ → ℕ
upper a = if leb b'a' a && leb a b'z' then a - 0x20 else a

unfoldable pub string_equal : Bytes → Bytes → Bool
string_equal [] [] = true
string_equal [] (b ∷ right) = false
string_equal (a ∷ left) [] = false
string_equal (a ∷ left) (b ∷ right) =
    let rest = string_equal left right in if upper a == upper b then rest else false
