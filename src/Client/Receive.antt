-- ===== src/Client/Receive.antt =====
-- `read_packet` of dos/pc98/main.c.
pub mod Bounds
use pc98imebridge.Common.{
  ℕ, zero, suc, ◌+◌, Bool, true, false, not, ◌&&◌, ◌||◌, Option, none, some, [], ◌∷◌, ◌++◌, Bytes,
  length, ltb, leb, ◌==◌, if◌then◌else◌, u16, ◌<<<◌,
}
use pc98imebridge.Protocol.Packet.{magic0, magic1, byte_at}
use pc98imebridge.Serial.Line.{Line, serial_read_byte}

-- The local variables; `packet` is `serial_rx_packet[0 .. count)`.
pub record Reading : Type 0 where
  pub packet : Bytes
  pub expected : ℕ
  pub idle_reads : ℕ
  pub byte_reads : ℕ

abbrev pub initially : Reading
initially = record { packet = []; expected = 0; idle_reads = 0; byte_reads = 0 }

-- What a round of the loop ends with: it goes on, or the function returns 0 or 1.
pub data Round : Type 0 where
  more : Reading → Round
  given_up : Round
  complete : Bytes → Round

abbrev pub packet_limit : ℕ
packet_limit = 522

-- The expected length once a byte was stored; the eighth ends the header.
abbrev pub expected_after : Bytes → ℕ → ℕ
expected_after packet expected =
    if length packet == 8 then u16 (10 + byte_at packet 6 + (byte_at packet 7 <<< 8)) else expected

-- The end of a round, with the byte stored.
unfoldable pub stored_byte : Bytes → Reading → Round
stored_byte packet r =
    let expected : ℕ = expected_after packet r.expected in
    if length packet == 8 && ltb packet_limit expected
    then given_up
    else if not (expected == 0) && length packet == expected
    then complete packet
    else if leb packet_limit (length packet)
    then given_up
    else more (record r { packet = packet; expected = expected })

unfoldable pub received_byte : ℕ → Reading → Round
received_byte value r =
    if length r.packet == 0 && not (value == magic0)
    then more r
    else if length r.packet == 1 && not (value == magic1)
    then more (record r { packet = [] })
    else stored_byte (r.packet ++ value ∷ []) r

abbrev pub goes_on : Reading → Bool
goes_on r = ltb r.idle_reads 4 && ltb r.byte_reads 128

-- One round: a read, and what is made of it.
unfoldable pub read_round : Reading → Line → Round × Line
read_round r line =
    let (received, line') = serial_read_byte line in
    elim received [
      | none ↦ (more (record r { idle_reads = r.idle_reads + 1 }), line')
      | some value ↦
          (received_byte value (record r { idle_reads = 0; byte_reads = r.byte_reads + 1 }), line')
    ]

-- The loop with `fuel` rounds allowed.
unfoldable pub read_rounds : ℕ → Reading → Line → Option Bytes × Line
read_rounds zero r line = (none, line)
read_rounds (suc fuel) r line = elim (goes_on r) [
  | false ↦ (none, line)
  | true ↦
      let (round, line') = read_round r line in
      elim round [
        | more r' ↦ read_rounds fuel r' line'
        | given_up ↦ (none, line')
        | complete packet ↦ (some packet, line')
      ]
]

-- At most three empty reads go before each of 128 bytes, or four end the loop.
abbrev pub enough_rounds : ℕ
enough_rounds = 516

-- `none` is the return value 0; the packet is what `serial_rx_packet` holds at the return value 1.
unfoldable pub read_packet : Line → Option Bytes × Line
read_packet line = read_rounds enough_rounds initially line
