-- ===== src/Resident/Receive.antt =====
-- `handle_packet`, `accept_byte` and `poll_transport` of dos/pc98/foreground.c.
pub mod Poll
pub mod Framing
pub mod Stream
pub mod Messages
use pc98imebridge.Common.{
  ℕ, zero, suc, ◌+◌, Bool, true, false, not, ◌&&◌, ◌||◌, Option, none, some, [], ◌∷◌, ◌++◌, Bytes,
  length, take, ltb, leb, ◌==◌, if◌then◌else◌, u16, ◌<<<◌,
}
use pc98imebridge.Protocol.Kind
use pc98imebridge.Protocol.Packet.{Packet, parse, byte_at, magic0, magic1}
use pc98imebridge.Serial.Line.{serial_try_read_byte}
use pc98imebridge.Serial.Capture.{try_read_byte}
use pc98imebridge.Resident.State.{Resident, ready, is_hello_wait, rx_size}
use pc98imebridge.Resident.Link.{send_open_ime, close_ime}

-- The BIOS key word of a logical key; `none` is the default case.
unfoldable pub key_code : ℕ → Option ℕ
key_code value =
    if value == Kind.key_enter
    then some 0x1c0d
    else if value == Kind.key_left
    then some 0x3b00
    else if value == Kind.key_right
    then some 0x3c00
    else if value == Kind.key_up
    then some 0x3a00
    else if value == Kind.key_down
    then some 0x3d00
    else if value == Kind.key_backspace
    then some 0x0e08
    else none

-- The host answers the request that is open.
abbrev pub answers : Packet → Resident → Bool
answers m s = s.ime_active && m.sequence == s.open_sequence

-- The request that was waiting for the link is sent.
unfoldable pub become_ready : Resident → Resident
become_ready s = if s.open_pending then send_open_ime s else s

-- `handle_packet` on a packet that parses.
unfoldable pub handle_message : Packet → Resident → Resident
unfolding become_ready
handle_message m s =
    if m.kind == Kind.pong && is_hello_wait s.link_state
    then become_ready (record s { link_state = ready; wait_ticks = 0 })
    else if m.kind == Kind.text && answers m s && leb (length m.payload) 512
    then record s {
      pending_text = m.payload;
      pending_offset = 0;
      pending_sequence = m.sequence;
      wait_ticks = 0;
    }
    else if m.kind == Kind.key && answers m s && length m.payload == 1
    then elim (key_code (byte_at m.payload 0)) [
      | none ↦ s
      | some code ↦ record s {
        pending_key = code;
        pending_key_active = true;
        pending_sequence = m.sequence;
        wait_ticks = 0;
      }
    ]
    else if m.kind == Kind.close_ime && answers m s && length m.payload == 0
    then close_ime s
    else s

unfoldable pub handle_packet : Resident → Resident
handle_packet s = elim (parse s.rx) [ none ↦ s | some m ↦ handle_message m s ]

-- `rx_expected` from the header: a 16-bit sum.
abbrev pub expected_length : Bytes → ℕ
expected_length rx = u16 (10 + byte_at rx 6 + (byte_at rx 7 <<< 8))

-- The prefix and the expected length after a byte was stored; the eighth ends the header.
unfoldable pub after_store : Bytes → ℕ → Bytes × ℕ
after_store rx expected =
    if length rx == 8
    then (if ltb rx_size (expected_length rx) then ([], 0) else (rx, expected_length rx))
    else (rx, expected)

unfoldable pub accept_byte : ℕ → Resident → Resident
unfolding after_store
accept_byte value s =
    if length s.rx == 0 && not (value == magic0)
    then s
    else if length s.rx == 1 && not (value == magic1)
    then record s { rx = if value == magic0 then take 1 s.rx else [] }
    else if leb rx_size (length s.rx)
    then record s { rx = []; rx_expected = 0 }
    else let (rx, expected) = after_store (s.rx ++ value ∷ []) s.rx_expected in
      let s1 = record s { rx = rx; rx_expected = expected } in
      if not (expected == 0) && length rx == expected
      then record (handle_packet s1) { rx = []; rx_expected = 0 }
      else s1

-- The loop with `budget` rounds left.
unfoldable pub poll_loop : ℕ → Resident → Resident
poll_loop zero s = s
poll_loop (suc budget) s =
    let (byte, c) = try_read_byte s.captured in
    let s1 = record s { captured = c } in
    elim byte [
      | some value ↦ poll_loop budget (accept_byte value s1)
      | none ↦
          let (direct, line) = serial_try_read_byte s1.line in
          elim direct [
            | none ↦ record s1 { line = line }
            | some value ↦ poll_loop budget (
                accept_byte value
                  (record s1 { line = line; direct_poll_reads = u16 (s1.direct_poll_reads + 1) }))
          ]
    ]

unfoldable pub poll_transport : Resident → Resident
poll_transport s = poll_loop 32 s
