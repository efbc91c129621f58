-- ===== src/Protocol/Kind.antt =====
-- The packet types and the logical keys of dos/include/protocol.h.
use pc98imebridge.Common.{ℕ}

abbrev pub hello : ℕ
hello = 1

abbrev pub ping : ℕ
ping = 2

abbrev pub pong : ℕ
pong = 3

abbrev pub open_ime : ℕ
open_ime = 4

abbrev pub text : ℕ
text = 5

abbrev pub text_ack : ℕ
text_ack = 6

abbrev pub close_ime : ℕ
close_ime = 7

abbrev pub key : ℕ
key = 8

abbrev pub key_ack : ℕ
key_ack = 9

-- The payload byte of a `key` packet.
abbrev pub key_enter : ℕ
key_enter = 1

abbrev pub key_left : ℕ
key_left = 2

abbrev pub key_right : ℕ
key_right = 3

abbrev pub key_up : ℕ
key_up = 4

abbrev pub key_down : ℕ
key_down = 5

abbrev pub key_backspace : ℕ
key_backspace = 6
