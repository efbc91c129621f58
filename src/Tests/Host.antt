-- ===== src/Tests/Host.antt =====
-- The host at concrete packets, and its answer to a request of the worker.
use pc98imebridge.Common.{◌≡◌, refl, some, [], ◌∷◌, ◌++◌, Bytes, AreBytes, arith}
use pc98imebridge.Protocol.Crc.{crc16}
use pc98imebridge.Protocol.Packet.{build, parse}
use pc98imebridge.Protocol.Packet.RoundTrip.{IsMessage}
use pc98imebridge.Host.Codec.{encode, decode}
use pc98imebridge.Host.Codec.Agreement.{encode-build, decode-parse}
use pc98imebridge.Host.Stream.{got, read_packet}
use pc98imebridge.Host.Stream.Frames.{read_packet-message}
use pc98imebridge.Host.Session.{connected}
use pc98imebridge.Host.Session.Capacity.{began}
use pc98imebridge.Host.Typing.{Resting, Typed, request-Typed}
use pc98imebridge.Keyboard.Memory.{read_byte}
use pc98imebridge.Resident.Hotkey.{hotkey_down}
use pc98imebridge.Tests.Keys.{no_keys-IsQueue}
use pc98imebridge.Tests.Data.{text_a, text_a_bytes, resting}

text_a-IsMessage : IsMessage text_a
text_a-IsMessage = ground arith

encode-build_example : encode text_a ≡ build 5 1 (0x41 ∷ [])
encode-build_example = encode-build text_a text_a-IsMessage

text_a-AreBytes : AreBytes text_a_bytes
text_a-AreBytes = ground arith

decode-parse_example : decode text_a_bytes ≡ parse text_a_bytes
decode-parse_example = decode-parse text_a_bytes text_a-AreBytes

text_a-built : build 5 1 (0x41 ∷ []) ≡ some text_a_bytes
unfolding build crc16
text_a-built = refl

abbrev letter : Bytes
letter = 0x41 ∷ []

letter-AreBytes : AreBytes letter
letter-AreBytes = ground arith

resting-Resting : Resting resting
unfolding hotkey_down read_byte
resting-Resting = record {
  released = refl;
  linked = refl;
  enabled = refl;
  no_key = refl;
  none_captured = refl;
  none_gathered = refl;
  none_expected = refl;
  opened = refl;
  silent = λ k. refl;
  sends = λ k. refl;
}

request-Typed_example : Typed resting connected letter
unfolding read_byte
request-Typed_example =
    request-Typed resting connected letter began resting-Resting no_keys-IsQueue (omega arith)
      letter-AreBytes (omega arith) (omega arith)

-- The packet stands between two other bytes.
read_packet-message_example :
    read_packet (0xff ∷ (text_a_bytes ++ 0x49 ∷ [])) ≡ got text_a (0x49 ∷ [])
read_packet-message_example =
    read_packet-message (0xff ∷ []) text_a_bytes (0x49 ∷ []) text_a (omega arith, tt)
      text_a-IsMessage text_a-built
