-- ===== src/Tests/Wire.antt =====
-- The packet format and the stream at concrete packets.
use pc98imebridge.Common.{◌≤◌, ◌≡◌, refl, false, some, none, [], ◌∷◌, ◌++◌, Bytes, AreBytes, arith}
use pc98imebridge.Protocol.Crc.{crc16}
use pc98imebridge.Protocol.Packet.{build, parse}
use pc98imebridge.Protocol.Packet.RoundTrip.{IsMessage, parse-build, build-parse}
use pc98imebridge.Protocol.Packet.Fields.{parse-IsMessage}
use pc98imebridge.Protocol.Packet.Corruption.{parse-changed}
use pc98imebridge.Resident.Receive.{handle_message}
use pc98imebridge.Resident.Receive.Framing.{accept_bytes, framed}
use pc98imebridge.Resident.Receive.Stream.{
  has_magic, IsFrame, accept_bytes-message, accept_bytes-refused,
}
use pc98imebridge.Tests.Data.{ping, ping_bytes, text_a, text_a_bytes, asking}

ping_built : build 2 7 [] ≡ some ping_bytes
unfolding build crc16
ping_built = refl

text_a_built : build 5 1 (0x41 ∷ []) ≡ some text_a_bytes
unfolding build crc16
text_a_built = refl

text_a_parsed : parse text_a_bytes ≡ some text_a
unfolding parse crc16
text_a_parsed = refl

ping-IsMessage : IsMessage ping
ping-IsMessage = ground arith

text_a-IsMessage : IsMessage text_a
text_a-IsMessage = ground arith

parse-build_example : parse ping_bytes ≡ some ping
parse-build_example = parse-build ping ping_bytes ping-IsMessage ping_built

text_a-AreBytes : AreBytes text_a_bytes
text_a-AreBytes = ground arith

build-parse_example : build 5 1 (0x41 ∷ []) ≡ some text_a_bytes
build-parse_example = build-parse text_a_bytes text_a text_a-AreBytes text_a_parsed

abbrev text_a_pre : Bytes
text_a_pre = 0x49 ∷ 0x44 ∷ 1 ∷ 5 ∷ 1 ∷ 0 ∷ []

abbrev text_a_post : Bytes
text_a_post = 0 ∷ 0x41 ∷ 0xe8 ∷ 0x05 ∷ []

text_a_pre-AreBytes : AreBytes text_a_pre
text_a_pre-AreBytes = ground arith

text_a_post-AreBytes : AreBytes text_a_post
text_a_post-AreBytes = ground arith

parse-changed_example : parse (text_a_pre ++ 3 ∷ text_a_post) ≡ none
parse-changed_example =
    parse-changed text_a_pre text_a_post 1 3 text_a text_a_pre-AreBytes text_a_post-AreBytes
      (omega arith) (omega arith) (omega arith) text_a_parsed

-- A stray first byte of the magic, twice.
abbrev noise : Bytes
noise = 0x44 ∷ 0x49 ∷ 0x49 ∷ []

noise-quiet : has_magic noise ≡ false
unfolding has_magic
noise-quiet = refl

accept_bytes-message_example :
    accept_bytes (noise ++ text_a_bytes) (framed asking [] 0)
    ≡ framed (handle_message text_a (framed asking text_a_bytes 11)) [] 0
accept_bytes-message_example =
    accept_bytes-message noise text_a_bytes text_a asking noise-quiet text_a-IsMessage text_a_built

-- The last byte of the checksum is wrong.
abbrev text_a_bad : Bytes
text_a_bad = 0x49 ∷ 0x44 ∷ 1 ∷ 5 ∷ 1 ∷ 0 ∷ 1 ∷ 0 ∷ 0x41 ∷ 0xe8 ∷ 0x06 ∷ []

text_a_bad-IsFrame : IsFrame text_a_bad
text_a_bad-IsFrame = record {
  first = refl;
  second = refl;
  measured = omega arith;
  beyond = omega arith;
  fits = omega arith;
}

text_a_bad-refused : parse text_a_bad ≡ none
unfolding parse crc16
text_a_bad-refused = refl

accept_bytes-refused_example :
    accept_bytes (noise ++ text_a_bad) (framed asking [] 0) ≡ framed asking [] 0
accept_bytes-refused_example =
    accept_bytes-refused noise text_a_bad asking noise-quiet text_a_bad-IsFrame text_a_bad-refused

parse-IsMessage_example : IsMessage text_a × (1 ≤ 512)
parse-IsMessage_example = parse-IsMessage text_a_bytes text_a text_a-AreBytes text_a_parsed
