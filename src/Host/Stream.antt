-- ===== src/Host/Stream.antt =====
-- `ReadPacketAsync` of host/ImeDosBridge/BridgeForm.cs, on the bytes that come in.
pub mod Frames
use pc98imebridge.Common.{
  ℕ, ◌+◌, Option, none, some, [], ◌∷◌, ◌++◌, Bytes, length, take, drop, ltb, ◌==◌, if◌then◌else◌,
}
use pc98imebridge.Protocol.Packet.{Packet}
use pc98imebridge.Host.Codec.{read_little, decode}

-- The stream ended, the packet is refused with an exception, or it is read and the rest of the stream
-- is left.
pub data Read : Type 0 where
  ended refused : Read
  got : Packet → Bytes → Read

-- The bytes behind the magic.
unfoldable pub find_magic : Bytes → Option Bytes
find_magic [] = none
find_magic (a ∷ []) = none
find_magic (a ∷ b ∷ rest) =
    let behind_both = find_magic rest in
    let behind_first = find_magic (b ∷ rest) in
    if a == 0x49 then (if b == 0x44 then some rest else behind_both) else behind_first

-- `ReadExactlyAsync`, then `Decode`.
unfoldable pub read_rest : Bytes → Read
read_rest rest =
    let len = read_little rest 4 in
    let wire : Bytes = 0x49 ∷ 0x44 ∷ take (len + 8) rest in
    if ltb (length rest) 6
    then ended
    else if ltb 512 len
    then refused
    else if ltb (length rest) (len + 8)
    then ended
    else elim (decode wire) [ none ↦ refused | some p ↦ got p (drop (len + 8) rest) ]

abbrev pub read_found : Option Bytes → Read
read_found none = ended
read_found (some rest) = read_rest rest

unfoldable pub read_packet : Bytes → Read
read_packet stream = read_found (find_magic stream)
