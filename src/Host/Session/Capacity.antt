-- ===== src/Host/Session/Capacity.antt =====
-- The capacity that host/ImeDosBridge/BridgeForm.cs keeps for a connection, and the packets that it
-- sends.
use pc98imebridge.Common.{ℕ, ◌<◌, ◌≤◌, ◌≡◌, Option, none, some, Bytes, All, length, arith}
use pc98imebridge.Protocol.Packet.{Packet}
use pc98imebridge.Host.Session.{
  Session, connected, capacity_told, serve, send_text, send_key, send_close_ime,
}

-- The capacity is at least one byte, and at most what a packet can hold.
abbrev pub IsBounded : Session → Type 0
IsBounded h = (0 < h.target_max) × (h.target_max ≤ 512)

-- A payload that `Encode` takes.
abbrev pub Fits : Packet → Type 0
Fits p = length p.payload ≤ 512

connected-IsBounded : IsBounded connected
connected-IsBounded = ground arith

capacity_told-bounded :
    (payload : Bytes) → (0 < capacity_told payload) × (capacity_told payload ≤ 512)
unfolding capacity_told
capacity_told-bounded payload = ground arith

-- Every packet keeps the bound, and all answers to it can be encoded.
pub serve-IsBounded :
    (automatic : Option Bytes) (p : Packet) (h : Session)
    → IsBounded h
    → IsBounded (serve automatic p h).1 × All Fits (serve automatic p h).0
unfolding serve
serve-IsBounded none p h v = ground (arith, v, capacity_told-bounded p.payload)
serve-IsBounded (some text) p h v = ground (arith, v, capacity_told-bounded p.payload)

send_text-IsBounded :
    (bytes : Bytes) (h : Session)
    → IsBounded h
    → IsBounded (send_text bytes h).1 × ((p : Packet) → (send_text bytes h).0 ≡ some p → Fits p)
unfolding send_text
send_text-IsBounded bytes h v = (ground (arith, v), λ p e. ground (arith, v, e))

send_key-IsBounded :
    (code : ℕ) (h : Session)
    → IsBounded h
    → IsBounded (send_key code h).1 × ((p : Packet) → (send_key code h).0 ≡ some p → Fits p)
unfolding send_key
send_key-IsBounded code h v = (ground (arith, v), λ p e. ground (arith, e))

send_close_ime-IsBounded :
    (h : Session)
    → IsBounded h
    → IsBounded (send_close_ime h).1 × ((p : Packet) → (send_close_ime h).0 ≡ some p → Fits p)
unfolding send_close_ime
send_close_ime-IsBounded h v = (ground (arith, v), λ p e. ground (arith, e))

-- What a connection comes to: packets come in, and the user sends texts, keys and the end.
pub data Served (automatic : Option Bytes) : Session → Type 0 where
  began : Served automatic connected
  packet :
      {h : Session} (p : Packet) → Served automatic h → Served automatic (serve automatic p h).1
  text : {h : Session} (bytes : Bytes) → Served automatic h → Served automatic (send_text bytes h).1
  key : {h : Session} (code : ℕ) → Served automatic h → Served automatic (send_key code h).1
  close : {h : Session} → Served automatic h → Served automatic (send_close_ime h).1

-- In every order of packets and of what the user sends, the capacity stays in its bounds.
pub Served-IsBounded : {automatic : Option Bytes} {h : Session} → Served automatic h → IsBounded h
Served-IsBounded began = connected-IsBounded
Served-IsBounded {automatic = automatic} (packet {h = h} p s) =
    (serve-IsBounded automatic p h (Served-IsBounded s)).0
Served-IsBounded (text {h = h} bytes s) = (send_text-IsBounded bytes h (Served-IsBounded s)).0
Served-IsBounded (key {h = h} code s) = (send_key-IsBounded code h (Served-IsBounded s)).0
Served-IsBounded (close {h = h} s) = (send_close_ime-IsBounded h (Served-IsBounded s)).0
