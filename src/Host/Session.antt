-- ===== src/Host/Session.antt =====
-- `ServeAsync`, `SendText`, `SendKey` and `SendCloseIme` of host/ImeDosBridge/BridgeForm.cs, between
-- the reading and the writing of packets. What is shown on the screen is left out, and so is the
-- writing that fails.
pub mod Capacity
use pc98imebridge.Common.{
  ℕ, Bool, true, false, not, ◌||◌, Option, none, some, List, [], ◌∷◌, Bytes, length, ltb, leb, ◌==◌,
  if◌then◌else◌,
}
use pc98imebridge.Protocol.Kind
use pc98imebridge.Protocol.Packet.{Packet}
use pc98imebridge.Host.Codec.{read_little}

pub record Session : Type 0 where
  pub open_sequence : ℕ
  pub ime_ready : Bool
  pub target_max : ℕ

-- The state at the start of a connection, and behind its end.
abbrev pub connected : Session
connected = record { open_sequence = 0; ime_ready = false; target_max = 512 }

-- The capacity that a HELLO tells.
unfoldable pub capacity_told : Bytes → ℕ
capacity_told payload =
    let told = if leb 10 (length payload) then read_little payload 8 else 512 in
    if told == 0 || ltb 512 told then 512 else told

-- The request is over.
abbrev pub finished : Session → Session
finished h = record h { open_sequence = 0; ime_ready = false }

-- The packets that a packet is answered with. `automatic` is the text that is sent without a user.
unfoldable pub serve : Option Bytes → Packet → Session → List Packet × Session
serve automatic p h =
    let pong : Packet = record { kind = Kind.pong; sequence = p.sequence; payload = [] } in
    let opened : Session = record h { open_sequence = p.sequence; ime_ready = true } in
    if p.kind == Kind.hello
    then (pong ∷ [], record h { target_max = capacity_told p.payload })
    else if p.kind == Kind.ping
    then (pong ∷ [], h)
    else if p.kind == Kind.open_ime
    then (
      elim automatic [
        | none ↦ []
        | some text ↦
            if ltb h.target_max (length text)
            then []
            else record { kind = Kind.text; sequence = p.sequence; payload = text } ∷ []
      ],
      opened,
    )
    else if p.kind == Kind.close_ime || p.kind == Kind.text_ack || p.kind == Kind.key_ack
    then ([], finished h)
    else ([], h)

-- A packet for the open request, after which no other is sent for it.
abbrev pub answer_open : ℕ → Bytes → Session → Option Packet × Session
answer_open kind payload h = (
  some (record { kind = kind; sequence = h.open_sequence; payload = payload }),
  record h { ime_ready = false },
)

unfoldable pub send_text : Bytes → Session → Option Packet × Session
send_text bytes h =
    if not h.ime_ready || length bytes == 0 || ltb h.target_max (length bytes)
    then (none, h)
    else answer_open Kind.text bytes h

unfoldable pub send_key : ℕ → Session → Option Packet × Session
send_key code h = if not h.ime_ready then (none, h) else answer_open Kind.key (code ∷ []) h

unfoldable pub send_close_ime : Session → Option Packet × Session
send_close_ime h = if not h.ime_ready then (none, h) else answer_open Kind.close_ime [] h
