-- ===== src/Host/Conversation.antt =====
-- A request of the resident worker (dos/pc98/foreground.c) and the host's answer to it
-- (host/ImeDosBridge), byte for byte.
use pc98imebridge.Common.{
  ◌+◌, ◌≡◌, ◌≢◌, ◌≤◌, refl, sym, ap, subst, ◌∙◌, true, none, some, [], Bytes, AreBytes, length, u16,
  arith,
}
use pc98imebridge.Protocol.Kind
use pc98imebridge.Protocol.Packet.{Packet, build}
use pc98imebridge.Protocol.Packet.RoundTrip.{IsMessage, whole}
use pc98imebridge.Resident.State.{Resident}
use pc98imebridge.Resident.Link.{send_line, send_open_ime}
use pc98imebridge.Resident.Receive.{handle_message}
use pc98imebridge.Resident.Receive.Framing.{accept_bytes, framed}
use pc98imebridge.Resident.Receive.Stream.{has_magic, accept_bytes-message}
use pc98imebridge.Host.Codec.{encode}
use pc98imebridge.Host.Codec.Agreement.{encode-build}
use pc98imebridge.Host.Heard.{Heard, send_line-Heard}
use pc98imebridge.Resident.Link.Sends.{build-whole}
use pc98imebridge.Resident.Deliver.Turn.{send_open_ime-sent}
use pc98imebridge.Host.Session.{Session, serve, send_text}

-- The request that comes next.
abbrev pub request_of : Resident → Packet
request_of s = record { kind = Kind.open_ime; sequence = u16 (s.sequence + 1); payload = [] }

-- The text that answers it.
abbrev pub text_for : Resident → Bytes → Packet
text_for s text = record { kind = Kind.text; sequence = u16 (s.sequence + 1); payload = text }

-- The worker with that text staged.
abbrev pub staged : Bytes → Resident → Resident
staged text s = record s {
  pending_text = text;
  pending_offset = 0;
  pending_sequence = s.open_sequence;
  wait_ticks = 0;
}

handle_message-text :
    (m : Packet) (s : Resident)
    → m.kind ≡ Kind.text
    → s.ime_active ≡ true
    → m.sequence ≡ s.open_sequence
    → length m.payload ≤ 512
    → handle_message m s ≡ staged m.payload s
unfolding handle_message
handle_message-text m s is_text active same small = ground (arith, is_text, active, same, small)

-- How a request and its answer go: the bytes of the request are put out, the host reads them as the
-- request, the text that its user sends then has the sequence of the request, and the bytes of that
-- packet stage the text.
pub record Answered (s : Resident) (h : Session) (text : Bytes) : Type 0 where
  pub request : Heard (request_of s) s.line (send_open_ime s).line
  pub sent : (send_text text (serve none (request_of s) h).1).0 ≡ some (text_for s text)
  pub answer : Bytes
  pub answer_written : encode (text_for s text) ≡ some answer
  pub answer_staged :
      accept_bytes answer (framed (send_open_ime s) [] 0)
      ≡ framed (staged text (send_open_ime s)) [] 0

send_text-opened :
    (text : Bytes) (p : Packet) (h : Session)
    → p.kind ≡ Kind.open_ime
    → length text ≢ 0
    → length text ≤ h.target_max
    → (send_text text (serve none p h).1).0
      ≡ some (record { kind = Kind.text; sequence = p.sequence; payload = text })
unfolding send_text serve
send_text-opened text p h is_open some_text fits = ground (arith, is_open, some_text, fits)

-- The bytes of a text for the open request stage it.
text-staged :
    (r : Resident) (m : Packet) (wire : Bytes)
    → IsMessage m
    → m.kind ≡ Kind.text
    → r.ime_active ≡ true
    → m.sequence ≡ r.open_sequence
    → length m.payload ≤ 512
    → build m.kind m.sequence m.payload ≡ some wire
    → accept_bytes wire (framed r [] 0) ≡ framed (staged m.payload r) [] 0
unfolding has_magic
text-staged r m wire v is_text active same small told =
    accept_bytes-message [] wire m r refl v told
    ∙ ap (λ t. framed t [] 0)
        (handle_message-text m (framed r wire (length wire)) is_text active same small)

-- While the line is open and the request goes out, the user's text of at least one byte, and no more
-- than the host allows, answers it: the request arrives at the host as it was sent, the text goes out
-- with the request's sequence, and its bytes leave the worker as it was with the text staged.
pub request-Answered :
    (s : Resident) (h : Session) (text : Bytes)
    → s.line.opened ≡ true
    → (send_line Kind.open_ime (u16 (s.sequence + 1)) [] s.line).0 ≡ true
    → AreBytes text
    → length text ≢ 0
    → length text ≤ h.target_max
    → h.target_max ≤ 512
    → Answered s h text
request-Answered s h text opened sent bytes some_text fits small =
    let request : Packet = request_of s in
    let answer : Packet = text_for s text in
    let asking : IsMessage request = record {
      kind_byte = omega arith;
      sequence_word = omega arith;
      payload_bytes = tt;
    } in
    let telling : IsMessage answer = record {
      kind_byte = omega arith;
      sequence_word = omega arith;
      payload_bytes = bytes;
    } in
    let told = build-whole answer (omega (arith, fits, small)) in
    let asked = send_open_ime-sent s sent in
    record {
      request =
          subst (Heard request s.line) (sym (ap (λ (r : Resident). r.line) asked))
            (send_line-Heard request s.line opened asking (omega arith) sent);
      sent = send_text-opened text request h refl some_text fits;
      answer = whole answer.kind answer.sequence answer.payload;
      answer_written = encode-build answer telling ∙ told;
      answer_staged =
          text-staged (send_open_ime s) answer _ telling refl
            (ap (λ (r : Resident). r.ime_active) asked)
            (sym (ap (λ (r : Resident). r.open_sequence) asked)) (omega (arith, fits, small)) told;
    }
