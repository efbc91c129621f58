-- ===== src/Host/Typing.antt =====
-- A whole request between the resident worker (dos/pc98/foreground.c), the host (host/ImeDosBridge)
-- and the program that reads the keys.
use pc98imebridge.Common.{
  ℕ, ◌≡◌, ◌≢◌, ◌<◌, ◌≤◌, refl, sym, ap, ap₂, subst, ◌∙◌, true, false, none, some, List, [], ◌++◌,
  Bytes, AreBytes, length, arith,
}
use pc98imebridge.Protocol.Kind
use pc98imebridge.Protocol.Packet.{Packet}
use pc98imebridge.Protocol.Packet.RoundTrip.{IsMessage}
use pc98imebridge.Keyboard.Memory.{capacity}
use pc98imebridge.Keyboard.Encode.Keys.{keys}
use pc98imebridge.Keyboard.Queue.Ring.{count, contents, IsQueue}
use pc98imebridge.Serial.Line.{Line, rx_ready, tx_ready}
use pc98imebridge.Serial.Line.Write.{AlwaysReady}
use pc98imebridge.Resident.State.{Resident, ready}
use pc98imebridge.Resident.Link.{send_line, send_open_ime}
use pc98imebridge.Resident.Link.Sends.{send_line-Sent, kept_answers}
use pc98imebridge.Resident.Hotkey.{hotkey_down}
use pc98imebridge.Resident.Receive.Framing.{accept_bytes, framed}
use pc98imebridge.Resident.Deliver.Turn.{Silent, Undisturbed, asked_next, send_open_ime-sent}
use pc98imebridge.Resident.Deliver.Rounds.{
  rounds, IsDelivered, rounds-IsDelivered, hotkey_down-elsewhere,
}
use pc98imebridge.Host.Codec.{encode}
use pc98imebridge.Host.Heard.{Heard, Heard-behind, send_line-Heard}
use pc98imebridge.Host.Session.{Session, finished, serve, send_text}
use pc98imebridge.Host.Session.Capacity.{Served, Served-IsBounded}
use pc98imebridge.Host.Conversation.{request_of, text_for, staged, Answered, request-Answered}

-- The acknowledgement of a request.
abbrev pub ack_of : ℕ → Packet
ack_of sequence = record { kind = Kind.text_ack; sequence = sequence; payload = [] }

-- The worker has sent its request and got those bytes, and then runs in turns with the program that
-- reads.
abbrev pub typed : ℕ → Bytes → Resident → List ℕ × Resident
typed turns answer s = rounds turns (accept_bytes answer (send_open_ime s))

-- The link is ready and the IME on, no key is staged, nothing is captured and no part of a packet
-- gathered; the hotkey is up, the line is open, nothing comes in on it, and its transmitter is ready.
pub record Resting (s : Resident) : Type 0 where
  pub released : hotkey_down s ≡ false
  pub linked : s.link_state ≡ ready
  pub enabled : s.ime_enabled ≡ true
  pub no_key : s.pending_key_active ≡ false
  pub none_captured : s.captured.read_pos ≡ s.captured.write_pos
  pub none_gathered : s.rx ≡ []
  pub none_expected : s.rx_expected ≡ 0
  pub opened : s.line.opened ≡ true
  pub silent : Silent s.line
  pub sends : AlwaysReady s.line

-- A request from its start to its end: the host reads it and its user's text goes out for it; the
-- bytes of that packet make the worker type the text, behind the keys that were queued; the host
-- reads the acknowledgement and its request is over, and behind it the worker's next request.
pub record Typed (s : Resident) (h : Session) (text : Bytes) : Type 0 where
  pub request : Heard (request_of s) s.line (send_open_ime s).line
  pub sent : (send_text text (serve none (request_of s) h).1).0 ≡ some (text_for s text)
  pub answer : Bytes
  pub answer_written : encode (text_for s text) ≡ some answer
  pub turns : ℕ
  pub few : turns ≤ length text
  pub keys_read : (typed turns answer s).0 ≡ contents s.memory ++ keys text
  pub queue_empty : contents (typed turns answer s).1.memory ≡ []
  pub ack_line : Line
  pub acknowledged : Heard (ack_of (request_of s).sequence) (send_open_ime s).line ack_line
  pub asked_again : Heard (request_of (send_open_ime s)) ack_line (typed turns answer s).1.line
  pub over :
      (serve none
        (ack_of (request_of s).sequence)
        (send_text text (serve none (request_of s) h).1).1).1
      ≡ finished h
  pub open_again : (typed turns answer s).1.ime_active ≡ true
  pub open_sequence :
      (typed turns answer s).1.open_sequence ≡ (request_of (send_open_ime s)).sequence

send_text-acknowledged :
    (text : Bytes) (p : Packet) (h : Session)
    → p.kind ≡ Kind.open_ime
    → length text ≢ 0
    → length text ≤ h.target_max
    → (serve none (ack_of p.sequence) (send_text text (serve none p h).1).1).1 ≡ finished h
unfolding send_text serve
send_text-acknowledged text p h is_open some_text fits = ground (arith, is_open, some_text, fits)

-- The worker whose request is answered by that text.
abbrev begun : Bytes → Resident → Resident
begun text s = framed (staged text (asked_next s)) [] 0

begun-Undisturbed :
    (text : Bytes) (s : Resident)
    → Resting s
    → length text ≤ 512
    → Undisturbed (length text) (begun text s)
begun-Undisturbed text s w small =
    let out = send_line-Sent (request_of s) s.line (omega arith) w.opened w.sends in
    record {
      released =
          hotkey_down-elsewhere s (begun text s) (λ a outside. refl) out.same_config ∙ w.released;
      linked = w.linked;
      active = refl;
      enabled = w.enabled;
      no_key = w.no_key;
      none_captured = w.none_captured;
      opened = out.opened;
      silent =
          kept_answers rx_ready false s.line (begun text s).line out.same_config out.same_answer
            w.silent;
      sends =
          kept_answers tx_ready true s.line (begun text s).line out.same_config out.same_answer
            w.sends;
      in_time = omega (arith, small);
    }

empty-IsMessage :
    (kind sequence : ℕ)
    → kind < 256
    → sequence < 65536
    → IsMessage (record { kind = kind; sequence = sequence; payload = [] })
empty-IsMessage kind sequence byte word = record {
  kind_byte = byte;
  sequence_word = word;
  payload_bytes = tt;
}

-- The line between the acknowledgement and the next request.
abbrev acked : (s : Resident) {r : List ℕ × Resident} → IsDelivered s r → Line
acked s d = (send_line Kind.text_ack s.pending_sequence [] d.line).1

-- What was heard when the rounds delivered the text.
delivered-acknowledged :
    (s : Resident) {r : List ℕ × Resident} (d : IsDelivered s r)
    → s.pending_sequence < 65536
    → Heard (ack_of s.pending_sequence) s.line (acked s d)
delivered-acknowledged s d word =
    Heard-behind s.line d.line (acked s d) d.same_writes d.same_config (
      send_line-Heard (ack_of s.pending_sequence) d.line d.line_opened
        (empty-IsMessage Kind.text_ack s.pending_sequence (omega arith) word) (omega arith)
        d.acknowledged)

delivered-asked :
    (s : Resident) {r : List ℕ × Resident} (d : IsDelivered s r)
    → Heard (request_of s) (acked s d) r.1.line
delivered-asked s d = subst (Heard (request_of s) (acked s d)) (sym d.line_left) (
    send_line-Heard (request_of s) (acked s d) d.acked_opened
      (empty-IsMessage Kind.open_ime (request_of s).sequence (omega arith) (omega arith))
      (omega arith) d.asked)

-- No part of a packet is gathered behind the request either.
requested :
    (s : Resident)
    → Resting s
    → send_open_ime s ≡ asked_next s
    → send_open_ime s ≡ framed (send_open_ime s) [] 0
requested s w asked =
    ap₂ (framed (send_open_ime s)) (ap (λ (r : Resident). r.rx) asked ∙ w.none_gathered)
      (ap (λ (r : Resident). r.rx_expected) asked ∙ w.none_expected)

-- While the worker rests on a ready link with the IME on (the line open, its transmitter always ready,
-- nothing coming in but the answer, the hotkey up, no key staged, nothing captured and no part of a
-- packet gathered), over a well-formed key queue with room, and in whatever order the host's
-- connection came to its state, a text of at least one byte, and no more than the host allows, comes
-- through whole: the host reads the request that the worker sends, the text goes out with the
-- request's sequence, and once its bytes are in, at most as many whole calls of the worker as the text
-- has bytes, in turns with the program that reads, give that program all keys of the text, behind
-- those queued before and in order; the host reads the TEXT_ACK with that sequence and its request is
-- over, and behind it the worker's next OPEN_IME, which is then the open request.
pub request-Typed :
    (s : Resident) (h : Session) (text : Bytes)
    → Served none h
    → Resting s
    → IsQueue s.memory
    → count s.memory < capacity
    → AreBytes text
    → length text ≢ 0
    → length text ≤ h.target_max
    → Typed s h text
request-Typed s h text served w queue room bytes some_text fits =
    let small = (Served-IsBounded served).1 in
    let out = send_line-Sent (request_of s) s.line (omega arith) w.opened w.sends in
    let asked : send_open_ime s ≡ asked_next s = send_open_ime-sent s out.succeeded in
    let a : Answered s h text =
      request-Answered s h text w.opened out.succeeded bytes some_text fits small in
    let r : Resident = begun text s in
    let got : accept_bytes a.answer (send_open_ime s) ≡ r =
      ap (accept_bytes a.answer) (requested s w asked)
      ∙ a.answer_staged
      ∙ ap (λ t. framed (staged text t) [] 0) asked in
    let (k, few, d) =
      rounds-IsDelivered (length text) r (begun-Undisturbed text s w (omega (arith, fits, small)))
        bytes queue room (omega arith) (omega arith) in
    let e : typed k a.answer s ≡ rounds k r = ap (rounds k) got in
    record {
      request = a.request;
      sent = a.sent;
      answer = a.answer;
      answer_written = a.answer_written;
      turns = k;
      few = few;
      keys_read = ap (λ p. p.0) e ∙ d.read;
      queue_empty = ap (λ (p : List ℕ × Resident). contents p.1.memory) e ∙ d.queue_empty;
      ack_line = acked r d;
      acknowledged =
          subst (λ (t : Resident). Heard (ack_of (request_of s).sequence) t.line (acked r d))
            (sym asked) (delivered-acknowledged r d (omega arith));
      asked_again =
          subst (λ (t : Resident). Heard (request_of t) (acked r d) (typed k a.answer s).1.line)
            (sym asked)
            (subst (λ (p : List ℕ × Resident). Heard (request_of r) (acked r d) p.1.line) (sym e)
              (delivered-asked r d));
      over = send_text-acknowledged text (request_of s) h refl some_text fits;
      open_again = ap (λ (p : List ℕ × Resident). p.1.ime_active) e ∙ d.active;
      open_sequence =
          ap (λ (p : List ℕ × Resident). p.1.open_sequence) e
          ∙ d.open_sequence
          ∙ ap (λ (t : Resident). (request_of t).sequence) (sym asked);
    }
