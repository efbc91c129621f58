-- ===== src/Resident/Deliver/Rounds.antt =====
-- `pc98_service_foreground` in turns with a program that reads its keys.
use pc98imebridge.Common.{
  ℕ, zero, suc, ◌+◌, ◌≤◌, ◌<◌, ◌≡◌, refl, ap, ap₂, ◌∙◌, inl, inr, true, List, [], ◌++◌, AreBytes,
  length, drop, arith, append-nil, u16,
}
use pc98imebridge.Protocol.Kind
use pc98imebridge.Keyboard.Memory.{Memory, capacity, read_byte}
use pc98imebridge.Keyboard.Queue.Ring.{count, contents, IsElsewhere, IsQueue}
use pc98imebridge.Keyboard.Encode.Keys.{keys}
use pc98imebridge.Resident.State.{Resident}
use pc98imebridge.Resident.Link.{send_line}
use pc98imebridge.Resident.Deliver.{inject_pending_text}
use pc98imebridge.Resident.Deliver.Drain.{drain, drain_lem, count-empty}
use pc98imebridge.Resident.Deliver.Lossless.{
  moved_on, delivered, Delivers, part, whole, inject_pending_text-Delivery,
}
use pc98imebridge.Resident.Service.{serve_text, service_foreground}
use pc98imebridge.Resident.Hotkey.{hotkey_down}
use pc98imebridge.Resident.Link.Sends.{send_line-Sent, kept_answers}
use pc98imebridge.Resident.Deliver.Turn.{
  Undisturbed, read_once, polled, ticked, back-open, back-waiting, service_foreground-Undisturbed,
}
use pc98imebridge.Protocol.Packet.{Packet}
use pc98imebridge.Serial.Line.{Line, tx_ready}

-- The worker and the program that reads, in turns: the keys read, and what is left.
unfoldable pub rounds : ℕ → Resident → List ℕ × Resident
rounds zero s = ([], s)
rounds (suc n) s =
    let s1 = service_foreground s in
    let (read, m) = drain capacity s1.memory in
    let (later, t) = rounds n (record s1 { memory = m }) in (read ++ later, t)

serve_text-some : (s : Resident) → 0 < length s.pending_text → serve_text s ≡ inject_pending_text s
unfolding serve_text
serve_text-some s h = ground arith

-- The state behind one round, from what the worker made.
abbrev drained : Resident → Resident
drained s1 = record s1 { memory = (drain capacity s1.memory).1 }

rounds-suc :
    (n : ℕ) (s : Resident) {s1 : Resident}
    → service_foreground s ≡ s1
    → rounds (suc n) s
      ≡ ((drain capacity s1.memory).0 ++ (rounds n (drained s1)).0, (rounds n (drained s1)).1)
unfolding rounds
rounds-suc n s e =
    ap (λ u. ((drain capacity u.memory).0 ++ (rounds n (drained u)).0, (rounds n (drained u)).1)) e

-- All keys were read in order. The text was acknowledged once, behind the last of them, on a line that
-- had put out nothing else before, and then the next request was sent.
pub record IsDelivered (s : Resident) (r : List ℕ × Resident) : Type 0 where
  pub read : r.0 ≡ contents s.memory ++ keys (drop s.pending_offset s.pending_text)
  pub text_gone : r.1.pending_text ≡ []
  pub queue_empty : contents r.1.memory ≡ []
  pub line : Line
  pub line_opened : line.opened ≡ true
  pub same_writes : line.ports.writes ≡ s.line.ports.writes
  pub same_config : line.config ≡ s.line.config
  pub acknowledged : (send_line Kind.text_ack s.pending_sequence [] line).0 ≡ true
  pub acked_opened : (send_line Kind.text_ack s.pending_sequence [] line).1.opened ≡ true
  pub asked :
      (send_line Kind.open_ime
        (u16 (s.sequence + 1))
        []
        (send_line Kind.text_ack s.pending_sequence [] line).1).0
      ≡ true
  pub line_left :
      r.1.line
      ≡ (send_line Kind.open_ime
          (u16 (s.sequence + 1))
          []
          (send_line Kind.text_ack s.pending_sequence [] line).1).1
  pub active : r.1.ime_active ≡ true
  pub open_sequence : r.1.open_sequence ≡ u16 (s.sequence + 1)

-- The last round: everything is queued.
rounds-acknowledged :
    {calls : ℕ} (s : Resident) (m : Memory)
    → Undisturbed calls s
    → serve_text (polled s) ≡ delivered (polled s) m
    → IsQueue m
    → contents m ≡ contents s.memory ++ keys (drop s.pending_offset s.pending_text)
    → IsDelivered s (rounds 1 s)
unfolding rounds
rounds-acknowledged s m w e v all =
    let line : Line = read_once s.line in
    let ack : Packet = record {
      kind = Kind.text_ack;
      sequence = s.pending_sequence;
      payload = [];
    } in
    let next : Packet = record {
      kind = Kind.open_ime;
      sequence = u16 (s.sequence + 1);
      payload = [];
    } in
    let acked = send_line-Sent ack line (omega arith) w.opened w.sends in
    let asked =
      send_line-Sent next (send_line Kind.text_ack s.pending_sequence [] line).1 (omega arith)
        acked.opened
        (kept_answers tx_ready true line (send_line Kind.text_ack s.pending_sequence [] line).1
          acked.same_config acked.same_answer w.sends) in
    let served =
      service_foreground-Undisturbed s w e
        (back-waiting (delivered (polled s) m) w.no_key w.enabled refl w.linked asked.succeeded) in
    let ends = rounds-suc 0 s served in
    let (read, empty, v', _) = drain_lem capacity m v v.count_in in
    record {
      read = ap (λ r. r.0) ends ∙ append-nil (drain capacity m).0 ∙ read ∙ all;
      text_gone = ap (λ (r : List ℕ × Resident). r.1.pending_text) ends;
      queue_empty = ap (λ (r : List ℕ × Resident). contents r.1.memory) ends ∙ empty;
      line = line;
      line_opened = w.opened;
      same_writes = refl;
      same_config = refl;
      acknowledged = acked.succeeded;
      acked_opened = acked.opened;
      asked = asked.succeeded;
      line_left = ap (λ (r : List ℕ × Resident). r.1.line) ends;
      active = ap (λ (r : List ℕ × Resident). r.1.ime_active) ends;
      open_sequence = ap (λ (r : List ℕ × Resident). r.1.open_sequence) ends;
    }

-- The worker behind a round that leaves some keys.
abbrev moved : Resident → Memory → ℕ → Resident
moved s m offset = drained (ticked (moved_on (polled s) m offset))

-- A round that leaves some keys, and the rounds behind it.
rounds-moved :
    {calls : ℕ} (k : ℕ) (s : Resident) (m : Memory) (offset : ℕ)
    → Undisturbed (suc calls) s
    → serve_text (polled s) ≡ moved_on (polled s) m offset
    → Delivers (polled s) m offset
    → IsDelivered (moved s m offset) (rounds k (moved s m offset))
    → IsDelivered s (rounds (suc k) s)
rounds-moved k s m offset w e d ih =
    let (read, empty, v', _) = drain_lem capacity m d.queue d.queue.count_in in
    let served =
      service_foreground-Undisturbed s w e
        (back-open (moved_on (polled s) m offset) w.no_key w.active (omega (arith, w.in_time))) in
    let ends = rounds-suc k s served in
    let left = ap (λ (r : List ℕ × Resident). r.1) ends in
    record {
      read =
          ap (λ r. r.0) ends
          ∙ ap₂ ◌++◌ read (ih.read ∙ ap (λ q. q ++ keys (drop offset s.pending_text)) empty)
          ∙ d.conserved;
      text_gone = ap (λ (u : Resident). u.pending_text) left ∙ ih.text_gone;
      queue_empty = ap (λ (u : Resident). contents u.memory) left ∙ ih.queue_empty;
      line = ih.line;
      line_opened = ih.line_opened;
      same_writes = ih.same_writes;
      same_config = ih.same_config;
      acknowledged = ih.acknowledged;
      acked_opened = ih.acked_opened;
      asked = ih.asked;
      line_left = ap (λ (u : Resident). u.line) left ∙ ih.line_left;
      active = ap (λ (u : Resident). u.ime_active) left ∙ ih.active;
      open_sequence = ap (λ (u : Resident). u.open_sequence) left ∙ ih.open_sequence;
    }

-- The hotkey's bytes are outside the queue.
pub hotkey_down-elsewhere :
    (s t : Resident)
    → ((a : ℕ) → IsElsewhere a → t.memory a ≡ s.memory a)
    → t.line.config ≡ s.line.config
    → hotkey_down t ≡ hotkey_down s
unfolding hotkey_down read_byte
hotkey_down-elsewhere s t same config =
    rw (same 0x053a (inr (omega arith)), same 0x0530 (inr (omega arith)), config) refl

moved-Undisturbed :
    {calls : ℕ} (s : Resident) (m : Memory) (offset : ℕ)
    → Undisturbed (suc calls) s
    → Delivers (polled s) m offset
    → Undisturbed calls (moved s m offset)
moved-Undisturbed s m offset w d =
    let (_, _, _, kept) = drain_lem capacity m d.queue d.queue.count_in in
    record {
      released =
          hotkey_down-elsewhere s (moved s m offset)
            (λ a outside. kept a outside ∙ d.elsewhere a outside) refl
          ∙ w.released;
      linked = w.linked;
      active = w.active;
      enabled = w.enabled;
      no_key = w.no_key;
      none_captured = w.none_captured;
      opened = w.opened;
      silent = w.silent;
      sends = w.sends;
      in_time = omega (arith, w.in_time);
    }

-- While the link is ready, the line open and its transmitter always ready, the IME on and a request
-- open, the hotkey up, no key staged, nothing captured or coming in, and the timeout more calls away
-- than `n`, a text that is staged with at most `n` bytes left, over a well-formed queue with room,
-- reaches the program that reads keys in turns with whole calls of the worker: after at most `n` rounds
-- all keys that were left of the text have been read, behind those queued before, in order and each
-- once, the queue is empty and the text no longer staged; the TEXT_ACK with its sequence has gone out
-- on the line, once and before anything else, and behind it the next OPEN_IME, which is the open
-- request.
pub rounds-IsDelivered :
    (n : ℕ) (s : Resident)
    → Undisturbed n s
    → AreBytes s.pending_text
    → IsQueue s.memory
    → count s.memory < capacity
    → s.pending_offset < length s.pending_text
    → length s.pending_text ≤ s.pending_offset + n
    → (k : ℕ) × (k ≤ n) × IsDelivered s (rounds k s)
rounds-IsDelivered zero s w bytes v room inside enough = absurd (omega arith)
rounds-IsDelivered (suc n) s w bytes v room inside enough =
    let served : serve_text (polled s) ≡ inject_pending_text (polled s) =
      serve_text-some (polled s) (omega arith) in
    elim (inject_pending_text-Delivery (polled s) bytes v inside) [
      | whole m shape q outside all ↦
          (1, omega arith, rounds-acknowledged s m w (served ∙ shape) q all)
      | part m offset shape d left progress ↦
          let (read, empty, v', kept) = drain_lem capacity m d.queue d.queue.count_in in
          let none_queued = count-empty (drain capacity m).1 empty in
          let on : s.pending_offset < offset = elim progress [
            | inl further ↦ further
            | inr full ↦ absurd (omega arith)
          ] in
          let (k, few, ih) =
            rounds-IsDelivered n (moved s m offset) (moved-Undisturbed s m offset w d) bytes v'
              (omega (arith, none_queued)) left (omega arith) in
          (suc k, omega (arith, few), rounds-moved k s m offset w (served ∙ shape) d ih)
    ]
