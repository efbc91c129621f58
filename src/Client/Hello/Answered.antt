-- ===== src/Client/Hello/Answered.antt =====
-- What `hello_exchange` takes for an answer.
use pc98imebridge.Common.{
  either, not, ◌||◌, ◌==◌, ℕ, zero, suc, ◌≡◌, refl, sym, subst, ◌∙◌, inl, inr, Bool, true, false,
  Option, none, some, Bytes, codes, arith, Option-cases,
}
use pc98imebridge.Protocol.Kind
use pc98imebridge.Protocol.Packet.{Packet, parse}
use pc98imebridge.Keyboard.Memory.{Memory}
use pc98imebridge.Serial.Line.{Line, serial_open, serial_close, serial_write}
use pc98imebridge.Client.Receive.{read_packet}
use pc98imebridge.Client.Log.{Client, log_line}
use pc98imebridge.Client.Log.Kept.{log_line-memory, log_packet_prefix-memory}
use pc98imebridge.Client.Hello.{
  hello_parsed, hello_response, hello_read, hello_written, hello_attempt, hello_retries,
  hello_exchange,
}

-- A packet that was read from the line is a PONG with sequence 1.
pub record IsPong (m : Packet) : Type 0 where
  pub line : Line
  pub packet : Bytes
  pub received : (read_packet line).0 ≡ some packet
  pub accepted : parse packet ≡ some m
  pub first : m.sequence ≡ 1
  pub pong : m.kind ≡ Kind.pong

-- What an attempt leaves behind, started with this memory: the memory is as it was, and an answer is
-- the PONG.
record Attempted (before : Memory) (r : Option Packet × Client) : Type 0 where
  memory : r.1.memory ≡ before
  answer : (m : Packet) → r.0 ≡ some m → IsPong m

unanswered : {before : Memory} (c : Client) → c.memory ≡ before → Attempted before (none, c)
unanswered c same = record { memory = same; answer = λ m e. absurd (ground arith) }

-- The answer of an attempt is that of the exchange.
succeeded :
    {before : Memory} {r : Option Packet × Client} (m : Packet)
    → r.0 ≡ some m
    → Attempted before r
    → Attempted before (some m, r.1)
succeeded m e t = record { memory = t.memory; answer = λ m' e'. t.answer m' (e ∙ e') }

logged :
    {before : Memory} (text : Bytes) (c : Client)
    → c.memory ≡ before
    → (log_line text c).memory ≡ before
logged text c same = log_line-memory text c ∙ same

hello_parsed-Attempted :
    (line : Line) (packet : Bytes) (parsed : Option Packet) (c : Client) {before : Memory}
    → (read_packet line).0 ≡ some packet
    → parse packet ≡ parsed
    → c.memory ≡ before
    → Attempted before (hello_parsed parsed c)
unfolding hello_parsed
hello_parsed-Attempted line packet none c got told same = unanswered _ (logged _ c same)
hello_parsed-Attempted line packet (some m) c got told same =
    either (Attempted _) (not (m.sequence == 1) || not (m.kind == Kind.pong)) _ _
      (λ bad. unanswered _ (logged _ c same))
      (λ good. record {
        memory = same;
        answer = λ m' e. record {
          line = line;
          packet = packet;
          received = got;
          accepted = told ∙ e;
          first = ground (arith, good, e);
          pong = ground (arith, good, e);
        };
      })

hello_response-Attempted :
    (line : Line) (response : Option Bytes) (c : Client) {before : Memory}
    → (read_packet line).0 ≡ response
    → c.memory ≡ before
    → Attempted before (hello_response response c)
unfolding hello_response
hello_response-Attempted line none c got same = unanswered _ (logged _ c same)
hello_response-Attempted line (some packet) c got same =
    hello_parsed-Attempted line packet (parse packet) _ got refl
      (log_packet_prefix-memory packet _ ∙ logged _ c same)

hello_read-Attempted :
    (c : Client) {before : Memory} → c.memory ≡ before → Attempted before (hello_read c)
unfolding hello_read
hello_read-Attempted c same = hello_response-Attempted c.line (read_packet c.line).0 _ refl same

hello_written-Attempted :
    (sent : Bool) (c : Client) {before : Memory}
    → c.memory ≡ before
    → Attempted before (hello_written sent c)
unfolding hello_written
hello_written-Attempted false c same = unanswered _ (logged _ c same)
hello_written-Attempted true c same = hello_read-Attempted _ (logged _ _ (logged _ c same))

hello_attempt-Attempted :
    (packet : Bytes) (c : Client) {before : Memory}
    → c.memory ≡ before
    → Attempted before (hello_attempt packet c)
unfolding hello_attempt
hello_attempt-Attempted packet c same =
    let begun : Client = log_line (codes "HELLO WRITE BEGIN\r\n") c in
    let k : begun.memory ≡ _ = logged _ c same in
    hello_written-Attempted (serial_write packet begun.line).0 _ k

-- The client that an attempt behind the first starts with.
abbrev retrying : Client → Client
retrying c =
    let told : Client = log_line (codes "HELLO ATTEMPT\r\n") c in
    record told { line = serial_open (serial_close told.line) }

hello_retries-failed :
    (left : ℕ) (packet : Bytes) (c : Client)
    → (hello_attempt packet (retrying c)).0 ≡ none
    → hello_retries (suc left) packet c
      ≡ hello_retries left packet
          (log_line (codes "HELLO RETRY\r\n") (hello_attempt packet (retrying c)).1)
unfolding hello_retries
hello_retries-failed left packet c e = ground (arith, e)

hello_retries-succeeded :
    (left : ℕ) (packet : Bytes) (c : Client) {m : Packet}
    → (hello_attempt packet (retrying c)).0 ≡ some m
    → hello_retries (suc left) packet c ≡ (some m, (hello_attempt packet (retrying c)).1)
unfolding hello_retries
hello_retries-succeeded left packet c e = ground (arith, e)

hello_retries-Attempted :
    (left : ℕ) (packet : Bytes) (c : Client) {before : Memory}
    → c.memory ≡ before
    → Attempted before (hello_retries left packet c)
unfolding hello_retries
hello_retries-Attempted zero packet c same = unanswered _ (logged _ c same)
hello_retries-Attempted (suc left) packet c same =
    let tried = hello_attempt-Attempted packet (retrying c) (logged _ c same) in
    elim (Option-cases (hello_attempt packet (retrying c)).0) [
      | inl failed ↦
          subst (Attempted _) (sym (hello_retries-failed left packet c failed))
            (hello_retries-Attempted left packet _ (logged _ _ tried.memory))
      | inr (m, answered) ↦
          subst (Attempted _) (sym (hello_retries-succeeded left packet c answered))
            (succeeded m answered tried)
    ]

abbrev trying : Client → Client
trying c = log_line (codes "HELLO ATTEMPT\r\n") c

hello_exchange-failed :
    (packet : Bytes) (c : Client)
    → (hello_attempt packet (trying c)).0 ≡ none
    → hello_exchange packet c
      ≡ hello_retries 3 packet
          (log_line (codes "HELLO RETRY\r\n") (hello_attempt packet (trying c)).1)
unfolding hello_exchange
hello_exchange-failed packet c e = ground (arith, e)

hello_exchange-succeeded :
    (packet : Bytes) (c : Client) {m : Packet}
    → (hello_attempt packet (trying c)).0 ≡ some m
    → hello_exchange packet c ≡ (some m, (hello_attempt packet (trying c)).1)
unfolding hello_exchange
hello_exchange-succeeded packet c e = ground (arith, e)

hello_exchange-Attempted :
    (packet : Bytes) (c : Client) → Attempted c.memory (hello_exchange packet c)
hello_exchange-Attempted packet c =
    let tried = hello_attempt-Attempted packet (trying c) (logged _ c refl) in
    elim (Option-cases (hello_attempt packet (trying c)).0) [
      | inl failed ↦
          subst (Attempted _) (sym (hello_exchange-failed packet c failed))
            (hello_retries-Attempted 3 packet _ (logged _ _ tried.memory))
      | inr (m, answered) ↦
          subst (Attempted _) (sym (hello_exchange-succeeded packet c answered))
            (succeeded m answered tried)
    ]

pub hello_exchange-memory :
    (packet : Bytes) (c : Client) → (hello_exchange packet c).1.memory ≡ c.memory
hello_exchange-memory packet c = (hello_exchange-Attempted packet c).memory

-- When `hello_exchange` succeeds, at whichever attempt, the answer is a packet that was read from the
-- line and that `ime_packet_parse` accepts, a PONG with sequence 1.
pub hello_exchange-answered :
    (packet : Bytes) (c : Client) (m : Packet) → (hello_exchange packet c).0 ≡ some m → IsPong m
hello_exchange-answered packet c m e = (hello_exchange-Attempted packet c).answer m e
