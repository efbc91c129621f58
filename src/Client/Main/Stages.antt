-- ===== src/Client/Main/Stages.antt =====
-- The stages of `main` of dos/pc98/main.c from the session command on.
use pc98imebridge.Common.{
  either, arith, ap, sym, ℕ, ◌≡◌, refl, ◌∙◌, ◌⊎◌, inl, inr, Bool, true, not, Option, none, some,
  Bytes, codes, ◌==◌, Bool-cases, ==_iff,
}
use pc98imebridge.Protocol.Kind
use pc98imebridge.Protocol.Packet.{Packet}
use pc98imebridge.Keyboard.Memory.{Memory}
use pc98imebridge.Keyboard.Inject.{KeyRead}
use pc98imebridge.Serial.Line.{Line, serial_open, serial_write}
use pc98imebridge.Client.Control.{control_command}
use pc98imebridge.Client.Exchange.{request, exchange}
use pc98imebridge.Client.Hello.{hello_exchange}
use pc98imebridge.Client.Hello.Answered.{hello_exchange-memory}
use pc98imebridge.Client.Log.{Client, log_line, log_packet_prefix, print}
use pc98imebridge.Client.Main.{
  give_up, checked_text, finish, got_text, ask_text, text_answer, pong_answer, hello_outcome,
  ask_pong, say_hello, open_line, open_session, hello_packet,
}
use pc98imebridge.Client.Log.{log_write}
use pc98imebridge.Client.Log.Kept.{log_line-memory, print-memory, log_packet_prefix-memory}

-- The client behind the session command, on the line that it opens.
abbrev pub opened : Client → Client
opened c =
    let greeted : Client =
      log_line (codes "IME98 SESSION OPENED\r\n") (print (codes "IME98$ session opened\r\n") c) in
    log_line (codes "SERIAL OPENED\r\n") (
      print (codes "COM device opened: PC-98 RS-232C (IME98.CFG)\r\n")
        (record greeted { line = serial_open greeted.line }))

-- The client that asks for the session.
abbrev pub commanded : Client → Client
commanded c = record c {
  control = (control_command 1 c.control c.dos).1;
  dos = (control_command 1 c.control c.dos).2;
}

-- The line as the OPEN_IME finds it: behind the HELLO and the PING.
abbrev pub text_line : Client → Line
text_line c = (exchange Kind.ping 2 (hello_exchange hello_packet (opened (commanded c))).1.line).1

-- The text is the payload of a TEXT that answered the OPEN_IME with sequence 3 on this line.
pub record IsAnswer (line : Line) (text : Bytes) : Type 0 where
  pub message : Packet
  pub answered : (exchange Kind.open_ime 3 line).0 ≡ some message
  pub is_text : message.kind ≡ Kind.text
  pub is_payload : message.payload ≡ text

-- Logging and printing leave the line as it is.
logged_print-line :
    (log message : Bytes) (c : Client) → (log_line log (print message c)).line ≡ c.line
unfolding log_line log_write print
logged_print-line log message c = ground arith

-- What every way of giving up has, and every way of finishing from the memory `m`, the program's end
-- has. The memory is that of the start unless the verification was asked for.
module _ (read_key : KeyRead) (verify : Bool) (m : Memory) (l : Line) (P : ℕ × Client → Type 0)
    (gives_up : (log message : Bytes) (c : Client) → P (give_up log message c))
    (finishes : (text : Bytes) (c : Client)
      → IsAnswer l text
      → ((verify ≡ true) ⊎ (c.memory ≡ m))
      → P (finish read_key verify text c)) where
  abbrev Kept : Memory → Type 0
  Kept now = (verify ≡ true) ⊎ (now ≡ m)

  keep : {now later : Memory} → later ≡ now → Kept now → Kept later
  keep e (inl asked) = inl asked
  keep e (inr same) = inr (e ∙ same)

  logged : (text : Bytes) (c : Client) → Kept c.memory → Kept (log_line text c).memory
  logged text c k = keep (log_line-memory text c) k

  logged_print :
      (log message : Bytes) (c : Client)
      → Kept c.memory
      → Kept (log_line log (print message c)).memory
  logged_print log message c k =
      keep (log_line-memory log (print message c) ∙ print-memory message c) k

  checked_text-Kept :
      (text : Bytes) (c : Client)
      → Kept c.memory
      → Kept (checked_text read_key verify text c).memory
  unfolding checked_text
  checked_text-Kept text c (inl asked) = inl asked
  checked_text-Kept text c (inr same) = elim (Bool-cases verify) [
    | inl asked ↦ inl asked
    | inr queued ↦
        rw queued (inr (log_line-memory (codes "BIOS INJECTION QUEUE MODE\r\n") c ∙ same))
  ]

  got_text-ends :
      (text : Bytes) (c : Client)
      → IsAnswer l text
      → Kept c.memory
      → P (got_text read_key verify text c)
  unfolding got_text
  got_text-ends text c a k =
      let received : Client = log_line (codes "TEXT RECEIVED\r\n") c in
      let prefixed : Client = log_packet_prefix text received in
      let k1 : Kept prefixed.memory =
        keep (log_packet_prefix-memory text received) (logged _ c k) in
      let checked : Client = checked_text read_key verify text prefixed in
      let k2 : Kept checked.memory = checked_text-Kept text prefixed k1 in
      either P (not (serial_write (request Kind.text_ack 3) checked.line).0) _ _
        (λ _. gives_up _ _ _)
        (λ _.
          finishes text
            (record checked { line = (serial_write (request Kind.text_ack 3) checked.line).1 }) a
            k2)

  text_answer-ends :
      (answer : Option Packet) (c : Client)
      → (exchange Kind.open_ime 3 l).0 ≡ answer
      → Kept c.memory
      → P (text_answer read_key verify answer c)
  unfolding text_answer
  text_answer-ends none c e k = gives_up _ _ c
  text_answer-ends (some a) c e k =
      either P (a.kind == Kind.text) _ _
        (λ is_text.
          got_text-ends a.payload c
            (record {
              message = a;
              answered = e;
              is_text = (==_iff a.kind Kind.text).0 is_text;
              is_payload = refl;
            })
            k)
        (λ _. gives_up _ _ c)

  ask_text-ends : (c : Client) → c.line ≡ l → Kept c.memory → P (ask_text read_key verify c)
  unfolding ask_text
  ask_text-ends c at k =
      text_answer-ends (exchange Kind.open_ime 3 c.line).0 _
        (ap (λ line. (exchange Kind.open_ime 3 line).0) (sym at)) k

  pong_answer-ends :
      (answer : Option Packet) (c : Client)
      → c.line ≡ l
      → Kept c.memory
      → P (pong_answer read_key verify answer c)
  unfolding pong_answer
  pong_answer-ends none c at k = gives_up _ _ c
  pong_answer-ends (some a) c at k =
      either P (a.kind == Kind.pong) _ _
        (λ _. ask_text-ends _ (logged_print-line _ _ c ∙ at) (logged_print _ _ c k))
        (λ _. gives_up _ _ c)

  ask_pong-ends :
      (c : Client)
      → (exchange Kind.ping 2 c.line).1 ≡ l
      → Kept c.memory
      → P (ask_pong read_key verify c)
  unfolding ask_pong
  ask_pong-ends c at k = pong_answer-ends (exchange Kind.ping 2 c.line).0 _ at k

  hello_outcome-ends :
      (answer : Option Packet) (c : Client)
      → (exchange Kind.ping 2 c.line).1 ≡ l
      → Kept c.memory
      → P (hello_outcome read_key verify answer c)
  unfolding hello_outcome
  hello_outcome-ends none c at k = gives_up _ _ c
  hello_outcome-ends (some a) c at k =
      ask_pong-ends _ (ap (λ line. (exchange Kind.ping 2 line).1) (logged_print-line _ _ c) ∙ at)
        (logged_print _ _ c k)

  say_hello-ends :
      (c : Client)
      → (exchange Kind.ping 2 (hello_exchange hello_packet c).1.line).1 ≡ l
      → Kept c.memory
      → P (say_hello read_key verify c)
  unfolding say_hello
  say_hello-ends c at k =
      hello_outcome-ends (hello_exchange hello_packet c).0 _ at
        (keep (hello_exchange-memory hello_packet c) k)

  open_line-ends :
      (c : Client)
      → (exchange Kind.ping 2 (hello_exchange hello_packet (opened c)).1.line).1 ≡ l
      → Kept c.memory
      → P (open_line read_key verify c)
  unfolding open_line
  open_line-ends c at k =
      let greeted : Client =
        log_line (codes "IME98 SESSION OPENED\r\n") (print (codes "IME98$ session opened\r\n") c) in
      say_hello-ends (opened c) at (
        logged_print _ _ (record greeted { line = serial_open greeted.line })
          (logged_print _ _ c k))

  pub open_session-ends :
      (c : Client) → text_line c ≡ l → Kept c.memory → P (open_session read_key verify c)
  unfolding open_session
  open_session-ends c at k =
      either P (not (control_command 1 c.control c.dos).0) _ _ (λ _. gives_up _ _ _)
        (λ _. open_line-ends (commanded c) at k)
