-- ===== src/Client/Exchange/Answers.antt =====
-- What the client takes for an answer.
use mathlib.Core.List.{map}
use pc98imebridge.Common.{
  ℕ, ◌≡◌, ◌↔◌, refl, sym, ◌∙◌, true, false, inl, inr, Option, none, some, [], ◌∷◌, Bytes, arith,
  Bool-cases, Option-cases,
}
use pc98imebridge.Protocol.Packet.{Packet, parse}
use pc98imebridge.Serial.Line.{Line, serial_write}
use pc98imebridge.Client.Receive.{read_packet}
use pc98imebridge.Client.Exchange.{request, answer_to, exchange, upper, string_equal}

answer_to-sequence :
    (sequence : ℕ) (response : Option Bytes) {m : Packet}
    → answer_to sequence response ≡ some m
    → (packet : Bytes) × (response ≡ some packet)
      × (parse packet ≡ some m)
      × (m.sequence ≡ sequence)
unfolding answer_to
answer_to-sequence sequence none e = absurd (ground arith)
answer_to-sequence sequence (some packet) e = elim (Option-cases (parse packet)) [
  | inl refused ↦ absurd (ground arith)
  | inr (m', accepted) ↦ (packet, refl, ground arith, ground arith)
]

exchange-unsent :
    (kind sequence : ℕ) (line : Line)
    → (serial_write (request kind sequence) line).0 ≡ false
    → (exchange kind sequence line).0 ≡ none
unfolding exchange
exchange-unsent kind sequence line e = ground arith

exchange-sent :
    (kind sequence : ℕ) (line : Line)
    → (serial_write (request kind sequence) line).0 ≡ true
    → (exchange kind sequence line).0
      ≡ answer_to sequence (read_packet (serial_write (request kind sequence) line).1).0
unfolding exchange
exchange-sent kind sequence line e = ground arith

-- When `exchange` returns a response, the request was written in full, and what `read_packet`
-- returned then is a packet that `ime_packet_parse` accepts, with the sequence of the request.
pub exchange-answered :
    (kind sequence : ℕ) (line : Line) (m : Packet)
    → (exchange kind sequence line).0 ≡ some m
    → ((serial_write (request kind sequence) line).0 ≡ true)
      × (m.sequence ≡ sequence)
      × (packet : Bytes) × ((read_packet (serial_write (request kind sequence) line).1).0
          ≡ some packet)
      × (parse packet ≡ some m)
exchange-answered kind sequence line m e =
    elim (Bool-cases (serial_write (request kind sequence) line).0) [
      | inr unsent ↦
          let nothing = sym (exchange-unsent kind sequence line unsent) ∙ e in absurd (ground arith)
      | inl sent ↦
          let (packet, response, accepted, same) =
            answer_to-sequence sequence
              (read_packet (serial_write (request kind sequence) line).1).0
              (sym (exchange-sent kind sequence line sent) ∙ e) in
          (sent, same, packet, response, accepted)
    ]

-- `string_equal` compares two strings without regard to the case of letters.
pub string_equal-upper :
    (left right : Bytes) → (string_equal left right ≡ true) ↔ (map upper left ≡ map upper right)
unfolding string_equal
string_equal-upper [] [] = (λ _. refl, λ _. refl)
string_equal-upper [] (b ∷ right) = ground arith
string_equal-upper (a ∷ left) [] = ground arith
string_equal-upper (a ∷ left) (b ∷ right) = ground (arith, string_equal-upper left right)
