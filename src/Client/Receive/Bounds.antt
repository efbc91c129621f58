-- ===== src/Client/Receive/Bounds.antt =====
-- The rounds of `read_packet`, and what it can return.
use pc98imebridge.Common.{
  ℕ, zero, suc, ◌+◌, ◌-◌, ◌*◌, ◌<◌, ◌≤◌, ◌≡◌, refl, sym, ap, ◌∙◌, true, false, inl, inr, Option,
  none, some, [], ◌∷◌, ◌++◌, Bytes, length, length-append, arith, Bool-cases, Option-cases, subst,
}
use pc98imebridge.Serial.Line.{Line, serial_read_byte}
use pc98imebridge.Client.Receive.{
  Reading, initially, Round, more, given_up, complete, stored_byte, received_byte, goes_on,
  read_round, read_rounds, enough_rounds, read_packet,
}

-- No more bytes are gathered than were read, and no more are read than the loop allows.
pub record Counted (r : Reading) : Type 0 where
  pub gathered : length r.packet ≤ r.byte_reads
  pub bytes_in : r.byte_reads ≤ 128
  pub idle_in : r.idle_reads ≤ 4

-- The rounds that are left at most.
abbrev pub rounds_left : Reading → ℕ
rounds_left r = (128 - r.byte_reads) * 4 + (4 - r.idle_reads)

-- A round brings the loop nearer to its end.
abbrev pub Progress : Reading → Round → Type 0
Progress r (more r') = Counted r' × (rounds_left r' < rounds_left r)
Progress r given_up = Unit
Progress r (complete packet) = length packet ≤ 128

stored_byte-Progress :
    (value : ℕ) (r now : Reading)
    → Counted now
    → length now.packet + 1 ≤ now.byte_reads
    → rounds_left now < rounds_left r
    → Progress r (stored_byte (now.packet ++ value ∷ []) now)
unfolding stored_byte
stored_byte-Progress value r now c room less =
    let size : length (now.packet ++ value ∷ []) ≡ length now.packet + 1 =
      length-append now.packet (value ∷ []) ∙ omega arith in
    let bytes_in = c.bytes_in in let idle_in = c.idle_in in ground (arith, size)

received_byte-Progress :
    (value : ℕ) (r now : Reading)
    → Counted now
    → length now.packet + 1 ≤ now.byte_reads
    → rounds_left now < rounds_left r
    → Progress r (received_byte value now)
unfolding received_byte
received_byte-Progress value r now c room less =
    ground (arith, stored_byte-Progress value r now c room less)

abbrev idle : Reading → Reading
idle r = record r { idle_reads = r.idle_reads + 1 }

abbrev got_byte : Reading → Reading
got_byte r = record r { idle_reads = 0; byte_reads = r.byte_reads + 1 }

read_round-idle :
    (r : Reading) (line : Line)
    → (serial_read_byte line).0 ≡ none
    → (read_round r line).0 ≡ more (idle r)
unfolding read_round
read_round-idle r line e = ground arith

read_round-received :
    (r : Reading) (line : Line) {value : ℕ}
    → (serial_read_byte line).0 ≡ some value
    → (read_round r line).0 ≡ received_byte value (got_byte r)
unfolding read_round
read_round-received r line e = ground arith

idle-Progress : (r : Reading) → Counted r → goes_on r ≡ true → Progress r (more (idle r))
idle-Progress r c on = ground (arith, c)

got_byte-Counted :
    (r : Reading)
    → Counted r
    → goes_on r ≡ true
    → Counted (got_byte r) × (rounds_left (got_byte r) < rounds_left r)
got_byte-Counted r c on = ground (arith, c)

read_round-Progress :
    (r : Reading) (line : Line) → Counted r → goes_on r ≡ true → Progress r (read_round r line).0
read_round-Progress r line c on = elim (Option-cases (serial_read_byte line).0) [
  | inl nothing ↦ subst (Progress r) (sym (read_round-idle r line nothing)) (idle-Progress r c on)
  | inr (value, got) ↦
      let (c', less) = got_byte-Counted r c on in
      subst (Progress r) (sym (read_round-received r line got))
        (received_byte-Progress value r (got_byte r) c' (omega (arith, c.gathered)) less)
]

-- What the loop does with the end of a round.
after_round : ℕ → Line → Round → Option Bytes × Line
after_round fuel line (more r) = read_rounds fuel r line
after_round fuel line given_up = (none, line)
after_round fuel line (complete packet) = (some packet, line)

read_rounds-on :
    (fuel : ℕ) (r : Reading) (line : Line)
    → goes_on r ≡ true
    → read_rounds (suc fuel) r line ≡ after_round fuel (read_round r line).1 (read_round r line).0
unfolding read_rounds after_round
read_rounds-on fuel r line on = ground arith

read_rounds-ended :
    (fuel : ℕ) (r : Reading) (line : Line)
    → goes_on r ≡ false
    → read_rounds fuel r line ≡ (none, line)
unfolding read_rounds
read_rounds-ended zero r line off = refl
read_rounds-ended (suc fuel) r line off = ground arith

after_round-same :
    (fuel more_fuel : ℕ) (r : Reading) (line : Line) (round : Round)
    → Progress r round
    → rounds_left r ≤ suc fuel
    → ((r' : Reading)
        → Counted r'
        → rounds_left r' ≤ fuel
        → read_rounds more_fuel r' line ≡ read_rounds fuel r' line)
    → after_round more_fuel line round ≡ after_round fuel line round
unfolding after_round
after_round-same fuel more_fuel r line (more r') (c, less) h same = same r' c (omega arith)
after_round-same fuel more_fuel r line given_up p h same = refl
after_round-same fuel more_fuel r line (complete packet) p h same = refl

ended : (r : Reading) → rounds_left r ≤ 0 → goes_on r ≡ false
ended r h = ground arith

-- Once there are as many rounds as the loop can take, more of them change nothing.
read_rounds-enough :
    (fuel more_fuel : ℕ) (r : Reading) (line : Line)
    → Counted r
    → rounds_left r ≤ fuel
    → fuel ≤ more_fuel
    → read_rounds more_fuel r line ≡ read_rounds fuel r line
read_rounds-enough zero more_fuel r line c h k =
    read_rounds-ended more_fuel r line (ended r h) ∙ sym (read_rounds-ended zero r line (ended r h))
read_rounds-enough (suc fuel) zero r line c h k = absurd (omega arith)
read_rounds-enough (suc fuel) (suc more_fuel) r line c h k = elim (Bool-cases (goes_on r)) [
  | inr off ↦
      read_rounds-ended (suc more_fuel) r line off ∙ sym (read_rounds-ended (suc fuel) r line off)
  | inl on ↦
      let next : Line = (read_round r line).1 in
      read_rounds-on more_fuel r line on
      ∙ after_round-same fuel more_fuel r next (read_round r line).0
          (read_round-Progress r line c on) h
          (λ r' c' h'. read_rounds-enough fuel more_fuel r' next c' h' (omega arith))
      ∙ sym (read_rounds-on fuel r line on)
]

initially-Counted : Counted initially
initially-Counted = ground arith

-- The loop of `read_packet` ends within the rounds allowed, whatever the line does: with any
-- greater number of rounds it returns the same and leaves the same line.
pub read_packet-ends :
    (fuel : ℕ) (line : Line)
    → enough_rounds ≤ fuel
    → read_rounds fuel initially line ≡ read_packet line
unfolding read_packet
read_packet-ends fuel line h =
    read_rounds-enough enough_rounds fuel initially line initially-Counted (omega arith) h

after_round-short :
    (fuel : ℕ) (r : Reading) (line : Line) (round : Round) {packet : Bytes}
    → Progress r round
    → ((r' : Reading)
        → Counted r'
        → (read_rounds fuel r' line).0 ≡ some packet
        → length packet ≤ 128)
    → (after_round fuel line round).0 ≡ some packet
    → length packet ≤ 128
unfolding after_round
after_round-short fuel r line (more r') (c, less) short e = short r' c e
after_round-short fuel r line given_up p short e = ground arith
after_round-short fuel r line (complete packet) p short e = ground arith

read_rounds-short :
    (fuel : ℕ) (r : Reading) (line : Line) {packet : Bytes}
    → Counted r
    → (read_rounds fuel r line).0 ≡ some packet
    → length packet ≤ 128
read_rounds-short zero r line c e = unfold read_rounds in ground arith
read_rounds-short (suc fuel) r line c e = elim (Bool-cases (goes_on r)) [
  | inr off ↦
      let none_read = sym (ap (λ x. x.0) (read_rounds-ended (suc fuel) r line off)) ∙ e in
      ground arith
  | inl on ↦
      after_round-short fuel r (read_round r line).1 (read_round r line).0
        (read_round-Progress r line c on)
        (λ r' c' e'. read_rounds-short fuel r' (read_round r line).1 c' e')
        (ap (λ x. x.0) (sym (read_rounds-on fuel r line on)) ∙ e)
]

-- `read_packet` never returns a packet of more than 128 bytes, although its buffer holds 522.
pub read_packet-short :
    (line : Line) (packet : Bytes) → (read_packet line).0 ≡ some packet → length packet ≤ 128
unfolding read_packet
read_packet-short line packet e = read_rounds-short enough_rounds initially line initially-Counted e
