-- ===== src/Serial/Line/Write.antt =====
-- What `serial_write` puts on the data port, and how long it can take.
use pc98imebridge.Common.{
  ℕ, suc, ◌+◌, ◌*◌, ◌≤◌, ◌<◌, ◌≡◌, refl, sym, ap, ◌∙◌, Bool, true, false, [], ◌∷◌, ◌++◌, Bytes,
  length, take, append_assoc, append-nil, arith, Bool-cases, ==_iff, subst, inl, inr, ◌==◌,
  has_bits, u8,
}
use mathlib.Core.List.{map}
use pc98imebridge.Serial.Line.Waits.{
  Waited, wait_status-Waited, Starved, NeverReady, wait_status-never, wait_status-Starved,
  wait_status-ready,
}
use pc98imebridge.Serial.Port.{Ports, port_out}
use pc98imebridge.Serial.Line.{
  Line, with_ports, tx_timeout, wait_status, write_bytes, serial_write, tx_ready, tx_timeout_count,
}

-- How a call of `write_bytes` or `serial_write` ended: the first `sent` bytes went out on the data
-- port, in order and nothing else; all of them exactly when it returned 1, and when it did not the
-- error is set and the last 2000h status reads were not ready; each byte took a bounded number of
-- status reads, and none goes out while the transmitter is never ready.
pub record Wrote (bytes : Bytes) (line : Line) (r : Bool × Line) : Type 0 where
  pub sent : ℕ
  pub sent_in : sent ≤ length bytes
  pub out :
      r.1.ports.writes
      ≡ line.ports.writes ++ map (λ b. (line.config.data_port, u8 b)) (take sent bytes)
  pub complete : r.0 ≡ true → sent ≡ length bytes
  pub failed : r.0 ≡ false → (sent < length bytes) × (r.1.error ≡ tx_timeout)
  pub starved :
      r.0 ≡ false
      → (start : ℕ) × (start + tx_timeout_count ≡ r.1.ports.reads)
        × Starved line.ports.answer line.config.status_port start tx_timeout_count
  pub unready : NeverReady line → sent ≡ 0
  pub bounded : r.1.ports.reads ≤ line.ports.reads + tx_timeout_count * length bytes
  pub same_answer : r.1.ports.answer ≡ line.ports.answer
  pub same_config : r.1.config ≡ line.config
  pub same_opened : r.1.opened ≡ line.opened

Wrote-cons :
    (byte : ℕ) (bytes : Bytes) (line : Line) (p : Ports) {n : ℕ} {r : Bool × Line}
    → Waited tx_timeout_count line.ports (n, p)
    → ¬ (NeverReady line)
    → Wrote bytes (with_ports line (port_out line.config.data_port byte p)) r
    → Wrote (byte ∷ bytes) line r
unfolding port_out
Wrote-cons byte bytes line p w once rest = record {
  sent = suc rest.sent;
  sent_in = omega (arith, rest.sent_in);
  out =
      rest.out
      ∙ ap
          (λ ws.
            (ws ++ (line.config.data_port, u8 byte) ∷ [])
            ++ map (λ b. (line.config.data_port, u8 b)) (take rest.sent bytes))
          w.writes_kept
      ∙ append_assoc line.ports.writes _ _;
  complete = λ e. ap suc (rest.complete e);
  failed = λ e. (omega (arith, (rest.failed e).0), (rest.failed e).1);
  starved = λ e.
      let (start, last, none_ready) = rest.starved e in
      (
        start,
        last,
        subst (λ answer. Starved answer line.config.status_port start tx_timeout_count)
            w.answer_kept none_ready,
      );
  unready = λ never. absurd (once never);
  bounded = omega (arith, rest.bounded, w.reads_bound);
  same_answer = rest.same_answer ∙ w.answer_kept;
  same_config = rest.same_config;
  same_opened = rest.same_opened;
}

abbrev waiting : Line → ℕ × Ports
waiting line = wait_status tx_timeout_count line.config.status_port tx_ready line.ports

write_bytes-timeout :
    (byte : ℕ) (bytes : Bytes) (line : Line)
    → ((waiting line).0 == 0) ≡ true
    → write_bytes (byte ∷ bytes) line
      ≡ (false, record line { error = tx_timeout; ports = (waiting line).1 })
unfolding write_bytes
write_bytes-timeout byte bytes line e = ground arith

write_bytes-sent :
    (byte : ℕ) (bytes : Bytes) (line : Line)
    → ((waiting line).0 == 0) ≡ false
    → write_bytes (byte ∷ bytes) line
      ≡ write_bytes bytes (with_ports line (port_out line.config.data_port byte (waiting line).1))
unfolding write_bytes
write_bytes-sent byte bytes line e = ground arith

write_bytes-Wrote : (bytes : Bytes) (line : Line) → Wrote bytes line (write_bytes bytes line)
unfolding write_bytes
write_bytes-Wrote [] line = record {
  sent = 0;
  sent_in = omega arith;
  out = sym (append-nil _);
  complete = λ _. refl;
  failed = λ e. cc;
  starved = λ e. absurd (cc);
  unready = λ never. refl;
  bounded = omega arith;
  same_answer = refl;
  same_config = refl;
  same_opened = refl;
}
write_bytes-Wrote (byte ∷ bytes) line =
    let waited : ℕ × Ports = waiting line in
    let w : Waited tx_timeout_count line.ports waited =
      wait_status-Waited tx_timeout_count line.config.status_port tx_ready line.ports in
    elim (Bool-cases (waited.0 == 0)) [
      | inl out_of_time ↦ rw (write_bytes-timeout byte bytes line out_of_time) (record {
        sent = 0;
        sent_in = omega arith;
        out = w.writes_kept ∙ sym (append-nil _);
        complete = λ e. cc;
        failed = λ _. (omega arith, refl);
        starved = λ _.
            let (reads, none_ready) =
              wait_status-Starved tx_timeout_count line.config.status_port line.ports
                ((==_iff waited.0 0).0 out_of_time) in
            (line.ports.reads, sym reads, none_ready);
        unready = λ never. refl;
        bounded = omega (arith, w.reads_bound);
        same_answer = w.answer_kept;
        same_config = refl;
        same_opened = refl;
      })
      | inr in_time ↦ rw (write_bytes-sent byte bytes line in_time) (
          Wrote-cons byte bytes line waited.1 w
            (λ never. ground (
              arith,
              in_time,
              wait_status-never tx_timeout_count line.config.status_port tx_ready line.ports never,
            ))
            (write_bytes-Wrote bytes _))
    ]

serial_write-opened :
    (bytes : Bytes) (line : Line)
    → line.opened ≡ true
    → serial_write bytes line ≡ write_bytes bytes line
unfolding serial_write
serial_write-opened bytes line e = ground arith

-- On a line that is open, `serial_write` sends the bytes in order on the data port, and nothing
-- else, until all are out or one wait for the transmitter has run out; it returns 1 in the first
-- case. In the second it sets the error, and its last 2000h reads of the status port all said that
-- the transmitter was not ready. It reads the status port at most 2000h times a byte, and sends
-- nothing when the transmitter is ready at none of the reads.
pub serial_write-Wrote :
    (bytes : Bytes) (line : Line) → line.opened ≡ true → Wrote bytes line (serial_write bytes line)
serial_write-Wrote bytes line opened =
    rw (serial_write-opened bytes line opened) (write_bytes-Wrote bytes line)

-- Nothing is written on a line that is closed.
pub serial_write-closed :
    (bytes : Bytes) (line : Line) → line.opened ≡ false → serial_write bytes line ≡ (false, line)
unfolding serial_write
serial_write-closed bytes line closed = ground arith

-- The transmitter is ready at every status read.
abbrev pub AlwaysReady : Line → Type 0
AlwaysReady line =
    (k : ℕ) → has_bits (u8 (line.ports.answer k line.config.status_port)) tx_ready ≡ true

answer-port_out : (port value : ℕ) (p : Ports) → (port_out port value p).answer ≡ p.answer
unfolding port_out
answer-port_out port value p = refl

written_in_time : (line : Line) → AlwaysReady line → ((waiting line).0 == 0) ≡ false
written_in_time line ready =
    rw (wait_status-ready 0x1fff line.config.status_port tx_ready line.ports ready) refl

-- The line behind a byte that is put out.
abbrev after_byte : ℕ → Line → Line
after_byte byte line = with_ports line (port_out line.config.data_port byte (waiting line).1)

ready-after_byte : (byte : ℕ) (line : Line) → AlwaysReady line → AlwaysReady (after_byte byte line)
ready-after_byte byte line ready k =
    let w = wait_status-Waited tx_timeout_count line.config.status_port tx_ready line.ports in
    let same : (waiting line).1.answer ≡ line.ports.answer = w.answer_kept in
    ap (λ (f : ℕ → ℕ → ℕ). has_bits (u8 (f k line.config.status_port)) tx_ready)
      (answer-port_out line.config.data_port byte (waiting line).1 ∙ same)
    ∙ ready k

write_bytes-ready :
    (bytes : Bytes) (line : Line) → AlwaysReady line → (write_bytes bytes line).0 ≡ true
unfolding write_bytes
write_bytes-ready [] line ready = refl
write_bytes-ready (byte ∷ bytes) line ready =
    rw (write_bytes-sent byte bytes line (written_in_time line ready))
      (write_bytes-ready bytes (after_byte byte line) (ready-after_byte byte line ready))

-- On an open line whose transmitter is always ready, every write succeeds.
pub serial_write-ready :
    (bytes : Bytes) (line : Line)
    → line.opened ≡ true
    → AlwaysReady line
    → (serial_write bytes line).0 ≡ true
serial_write-ready bytes line opened ready =
    rw (serial_write-opened bytes line opened) (write_bytes-ready bytes line ready)
