-- ===== src/Serial/Line/Waits.antt =====
-- How long the waits of `serial_write` for the transmitter take, and what they saw.
use pc98imebridge.Common.{
  ℕ, zero, suc, ◌+◌, ◌≤◌, ◌<◌, ◌≡◌, refl, sym, ap, ◌∙◌, true, false, arith, Bool-cases, ℕ_discrete,
  inl, inr, has_bits, u8,
}
use pc98imebridge.Serial.Port.{Ports, port_in}
use pc98imebridge.Serial.Line.{Line, wait_status, tx_ready}

-- Waiting reads at most as often as the count says, and writes nothing.
pub record Waited (left : ℕ) (p : Ports) (r : ℕ × Ports) : Type 0 where
  pub writes_kept : r.1.writes ≡ p.writes
  pub answer_kept : r.1.answer ≡ p.answer
  pub reads_bound : r.1.reads ≤ p.reads + left
  pub reads_grow : p.reads ≤ r.1.reads

pub wait_status-Waited :
    (left port mask : ℕ) (p : Ports) → Waited left p (wait_status left port mask p)
unfolding wait_status port_in
wait_status-Waited zero port mask p = ground arith
wait_status-Waited (suc left) port mask p =
    ground (arith, wait_status-Waited left port mask (port_in port p).1)

-- `count` status reads in a row, from read `start` on, said that the transmitter was not ready.
abbrev pub Starved : (ℕ → ℕ → ℕ) → ℕ → ℕ → ℕ → Type 0
Starved answer port start count =
    (k : ℕ) → start ≤ k → k < start + count → has_bits (u8 (answer k port)) tx_ready ≡ false

-- The transmitter is ready at no status read.
abbrev pub NeverReady : Line → Type 0
NeverReady line =
    (k : ℕ) → has_bits (u8 (line.ports.answer k line.config.status_port)) tx_ready ≡ false

wait_status-found :
    (left port mask : ℕ) (p : Ports)
    → has_bits (u8 (p.answer p.reads port)) mask ≡ true
    → (wait_status (suc left) port mask p).0 ≡ suc left
unfolding wait_status port_in
wait_status-found left port mask p e = ground (arith, e)

wait_status-again :
    (left port mask : ℕ) (p : Ports)
    → has_bits (u8 (p.answer p.reads port)) mask ≡ false
    → wait_status (suc left) port mask p ≡ wait_status left port mask (port_in port p).1
unfolding wait_status port_in
wait_status-again left port mask p e = ground (arith, e)

pub wait_status-never :
    (left port mask : ℕ) (p : Ports)
    → ((k : ℕ) → has_bits (u8 (p.answer k port)) mask ≡ false)
    → (wait_status left port mask p).0 ≡ 0
wait_status-never zero port mask p never = unfold wait_status in refl
wait_status-never (suc left) port mask p never =
    ap (λ (r : ℕ × Ports). r.0) (wait_status-again left port mask p (never p.reads))
    ∙ wait_status-never left port mask (port_in port p).1 (unfold port_in in never)

-- A wait that runs out had only reads that were not ready.
pub wait_status-Starved :
    (left port : ℕ) (p : Ports)
    → (wait_status left port tx_ready p).0 ≡ 0
    → ((wait_status left port tx_ready p).1.reads ≡ p.reads + left)
      × Starved p.answer port p.reads left
unfolding port_in
wait_status-Starved zero port p e =
    (unfold wait_status in omega arith, λ k from to. absurd (omega (arith, from, to)))
wait_status-Starved (suc left) port p e =
    elim (Bool-cases (has_bits (u8 (p.answer p.reads port)) tx_ready)) [
      | inl found ↦ absurd (omega (arith, wait_status-found left port tx_ready p found, e))
      | inr missing ↦
          let again = wait_status-again left port tx_ready p missing in
          let (reads, later) =
            wait_status-Starved left port (port_in port p).1
              (sym (ap (λ (r : ℕ × Ports). r.0) again) ∙ e) in
          (
            ap (λ (r : ℕ × Ports). r.1.reads) again ∙ reads ∙ omega arith,
            λ k from to. elim (ℕ_discrete k p.reads) [
              | yes same ↦ ap (λ j. has_bits (u8 (p.answer j port)) tx_ready) same ∙ missing
              | no other ↦ later k (omega (arith, from, other)) (omega (arith, to))
            ],
          )
    ]

pub wait_status-ready :
    (left port mask : ℕ) (p : Ports)
    → ((k : ℕ) → has_bits (u8 (p.answer k port)) mask ≡ true)
    → (wait_status (suc left) port mask p).0 ≡ suc left
unfolding wait_status port_in
wait_status-ready left port mask p ready = ground (arith, ready p.reads)
