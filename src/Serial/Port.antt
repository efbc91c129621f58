-- ===== src/Serial/Port.antt =====
-- `port_in` and `port_out`, which dos/pc98/serial_pc98.c and the files beside it each define.
use pc98imebridge.Common.{ℕ, ◌+◌, List, [], ◌∷◌, ◌++◌, u8}

-- The machine behind the ports. What a read returns is not ours to say: `answer` gives it for each
-- read instruction, counted from the start, and port. The writes are kept in order.
pub record Ports : Type 0 where
  pub answer : ℕ → ℕ → ℕ
  pub reads : ℕ
  pub writes : List (ℕ × ℕ)

unfoldable pub port_in : ℕ → Ports → ℕ × Ports
port_in port p = (u8 (p.answer p.reads port), record p { reads = p.reads + 1 })

unfoldable pub port_out : ℕ → ℕ → Ports → Ports
port_out port value p = record p { writes = p.writes ++ (port, u8 value) ∷ [] }
