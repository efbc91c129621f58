-- ===== src/Resident/Diagnostics.antt =====
-- `log_transport_diagnostics` of dos/pc98/foreground.c.
pub mod Quiet
use pc98imebridge.Common.{ℕ, List, [], ◌∷◌, ◌++◌, Bytes, codes}
use pc98imebridge.Serial.Line.{Line, serial_status, serial_system_port, serial_pic_mask, with_ports}
use pc98imebridge.Serial.Debug.{debug_write, debug_write_hex_byte, debug_write_hex_word}
use pc98imebridge.Resident.State.{Resident}

-- The counters of the interrupt wrappers, and what dos/pc98/tsr_hook.S tells of the INT 08h vector.
pub record Counters : Type 0 where
  pub input_hook_count : ℕ
  pub input_ah00_count : ℕ
  pub input_ah01_count : ℕ
  pub input_ah02_count : ℕ
  pub input_ah05_count : ℕ
  pub input_other_count : ℕ
  pub timer_hook_count : ℕ
  pub timer_worker_count : ℕ
  pub timer_vector_segment : ℕ
  pub timer_vector_offset : ℕ
  pub code_segment : ℕ
  pub timer_hook_offset : ℕ

unfoldable pub tell_byte : Bytes → ℕ → Line → Line
tell_byte label value line =
    with_ports line (debug_write_hex_byte value (debug_write label line.ports))

unfoldable pub tell_words : List (Bytes × ℕ) → Line → Line
tell_words [] line = line
tell_words (entry ∷ entries) line =
    tell_words entries
      (with_ports line (debug_write_hex_word entry.1 (debug_write entry.0 line.ports)))

-- The labels and values behind the three ports.
abbrev pub diagnostic_words : Counters → Resident → List (Bytes × ℕ)
diagnostic_words counters s =
    (codes "TSR DIAG IRQ ENTRY ", s.captured.entry_count)
    ∷ (codes "TSR DIAG IRQ RXRDY ", s.captured.rx_ready_count)
    ∷ (codes "TSR DIAG IRQ STORED ", s.captured.stored_count)
    ∷ (codes "TSR DIAG POLL READ ", s.direct_poll_reads)
    ∷ (codes "TSR DIAG INT18 HOOK ", counters.input_hook_count)
    ∷ (codes "TSR DIAG INT18 AH00 ", counters.input_ah00_count)
    ∷ (codes "TSR DIAG INT18 AH01 ", counters.input_ah01_count)
    ∷ (codes "TSR DIAG INT18 AH02 ", counters.input_ah02_count)
    ∷ (codes "TSR DIAG INT18 AH05 ", counters.input_ah05_count)
    ∷ (codes "TSR DIAG INT18 OTHER ", counters.input_other_count)
    ∷ (codes "TSR DIAG INT08 HOOK ", counters.timer_hook_count)
    ∷ (codes "TSR DIAG INT08 WORKER ", counters.timer_worker_count)
    ∷ (codes "TSR DIAG INT08 VECTOR SEG ", counters.timer_vector_segment)
    ∷ (codes "TSR DIAG INT08 VECTOR OFF ", counters.timer_vector_offset)
    ∷ (codes "TSR DIAG INT08 EXPECT SEG ", counters.code_segment)
    ∷ (codes "TSR DIAG INT08 EXPECT OFF ", counters.timer_hook_offset)
    ∷ []

unfoldable pub log_transport_diagnostics : Counters → Resident → Resident
log_transport_diagnostics counters s =
    let (status, line1) = serial_status s.line in
    let told1 : Line = tell_byte (codes "TSR DIAG STATUS32 ") status line1 in
    let (system_port, line2) = serial_system_port told1 in
    let told2 : Line = tell_byte (codes "TSR DIAG SYSPORT35 ") system_port line2 in
    let (pic_mask, line3) = serial_pic_mask told2 in
    let told3 : Line = tell_byte (codes "TSR DIAG PICMASK02 ") pic_mask line3 in
    record s { line = tell_words (diagnostic_words counters s) told3 }
