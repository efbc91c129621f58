-- ===== src/Probes/ComStatus.antt =====
-- `main` of dos/pc98/com_status_probe.c. The delay between two samples is left out.
use pc98imebridge.Common.{
  ℕ, zero, suc, Option, none, some, [], ◌∷◌, ◌++◌, Bytes, codes, ◌==◌, if◌then◌else◌, has_bits,
}
use pc98imebridge.Dos.{Dos, int21, create_file, write_file, dos_print, hex_byte}
use pc98imebridge.Protocol.Kind
use pc98imebridge.Protocol.Packet.{build}
use pc98imebridge.Serial.Port.{port_in}
use pc98imebridge.Serial.Line.{Line, serial_open, serial_close, serial_write, with_ports}
use pc98imebridge.Serial.Settings.{load_config}
use pc98imebridge.Serial.Settings.File.{read_settings}

pub record Probe : Type 0 where
  pub dos : Dos
  pub log_handle : ℕ
  pub line : Line

abbrev pub no_log : ℕ
no_log = 0xffff

-- Where DOS refuses the file, the handle stays as it is.
unfoldable pub open_log : Probe → Probe
open_log p =
    let (ax, failed, d) = int21 (create_file (codes "Z:\\CSTAT.LOG")) p.dos in
    if failed then record p { dos = d } else record p { log_handle = ax; dos = d }

unfoldable pub write_log : Bytes → Probe → Probe
write_log text p =
    if p.log_handle == no_log
    then p
    else record p { dos = (int21 (write_file p.log_handle text) p.dos).2 }

unfoldable pub show : Bytes → Probe → Probe
show text p = record p { dos = dos_print text p.dos }

-- `data` is there when the status says so.
unfoldable pub status_line : ℕ → Option ℕ → Bytes
status_line status none = codes "STATUS=" ++ hex_byte status ++ codes "\r\n"
status_line status (some sample) =
    codes "STATUS=" ++ hex_byte status ++ codes " DATA=" ++ hex_byte sample ++ codes "\r\n"

-- One sample of the fixed ports.
unfoldable pub sample_ports : Line → ℕ × Option ℕ × Line
sample_ports line =
    let (status, p1) = port_in 0x132 line.ports in
    let (sample, p2) = port_in 0x130 p1 in
    if has_bits status 0x02
    then (status, some sample, with_ports line p2)
    else (status, none, with_ports line p1)

unfoldable pub sample_round : Probe → Probe
sample_round p =
    let (status, sample, line) = sample_ports p.line in
    write_log (status_line status sample)
      (show (status_line status sample) (record p { line = line }))

unfoldable pub sample_rounds : ℕ → Probe → Probe
sample_rounds zero p = p
sample_rounds (suc left) p = sample_rounds left (sample_round p)

abbrev pub probe_hello : Bytes
probe_hello = elim (build Kind.hello 1 (1 ∷ 1 ∷ b'C' ∷ b'P' ∷ b'9' ∷ b'3' ∷ b'2' ∷ 0 ∷ [])) [
  | none ↦ []
  | some packet ↦ packet
]

-- The status before anything is sent.
unfoldable pub first_status : Probe → Probe
first_status p =
    let (status, ports) = port_in 0x132 p.line.ports in
    let shown : Probe =
      show (codes "INITIAL STATUS=" ++ hex_byte status ++ codes "\r\n")
        (record p { line = with_ports p.line ports }) in
    write_log (status_line status none) (write_log (codes "INITIAL STATUS=") shown)

unfoldable pub send_hello : Probe → Probe
send_hello p =
    let (sent, line) = serial_write probe_hello p.line in
    let text : Bytes = if sent then codes "HELLO SENT\r\n" else codes "HELLO WRITE FAILED\r\n" in
    write_log text (show text (record p { line = line }))

-- Its exit code is 0. `reads` is how often DOS is asked for the next piece of IME98.CFG at most.
unfoldable pub com_status_probe : ℕ → Probe → Probe
com_status_probe reads p =
    let started : Probe = open_log (record p { log_handle = no_log }) in
    let greeted : Probe =
      show (codes "PC-98 RS-232C status probe\r\n")
        (write_log (codes "PC-98 RS-232C status probe\r\n") started) in
    let (settings, dos) = read_settings reads greeted.dos in
    let line : Line = record greeted.line {
      config = (load_config settings greeted.line.config).1;
    } in
    let sampled : Probe =
      sample_rounds 32
        (send_hello (first_status (record greeted { dos = dos; line = serial_open line }))) in
    write_log (codes "DONE\r\n")
      (show (codes "DONE\r\n") (record sampled { line = serial_close sampled.line }))
