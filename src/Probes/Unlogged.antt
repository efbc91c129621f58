-- ===== src/Probes/Unlogged.antt =====
-- What dos/pc98/com_status_probe.c does without its log.
use pc98imebridge.Common.{
  ℕ, zero, suc, ◌≡◌, refl, sym, ap, subst, ◌∙◌, true, Option, List, [], ◌∷◌, ◌++◌, Bytes, codes,
  append-nil, append_assoc, arith, All, All-append, either, length, ◌==◌,
}
use pc98imebridge.Serial.Settings.File.{
  settings_name, read_size, dos_read, read_pieces, read_settings,
}
use pc98imebridge.Dos.{
  Call, put_char, create_file, open_file, close_file, write_file, read_file, ioctl_write,
  ioctl_read, Dos, int21, dos_print,
}
use pc98imebridge.Serial.Line.{Line}
use pc98imebridge.Probes.ComStatus.{
  Probe, no_log, open_log, write_log, show, sample_round, sample_rounds, first_status, send_hello,
  com_status_probe,
}

-- A character on the screen, or a call of the reading of IME98.CFG.
unfoldable pub IsQuiet : Call → Type 0
IsQuiet (put_char c) = Unit
IsQuiet (create_file name) = ⊥
IsQuiet (open_file mode name) = (mode ≡ 0) × (name ≡ settings_name)
IsQuiet (close_file h) = Unit
IsQuiet (write_file h bytes) = ⊥
IsQuiet (read_file h count) = Unit
IsQuiet (ioctl_write h bytes) = ⊥
IsQuiet (ioctl_read h count) = ⊥

-- What a list of calls has behind those of before is quiet.
pub record Quiet (before calls : List Call) : Type 0 where
  pub later : List Call
  pub all_quiet : All IsQuiet later
  pub calls_are : calls ≡ before ++ later

-- There is no log, and the calls behind those of before are quiet.
pub record OnlyShows (before : List Call) (p : Probe) : Type 0 where
  pub unlogged : p.log_handle ≡ no_log
  pub quiet : Quiet before p.dos.calls

module _ {before : List Call} where
  int21-Quiet :
      (call : Call) (d : Dos)
      → IsQuiet call
      → Quiet before d.calls
      → Quiet before (int21 call d).2.calls
  unfolding int21
  int21-Quiet call d v q = record {
    later = q.later ++ call ∷ [];
    all_quiet = All-append IsQuiet q.later (call ∷ []) q.all_quiet (v, tt);
    calls_are =
        ap (λ calls. calls ++ call ∷ []) q.calls_are ∙ append_assoc before q.later (call ∷ []);
  }

  dos_print-Quiet :
      (text : Bytes) (d : Dos) → Quiet before d.calls → Quiet before (dos_print text d).calls
  unfolding dos_print IsQuiet
  dos_print-Quiet [] d q = q
  dos_print-Quiet (c ∷ text) d q =
      dos_print-Quiet text (int21 (put_char c) d).2 (int21-Quiet (put_char c) d tt q)

  read_pieces-Quiet :
      (left handle : ℕ) (d : Dos)
      → Quiet before d.calls
      → Quiet before (read_pieces left handle d).1.calls
  unfolding read_pieces dos_read IsQuiet
  read_pieces-Quiet zero handle d q = q
  read_pieces-Quiet (suc left) handle d q =
      let q1 = int21-Quiet (read_file handle read_size) d tt q in
      let d1 : Dos = (dos_read handle read_size d).1 in
      either (λ (r : List Bytes × Dos). Quiet before r.1.calls)
        (length (dos_read handle read_size d).0 == 0) _ _ (λ _. q1)
        (λ _. read_pieces-Quiet left handle d1 q1)

  read_settings-Quiet :
      (reads : ℕ) (d : Dos) → Quiet before d.calls → Quiet before (read_settings reads d).1.calls
  unfolding read_settings IsQuiet
  read_settings-Quiet reads d q =
      let opened : Dos = (int21 (open_file 0 settings_name) d).2 in
      let handle : ℕ = (int21 (open_file 0 settings_name) d).0 in
      let q1 = int21-Quiet (open_file 0 settings_name) d (refl, refl) q in
      either (λ (r : Option (List Bytes) × Dos). Quiet before r.1.calls)
        (int21 (open_file 0 settings_name) d).1 _ _ (λ _. q1)
        (λ _. int21-Quiet (close_file handle) _ tt (read_pieces-Quiet reads handle opened q1))

  show-OnlyShows : (text : Bytes) {p : Probe} → OnlyShows before p → OnlyShows before (show text p)
  unfolding show
  show-OnlyShows text {p} v = record {
    unlogged = v.unlogged;
    quiet = dos_print-Quiet text p.dos v.quiet;
  }

  write_log-OnlyShows :
      (text : Bytes) {p : Probe} → OnlyShows before p → OnlyShows before (write_log text p)
  unfolding write_log
  write_log-OnlyShows text {p} v =
      let skipped : write_log text p ≡ p = ground (arith, v.unlogged) in
      subst (OnlyShows before) (sym skipped) v

  line-OnlyShows :
      (line : Line) {p : Probe} → OnlyShows before p → OnlyShows before (record p { line = line })
  line-OnlyShows line v = record { unlogged = v.unlogged; quiet = v.quiet }

  read_settings-OnlyShows :
      (reads : ℕ) {p : Probe}
      → OnlyShows before p
      → OnlyShows before (record p { dos = (read_settings reads p.dos).1 })
  read_settings-OnlyShows reads {p} v = record {
    unlogged = v.unlogged;
    quiet = read_settings-Quiet reads p.dos v.quiet;
  }

  sample_rounds-OnlyShows :
      (n : ℕ) {p : Probe} → OnlyShows before p → OnlyShows before (sample_rounds n p)
  unfolding sample_rounds sample_round
  sample_rounds-OnlyShows zero v = v
  sample_rounds-OnlyShows (suc n) v =
      sample_rounds-OnlyShows n (write_log-OnlyShows _ (show-OnlyShows _ (line-OnlyShows _ v)))

  first_status-OnlyShows : {p : Probe} → OnlyShows before p → OnlyShows before (first_status p)
  unfolding first_status
  first_status-OnlyShows v =
      write_log-OnlyShows _ (write_log-OnlyShows _ (show-OnlyShows _ (line-OnlyShows _ v)))

  send_hello-OnlyShows : {p : Probe} → OnlyShows before p → OnlyShows before (send_hello p)
  unfolding send_hello
  send_hello-OnlyShows v = write_log-OnlyShows _ (show-OnlyShows _ (line-OnlyShows _ v))

abbrev pub log_name : Bytes
log_name = codes "Z:\\CSTAT.LOG"

refused_log :
    (p : Probe)
    → (int21 (create_file log_name) p.dos).1 ≡ true
    → OnlyShows
        (p.dos.calls ++ create_file log_name ∷ [])
        (open_log (record p { log_handle = no_log }))
unfolding open_log int21
refused_log p refused = rw refused (record {
  unlogged = refl;
  quiet = record { later = []; all_quiet = tt; calls_are = sym (append-nil _) };
})

-- When DOS refuses the log file, the status probe asks DOS for nothing but characters on the screen
-- and the settings file: nothing is written to any handle.
pub com_status_probe-OnlyShows :
    (reads : ℕ) (p : Probe)
    → (int21 (create_file log_name) p.dos).1 ≡ true
    → OnlyShows (p.dos.calls ++ create_file log_name ∷ []) (com_status_probe reads p)
unfolding com_status_probe
com_status_probe-OnlyShows reads p refused =
    let greeted = show-OnlyShows _ (write_log-OnlyShows _ (refused_log p refused)) in
    let opened =
      first_status-OnlyShows (line-OnlyShows _ (read_settings-OnlyShows reads greeted)) in
    write_log-OnlyShows _ (
      show-OnlyShows _
        (line-OnlyShows _ (sample_rounds-OnlyShows 32 (send_hello-OnlyShows opened))))
