-- ===== src/Resident/Diagnostics/Quiet.antt =====
-- The diagnostics of dos/pc98/foreground.c beside the state that the worker acts on.
use mathlib.Core.List.{map}
use pc98imebridge.Common.{
  ℕ, ◌≡◌, refl, sym, ap, ◌∙◌, List, [], ◌∷◌, ◌++◌, Bytes, take, append-nil, append_assoc,
}
use pc98imebridge.Serial.Port.{Ports, port_in, port_out}
use pc98imebridge.Serial.Line.{Line, with_ports, serial_status, serial_system_port, serial_pic_mask}
use pc98imebridge.Serial.Debug.{
  debug_write, debug_write_hex_byte, debug_write_hex_word, write_all, debug_data_port,
}
use pc98imebridge.Serial.Debug.Output.{to_debug, until_zero, debug_write-writes}
use pc98imebridge.Resident.State.{Resident}
use pc98imebridge.Resident.Diagnostics.{Counters, tell_byte, tell_words, log_transport_diagnostics}

-- The line is as before but for its ports, and only the data port of the debug output was written.
pub record OnlyTells (before after : Line) : Type 0 where
  pub told : Bytes
  pub writes_are : after.ports.writes ≡ before.ports.writes ++ map to_debug told
  pub rest : with_ports after before.ports ≡ before

nothing_told : (line : Line) → OnlyTells line line
nothing_told line = record { told = []; writes_are = sym (append-nil _); rest = refl }

map-append : (xs ys : Bytes) → map to_debug (xs ++ ys) ≡ map to_debug xs ++ map to_debug ys
map-append [] ys = refl
map-append (x ∷ xs) ys = ap (◌∷◌ (to_debug x)) (map-append xs ys)

OnlyTells-trans : {a b c : Line} → OnlyTells a b → OnlyTells b c → OnlyTells a c
OnlyTells-trans {a} {b} {c} v w = record {
  told = v.told ++ w.told;
  writes_are =
      w.writes_are
      ∙ ap (λ writes. writes ++ map to_debug w.told) v.writes_are
      ∙ append_assoc a.ports.writes (map to_debug v.told) (map to_debug w.told)
      ∙ ap (λ told. a.ports.writes ++ told) (sym (map-append v.told w.told));
  rest = ap (λ line. with_ports line a.ports) w.rest ∙ v.rest;
}

port_in-OnlyTells :
    (port : ℕ) (line : Line) → OnlyTells line (with_ports line (port_in port line.ports).1)
unfolding port_in
port_in-OnlyTells port line = record { told = []; writes_are = sym (append-nil _); rest = refl }

debug_write-OnlyTells :
    (text : Bytes) (line : Line) → OnlyTells line (with_ports line (debug_write text line.ports))
debug_write-OnlyTells text line = record {
  told = take 128 (until_zero text);
  writes_are = ap (λ (p : Ports). p.writes) (debug_write-writes text line.ports);
  rest = refl;
}

write_all-writes :
    (bytes : Bytes) (p : Ports) → (write_all bytes p).writes ≡ p.writes ++ map to_debug bytes
unfolding write_all port_out
write_all-writes [] p = sym (append-nil p.writes)
write_all-writes (c ∷ bytes) p =
    write_all-writes bytes (port_out debug_data_port c p)
    ∙ append_assoc p.writes (to_debug c ∷ []) (map to_debug bytes)

write_all-OnlyTells :
    (bytes : Bytes) (line : Line) → OnlyTells line (with_ports line (write_all bytes line.ports))
write_all-OnlyTells bytes line = record {
  told = bytes;
  writes_are = write_all-writes bytes line.ports;
  rest = refl;
}

tell_byte-OnlyTells :
    (label : Bytes) (value : ℕ) (line : Line) → OnlyTells line (tell_byte label value line)
unfolding tell_byte debug_write_hex_byte
tell_byte-OnlyTells label value line =
    OnlyTells-trans (debug_write-OnlyTells label line) (write_all-OnlyTells _ _)

tell_words-OnlyTells :
    (entries : List (Bytes × ℕ)) (line : Line) → OnlyTells line (tell_words entries line)
unfolding tell_words debug_write_hex_word
tell_words-OnlyTells [] line = nothing_told line
tell_words-OnlyTells (entry ∷ entries) line =
    OnlyTells-trans (OnlyTells-trans (debug_write-OnlyTells entry.0 line) (write_all-OnlyTells _ _))
      (tell_words-OnlyTells entries _)

-- The diagnostics read ports and write to the data port of the debug output; of the worker's state they
-- change nothing.
pub log_transport_diagnostics-OnlyTells :
    (counters : Counters) (s : Resident)
    → OnlyTells s.line (log_transport_diagnostics counters s).line
      × (record (log_transport_diagnostics counters s) { line = s.line } ≡ s)
unfolding log_transport_diagnostics serial_status serial_system_port serial_pic_mask
log_transport_diagnostics-OnlyTells counters s = (
  OnlyTells-trans (port_in-OnlyTells s.line.config.status_port s.line) (
      OnlyTells-trans (tell_byte-OnlyTells _ _ _) (
        OnlyTells-trans (port_in-OnlyTells 0x0035 _) (
          OnlyTells-trans (tell_byte-OnlyTells _ _ _) (
            OnlyTells-trans (port_in-OnlyTells 0x0002 _)
              (OnlyTells-trans (tell_byte-OnlyTells _ _ _) (tell_words-OnlyTells _ _)))))),
  refl,
)
