-- ===== src/Serial/Debug/Output.antt =====
-- What `pc98_debug_write` of dos/pc98/debug_serial_pc98.c puts out.
use mathlib.Core.List.{map}
use pc98imebridge.Common.{
  ℕ, zero, suc, ◌≡◌, sym, ap, ◌∙◌, inl, inr, [], ◌∷◌, ◌++◌, Bytes, u8, take, append_assoc,
  append-nil, ◌==◌, if◌then◌else◌, Bool-cases,
}
use pc98imebridge.Serial.Port.{Ports, port_out}
use pc98imebridge.Serial.Debug.{debug_data_port, write_within, debug_write}

-- The text as C sees it.
unfoldable pub until_zero : Bytes → Bytes
until_zero [] = []
until_zero (c ∷ text) = let rest = until_zero text in if c == 0 then [] else c ∷ rest

abbrev pub to_debug : ℕ → ℕ × ℕ
to_debug c = (debug_data_port, u8 c)

write_within-writes :
    (budget : ℕ) (text : Bytes) (p : Ports)
    → write_within budget text p
      ≡ record p { writes = p.writes ++ map to_debug (take budget (until_zero text)) }
unfolding write_within until_zero port_out
write_within-writes zero [] p = ap (λ w. record p { writes = w }) (sym (append-nil p.writes))
write_within-writes (suc budget) [] p =
    ap (λ w. record p { writes = w }) (sym (append-nil p.writes))
write_within-writes zero (c ∷ text) p =
    ap (λ w. record p { writes = w }) (sym (append-nil p.writes))
write_within-writes (suc budget) (c ∷ text) p = elim (Bool-cases (c == 0)) [
  | inl ended ↦ rw ended (ap (λ w. record p { writes = w }) (sym (append-nil p.writes)))
  | inr more ↦ rw more (
      write_within-writes budget text (port_out debug_data_port c p)
      ∙ ap (λ w. record p { writes = w })
          (append_assoc p.writes (to_debug c ∷ []) (map to_debug (take budget (until_zero text)))))
]

-- A string is put out up to its end or its 128th character, in order on the data port, and nothing else
-- is read or written.
pub debug_write-writes :
    (text : Bytes) (p : Ports)
    → debug_write text p
      ≡ record p { writes = p.writes ++ map to_debug (take 128 (until_zero text)) }
unfolding debug_write
debug_write-writes text p = write_within-writes 128 text p
