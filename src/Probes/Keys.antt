-- ===== src/Probes/Keys.antt =====
-- `main` of dos/pc98/key_probe.c.
use pc98imebridge.Common.{
  ℕ, Bool, true, false, ◌&&◌, List, [], ◌∷◌, ◌++◌, Bytes, codes, ◌==◌, if◌then◌else◌, u8, ◌>>>◌,
  has_bits,
}
use pc98imebridge.Dos.{Dos, dos_print, hex_byte}

-- What INT 18h answers in one round: BX of AH = 01h, and AX and BX of AH = 07h when that is called.
pub record Poll : Type 0 where
  pub waiting : ℕ
  pub key_ax : ℕ
  pub key_bx : ℕ

abbrev pub key_of : Poll → ℕ
key_of poll = u8 poll.key_ax

abbrev pub scan_of : Poll → ℕ
scan_of poll = u8 (poll.key_ax >>> 8)

abbrev pub modifiers_of : Poll → ℕ
modifiers_of poll = u8 poll.key_bx

unfoldable pub key_line : Poll → Bytes
key_line poll =
    codes "JIS="
    ++ hex_byte (key_of poll)
    ++ codes " SCAN="
    ++ hex_byte (scan_of poll)
    ++ codes " MOD="
    ++ hex_byte (modifiers_of poll)
    ++ (if key_of poll == 0x20 && has_bits (modifiers_of poll) 0x01
        then codes " SHIFT+SPACE DETECTED"
        else [])
    ++ codes "\r\n"

-- The loop over the rounds to come; `true` once Esc has ended it.
unfoldable pub probe_rounds : List Poll → Dos → Bool × Dos
probe_rounds [] d = (false, d)
probe_rounds (poll ∷ polls) d =
    let shown : Dos = dos_print (key_line poll) d in
    let skipped = probe_rounds polls d in
    let later = probe_rounds polls shown in
    if poll.waiting == 0 then skipped else (if key_of poll == 0x1b then (true, shown) else later)

unfoldable pub key_probe : List Poll → Dos → Bool × Dos
key_probe polls d =
    probe_rounds polls (dos_print (codes "PC-98 key probe: press Shift+Space; Esc exits\r\n") d)
