-- ===== src/Serial/Settings/Hex.antt =====
-- The digits that the programs print, read by `parse_hex` of dos/pc98/serial_pc98.c.
use pc98imebridge.Common.{
  ℕ, zero, suc, ◌+◌, ◌*◌, ◌<◌, ◌%◌, ◌/◌, ◌≡◌, refl, ap, ◌∙◌, false, some, [], ◌∷◌, Bytes, u16,
  ◌<<<◌, bit_or, bit_and, ◌==◌, arith,
}
use pc98imebridge.Common.Bits.{bit_or_comm, bit_or_fields, bit_and_step, bit_and-one}
use pc98imebridge.Dos.{hex_digit, hex_word}
use pc98imebridge.Serial.Settings.{is_blank, skip_blanks, hex_value, hex_loop, parse_hex}

hex_value-digit :
    (d : ℕ)
    → d < 16
    → (hex_value (hex_digit d) ≡ d)
      × (is_blank (hex_digit d) ≡ false)
      × ((hex_digit d == b'x') ≡ false)
      × ((hex_digit d == b'X') ≡ false)
unfolding hex_value
hex_value-digit zero below = (refl, refl, refl, refl)
hex_value-digit (suc zero) below = (refl, refl, refl, refl)
hex_value-digit (suc (suc zero)) below = (refl, refl, refl, refl)
hex_value-digit (suc (suc (suc zero))) below = (refl, refl, refl, refl)
hex_value-digit (suc (suc (suc (suc zero)))) below = (refl, refl, refl, refl)
hex_value-digit (suc (suc (suc (suc (suc zero))))) below = (refl, refl, refl, refl)
hex_value-digit (suc (suc (suc (suc (suc (suc zero)))))) below = (refl, refl, refl, refl)
hex_value-digit (suc (suc (suc (suc (suc (suc (suc zero))))))) below = (refl, refl, refl, refl)
hex_value-digit (suc (suc (suc (suc (suc (suc (suc (suc zero)))))))) below =
    (refl, refl, refl, refl)
hex_value-digit (suc (suc (suc (suc (suc (suc (suc (suc (suc zero))))))))) below =
    (refl, refl, refl, refl)
hex_value-digit (suc (suc (suc (suc (suc (suc (suc (suc (suc (suc zero)))))))))) below =
    (refl, refl, refl, refl)
hex_value-digit (suc (suc (suc (suc (suc (suc (suc (suc (suc (suc (suc zero))))))))))) below =
    (refl, refl, refl, refl)
hex_value-digit (suc (suc (suc (suc (suc (suc (suc (suc (suc (suc (suc (suc zero)))))))))))) below =
    (refl, refl, refl, refl)
hex_value-digit (suc (suc (suc (suc (suc (suc (suc (suc (suc (suc (suc (suc (suc zero)))))))))))))
      below =
    (refl, refl, refl, refl)
hex_value-digit
      (suc (suc (suc (suc (suc (suc (suc (suc (suc (suc (suc (suc (suc (suc zero))))))))))))))
      below =
    (refl, refl, refl, refl)
hex_value-digit
      (suc (suc (suc (suc (suc (suc (suc (suc (suc (suc (suc (suc (suc (suc (suc zero)))))))))))))))
      below =
    (refl, refl, refl, refl)
hex_value-digit
      (suc
        (suc (suc (suc (suc (suc (suc (suc (suc (suc (suc (suc (suc (suc (suc (suc d))))))))))))))))
      below =
    absurd (omega arith)

shifted : (result d : ℕ) → d < 16 → bit_or (result <<< 4) d ≡ d + result * 16
shifted result d below = bit_or_comm (result <<< 4) d ∙ bit_or_fields 4 d result below

hex_loop-digit :
    (d : ℕ) (text : Bytes) (result count : ℕ)
    → d < 16
    → count < 4
    → hex_loop (hex_digit d ∷ text) result count ≡ hex_loop text (u16 (d + result * 16)) (count + 1)
unfolding hex_loop
hex_loop-digit d text result count below more =
    ground (arith, (hex_value-digit d below).0, shifted result d below)

bit_and_15 : (a : ℕ) → bit_and a 0x0f ≡ a % 16
bit_and_15 a = omega (
  arith,
  bit_and_step a 15,
  bit_and_step (a / 2) 7,
  bit_and_step (a / 2 / 2) 3,
  bit_and-one (a / 2 / 2 / 2),
)

-- The digits of a word in order, four bits each.
hex_word_lem :
    (value : ℕ)
    → value < 65536
    → hex_word value
      ≡ hex_digit (value / 4096)
        ∷ hex_digit (value / 256 % 16)
        ∷ hex_digit (value / 16 % 16)
        ∷ hex_digit (value % 16)
        ∷ []
unfolding hex_word
hex_word_lem value below =
    let first : value / 4096 % 16 ≡ value / 4096 = omega arith in
    rw (bit_and_15 (value / 4096)) (
      rw (bit_and_15 (value / 256))
        (rw (bit_and_15 (value / 16)) (rw (bit_and_15 value) (rw first refl))))

hex_loop-end : (result count : ℕ) → hex_loop [] result count ≡ (result, count)
unfolding hex_loop
hex_loop-end result count = refl

hex_loop-digits :
    (d c b a : ℕ)
    → d < 16
    → c < 16
    → b < 16
    → a < 16
    → hex_loop (hex_digit d ∷ hex_digit c ∷ hex_digit b ∷ hex_digit a ∷ []) 0 0
      ≡ (a + 16 * (b + 16 * (c + 16 * d)), 4)
hex_loop-digits d c b a hd hc hb ha =
    hex_loop-digit d (hex_digit c ∷ hex_digit b ∷ hex_digit a ∷ []) 0 0 hd (omega arith)
    ∙ hex_loop-digit c (hex_digit b ∷ hex_digit a ∷ []) _ 1 hc (omega arith)
    ∙ hex_loop-digit b (hex_digit a ∷ []) _ 2 hb (omega arith)
    ∙ hex_loop-digit a [] _ 3 ha (omega arith)
    ∙ hex_loop-end _ 4
    ∙ ap (λ n. (n, 4)) (omega arith)

-- Every word of 16 bits that is printed in four digits is read back as itself.
pub parse_hex-hex_word : (value : ℕ) → value < 65536 → parse_hex (hex_word value) ≡ some value
unfolding parse_hex skip_blanks
parse_hex-hex_word value below =
    let high : value / 4096 < 16 = omega arith in
    let (d1, not_blank, d3, d4) = hex_value-digit (value / 4096) high in
    let (c1, c2, not_x, not_upper_x) = hex_value-digit (value / 256 % 16) (omega arith) in
    let read =
      hex_loop-digits (value / 4096) (value / 256 % 16) (value / 16 % 16) (value % 16) high
        (omega arith) (omega arith) (omega arith) in
    rw (hex_word_lem value below) (ground (arith, not_blank, not_x, not_upper_x, read))
