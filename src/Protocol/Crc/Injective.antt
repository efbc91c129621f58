-- ===== src/Protocol/Crc/Injective.antt =====
-- The rounds of `ime_crc16` as functions of the running value and of the byte.
use pc98imebridge.Common.{
  ℕ, zero, suc, ◌/◌, ◌%◌, ◌<◌, ◌⊎◌, inl, inr, [], ◌∷◌, ◌++◌, Bytes, AreBytes, arith, ◌≡◌, ◌≢◌, sym,
  ◌∙◌, bit_xor,
}
use pc98imebridge.Common.Bits.{
  bit_and-one, bit_xor-injective_left, bit_xor-injective_right, bit_xor-lt, le-bit_xor,
}
use pc98imebridge.Protocol.Crc.{polynomial, crc_bit, crc_bits, crc_byte, crc_from, crc16}
use pc98imebridge.Protocol.Crc.Bounds.{crc_bit-lt, crc_byte-lt}

crc_bit_even : (crc : ℕ) → crc % 2 ≡ 0 → crc_bit crc ≡ crc / 2
unfolding crc_bit
crc_bit_even crc h = ground (arith, bit_and-one crc)

crc_bit_odd : (crc : ℕ) → crc % 2 ≡ 1 → crc_bit crc ≡ bit_xor (crc / 2) polynomial
unfolding crc_bit
crc_bit_odd crc h = ground (arith, bit_and-one crc)

parity : (n : ℕ) → (n % 2 ≡ 0) ⊎ (n % 2 ≡ 1)
parity n = omega arith

-- The polynomial has its top bit set, so the parity of the old value shows in the new one.
even_ne_odd : (a b : ℕ) → a < 65536 → b < 65536 → a % 2 ≡ 0 → b % 2 ≡ 1 → crc_bit a ≢ crc_bit b
even_ne_odd a b ha hb ea ob e =
    absurd (omega (arith, e, crc_bit_even a ea, crc_bit_odd b ob, le-bit_xor 15 (b / 2) polynomial))

crc_bit-injective : (a b : ℕ) → a < 65536 → b < 65536 → crc_bit a ≡ crc_bit b → a ≡ b
crc_bit-injective a b ha hb e = elim (parity a) [
  | inl ea ↦ elim (parity b) [
    | inl eb ↦ omega (arith, e, crc_bit_even a ea, crc_bit_even b eb)
    | inr ob ↦ absurd (even_ne_odd a b ha hb ea ob e)
  ]
  | inr oa ↦ elim (parity b) [
    | inl eb ↦ absurd (even_ne_odd b a hb ha eb oa (sym e))
    | inr ob ↦ omega (
      arith,
      bit_xor-injective_left (a / 2) (b / 2) polynomial
          (sym (crc_bit_odd a oa) ∙ e ∙ crc_bit_odd b ob),
    )
  ]
]

crc_bits-injective :
    (left a b : ℕ) → a < 65536 → b < 65536 → crc_bits left a ≡ crc_bits left b → a ≡ b
unfolding crc_bits
crc_bits-injective zero a b ha hb e = e
crc_bits-injective (suc left) a b ha hb e =
    crc_bit-injective a b ha hb
      (crc_bits-injective left (crc_bit a) (crc_bit b) (crc_bit-lt a ha) (crc_bit-lt b hb) e)

crc_byte-injective_left :
    (a b byte : ℕ) → a < 65536 → b < 65536 → byte < 256 → crc_byte a byte ≡ crc_byte b byte → a ≡ b
unfolding crc_byte
crc_byte-injective_left a b byte ha hb hx e = bit_xor-injective_left a b byte (
    crc_bits-injective 8 _ _ (bit_xor-lt 16 a byte ha (omega arith))
      (bit_xor-lt 16 b byte hb (omega arith)) e)

crc_byte-injective_right :
    (crc x y : ℕ) → crc < 65536 → x < 256 → y < 256 → crc_byte crc x ≡ crc_byte crc y → x ≡ y
unfolding crc_byte
crc_byte-injective_right crc x y hc hx hy e = bit_xor-injective_right x y crc (
    crc_bits-injective 8 _ _ (bit_xor-lt 16 crc x hc (omega arith))
      (bit_xor-lt 16 crc y hc (omega arith)) e)

-- Different running values stay different over the same bytes.
pub crc_from-injective :
    (a b : ℕ) (bytes : Bytes)
    → a < 65536
    → b < 65536
    → AreBytes bytes
    → crc_from a bytes ≡ crc_from b bytes
    → a ≡ b
unfolding crc_from
crc_from-injective a b [] ha hb all e = e
crc_from-injective a b (x ∷ bytes) ha hb all e = crc_byte-injective_left a b x ha hb all.0 (
    crc_from-injective (crc_byte a x) (crc_byte b x) bytes (crc_byte-lt a x ha all.0)
      (crc_byte-lt b x hb all.0) all.1 e)

-- One changed byte changes the checksum, wherever it stands.
pub crc_from-changed :
    (crc : ℕ) (pre post : Bytes) (x y : ℕ)
    → crc < 65536
    → AreBytes pre
    → AreBytes post
    → x < 256
    → y < 256
    → x ≢ y
    → crc_from crc (pre ++ x ∷ post) ≢ crc_from crc (pre ++ y ∷ post)
unfolding crc_from
crc_from-changed crc [] post x y hc hp hq hx hy ne e = ne (
    crc_byte-injective_right crc x y hc hx hy (
      crc_from-injective (crc_byte crc x) (crc_byte crc y) post (crc_byte-lt crc x hc hx)
        (crc_byte-lt crc y hc hy) hq e))
crc_from-changed crc (z ∷ pre) post x y hc hp hq hx hy ne e =
    crc_from-changed (crc_byte crc z) pre post x y (crc_byte-lt crc z hc hp.0) hp.1 hq hx hy ne e

-- Two inputs of bytes that differ in exactly one place have different checksums.
pub crc16-changed :
    (pre post : Bytes) (x y : ℕ)
    → AreBytes pre
    → AreBytes post
    → x < 256
    → y < 256
    → x ≢ y
    → crc16 (pre ++ x ∷ post) ≢ crc16 (pre ++ y ∷ post)
unfolding crc16
crc16-changed pre post x y = crc_from-changed _ pre post x y (omega arith)
