-- ===== src/Common/Bits.antt =====
-- Facts about `bit_and`, `bit_or` and `bit_xor` at variables: one equation for the lowest digit
-- of each, and from those the laws that shifts, masks and the CRC need.
use Prim.Native.Nat.{
  digits, bitwise, differ, bit_and, bit_and-bitwise, bit_or, bit_or-bitwise, bit_xor,
  bit_xor-bitwise, max, min, ◌<◌, ◌≤◌, ◌^◌, ◌%◌, ◌/◌, ◌*◌, ◌+◌, suc, zero, ℕ,
}
use mathlib.Core.Path.{◌≡◌, refl, sym, ap, ◌∙◌}
use native.Mathlib.Omega.{arith}
use native.Mathlib.Nat.{pow-suc}

module _ (at_end : ℕ → ℕ) (combine : ℕ → ℕ → ℕ) where
  -- Any two amounts of fuel that cover the first number give the same digits.
  digits_enough :
      (x y fuel more : ℕ)
      → x ≤ fuel
      → x ≤ more
      → digits at_end combine fuel x y ≡ digits at_end combine more x y
  digits_enough zero y zero zero h k = refl
  digits_enough zero y zero (suc more) h k = refl
  digits_enough zero y (suc fuel) zero h k = refl
  digits_enough zero y (suc fuel) (suc more) h k = refl
  digits_enough (suc x) y zero more h k = absurd (omega arith)
  digits_enough (suc x) y (suc fuel) zero h k = absurd (omega arith)
  digits_enough (suc x) y (suc fuel) (suc more) h k =
      ap (λ upper. upper * 2 + combine (suc x % 2) (y % 2))
        (digits_enough (suc x / 2) (y / 2) fuel more (omega arith) (omega arith))

  lowest_digit :
      (x y : ℕ) {low : ℕ}
      → combine (suc x % 2) (y % 2) ≡ low
      → bitwise at_end combine (suc x) y ≡ low + 2 * bitwise at_end combine (suc x / 2) (y / 2)
  lowest_digit x y e =
      ap (λ upper. upper * 2 + combine (suc x % 2) (y % 2))
        (digits_enough (suc x / 2) (y / 2) x (suc x / 2) (omega arith) (omega arith))
      ∙ omega (arith, e)

pub bit_and_step : (x y : ℕ) → bit_and x y ≡ min (x % 2) (y % 2) + 2 * bit_and (x / 2) (y / 2)
bit_and_step zero y = simp bit_and-bitwise (omega arith)
bit_and_step (suc x) y = simp bit_and-bitwise (lowest_digit (λ y. 0) min x y refl)

pub bit_or_step : (x y : ℕ) → bit_or x y ≡ max (x % 2) (y % 2) + 2 * bit_or (x / 2) (y / 2)
bit_or_step zero y = simp bit_or-bitwise (omega arith)
bit_or_step (suc x) y = simp bit_or-bitwise (lowest_digit (λ y. y) max x y refl)

differ_digits : (x y : ℕ) → x < 2 → y < 2 → differ x y ≡ (x + y) % 2
differ_digits zero y hx hy = omega arith
differ_digits (suc zero) zero hx hy = refl
differ_digits (suc zero) (suc zero) hx hy = refl
differ_digits (suc zero) (suc (suc y)) hx hy = absurd (omega arith)
differ_digits (suc (suc x)) y hx hy = absurd (omega arith)

pub bit_xor_step : (x y : ℕ) → bit_xor x y ≡ (x + y) % 2 + 2 * bit_xor (x / 2) (y / 2)
bit_xor_step zero y = simp bit_xor-bitwise (omega arith)
bit_xor_step (suc x) y = simp bit_xor-bitwise (
    lowest_digit (λ y. y) differ x y
      (differ_digits (suc x % 2) (y % 2) (omega arith) (omega arith) ∙ omega arith))

-- Two numbers are equal when their lowest digits and the rest are.
halves_eq : (x y : ℕ) → x / 2 ≡ y / 2 → x % 2 ≡ y % 2 → x ≡ y
halves_eq x y p q = omega arith

bit_xor_half : (a b : ℕ) → bit_xor a b / 2 ≡ bit_xor (a / 2) (b / 2)
bit_xor_half a b = omega (arith, bit_xor_step a b)

bit_xor_low : (a b : ℕ) → bit_xor a b % 2 ≡ (a + b) % 2
bit_xor_low a b = omega (arith, bit_xor_step a b)

bit_xor_cancel_below : (n a b : ℕ) → a ≤ n → b ≤ n → bit_xor (bit_xor a b) b ≡ a
bit_xor_cancel_below zero zero zero p q = refl
bit_xor_cancel_below zero (suc a) b p q = absurd (omega arith)
bit_xor_cancel_below zero zero (suc b) p q = absurd (omega arith)
bit_xor_cancel_below (suc n) a b p q =
    halves_eq _ _
      (bit_xor_half (bit_xor a b) b
        ∙ ap (λ t. bit_xor t (b / 2)) (bit_xor_half a b)
        ∙ bit_xor_cancel_below n (a / 2) (b / 2) (omega arith) (omega arith))
      (omega (arith, bit_xor_low (bit_xor a b) b, bit_xor_low a b))

-- Exclusive or with the same number twice changes nothing.
pub bit_xor_cancel : (a b : ℕ) → bit_xor (bit_xor a b) b ≡ a
bit_xor_cancel a b = bit_xor_cancel_below (a + b) a b (omega arith) (omega arith)

bit_xor_comm_below : (n a b : ℕ) → a ≤ n → b ≤ n → bit_xor a b ≡ bit_xor b a
bit_xor_comm_below zero zero zero p q = refl
bit_xor_comm_below zero (suc a) b p q = absurd (omega arith)
bit_xor_comm_below zero zero (suc b) p q = absurd (omega arith)
bit_xor_comm_below (suc n) a b p q = omega (
  arith,
  bit_xor_step a b,
  bit_xor_step b a,
  bit_xor_comm_below n (a / 2) (b / 2) (omega arith) (omega arith),
)

pub bit_xor_comm : (a b : ℕ) → bit_xor a b ≡ bit_xor b a
bit_xor_comm a b = bit_xor_comm_below (a + b) a b (omega arith) (omega arith)

pub bit_xor-injective_left : (a b c : ℕ) → bit_xor a c ≡ bit_xor b c → a ≡ b
bit_xor-injective_left a b c e =
    sym (bit_xor_cancel a c) ∙ ap (λ t. bit_xor t c) e ∙ bit_xor_cancel b c

pub bit_xor-injective_right : (a b c : ℕ) → bit_xor c a ≡ bit_xor c b → a ≡ b
bit_xor-injective_right a b c e =
    bit_xor-injective_left a b c (bit_xor_comm a c ∙ e ∙ bit_xor_comm c b)

two_pow_suc : (k : ℕ) → 2 ^ suc k ≡ 2 * 2 ^ k
two_pow_suc k = omega (arith, pow-suc 2 k)

-- Exclusive or does not leave the width.
pub bit_xor-lt : (k a b : ℕ) → a < 2 ^ k → b < 2 ^ k → bit_xor a b < 2 ^ k
bit_xor-lt zero zero zero p q = omega arith
bit_xor-lt zero (suc a) b p q = absurd (omega arith)
bit_xor-lt zero zero (suc b) p q = absurd (omega arith)
bit_xor-lt (suc k) a b p q = omega (
  arith,
  two_pow_suc k,
  bit_xor_step a b,
  bit_xor-lt k (a / 2) (b / 2) (omega (arith, two_pow_suc k)) (omega (arith, two_pow_suc k)),
)

bit_or-zero_below : (n a : ℕ) → a ≤ n → bit_or a 0 ≡ a
bit_or-zero_below n zero h = refl
bit_or-zero_below zero (suc a) h = absurd (omega arith)
bit_or-zero_below (suc n) (suc a) h =
    omega (arith, bit_or_step (suc a) 0, bit_or-zero_below n (suc a / 2) (omega arith))

zero-bit_or : (a : ℕ) → bit_or 0 a ≡ a
zero-bit_or a = simp bit_or-bitwise

-- `low | (high << k)` is a sum when `low` fits `k` bits.
pub bit_or_fields : (k r q : ℕ) → r < 2 ^ k → bit_or r (q * 2 ^ k) ≡ r + q * 2 ^ k
bit_or_fields zero zero q h = zero-bit_or (q * 1) ∙ omega arith
bit_or_fields zero (suc r) q h = absurd (omega arith)
bit_or_fields (suc k) r q h =
    let shift : q * 2 ^ suc k ≡ 2 * (q * 2 ^ k) = omega (arith, ap (λ t. q * t) (two_pow_suc k)) in
    let half : q * 2 ^ suc k / 2 ≡ q * 2 ^ k = omega arith in
    bit_or_step r (q * 2 ^ suc k)
    ∙ ap (λ t. max (r % 2) (q * 2 ^ suc k % 2) + 2 * t)
        (ap (bit_or (r / 2)) half ∙ bit_or_fields k (r / 2) q (omega (arith, two_pow_suc k)))
    ∙ omega arith

nothing_masked : (fuel x : ℕ) → x ≤ fuel → bit_and x 0 ≡ 0
nothing_masked fuel zero h = refl
nothing_masked zero (suc x) h = absurd (omega arith)
nothing_masked (suc fuel) (suc x) h =
    let upper = nothing_masked fuel (suc x / 2) (omega arith) in
    omega (bit_and_step (suc x) 0, upper, arith)

pub bit_and-one : (x : ℕ) → bit_and x 1 ≡ x % 2
bit_and-one x =
    let upper = nothing_masked (x / 2) (x / 2) (omega arith) in
    omega (upper, bit_and_step x 1, arith)

zero-bit_xor : (a : ℕ) → bit_xor 0 a ≡ a
zero-bit_xor a = simp bit_xor-bitwise

-- Exclusive or keeps a digit that only one of the numbers reaches.
pub le-bit_xor : (k a b : ℕ) → a < 2 ^ k → 2 ^ k ≤ b → 2 ^ k ≤ bit_xor a b
le-bit_xor zero zero b p q = omega (arith, zero-bit_xor b)
le-bit_xor zero (suc a) b p q = absurd (omega arith)
le-bit_xor (suc k) a b p q = omega (
  arith,
  two_pow_suc k,
  bit_xor_step a b,
  le-bit_xor k (a / 2) (b / 2) (omega (arith, two_pow_suc k)) (omega (arith, two_pow_suc k)),
)

-- A mask of seven ones is a remainder.
pub bit_and_127 : (a : ℕ) → bit_and a 127 ≡ a % 128
bit_and_127 a =
    let a1 = a / 2 in
    let a2 = a1 / 2 in
    let a3 = a2 / 2 in
    let a4 = a3 / 2 in
    let a5 = a4 / 2 in
    omega (
      arith,
      bit_and_step a 127,
      bit_and_step a1 63,
      bit_and_step a2 31,
      bit_and_step a3 15,
      bit_and_step a4 7,
      bit_and_step a5 3,
      bit_and-one (a5 / 2),
    )

bit_and-le_below : (n a b : ℕ) → b ≤ n → bit_and a b ≤ b
bit_and-le_below zero a zero h = omega (arith, nothing_masked a a (omega arith))
bit_and-le_below zero a (suc b) h = absurd (omega arith)
bit_and-le_below (suc n) a b h =
    omega (arith, bit_and_step a b, bit_and-le_below n (a / 2) (b / 2) (omega arith))

-- A masked word is no larger than the mask.
pub bit_and-le : (a b : ℕ) → bit_and a b ≤ b
bit_and-le a b = bit_and-le_below b a b (omega arith)

bit_or_comm_below : (n a b : ℕ) → a ≤ n → b ≤ n → bit_or a b ≡ bit_or b a
bit_or_comm_below zero zero zero p q = refl
bit_or_comm_below zero (suc a) b p q = absurd (omega arith)
bit_or_comm_below zero zero (suc b) p q = absurd (omega arith)
bit_or_comm_below (suc n) a b p q = omega (
  arith,
  bit_or_step a b,
  bit_or_step b a,
  bit_or_comm_below n (a / 2) (b / 2) (omega arith) (omega arith),
)

pub bit_or_comm : (a b : ℕ) → bit_or a b ≡ bit_or b a
bit_or_comm a b = bit_or_comm_below (a + b) a b (omega arith) (omega arith)
