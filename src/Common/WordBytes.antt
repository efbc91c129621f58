-- ===== src/Common/WordBytes.antt =====
-- A 16-bit word and its two bytes.
use Prim.Native.Nat.{ℕ, zero, suc, ◌+◌, ◌*◌, ◌<◌, bit_or}
use mathlib.Core.Path.{◌≡◌, ◌∙◌}
use mathlib.Core.List.{[], ◌∷◌}
use native.Mathlib.Omega.{arith}
use pc98imebridge.Common.Lists.{get_or}
use pc98imebridge.Common.Words.{u8, ◌<<<◌, ◌>>>◌, Bytes, AreBytes}
use pc98imebridge.Common.Bits.{bit_or_fields}

pub word-join : (lo hi : ℕ) → lo < 256 → bit_or lo (hi <<< 8) ≡ lo + hi * 256
word-join lo hi h = bit_or_fields 8 lo hi h

pub word-split : (n : ℕ) → n < 65536 → bit_or (u8 n) (u8 (n >>> 8) <<< 8) ≡ n
word-split n h = word-join (u8 n) (u8 (n >>> 8)) (omega arith) ∙ omega arith

pub get_or-IsByte : (bytes : Bytes) (i : ℕ) → AreBytes bytes → get_or bytes i 0 < 256
get_or-IsByte [] i all = omega arith
get_or-IsByte (x ∷ xs) zero all = all.0
get_or-IsByte (x ∷ xs) (suc i) all = get_or-IsByte xs i all.1
