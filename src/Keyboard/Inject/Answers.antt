-- ===== src/Keyboard/Inject/Answers.antt =====
-- What the verdict of `pc98_bios_inject_verify` says of what INT 18h returned, whatever that is.
use pc98imebridge.Common.{
  ℕ, zero, suc, ◌+◌, ◌≤◌, ◌<◌, ◌≡◌, ◌≢◌, refl, ap, ◌∙◌, ◌⊎◌, inl, inr, true, false, List, [], ◌∷◌,
  Bytes, AreBytes, length, drop, has_bits, Bool-cases, dec_lt, ℕ_discrete, arith,
}
use pc98imebridge.Keyboard.Memory.{Memory}
use pc98imebridge.Keyboard.Encode.{encode_key}
use pc98imebridge.Keyboard.Encode.Keys.{keys, encode_key_lem, keys-drop_end}
use pc98imebridge.Keyboard.Queue.Ring.{IsQueue}
use pc98imebridge.Keyboard.Inject.{
  Verdict, verified, mismatch, refused, KeyRead, inject, verify_loop, inject_verify,
}
use pc98imebridge.Keyboard.Inject.Whole.{can_inject, inject_branches}

-- Reading from `m` on returns these keys, each with bit 8 of BX, and leaves `m'`.
abbrev pub Confirms : KeyRead → List ℕ → Memory → Memory → Type 0
Confirms read_key [] m m' = m' ≡ m
Confirms read_key (key ∷ rest) m m' =
    ((read_key m).0 ≡ key)
    × (has_bits (read_key m).1 0x0100 ≡ true)
    × Confirms read_key rest (read_key m).2 m'

-- Reading from `m` on returns some of these keys, and then no key or another one; no read follows,
-- and it leaves `m'`.
abbrev pub Differs : KeyRead → List ℕ → Memory → Memory → Type 0
Differs read_key [] m m' = ⊥
Differs read_key (key ∷ rest) m m' =
    ((((read_key m).0 ≢ key) ⊎ (has_bits (read_key m).1 0x0100 ≡ false)) × (m' ≡ (read_key m).2))
    ⊎ (((read_key m).0 ≡ key)
        × (has_bits (read_key m).1 0x0100 ≡ true)
        × Differs read_key rest (read_key m).2 m')

-- A verdict on these keys, and the memory behind it.
abbrev pub IsVerdict : KeyRead → List ℕ → Memory → Verdict × Memory → Type 0
IsVerdict read_key expected m (verified, m') = Confirms read_key expected m m'
IsVerdict read_key expected m (mismatch, m') = Differs read_key expected m m'
IsVerdict read_key expected m (refused, m') = ⊥

module _ (read_key : KeyRead) where
  -- A key that was returned goes before the verdict on the rest.
  IsVerdict-cons :
      (key : ℕ) (rest : List ℕ) (m : Memory) (r : Verdict × Memory)
      → (read_key m).0 ≡ key
      → has_bits (read_key m).1 0x0100 ≡ true
      → IsVerdict read_key rest (read_key m).2 r
      → IsVerdict read_key (key ∷ rest) m r
  IsVerdict-cons key rest m (verified, m') same flag v = (same, flag, v)
  IsVerdict-cons key rest m (mismatch, m') same flag v = inr (same, flag, v)
  IsVerdict-cons key rest m (refused, m') same flag v = v

  verify_loop-end :
      (left : ℕ) (text : Bytes) (i : ℕ) (m : Memory)
      → length text ≤ i
      → verify_loop read_key left text i m ≡ (verified, m)
  unfolding verify_loop
  verify_loop-end zero text i m past = refl
  verify_loop-end (suc left) text i m past = ground (arith, past)

  verify_loop-bad :
      (left : ℕ) (text : Bytes) (i : ℕ) (m : Memory)
      → i < length text
      → ((read_key m).0 ≢ (encode_key text i).0) ⊎ (has_bits (read_key m).1 0x0100 ≡ false)
      → verify_loop read_key (suc left) text i m ≡ (mismatch, (read_key m).2)
  unfolding verify_loop
  verify_loop-bad left text i m inside bad = ground (arith, inside, bad)

  verify_loop-good :
      (left : ℕ) (text : Bytes) (i : ℕ) (m : Memory)
      → i < length text
      → (read_key m).0 ≡ (encode_key text i).0
      → has_bits (read_key m).1 0x0100 ≡ true
      → verify_loop read_key (suc left) text i m
        ≡ verify_loop read_key left text ((encode_key text i).1 + 1) (read_key m).2
  unfolding verify_loop
  verify_loop-good left text i m inside same flag = ground (arith, inside, same, flag)

  verify_loop-IsVerdict :
      (left : ℕ) (text : Bytes) (i : ℕ) (m : Memory)
      → length text ≤ i + left
      → IsVerdict read_key (keys (drop i text)) m (verify_loop read_key left text i m)
  verify_loop-IsVerdict zero text i m fuel =
      rw (verify_loop-end zero text i m (omega arith), keys-drop_end text i (omega arith)) refl
  verify_loop-IsVerdict (suc left) text i m fuel = elim (dec_lt i (length text)) [
    | no past ↦
        rw (verify_loop-end (suc left) text i m (omega arith), keys-drop_end text i (omega arith))
          refl
    | yes inside ↦
        let (split, on, last) = encode_key_lem text i inside in
        let next : ℕ = (encode_key text i).1 + 1 in
        rw split (elim (Bool-cases (has_bits (read_key m).1 0x0100)) [
          | inr missing ↦
              rw (verify_loop-bad left text i m inside (inr missing)) (inl (inr missing, refl))
          | inl flag ↦ elim (ℕ_discrete (read_key m).0 (encode_key text i).0) [
            | no other ↦
                rw (verify_loop-bad left text i m inside (inl other)) (inl (inl other, refl))
            | yes same ↦ rw (verify_loop-good left text i m inside same flag) (
                IsVerdict-cons (encode_key text i).0 (keys (drop next text)) m _ same flag
                  (verify_loop-IsVerdict left text next (read_key m).2 (omega (arith, on))))
          ]
        ])
  ]

inject_verify-refused :
    (read_key : KeyRead) (text : Bytes) (m : Memory)
    → (inject text m).0 ≡ false
    → inject_verify read_key text m ≡ (refused, (inject text m).1)
unfolding inject_verify
inject_verify-refused read_key text m e = ground (arith, e)

inject_verify-queued :
    (read_key : KeyRead) (text : Bytes) (m : Memory)
    → (inject text m).0 ≡ true
    → inject_verify read_key text m ≡ verify_loop read_key (length text) text 0 (inject text m).1
unfolding inject_verify
inject_verify-queued read_key text m e = ground (arith, e)

-- On a well-formed queue and a text of bytes, whatever INT 18h returns: a text that `inject` does not
-- accept is refused and the memory is the same; otherwise, from the memory with the text queued on,
-- `inject_verify` answers 1 exactly when the reads return every key of the text in order, each with
-- the flag of a key, and 0 at the first read that returns none or another one.
pub inject_verify-IsVerdict :
    (read_key : KeyRead) (text : Bytes) (m : Memory)
    → AreBytes text
    → IsQueue m
    → ((can_inject text m ≡ true)
        × IsVerdict read_key (keys text) (inject text m).1 (inject_verify read_key text m))
      ⊎ ((can_inject text m ≡ false) × (inject_verify read_key text m ≡ (refused, m)))
inject_verify-IsVerdict read_key text m all v =
    let (done, good, bad) = inject_branches text m all v in
    elim (Bool-cases (can_inject text m)) [
      | inl can ↦ inl (
        can,
        rw (inject_verify-queued read_key text m (done ∙ can))
            (verify_loop-IsVerdict read_key (length text) text 0 (inject text m).1 (omega arith)),
      )
      | inr cannot ↦ inr (
        cannot,
        inject_verify-refused read_key text m (done ∙ cannot)
            ∙ ap (λ now. (refused, now)) (bad cannot),
      )
    ]
