-- ===== src/Keyboard/Inject/Verify.antt =====
-- `pc98_bios_inject_verify` with a BIOS that returns the oldest key.
use pc98imebridge.Common.{
  ◌⊎◌, Bool-cases, inl, inr, ℕ, zero, suc, ◌+◌, ◌<◌, ◌≤◌, ◌≡◌, refl, sym, ap, ◌∙◌, true, false, [],
  ◌∷◌, arith, dec_lt, Bytes, AreBytes, length, drop, has_bits,
}
use pc98imebridge.Keyboard.Memory.{Memory}
use pc98imebridge.Keyboard.Encode.{encode_key}
use pc98imebridge.Keyboard.Encode.Keys.{keys, encode_key_lem, keys-drop_end}
use pc98imebridge.Keyboard.Queue.Ring.{head_slot, count, contents, IsQueue, length-window}
use pc98imebridge.Keyboard.Inject.{verified, refused, KeyRead, inject, verify_loop, inject_verify}
use pc98imebridge.Keyboard.Inject.Whole.{can_inject, inject_branches}

-- What INT 18h with AX = 0500h does at a queue that is not empty: AX is the oldest key, bit 8 of BX
-- says that there is one, and that key is gone from the queue.
abbrev pub IsKeyRead : KeyRead → Type 0
IsKeyRead read_key =
    (m : Memory)
    → IsQueue m
    → 0 < count m
    → let (ax, bx, m') = read_key m in
      (contents m ≡ ax ∷ contents m') × (has_bits bx 0x0100 ≡ true) × IsQueue m'

module _ (read_key : KeyRead) (reads : IsKeyRead read_key) where
  verify_loop_lem :
      (left : ℕ) (text : Bytes) (i : ℕ) (m : Memory)
      → length text ≤ i + left
      → IsQueue m
      → contents m ≡ keys (drop i text)
      → let (verdict, m') = verify_loop read_key left text i m in
        (verdict ≡ verified) × (contents m' ≡ []) × IsQueue m'
  unfolding verify_loop
  verify_loop_lem zero text i m fuel v same = (refl, same ∙ keys-drop_end text i (omega arith), v)
  verify_loop_lem (suc left) text i m fuel v same = elim (dec_lt i (length text)) [
    | yes inside ↦
        let (split, on, last) = encode_key_lem text i inside in
        let next : ℕ = (encode_key text i).1 + 1 in
        let some_keys : 0 < count m =
          omega (arith, length-window m (head_slot m) (count m), ap length (same ∙ split)) in
        let (front, flag, v') = reads m v some_keys in
        let both = sym front ∙ same ∙ split in
        let later : contents (read_key m).2 ≡ keys (drop next text) = cc both in
        let ih = verify_loop_lem left text next (read_key m).2 (omega arith) v' later in
        ground (arith, ih, both, flag)
    | no past ↦ ground (arith, same ∙ keys-drop_end text i (omega arith), v)
  ]

-- What `inject_verify` answers and leaves in either case.
inject_verify_branches :
    (read_key : KeyRead) (text : Bytes) (m : Memory)
    → IsKeyRead read_key
    → AreBytes text
    → IsQueue m
    → let (verdict, m') = inject_verify read_key text m in
      (can_inject text m ≡ true → (verdict ≡ verified) × (contents m' ≡ []) × IsQueue m')
      × (can_inject text m ≡ false → (verdict ≡ refused) × (m' ≡ m))
unfolding inject_verify
inject_verify_branches read_key text m reads all v =
    let (done, good, bad) = inject_branches text m all v in
    (
      λ can.
          let (held, v') = good can in
          rw (done, can)
            (verify_loop_lem read_key reads (length text) text 0 (inject text m).1 (omega arith) v'
              held),
      λ cannot. rw (done, cannot) (refl, bad cannot),
    )

-- With a BIOS whose read takes the oldest key from a queue that is not empty, a well-formed queue,
-- and a text of bytes that `inject` accepts, `inject_verify` verifies every key and leaves the queue
-- empty; a text that `inject` does not accept is refused and the memory unchanged.
pub inject_verify_lem :
    (read_key : KeyRead) (text : Bytes) (m : Memory)
    → IsKeyRead read_key
    → AreBytes text
    → IsQueue m
    → let (verdict, m') = inject_verify read_key text m in
      ((can_inject text m ≡ true) × (verdict ≡ verified) × (contents m' ≡ []) × IsQueue m')
      ⊎ ((can_inject text m ≡ false) × (verdict ≡ refused) × (m' ≡ m))
inject_verify_lem read_key text m reads all v =
    let (good, bad) = inject_verify_branches read_key text m reads all v in
    elim (Bool-cases (can_inject text m)) [
      | inl can ↦ let (yes_all, empty, v') = good can in inl (can, yes_all, empty, v')
      | inr cannot ↦ let (no_all, same) = bad cannot in inr (cannot, no_all, same)
    ]
