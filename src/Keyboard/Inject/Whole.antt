-- ===== src/Keyboard/Inject/Whole.antt =====
-- `pc98_bios_inject` against the keys of the text.
use pc98imebridge.Common.{
  ◌⊎◌, Bool-cases, inl, inr, ℕ, zero, suc, ◌+◌, ◌<◌, ◌≤◌, ◌≡◌, refl, sym, ap, ◌∙◌, Bool, true,
  false, [], ◌∷◌, ◌++◌, arith, dec_lt, append-nil, append_assoc, Bytes, AreBytes, length, drop,
  length-append, word-join, get_or-IsByte, ltb, ◌==◌, ◌&&◌, leb,
}
use pc98imebridge.Keyboard.Memory.{Memory, head_address, tail_address, capacity, read_word}
use pc98imebridge.Keyboard.Encode.{char_at, encode_key}
use pc98imebridge.Keyboard.Encode.Keys.{keys, encode_key_lem, keys-drop_end, normalized_length-keys}
use pc98imebridge.Keyboard.Queue.{store_key}
use pc98imebridge.Keyboard.Queue.Ring.{
  slot, window, head_slot, count, contents, IsQueue, length-window,
}
use pc98imebridge.Keyboard.Queue.Refine.{tail_slot, contents-after, after-IsQueue}
use pc98imebridge.Keyboard.Inject.{inject_loop, inject}

-- A key is a word when the text is made of bytes.
pub encode_key-lt : (text : Bytes) (i : ℕ) → AreBytes text → (encode_key text i).0 < 65536
unfolding encode_key
encode_key-lt text i all = ground (arith, word-join (char_at text i) 0, get_or-IsByte text i all)

-- The text `text` from `i` on has been put behind what `m` holds.
abbrev Appended : Bytes → ℕ → Memory → Bool × Memory → Type 0
Appended text i m r = (r.0 ≡ true) × (contents r.1 ≡ contents m ++ keys (drop i text)) × IsQueue r.1

inject_loop-Appended :
    (left : ℕ) (text : Bytes) (i : ℕ) (m : Memory)
    → AreBytes text
    → length text ≤ i + left
    → IsQueue m
    → count m + length (keys (drop i text)) ≤ capacity
    → Appended text i m (inject_loop left text i m)
unfolding inject_loop
inject_loop-Appended zero text i m all fuel v room =
    rw (keys-drop_end text i (omega arith)) (refl, sym (append-nil (contents m)), v)
inject_loop-Appended (suc left) text i m all fuel v room = elim (dec_lt i (length text)) [
  | yes inside ↦
      let (split, on, last) = encode_key_lem text i inside in
      let key : ℕ = (encode_key text i).0 in
      let next : ℕ = (encode_key text i).1 + 1 in
      let some_room : count m < capacity = omega (arith, ap length split) in
      let small : key < 65536 = encode_key-lt text i all in
      let stored : Memory = store_key m (slot (tail_slot m)) key in
      let after = contents-after m key v some_room small in
      let counted : count stored ≡ count m + 1 =
        sym (length-window stored (head_slot stored) (count stored))
        ∙ ap length after
        ∙ length-append (contents m) (key ∷ [])
        ∙ ap (λ n. n + 1) (length-window m (head_slot m) (count m)) in
      let ih =
        inject_loop-Appended left text next stored all (omega arith)
          (after-IsQueue m key v some_room small) (omega (arith, counted, ap length split)) in
      rw v.tail_at (
        ground
          (arith, ih, after, split, append_assoc (contents m) (key ∷ []) (keys (drop next text))))
  | no past ↦ ground (arith, keys-drop_end text i (omega arith), append-nil (contents m))
]

-- The text gives some keys, no more than the queue holds, and the queue is empty.
pub can_inject : Bytes → Memory → Bool
can_inject text m = ltb 0 (length (keys text)) && leb (length (keys text)) capacity && count m == 0

-- An empty queue has its head and its tail at one place.
empty-head_tail :
    (m : Memory) → IsQueue m → count m ≡ 0 → read_word m head_address ≡ read_word m tail_address
empty-head_tail m v e = v.head_at ∙ ap slot (omega (arith, v.head_in)) ∙ sym v.tail_at

inject-accepts :
    (text : Bytes) (m : Memory)
    → IsQueue m
    → can_inject text m ≡ true
    → inject text m ≡ inject_loop (length text) text 0 m
unfolding inject can_inject
inject-accepts text m v can = ground (arith, normalized_length-keys text, empty-head_tail m v)

inject-refuses :
    (text : Bytes) (m : Memory) → can_inject text m ≡ false → inject text m ≡ (false, m)
unfolding inject can_inject
inject-refuses text m cannot = ground (arith, normalized_length-keys text)

-- What `inject` answers, and what it leaves in either case.
pub inject_branches :
    (text : Bytes) (m : Memory)
    → AreBytes text
    → IsQueue m
    → let (done, m') = inject text m in
      (done ≡ can_inject text m)
      × (can_inject text m ≡ true → (contents m' ≡ keys text) × IsQueue m')
      × (can_inject text m ≡ false → m' ≡ m)
inject_branches text m all v = elim (Bool-cases (can_inject text m)) [
  | inl can ↦
      let sizes : (length (keys text) ≤ capacity) × (count m ≡ 0) =
        unfold can_inject in ground (arith, can) in
      let loop =
        inject_loop-Appended (length text) text 0 m all (omega arith) v (omega (arith, sizes)) in
      let none_before : contents m ≡ [] = ap (λ n. window m (head_slot m) n) sizes.1 in
      rw (inject-accepts text m v can, can)
        (loop.0, λ _. (loop.1 ∙ ap (λ q. q ++ keys text) none_before, loop.2), λ never. cc)
  | inr cannot ↦ rw (inject-refuses text m cannot, cannot) (refl, λ never. cc, λ _. refl)
]

-- On a well-formed queue `inject` accepts a text of bytes exactly when the text gives at least one
-- key and at most sixteen, and the queue is empty. It then leaves the keys of the text in the
-- queue, which stays well-formed; otherwise it changes nothing.
pub inject_lem :
    (text : Bytes) (m : Memory)
    → AreBytes text
    → IsQueue m
    → let (done, m') = inject text m in
      ((can_inject text m ≡ true) × (done ≡ true) × (contents m' ≡ keys text) × IsQueue m')
      ⊎ ((can_inject text m ≡ false) × (done ≡ false) × (m' ≡ m))
inject_lem text m all v =
    let (done, good, bad) = inject_branches text m all v in
    elim (Bool-cases (can_inject text m)) [
      | inl can ↦ let (held, v') = good can in inl (can, done ∙ can, held, v')
      | inr cannot ↦ inr (cannot, done ∙ cannot, bad cannot)
    ]
