-- ===== src/Keyboard/Queue/Refine.antt =====
-- `pc98_bios_enqueue_word` against a list of at most sixteen key words.
use pc98imebridge.Common.{
  refl, ◌⊎◌, inl, inr, ℕ, suc, ◌+◌, ◌-◌, ◌/◌, ◌%◌, ◌<◌, ◌≡◌, sym, ap, ap₂, ◌∙◌, Bool, true, false,
  List, [], ◌∷◌, ◌++◌, length, ltb, if◌then◌else◌, arith, dec_lt,
}
use pc98imebridge.Keyboard.Memory.{
  Memory, buffer_start, head_address, capacity, read_word, write_byte, write_word,
}
use pc98imebridge.Keyboard.Queue.{store_key, enqueue_word}
use pc98imebridge.Keyboard.Queue.Ring.{
  IsElsewhere, slot, window, head_slot, count, contents, IsQueue, length-window, window-suc,
  window-same,
}
use pc98imebridge.Keyboard.Queue.Store.{
  bad_position-slot, count-store_key, tail-store_key, word-store_key_ne, word-store_key_self,
  store_key-IsMemory,
}

-- Adding a key to a full queue is refused.
unfoldable pub push : ℕ → List ℕ → Bool × List ℕ
push key q = if ltb (length q) capacity then (true, q ++ key ∷ []) else (false, q)

abbrev pub tail_slot : Memory → ℕ
tail_slot m = (head_slot m + count m) % capacity

module _ (m : Memory) (key : ℕ) (v : IsQueue m) where
  pub enqueue_word-room :
      count m < capacity → enqueue_word key m ≡ (true, store_key m (slot (tail_slot m)) key)
  unfolding enqueue_word
  enqueue_word-room room = rw v.tail_at (ground (arith, bad_position-slot (tail_slot m)))

  pub enqueue_word-full : count m ≡ capacity → enqueue_word key m ≡ (false, m)
  unfolding enqueue_word
  enqueue_word-full full = ground arith

  module _ (room : count m < capacity) (fits : key < 65536) where
    abbrev pub after : Memory
    after = store_key m (slot (tail_slot m)) key

    in_range : tail_slot m < capacity
    in_range = omega arith

    head-after : read_word after head_address ≡ read_word m head_address
    head-after =
        word-store_key_ne m (tail_slot m) key in_range head_address (omega arith) (omega arith)

    head_slot-after : head_slot after ≡ head_slot m
    head_slot-after = ap (λ w. (w - buffer_start) / 2) head-after

    count-after : count after ≡ count m + 1
    count-after = count-store_key m (tail_slot m) key in_range (omega arith)

    slot-after :
        (k : ℕ)
        → k < count m
        → read_word after (slot ((head_slot m + k) % capacity))
          ≡ read_word m (slot ((head_slot m + k) % capacity))
    slot-after k below =
        word-store_key_ne m (tail_slot m) key in_range _ (omega arith) (omega (arith, v.head_in))

    pub contents-after : contents after ≡ contents m ++ key ∷ []
    contents-after =
        let e : count after ≡ suc (count m) = omega (arith, count-after) in
        ap₂ (window after) head_slot-after e
        ∙ window-suc after (head_slot m) (count m) v.head_in
        ∙ ap₂ (λ q k. q ++ k ∷ [])
            (window-same m after (head_slot m) (count m) v.head_in slot-after)
            (word-store_key_self m (tail_slot m) key in_range fits)

    pub after-IsQueue : IsQueue after
    after-IsQueue = record {
      bytes = store_key-IsMemory m (tail_slot m) key in_range v.bytes;
      head_in = rw head_slot-after v.head_in;
      head_at = head-after ∙ v.head_at ∙ ap slot (sym head_slot-after);
      count_in = omega (arith, count-after);
      tail_at =
          tail-store_key m (tail_slot m) key in_range
          ∙ ap slot (omega (arith, count-after, head_slot-after));
    }

-- On a well-formed queue and a 16-bit key, `enqueue_word` answers and leaves what `push` does, and
-- the queue stays well-formed.
pub enqueue_word_refines :
    (m : Memory) (key : ℕ)
    → IsQueue m
    → key < 65536
    → let (done, m') = enqueue_word key m in
      ((done, contents m') ≡ push key (contents m)) × IsQueue m'
unfolding push
enqueue_word_refines m key v fits =
    let len : length (contents m) ≡ count m = length-window m (head_slot m) (count m) in
    elim (dec_lt (count m) capacity) [
      | yes room ↦
          rw (enqueue_word-room m key v room)
            (ground (arith, len, contents-after m key v room fits), after-IsQueue m key v room fits)
      | no full ↦
          rw (enqueue_word-full m key v (omega (arith, v.count_in)))
            (ground (arith, len, v.count_in), v)
    ]

-- The rest of the memory is left alone.
pub enqueue_word-elsewhere :
    (key : ℕ) (m : Memory) → IsQueue m → (a : ℕ) → IsElsewhere a → (enqueue_word key m).1 a ≡ m a
unfolding write_word write_byte
enqueue_word-elsewhere key m v a outside = elim (dec_lt (count m) capacity) [
  | yes room ↦ rw (enqueue_word-room m key v room) (ground (arith, outside))
  | no full ↦ rw (enqueue_word-full m key v (omega (arith, v.count_in))) refl
]

-- Either the key is behind the others, or the queue is full and nothing changed.
pub enqueue_word-cases :
    (key : ℕ) (m : Memory)
    → IsQueue m
    → key < 65536
    → let (stored, m') = enqueue_word key m in
      ((stored ≡ true) × (contents m' ≡ contents m ++ key ∷ []) × IsQueue m' × (count m < capacity))
      ⊎ ((stored ≡ false) × (m' ≡ m) × (count m ≡ capacity))
enqueue_word-cases key m v small = elim (dec_lt (count m) capacity) [
  | yes room ↦
      rw (enqueue_word-room m key v room)
        (inl (refl, contents-after m key v room small, after-IsQueue m key v room small, room))
  | no full ↦
      let e : count m ≡ capacity = omega (arith, v.count_in) in
      rw (enqueue_word-full m key v e) (inr (refl, refl, e))
]
