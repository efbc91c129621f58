-- ===== src/Keyboard/Queue/Oldest.antt =====
-- Removing the oldest key, as the interrupt wrapper does.
use pc98imebridge.Common.{
  ℕ, suc, ◌+◌, ◌-◌, ◌%◌, ◌<◌, ◌≡◌, refl, sym, ap, ap₂, ◌∙◌, Bool, true, false, List, [], ◌∷◌, arith,
  dec_lt, u16, ltb, if◌then◌else◌,
}
use pc98imebridge.Keyboard.Memory.{
  Memory, buffer_start, buffer_end, head_address, tail_address, count_address, capacity, read_word,
  write_byte, write_word,
}
use pc98imebridge.Keyboard.Memory.Laws.{
  byte-write_byte_self, word-write_byte_ne, byte-write_word_ne, word-write_word_self,
  word-write_word_ne, write_byte-IsMemory, write_word-IsMemory,
}
use pc98imebridge.Keyboard.Queue.{dequeue}
use pc98imebridge.Keyboard.Queue.Ring.{
  IsElsewhere, slot, window, head_slot, count, contents, IsQueue, window-same,
}

-- The oldest key, and the rest.
unfoldable pub pop : List ℕ → Bool × ℕ × List ℕ
pop [] = (false, 0, [])
pop (k ∷ q) = (true, k, q)

module _ (m : Memory) (v : IsQueue m) (some_keys : 0 < count m) where
  abbrev counted : Memory
  counted = write_byte m count_address (count m - 1)

  abbrev second_slot : ℕ
  second_slot = (head_slot m + 1) % capacity

  abbrev without_first : Memory
  without_first = write_word counted head_address (slot second_slot)

  counted-kept : (b : ℕ) → b + 1 < count_address → read_word counted b ≡ read_word m b
  counted-kept b below =
      word-write_byte_ne m count_address b (count m - 1) (omega arith) (omega arith) (omega arith)

  kept : (b : ℕ) → b + 1 < head_address → read_word without_first b ≡ read_word m b
  kept b below =
      word-write_word_ne counted head_address b (slot second_slot) (omega arith) (omega arith)
        (omega arith)
      ∙ counted-kept b (omega arith)

  tail-kept : read_word without_first tail_address ≡ read_word m tail_address
  tail-kept =
      word-write_word_ne counted head_address tail_address (slot second_slot) (omega arith)
        (omega arith) (omega arith)
      ∙ counted-kept tail_address (omega arith)

  head-without : read_word without_first head_address ≡ slot second_slot
  head-without =
      word-write_word_self counted head_address (slot second_slot) (omega arith) (omega arith)

  without_first-elsewhere : (a : ℕ) → IsElsewhere a → without_first a ≡ m a
  unfolding write_word write_byte
  without_first-elsewhere a outside = ground (arith, outside)

  head_slot-without : head_slot without_first ≡ second_slot
  head_slot-without = omega (arith, head-without)

  count-without : count without_first ≡ count m - 1
  count-without =
      byte-write_word_ne counted head_address count_address (slot second_slot) (omega arith)
        (omega arith) (omega arith)
      ∙ byte-write_byte_self m count_address (count m - 1) (omega (arith, v.count_in))

  without_first-IsQueue : IsQueue without_first
  without_first-IsQueue = record {
    bytes =
        write_word-IsMemory counted head_address _ (write_byte-IsMemory m count_address _ v.bytes);
    head_in = omega (arith, head_slot-without);
    head_at = head-without ∙ ap slot (sym head_slot-without);
    count_in = omega (arith, count-without, v.count_in);
    tail_at =
        tail-kept
        ∙ v.tail_at
        ∙ ap slot (omega (arith, count-without, head_slot-without, v.head_in));
  }

  contents-split : contents m ≡ read_word m (slot (head_slot m)) ∷ contents without_first
  contents-split =
      let e : count m ≡ suc (count m - 1) = omega arith in
      ap (window m (head_slot m)) e
      ∙ ap (◌∷◌ (read_word m (slot (head_slot m)))) (
          sym (
            ap₂ (window without_first) head_slot-without count-without
            ∙ window-same m without_first second_slot (count m - 1) (omega arith)
                (λ k below. kept _ (omega arith))))

  next-slot :
      (if ltb (u16 (slot (head_slot m) + 2)) buffer_end
        then u16 (slot (head_slot m) + 2)
        else buffer_start)
      ≡ slot second_slot
  next-slot = ground (arith, v.head_in)

  dequeue-some : dequeue m ≡ (true, read_word m (slot (head_slot m)), without_first)
  unfolding dequeue
  dequeue-some =
      let position = counted-kept head_address (omega arith) ∙ v.head_at in
      let key = ap (read_word counted) position ∙ counted-kept (slot (head_slot m)) (omega arith) in
      ground (arith, position, key, next-slot)

dequeue-empty : (m : Memory) → count m ≡ 0 → dequeue m ≡ (false, 0, m)
unfolding dequeue
dequeue-empty m e = ground arith

-- On a well-formed queue `dequeue` returns and removes the oldest key, or reports an empty queue; the
-- queue stays well-formed, the memory is the same when the queue was empty, and outside the BIOS
-- queue and its variables (0502h to 0528h) it is the same in any case.
pub dequeue_refines :
    (m : Memory)
    → IsQueue m
    → let (done, key, m') = dequeue m in
      ((done, key, contents m') ≡ pop (contents m))
      × IsQueue m'
      × (contents m ≡ [] → m' ≡ m)
      × ((a : ℕ) → IsElsewhere a → m' a ≡ m a)
unfolding pop
dequeue_refines m v = elim (dec_lt 0 (count m)) [
  | yes some_keys ↦
      rw (dequeue-some m v some_keys, contents-split m v some_keys)
        (
          refl,
          without_first-IsQueue m v some_keys,
          λ none_left. absurd (ground arith),
          without_first-elsewhere m v some_keys,
        )
  | no empty ↦
      let zero_count : count m ≡ 0 = omega arith in
      rw (dequeue-empty m zero_count) (rw zero_count refl, v, λ _. refl, λ a outside. refl)
]
