-- ===== src/Keyboard/Queue/Removal.antt =====
-- Removing the newest key when it is the hotkey's Space.
use pc98imebridge.Common.{
  ℕ, suc, ◌+◌, ◌-◌, ◌/◌, ◌%◌, ◌<◌, ◌≡◌, refl, sym, ap, ap₂, ◌∙◌, Bool, true, false, List, [], ◌∷◌,
  ◌++◌, ◌==◌, if◌then◌else◌, arith, dec_lt,
}
use pc98imebridge.Keyboard.Memory.{
  Memory, buffer_start, head_address, tail_address, count_address, capacity, read_byte, read_word,
  write_byte, write_word,
}
use pc98imebridge.Keyboard.Memory.Laws.{
  byte-write_byte_self, word-write_byte_ne, byte-write_word_ne, word-write_word_self,
  word-write_word_ne, write_byte-IsMemory, write_word-IsMemory, read_word-lt,
}
use pc98imebridge.Keyboard.Queue.{discard_hotkey_space}
use pc98imebridge.Keyboard.Queue.Ring.{
  slot, window, head_slot, count, contents, IsQueue, window-suc, window-same,
}
use pc98imebridge.Keyboard.Queue.Store.{bad_position-slot, previous_position-slot}

-- The word of a physical Space key.
abbrev pub space_key : ℕ
space_key = 0x3420

-- Takes the last key off if it is a Space.
unfoldable pub pop_last_space : List ℕ → Bool × List ℕ
pop_last_space [] = (false, [])
pop_last_space (k ∷ []) = if k == space_key then (true, []) else (false, k ∷ [])
pop_last_space (k ∷ j ∷ q) = let (done, q') = pop_last_space (j ∷ q) in (done, k ∷ q')

pop_last_space-snoc :
    (q : List ℕ) (k : ℕ)
    → pop_last_space (q ++ k ∷ []) ≡ (if k == space_key then (true, q) else (false, q ++ k ∷ []))
unfolding pop_last_space
pop_last_space-snoc [] k = refl
pop_last_space-snoc (x ∷ []) k = ground arith
pop_last_space-snoc (x ∷ y ∷ q) k = ground (arith, pop_last_space-snoc (y ∷ q) k)

module _ (m : Memory) (v : IsQueue m) (some_keys : 0 < count m) where
  -- The slot of the newest key.
  abbrev last_slot : ℕ
  last_slot = (head_slot m + (count m - 1)) % capacity

  last_in : last_slot < capacity
  last_in = omega arith

  tail_behind : read_word m tail_address ≡ slot ((last_slot + 1) % capacity)
  tail_behind = v.tail_at ∙ ap slot (omega arith)

  contents-last :
      contents m ≡ window m (head_slot m) (count m - 1) ++ read_word m (slot last_slot) ∷ []
  contents-last =
      let e : count m ≡ suc (count m - 1) = omega arith in
      ap (window m (head_slot m)) e ∙ window-suc m (head_slot m) (count m - 1) v.head_in

  abbrev without_last : Memory
  without_last =
      let moved = write_word m tail_address (slot last_slot) in
      write_byte moved count_address (read_byte moved count_address - 1)

  module _ where
    abbrev moved : Memory
    moved = write_word m tail_address (slot last_slot)

    kept : (b : ℕ) → b < tail_address - 1 → read_word without_last b ≡ read_word m b
    kept b below =
        word-write_byte_ne moved count_address b (read_byte moved count_address - 1) (omega arith)
          (omega arith) (omega arith)
        ∙ word-write_word_ne m tail_address b (slot last_slot) (omega arith) (omega arith)
            (omega arith)

    count-moved : read_byte moved count_address ≡ count m
    count-moved =
        byte-write_word_ne m tail_address count_address (slot last_slot) (omega arith) (omega arith)
          (omega arith)

    count-without : count without_last ≡ count m - 1
    count-without =
        byte-write_byte_self moved count_address (read_byte moved count_address - 1)
          (omega (arith, count-moved, v.count_in))
        ∙ ap (λ c. c - 1) count-moved

    tail-without : read_word without_last tail_address ≡ slot last_slot
    tail-without =
        word-write_byte_ne moved count_address tail_address (read_byte moved count_address - 1)
          (omega arith) (omega arith) (omega arith)
        ∙ word-write_word_self m tail_address (slot last_slot) (omega arith) (omega arith)

    head_slot-without : head_slot without_last ≡ head_slot m
    head_slot-without = ap (λ w. (w - buffer_start) / 2) (kept head_address (omega arith))

    without_last-IsQueue : IsQueue without_last
    without_last-IsQueue = record {
      bytes =
          write_byte-IsMemory moved count_address _ (write_word-IsMemory m tail_address _ v.bytes);
      head_in = rw head_slot-without v.head_in;
      head_at = kept head_address (omega arith) ∙ v.head_at ∙ ap slot (sym head_slot-without);
      count_in = omega (arith, count-without, v.count_in);
      tail_at = tail-without ∙ ap slot (omega (arith, count-without, head_slot-without));
    }

    contents-without : contents without_last ≡ window m (head_slot m) (count m - 1)
    contents-without =
        ap₂ (window without_last) head_slot-without count-without
        ∙ window-same m without_last (head_slot m) (count m - 1) v.head_in
            (λ k below. kept _ (omega arith))

    -- The test on the two halves of a word is the test for the Space key.
    discard-last :
        discard_hotkey_space m
        ≡ (if read_word m (slot last_slot) == space_key then (true, without_last) else (false, m))
    unfolding discard_hotkey_space
    discard-last =
        rw (tail_behind, previous_position-slot last_slot last_in)
          (ground (
            arith,
            bad_position-slot ((last_slot + 1) % capacity),
            read_word-lt m (slot last_slot) v.bytes,
          ))

discard-empty : (m : Memory) → count m ≡ 0 → discard_hotkey_space m ≡ (false, m)
unfolding discard_hotkey_space
discard-empty m e = ground arith

-- On a well-formed queue `discard_hotkey_space` takes off the newest key exactly when it is a
-- Space, leaves every other queue as it is, and the queue stays well-formed.
pub discard_hotkey_space_refines :
    (m : Memory)
    → IsQueue m
    → let (done, m') = discard_hotkey_space m in
      ((done, contents m') ≡ pop_last_space (contents m)) × IsQueue m'
discard_hotkey_space_refines m v = elim (dec_lt 0 (count m)) [
  | yes some_keys ↦
      let last = read_word m (slot (last_slot m v some_keys)) in
      rw
        (
          discard-last m v some_keys,
          contents-last m v some_keys,
          pop_last_space-snoc (window m (head_slot m) (count m - 1)) last,
        )
        (ground (
          arith,
          contents-without m v some_keys,
          contents-last m v some_keys,
          without_last-IsQueue m v some_keys,
        ))
  | no empty ↦
      let zero_count : count m ≡ 0 = omega arith in
      rw (discard-empty m zero_count) ((rw zero_count (unfold pop_last_space in refl)), v)
]
