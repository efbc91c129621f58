-- ===== src/Keyboard/Queue/Ring.antt =====
-- The key words that the BIOS queue holds, oldest first, and what writes leave of them.
use pc98imebridge.Common.{
  ℕ, zero, suc, ◌+◌, ◌-◌, ◌*◌, ◌/◌, ◌%◌, ◌<◌, ◌≤◌, ◌⊎◌, ◌≡◌, refl, sym, ap, ap₂, ◌∙◌, List, [], ◌∷◌,
  ◌++◌, length, arith,
}
use pc98imebridge.Keyboard.Memory.{
  Memory, IsMemory, buffer_start, head_address, tail_address, count_address, capacity, read_byte,
  read_word,
}

-- The address of one of the sixteen words of the buffer.
abbrev pub slot : ℕ → ℕ
slot i = buffer_start + 2 * i

-- The words of `n` slots from slot `i` on, going round.
abbrev pub window : Memory → ℕ → ℕ → List ℕ
window m i zero = []
window m i (suc n) = read_word m (slot i) ∷ window m ((i + 1) % capacity) n

abbrev pub head_slot : Memory → ℕ
head_slot m = (read_word m head_address - buffer_start) / 2

abbrev pub count : Memory → ℕ
count m = read_byte m count_address

abbrev pub contents : Memory → List ℕ
contents m = window m (head_slot m) (count m)

-- The metadata describe a queue: the head stands at a word of the buffer, and the tail as many
-- words further round as are counted.
-- An offset outside the key buffer and the variables of the queue.
abbrev pub IsElsewhere : ℕ → Type 0
IsElsewhere a = (a < buffer_start) ⊎ (count_address < a)

pub record IsQueue (m : Memory) : Type 0 where
  pub bytes : IsMemory m
  pub head_in : head_slot m < capacity
  pub head_at : read_word m head_address ≡ slot (head_slot m)
  pub count_in : count m ≤ capacity
  pub tail_at : read_word m tail_address ≡ slot ((head_slot m + count m) % capacity)

pub length-window : (m : Memory) (i n : ℕ) → length (window m i n) ≡ n
length-window m i zero = refl
length-window m i (suc n) = ap suc (length-window m ((i + 1) % capacity) n)

-- A window is extended at its far end.
pub window-suc :
    (m : Memory) (i n : ℕ)
    → i < capacity
    → window m i (suc n) ≡ window m i n ++ read_word m (slot ((i + n) % capacity)) ∷ []
window-suc m i zero h = let e : (i + 0) % capacity ≡ i = omega arith in rw e refl
window-suc m i (suc n) h =
    let e : ((i + 1) % capacity + n) % capacity ≡ (i + suc n) % capacity = omega arith in
    ap (◌∷◌ (read_word m (slot i))) (
      window-suc m ((i + 1) % capacity) n (omega arith)
      ∙ ap (λ k. window m ((i + 1) % capacity) n ++ read_word m (slot k) ∷ []) e)

-- Two memories with the same words in the buffer, but for those of one slot outside the window,
-- show the same window.
pub window-same :
    (m m' : Memory) (i n : ℕ)
    → i < capacity
    → ((k : ℕ)
        → k < n
        → read_word m' (slot ((i + k) % capacity)) ≡ read_word m (slot ((i + k) % capacity)))
    → window m' i n ≡ window m i n
window-same m m' i zero h same = refl
window-same m m' i (suc n) h same =
    let e : (i + 0) % capacity ≡ i = omega arith in
    ap₂ ◌∷◌
      (ap (λ k. read_word m' (slot k)) (sym e)
        ∙ same 0 (omega arith)
        ∙ ap (λ k. read_word m (slot k)) e)
      (window-same m m' ((i + 1) % capacity) n (omega arith) λ k below.
        let shift : ((i + 1) % capacity + k) % capacity ≡ (i + suc k) % capacity = omega arith in
        ap (λ j. read_word m' (slot j)) shift
        ∙ same (suc k) (omega arith)
        ∙ ap (λ j. read_word m (slot j)) (sym shift))
