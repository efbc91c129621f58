-- ===== src/Tests/Keys.antt =====
-- The key queue and the injection of text at concrete memories.
use pc98imebridge.Common.{ℕ, ◌≡◌, refl, true, false, [], ◌∷◌, Bytes, AreBytes, arith, ◌⊎◌}
use pc98imebridge.Keyboard.Memory.{read_word}
use pc98imebridge.Keyboard.Encode.Keys.{keys}
use pc98imebridge.Keyboard.Queue.{enqueue_word, discard_hotkey_space, dequeue}
use pc98imebridge.Keyboard.Queue.Ring.{IsElsewhere, contents, IsQueue}
use pc98imebridge.Keyboard.Queue.Refine.{push, enqueue_word_refines}
use pc98imebridge.Keyboard.Queue.Removal.{pop_last_space, discard_hotkey_space_refines}
use pc98imebridge.Keyboard.Queue.Oldest.{pop, dequeue_refines}
use pc98imebridge.Keyboard.Inject.{refused, KeyRead, inject, inject_verify}
use pc98imebridge.Keyboard.Inject.Whole.{can_inject, inject_lem}
use pc98imebridge.Keyboard.Inject.Answers.{IsVerdict, inject_verify-IsVerdict}
use pc98imebridge.Tests.Data.{no_keys, a_and_space}

pub no_keys-IsQueue : IsQueue no_keys
unfolding read_word
no_keys-IsQueue = record {
  bytes = λ a. ground arith;
  head_in = omega arith;
  head_at = refl;
  count_in = omega arith;
  tail_at = refl;
}

pub a_and_space-IsQueue : IsQueue a_and_space
unfolding read_word
a_and_space-IsQueue = record {
  bytes = λ a. ground arith;
  head_in = omega arith;
  head_at = refl;
  count_in = omega arith;
  tail_at = refl;
}

a_and_space-contents : contents a_and_space ≡ 0x1d41 ∷ 0x3420 ∷ []
unfolding read_word
a_and_space-contents = refl

enqueue_word_refines_example :
    (((enqueue_word 0x1c0d a_and_space).0, contents (enqueue_word 0x1c0d a_and_space).1)
      ≡ push 0x1c0d (contents a_and_space))
    × IsQueue (enqueue_word 0x1c0d a_and_space).1
enqueue_word_refines_example =
    enqueue_word_refines a_and_space 0x1c0d a_and_space-IsQueue (omega arith)

discard_hotkey_space_refines_example :
    (((discard_hotkey_space a_and_space).0, contents (discard_hotkey_space a_and_space).1)
      ≡ pop_last_space (contents a_and_space))
    × IsQueue (discard_hotkey_space a_and_space).1
discard_hotkey_space_refines_example = discard_hotkey_space_refines a_and_space a_and_space-IsQueue

dequeue_refines_example :
    (((dequeue a_and_space).0, (dequeue a_and_space).1, contents (dequeue a_and_space).2)
      ≡ pop (contents a_and_space))
    × IsQueue (dequeue a_and_space).2
    × (contents a_and_space ≡ [] → (dequeue a_and_space).2 ≡ a_and_space)
    × ((a : ℕ) → IsElsewhere a → (dequeue a_and_space).2 a ≡ a_and_space a)
dequeue_refines_example = dequeue_refines a_and_space a_and_space-IsQueue

-- "A", Enter as two characters, and a tabulator.
abbrev text : Bytes
text = 0x41 ∷ 0x0d ∷ 0x0a ∷ 0x09 ∷ []

text-AreBytes : AreBytes text
text-AreBytes = ground arith

inject_lem_example :
    ((can_inject text no_keys ≡ true)
      × ((inject text no_keys).0 ≡ true)
      × (contents (inject text no_keys).1 ≡ keys text)
      × IsQueue (inject text no_keys).1)
    ⊎ ((can_inject text no_keys ≡ false)
        × ((inject text no_keys).0 ≡ false)
        × ((inject text no_keys).1 ≡ no_keys))
inject_lem_example = inject_lem text no_keys text-AreBytes no_keys-IsQueue

-- A BIOS that serves the read from the queue, oldest key first.
bios_read : KeyRead
bios_read m = ((dequeue m).1, 0x0100, (dequeue m).2)

inject_verify-IsVerdict_example :
    ((can_inject text no_keys ≡ true)
      × IsVerdict bios_read
          (keys text)
          (inject text no_keys).1
          (inject_verify bios_read text no_keys))
    ⊎ ((can_inject text no_keys ≡ false)
        × (inject_verify bios_read text no_keys ≡ (refused, no_keys)))
inject_verify-IsVerdict_example =
    inject_verify-IsVerdict bios_read text no_keys text-AreBytes no_keys-IsQueue
