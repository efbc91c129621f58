-- ===== src/System/Input.antt =====
-- `pc98_input_hook` of dos/pc98/tsr_hook.S, the keyboard reads of a program: INT 18h.
use pc98imebridge.Common.{
  ℕ, zero, suc, ◌≡◌, ◌≢◌, ap, ◌∙◌, ◌⊎◌, true, false, not, Option, none, some, List, ◌∷◌, ◌==◌,
  if◌then◌else◌, arith, u8,
}
use pc98imebridge.Keyboard.Memory.{Memory}
use pc98imebridge.Keyboard.Queue.{dequeue}
use pc98imebridge.Keyboard.Queue.Ring.{IsQueue, contents}
use pc98imebridge.Keyboard.Queue.Oldest.{pop, dequeue_refines}
use pc98imebridge.Resident.State.{Resident}
use pc98imebridge.Resident.Hotkey.{service_returned_hotkey}
use pc98imebridge.Resident.Service.{service_foreground}

-- Shift, Graph or Ctrl with Space, as the queue holds it.
abbrev pub space_word : ℕ
space_word = 0x3420

-- AX and BX, and the state behind the read.
pub record Answer : Type 0 where
  pub ax : ℕ
  pub bx : ℕ
  pub state : Resident

-- The wait for a key that is not the hotkey, with rounds left. What the interrupts do while the
-- processor is halted is not ours to say: `wakes` gives it for each round. `none` is a wait that goes on.
unfoldable pub wait_queue : (ℕ → Resident → Resident) → ℕ → ℕ → Resident → Option Answer
wait_queue wakes zero bx s = none
wait_queue wakes (suc left) bx s =
    let halted = wait_queue wakes left bx (wakes left s) in
    let (found, key, m) = dequeue s.memory in
    let removed : Resident = record s { memory = m } in
    let (handled, served) = service_returned_hotkey removed in
    let again = wait_queue wakes left bx served in
    if not found
    then halted
    else if not (key == space_word)
    then some (record { ax = key; bx = bx; state = removed })
    else if handled
    then again
    else some (record { ax = key; bx = bx; state = served })

-- A read with `ah` in AH, where `bios` gives AX, BX and the memory behind the BIOS handler.
unfoldable pub input_hook :
    (ℕ → Resident → Resident) → ℕ → (ℕ → Memory → ℕ × ℕ × Memory) → ℕ → Resident → Option Answer
input_hook wakes rounds bios ah s =
    let s1 = service_foreground s in
    let (ax, bx, m) = bios ah s1.memory in
    let returned : Resident = record s1 { memory = m } in
    let (handled, served) = service_returned_hotkey returned in
    if not (ax == space_word)
    then some (record { ax = ax; bx = bx; state = returned })
    else if not handled
    then some (record { ax = ax; bx = bx; state = served })
    else if ah == 0
    then wait_queue wakes rounds bx served
    else if ah == 5
    then some (record { ax = ax; bx = u8 bx; state = served })
    else some (record { ax = ax; bx = bx; state = served })

-- The word is no hotkey, or the worker did not take it as one.
abbrev pub IsKept : Answer → Type 0
IsKept a = (a.ax ≢ space_word) ⊎ ((s : Resident) × (service_returned_hotkey s ≡ (false, a.state)))

-- The same of a read that may still be waiting.
abbrev WhenBack : Option Answer → Type 0
WhenBack none = ◌≡◌ {A = ℕ} 0 0
WhenBack (some a) = IsKept a

-- A waiting read comes back at once with the oldest key, if that is no hotkey, and leaves the others.
pub wait_queue-oldest :
    (wakes : ℕ → Resident → Resident) (left bx : ℕ) (s : Resident) (key : ℕ) (rest : List ℕ)
    → IsQueue s.memory
    → contents s.memory ≡ key ∷ rest
    → key ≢ space_word
    → (m : Memory) × (wait_queue wakes (suc left) bx s
        ≡ some (record { ax = key; bx = bx; state = record s { memory = m } }))
      × (contents m ≡ rest)
unfolding wait_queue pop
wait_queue-oldest wakes left bx s key rest v e other =
    let all : ((dequeue s.memory).0, (dequeue s.memory).1, contents (dequeue s.memory).2)
        ≡ (true, key, rest) =
      (dequeue_refines s.memory v).0 ∙ ap pop e in
    let found = ap (λ r. r.0) all in
    let word = ap (λ r. r.1) all in
    ((dequeue s.memory).2, ground (arith, found, word, other), ap (λ r. r.2) all)
