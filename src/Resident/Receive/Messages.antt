-- ===== src/Resident/Receive/Messages.antt =====
-- What the worker makes of a message: the protocol's rules on the open request.
use pc98imebridge.Common.{
  ℕ, ◌<◌, ◌≡◌, ◌≢◌, refl, sym, ap, ◌∙◌, ◌⊎◌, inl, inr, true, false, some, [], ◌∷◌, ◌++◌, length,
  arith, subst,
}
use pc98imebridge.Protocol.Kind
use pc98imebridge.Protocol.Packet.{Packet, byte_at}
use pc98imebridge.Keyboard.Memory.{capacity}
use pc98imebridge.Keyboard.Queue.{enqueue_word}
use pc98imebridge.Keyboard.Queue.Ring.{count, contents, IsQueue}
use pc98imebridge.Keyboard.Queue.Refine.{enqueue_word-cases}
use pc98imebridge.Resident.State.{Resident, hello_wait}
use pc98imebridge.Resident.Link.{send_packet, send_line}
use pc98imebridge.Resident.Receive.{handle_message, key_code, answers}
use pc98imebridge.Resident.Deliver.{inject_pending_key}

-- A message that does not answer the open request changes nothing, unless it is the PONG that the
-- link waits for.
pub handle_message-ignored :
    (m : Packet) (s : Resident)
    → answers m s ≡ false
    → (m.kind ≢ Kind.pong) ⊎ (s.link_state ≢ hello_wait)
    → handle_message m s ≡ s
unfolding handle_message
handle_message-ignored m s no_answer other = ground arith

-- The keys of the protocol's table, and the words of the BIOS for them.
pub data KeyTable : ℕ → ℕ → Type 0 where
  enter : KeyTable Kind.key_enter 0x1c0d
  left : KeyTable Kind.key_left 0x3b00
  right : KeyTable Kind.key_right 0x3c00
  up : KeyTable Kind.key_up 0x3a00
  down : KeyTable Kind.key_down 0x3d00
  backspace : KeyTable Kind.key_backspace 0x0e08

key_code-KeyTable : (v code : ℕ) → KeyTable v code → (key_code v ≡ some code) × (code < 65536)
unfolding key_code
key_code-KeyTable v code enter = (refl, omega arith)
key_code-KeyTable v code left = (refl, omega arith)
key_code-KeyTable v code right = (refl, omega arith)
key_code-KeyTable v code up = (refl, omega arith)
key_code-KeyTable v code down = (refl, omega arith)
key_code-KeyTable v code backspace = (refl, omega arith)

-- The state once a key is staged.
abbrev staged : Packet → ℕ → Resident → Resident
staged m code s = record s {
  pending_key = code;
  pending_key_active = true;
  pending_sequence = m.sequence;
  wait_ticks = 0;
}

handle_message-key :
    (m : Packet) (s : Resident) (v code : ℕ)
    → m.kind ≡ Kind.key
    → answers m s ≡ true
    → m.payload ≡ v ∷ []
    → key_code v ≡ some code
    → handle_message m s ≡ staged m code s
unfolding handle_message
handle_message-key m s v code kind answer payload e =
    let one : length m.payload ≡ 1 = ap length payload in
    let found : key_code (byte_at m.payload 0) ≡ some code =
      ap (λ p. key_code (byte_at p 0)) payload ∙ e in
    ground (arith, one, found)

-- The step of `inject_pending_key` when the queue takes the key.
inject_pending_key-stored :
    (s : Resident)
    → (enqueue_word s.pending_key s.memory).0 ≡ true
    → let s' = inject_pending_key s in
      (s'.memory ≡ (enqueue_word s.pending_key s.memory).1)
      × (s'.line ≡ (send_line Kind.key_ack s.pending_sequence [] s.line).1)
      × (s'.pending_key_active ≡ false)
      × (s'.ime_active ≡ false)
      × (s'.open_pending ≡ s.ime_enabled)
unfolding inject_pending_key send_packet
inject_pending_key-stored s e = ground arith

-- A KEY that answers the open request and is in the protocol's table is delivered by the next key
-- step if the queue has room: its word goes behind the others, the KEY_ACK carries the sequence of
-- the message, the request is closed and, while the IME is on, another one waits to be sent.
pub key-delivered :
    (m : Packet) (s : Resident) (v code : ℕ)
    → m.kind ≡ Kind.key
    → answers m s ≡ true
    → m.payload ≡ v ∷ []
    → KeyTable v code
    → IsQueue s.memory
    → count s.memory < capacity
    → let s' = inject_pending_key (handle_message m s) in
      (contents s'.memory ≡ contents s.memory ++ code ∷ [])
      × IsQueue s'.memory
      × (s'.line ≡ (send_line Kind.key_ack m.sequence [] s.line).1)
      × (s'.pending_key_active ≡ false)
      × (s'.ime_active ≡ false)
      × (s'.open_pending ≡ s.ime_enabled)
key-delivered m s v code kind answer payload row q room =
    let (found, small) = key_code-KeyTable v code row in
    let before = handle_message-key m s v code kind answer payload found in
    elim (enqueue_word-cases code s.memory q small) [
      | inr (refused, same, full) ↦ absurd (omega arith)
      | inl (stored, added, q', _) ↦
          let (mem, line, inactive, idle, again) =
            inject_pending_key-stored (staged m code s) stored in
          rw before
            (ap contents mem ∙ added, subst IsQueue (sym mem) q', line, inactive, idle, again)
    ]
