-- ===== src/Resident/Deliver.antt =====
-- `inject_pending_text` and `inject_pending_key` of dos/pc98/foreground.c.
pub mod Lossless
pub mod Turn
pub mod Drain
pub mod Rounds
use pc98imebridge.Common.{ℕ, zero, suc, ◌+◌, Bool, true, false, not, [], length, ltb, if◌then◌else◌}
use pc98imebridge.Protocol.Kind
use pc98imebridge.Keyboard.Memory.{Memory}
use pc98imebridge.Keyboard.Encode.{encode_key}
use pc98imebridge.Keyboard.Queue.{enqueue_word}
use pc98imebridge.Resident.State.{Resident}
use pc98imebridge.Resident.Link.{send_packet}

-- The loop with `budget` rounds left. `false` says that the function returned from it, at a key
-- that the queue refused.
unfoldable pub text_loop : ℕ → Resident → Bool × Resident
text_loop zero s = (true, s)
text_loop (suc budget) s =
    let (key, input) = encode_key s.pending_text s.pending_offset in
    let (stored, m) = enqueue_word key s.memory in
    let rest = text_loop budget (record s { memory = m; pending_offset = input + 1 }) in
    if ltb s.pending_offset (length s.pending_text)
    then (if not stored then (false, record s { memory = m }) else rest)
    else (true, s)

-- Every key is in the queue.
unfoldable pub acknowledge_text : Resident → Resident
unfolding send_packet
acknowledge_text s =
    let s1 = (send_packet Kind.text_ack s.pending_sequence [] s).1 in
    record s1 {
      pending_text = [];
      pending_offset = 0;
      ime_active = false;
      open_pending = s1.ime_enabled;
    }

unfoldable pub inject_pending_text : Resident → Resident
inject_pending_text s =
    let (finished, s1) = text_loop 16 s in
    if not finished
    then s1
    else if ltb s1.pending_offset (length s1.pending_text)
    then s1
    else acknowledge_text s1

unfoldable pub inject_pending_key : Resident → Resident
unfolding send_packet
inject_pending_key s =
    let (stored, m) = enqueue_word s.pending_key s.memory in
    let s1 = record s { memory = m } in
    if not stored then s1 else record (send_packet Kind.key_ack s1.pending_sequence [] s1).1 {
      pending_key_active = false;
      ime_active = false;
      open_pending = s1.ime_enabled;
    }
