-- ===== src/Resident/Deliver/Lossless.antt =====
-- `inject_pending_text` against the keys of the staged text.
use pc98imebridge.Common.{
  ℕ, zero, suc, ◌+◌, ◌<◌, ◌≤◌, ◌≡◌, refl, sym, subst, ap, ◌∙◌, ◌⊎◌, inl, inr, Bool, true, false, [],
  ◌∷◌, ◌++◌, AreBytes, length, drop, append_assoc, append-nil, arith, dec_lt, Bool-cases,
}
use pc98imebridge.Keyboard.Memory.{Memory, capacity}
use pc98imebridge.Keyboard.Encode.{encode_key}
use pc98imebridge.Keyboard.Encode.Keys.{keys, encode_key_lem, keys-drop_end}
use pc98imebridge.Keyboard.Queue.{enqueue_word}
use pc98imebridge.Keyboard.Queue.Ring.{count, contents, IsElsewhere, IsQueue}
use pc98imebridge.Keyboard.Queue.Refine.{enqueue_word-cases, enqueue_word-elsewhere}
use pc98imebridge.Protocol.Kind
use pc98imebridge.Resident.Link.{send_line, send_packet}
use pc98imebridge.Keyboard.Inject.Whole.{encode_key-lt}
use pc98imebridge.Resident.State.{Resident}
use pc98imebridge.Resident.Deliver.{text_loop, acknowledge_text, inject_pending_text}

abbrev pub moved_on : Resident → Memory → ℕ → Resident
moved_on s m offset = record s { memory = m; pending_offset = offset }

-- From `s` on, the keys of the text up to `offset` have gone to the end of the queue, in order.
pub record Delivers (s : Resident) (m : Memory) (offset : ℕ) : Type 0 where
  pub queue : IsQueue m
  pub conserved :
      contents m ++ keys (drop offset s.pending_text)
      ≡ contents s.memory ++ keys (drop s.pending_offset s.pending_text)
  pub onward : s.pending_offset ≤ offset
  pub elsewhere : (a : ℕ) → IsElsewhere a → m a ≡ s.memory a

-- What the loop returns: the queue refused a key, or the rounds or the text ran out.
record Looped (budget : ℕ) (s : Resident) (r : Bool × Resident) : Type 0 where
  m : Memory
  offset : ℕ
  shape : r.1 ≡ moved_on s m offset
  delivers : Delivers s m offset
  stopped : r.0 ≡ false → (offset < length s.pending_text) × (count m ≡ capacity)
  advanced :
      0 < budget
      → count s.memory < capacity
      → s.pending_offset < length s.pending_text
      → s.pending_offset < offset

module _ (s : Resident) (bytes : AreBytes s.pending_text) (v : IsQueue s.memory) where
  abbrev key : ℕ
  key = (encode_key s.pending_text s.pending_offset).0

  abbrev next : ℕ
  next = (encode_key s.pending_text s.pending_offset).1 + 1

  abbrev after_key : Memory
  after_key = (enqueue_word key s.memory).1

  text_loop-end :
      (budget : ℕ) → length s.pending_text ≤ s.pending_offset → text_loop budget s ≡ (true, s)
  unfolding text_loop
  text_loop-end zero past = refl
  text_loop-end (suc budget) past = ground arith

  text_loop-stored :
      (budget : ℕ)
      → s.pending_offset < length s.pending_text
      → (enqueue_word key s.memory).0 ≡ true
      → text_loop (suc budget) s ≡ text_loop budget (moved_on s after_key next)
  unfolding text_loop
  text_loop-stored budget inside stored = ground arith

  text_loop-full :
      (budget : ℕ)
      → s.pending_offset < length s.pending_text
      → (enqueue_word key s.memory).0 ≡ false
      → text_loop (suc budget) s ≡ (false, moved_on s after_key s.pending_offset)
  unfolding text_loop
  text_loop-full budget inside full = ground arith

  stay : Delivers s s.memory s.pending_offset
  stay = record { queue = v; conserved = refl; onward = omega arith; elsewhere = λ a outside. refl }

  -- What is delivered after one key is delivered.
  Delivers-step :
      (m : Memory) (offset : ℕ)
      → s.pending_offset < length s.pending_text
      → contents after_key ≡ contents s.memory ++ key ∷ []
      → Delivers (moved_on s after_key next) m offset
      → Delivers s m offset × (s.pending_offset < offset)
  Delivers-step m offset inside stored d =
      let (split, on, last) = encode_key_lem s.pending_text s.pending_offset inside in
      (
        record {
          queue = d.queue;
          conserved =
              d.conserved
              ∙ ap (λ q. q ++ keys (drop next s.pending_text)) stored
              ∙ append_assoc (contents s.memory) (key ∷ []) (keys (drop next s.pending_text))
              ∙ ap (λ q. contents s.memory ++ q) (sym split);
          onward = omega (arith, on, d.onward);
          elsewhere =
              λ a outside. d.elsewhere a outside ∙ enqueue_word-elsewhere key s.memory v a outside;
        },
        omega (arith, on, d.onward),
      )

text_loop-Looped :
    (budget : ℕ) (s : Resident)
    → AreBytes s.pending_text
    → IsQueue s.memory
    → Looped budget s (text_loop budget s)
text_loop-Looped zero s bytes v =
    unfold text_loop in
    record {
      m = s.memory;
      offset = s.pending_offset;
      shape = refl;
      delivers = stay s bytes v;
      stopped = λ e. cc;
      advanced = λ some_rounds. absurd (omega arith);
    }
text_loop-Looped (suc budget) s bytes v = elim (dec_lt s.pending_offset (length s.pending_text)) [
  | no past ↦ rw (text_loop-end s bytes v (suc budget) (omega arith)) (record {
    m = s.memory;
    offset = s.pending_offset;
    shape = refl;
    delivers = stay s bytes v;
    stopped = λ e. cc;
    advanced = λ _ _ inside. absurd (past inside);
  })
  | yes inside ↦
      elim (enqueue_word-cases (key s bytes v) s.memory v
        (encode_key-lt s.pending_text s.pending_offset bytes)) [
          | inl (stored, added, v', room) ↦
              let ih =
                text_loop-Looped budget (moved_on s (after_key s bytes v) (next s bytes v)) bytes
                  v' in
              let (d, on) = Delivers-step s bytes v ih.m ih.offset inside added ih.delivers in
              rw (text_loop-stored s bytes v budget inside stored) (record {
                m = ih.m;
                offset = ih.offset;
                shape = ih.shape;
                delivers = d;
                stopped = ih.stopped;
                advanced = λ _ _ _. on;
              })
          | inr (refused, same, full) ↦
              rw (text_loop-full s bytes v budget inside refused) (record {
                m = after_key s bytes v;
                offset = s.pending_offset;
                shape = refl;
                delivers = subst (λ m. Delivers s m s.pending_offset) (sym same) (stay s bytes v);
                stopped = λ _. (inside, ap count same ∙ full);
                advanced = λ _ room. absurd (omega arith);
              })
        ]
]

-- The text is in the queue: TEXT_ACK with its sequence goes out on the line, it is no longer staged,
-- and its request is closed.
abbrev pub delivered : Resident → Memory → Resident
delivered s m = record s {
  memory = m;
  line = (send_line Kind.text_ack s.pending_sequence [] s.line).1;
  pending_text = [];
  pending_offset = 0;
  ime_active = false;
  open_pending = s.ime_enabled;
}

acknowledge_text-delivered :
    (s : Resident) (m : Memory) (offset : ℕ)
    → acknowledge_text (moved_on s m offset) ≡ delivered s m
unfolding acknowledge_text send_packet
acknowledge_text-delivered s m offset = refl

-- What a call with staged text does: some keys are left and nothing is acknowledged, or all are in
-- the queue and the acknowledgement is sent.
pub data Delivery (s s' : Resident) : Type 0 where
  part :
      (m : Memory) (offset : ℕ)
      → s' ≡ moved_on s m offset
      → Delivers s m offset
      → offset < length s.pending_text
      → (s.pending_offset < offset) ⊎ (count s.memory ≡ capacity)
      → Delivery s s'
  whole :
      (m : Memory)
      → s' ≡ delivered s m
      → IsQueue m
      → ((a : ℕ) → IsElsewhere a → m a ≡ s.memory a)
      → contents m ≡ contents s.memory ++ keys (drop s.pending_offset s.pending_text)
      → Delivery s s'

inject_pending_text-stopped :
    (s : Resident) → (text_loop 16 s).0 ≡ false → inject_pending_text s ≡ (text_loop 16 s).1
unfolding inject_pending_text
inject_pending_text-stopped s e = ground arith

inject_pending_text-left :
    (s : Resident)
    → (text_loop 16 s).1.pending_offset < length (text_loop 16 s).1.pending_text
    → inject_pending_text s ≡ (text_loop 16 s).1
unfolding inject_pending_text
inject_pending_text-left s h = ground arith

inject_pending_text-all :
    (s : Resident)
    → (text_loop 16 s).0 ≡ true
    → length (text_loop 16 s).1.pending_text ≤ (text_loop 16 s).1.pending_offset
    → inject_pending_text s ≡ acknowledge_text (text_loop 16 s).1
unfolding inject_pending_text
inject_pending_text-all s e h = ground arith

-- With a well-formed queue and staged bytes not all delivered, a call puts the next keys of the text
-- behind what the queue holds, in order and each once, and leaves the memory outside the queue as it
-- was. Either keys are left, nothing else of the state changes, no acknowledgement is sent, and at
-- least one key went in if there was room; or all keys are in the queue, TEXT_ACK with the text's
-- sequence is given to the line as it then is, the text is no longer staged, the request is closed, and another one
-- waits if the IME is on.
pub inject_pending_text-Delivery :
    (s : Resident)
    → AreBytes s.pending_text
    → IsQueue s.memory
    → s.pending_offset < length s.pending_text
    → Delivery s (inject_pending_text s)
inject_pending_text-Delivery s bytes v inside =
    let loop : Looped 16 s (text_loop 16 s) = text_loop-Looped 16 s bytes v in
    let at : (text_loop 16 s).1.pending_offset ≡ loop.offset =
      ap (λ t. t.pending_offset) loop.shape in
    let text : (text_loop 16 s).1.pending_text ≡ s.pending_text =
      ap (λ t. t.pending_text) loop.shape in
    elim (dec_lt loop.offset (length s.pending_text)) [
      | yes left ↦
          part loop.m loop.offset (inject_pending_text-left s (rw (at, text) left) ∙ loop.shape)
            loop.delivers left
            (elim (dec_lt (count s.memory) capacity) [
              | yes room ↦ inl (loop.advanced (omega arith) room inside)
              | no full ↦ inr (omega (arith, v.count_in))
            ])
      | no none_left ↦
          let finished : (text_loop 16 s).0 ≡ true = elim (Bool-cases (text_loop 16 s).0) [
            | inl e ↦ e
            | inr e ↦ absurd (none_left (loop.stopped e).0)
          ] in
          let rest : keys (drop loop.offset s.pending_text) ≡ [] =
            keys-drop_end s.pending_text loop.offset (omega arith) in
          whole loop.m
            (inject_pending_text-all s finished (rw (at, text) (omega arith))
              ∙ ap acknowledge_text loop.shape
              ∙ acknowledge_text-delivered s loop.m loop.offset)
            loop.delivers.queue loop.delivers.elsewhere
            (sym (append-nil (contents loop.m))
              ∙ ap (λ q. contents loop.m ++ q) (sym rest)
              ∙ loop.delivers.conserved)
    ]
