-- ===== src/Resident/Safety/Steps.antt =====
-- The functions of the link and of receiving, and the bounds of the state.
use pc98imebridge.Common.{
  ℕ, true, ◌≡◌, ◌<◌, ◌≤◌, sym, subst, [], ◌∷◌, Bytes, AreBytes, IsByte, length, arith, inl, inr,
  some, ◌⊎◌, Option-cases, u16, ◌+◌, ◌++◌, All-append, length-append, All-take, length-take, take,
  dec_lt, none,
}
use pc98imebridge.Protocol.Packet.{Packet, parse, byte_at, max_payload}
use pc98imebridge.Protocol.Packet.RoundTrip.{IsMessage}
use pc98imebridge.Protocol.Packet.Fields.{parse-IsMessage}
use pc98imebridge.Serial.Capture.{Capture, capture_begin, capture_end}
use pc98imebridge.Serial.Capture.Ring.{IsRing}
use pc98imebridge.Serial.Port.{Ports}
use pc98imebridge.Resident.State.{Resident, ready, rx_size}
use pc98imebridge.Resident.Link.{send_packet, reset_link, send_open_ime, close_ime}
use pc98imebridge.Resident.Receive.{
  key_code, become_ready, handle_message, handle_packet, accept_byte, after_store,
}
use pc98imebridge.Resident.Safety.{IsSafe}

capture_end-IsRing :
    (c : Capture) (p : Ports)
    → IsRing c
    → IsRing (capture_end c p).0 × ((capture_end c p).0.buffer ≡ c.buffer)
unfolding capture_end
capture_end-IsRing c p r = ground arith

pub capture_begin-IsRing :
    (c : Capture) (p : Ports)
    → IsRing c
    → IsRing (capture_begin c p).0 × ((capture_begin c p).0.buffer ≡ c.buffer)
unfolding capture_begin
capture_begin-IsRing c p r = ground arith

pub reset_link-IsSafe : {s : Resident} → IsSafe s → IsSafe (reset_link s)
unfolding reset_link
reset_link-IsSafe {s} v = ground (arith, capture_end-IsRing s.captured s.line.ports v.ring)

-- Sending changes nothing but the line.
pub send_packet-IsSafe :
    (kind seq : ℕ) (payload : Bytes) {s : Resident}
    → IsSafe s
    → IsSafe (send_packet kind seq payload s).1
unfolding send_packet
send_packet-IsSafe kind seq payload v = ground arith

pub send_open_ime-IsSafe : {s : Resident} → IsSafe s → IsSafe (send_open_ime s)
unfolding send_open_ime
send_open_ime-IsSafe {s} v =
    let next : ℕ = u16 (s.sequence + 1) in
    let numbered : IsSafe (record s { sequence = next; open_sequence = next }) = ground arith in
    let sent = send_packet-IsSafe 4 next [] numbered in ground (arith, sent, reset_link-IsSafe sent)

pub close_ime-IsSafe : {s : Resident} → IsSafe s → IsSafe (close_ime s)
unfolding close_ime
close_ime-IsSafe {s} v =
    let sent = send_packet-IsSafe 7 s.open_sequence [] v in
    ground (arith, sent, reset_link-IsSafe v, reset_link-IsSafe sent)

become_ready-IsSafe : {s : Resident} → IsSafe s → IsSafe (become_ready s)
unfolding become_ready
become_ready-IsSafe v = ground (arith, v, send_open_ime-IsSafe v)

key_code-lt : (value code : ℕ) → key_code value ≡ some code → code < 65536
unfolding key_code
key_code-lt value code e = ground arith

-- The states that a message leads to.
abbrev linked : Resident → Resident
linked s = record s { link_state = ready; wait_ticks = 0 }

abbrev text_staged : Packet → Resident → Resident
text_staged m s = record s {
  pending_text = m.payload;
  pending_offset = 0;
  pending_sequence = m.sequence;
  wait_ticks = 0;
}

abbrev key_staged : Packet → ℕ → Resident → Resident
key_staged m code s = record s {
  pending_key = code;
  pending_key_active = true;
  pending_sequence = m.sequence;
  wait_ticks = 0;
}

handle_message-known :
    (m : Packet) (s : Resident) (code : ℕ)
    → key_code (byte_at m.payload 0) ≡ some code
    → (handle_message m s ≡ become_ready (linked s))
      ⊎ (handle_message m s ≡ text_staged m s)
      ⊎ (handle_message m s ≡ key_staged m code s)
      ⊎ (handle_message m s ≡ close_ime s)
      ⊎ (handle_message m s ≡ s)
unfolding handle_message
handle_message-known m s code known = ground (arith, known)

handle_message-unknown :
    (m : Packet) (s : Resident)
    → key_code (byte_at m.payload 0) ≡ none
    → (handle_message m s ≡ become_ready (linked s))
      ⊎ (handle_message m s ≡ text_staged m s)
      ⊎ (handle_message m s ≡ close_ime s)
      ⊎ (handle_message m s ≡ s)
unfolding handle_message
handle_message-unknown m s unknown = ground (arith, unknown)

text_staged-IsSafe :
    (m : Packet) {s : Resident}
    → IsMessage m
    → length m.payload ≤ max_payload
    → IsSafe s
    → IsSafe (text_staged m s)
text_staged-IsSafe m fits small v = ground (arith, v, fits)

key_staged-IsSafe :
    (m : Packet) (code : ℕ) {s : Resident}
    → IsMessage m
    → code < 65536
    → IsSafe s
    → IsSafe (key_staged m code s)
key_staged-IsSafe m code fits small v = ground (arith, v, fits)

linked-IsSafe : {s : Resident} → IsSafe s → IsSafe (linked s)
linked-IsSafe v = ground (arith, v)

handle_message-IsSafe :
    (m : Packet) {s : Resident}
    → IsMessage m
    → length m.payload ≤ max_payload
    → IsSafe s
    → IsSafe (handle_message m s)
handle_message-IsSafe m {s} fits small v =
    let open_now = become_ready-IsSafe (linked-IsSafe v) in
    let staged = text_staged-IsSafe m fits small v in
    elim (Option-cases (key_code (byte_at m.payload 0))) [
      | inl unknown ↦ elim (handle_message-unknown m s unknown) [
        | inl e ↦ subst IsSafe (sym e) open_now
        | inr (inl e) ↦ subst IsSafe (sym e) staged
        | inr (inr (inl e)) ↦ subst IsSafe (sym e) (close_ime-IsSafe v)
        | inr (inr (inr e)) ↦ subst IsSafe (sym e) v
      ]
      | inr (code, known) ↦ elim (handle_message-known m s code known) [
        | inl e ↦ subst IsSafe (sym e) open_now
        | inr (inl e) ↦ subst IsSafe (sym e) staged
        | inr (inr (inl e)) ↦
            subst IsSafe (sym e)
              (key_staged-IsSafe m code fits (key_code-lt (byte_at m.payload 0) code known) v)
        | inr (inr (inr (inl e))) ↦ subst IsSafe (sym e) (close_ime-IsSafe v)
        | inr (inr (inr (inr e))) ↦ subst IsSafe (sym e) v
      ]
    ]

handle_packet-message :
    (s : Resident) {m : Packet} → parse s.rx ≡ some m → handle_packet s ≡ handle_message m s
unfolding handle_packet
handle_packet-message s e = ground arith

handle_packet-refused : (s : Resident) → parse s.rx ≡ none → handle_packet s ≡ s
unfolding handle_packet
handle_packet-refused s e = ground arith

handle_packet-IsSafe : {s : Resident} → IsSafe s → IsSafe (handle_packet s)
handle_packet-IsSafe {s} v = elim (Option-cases (parse s.rx)) [
  | inl bad ↦ subst IsSafe (sym (handle_packet-refused s bad)) v
  | inr (m, good) ↦
      let (fits, small) = parse-IsMessage s.rx m v.rx_bytes good in
      subst IsSafe (sym (handle_packet-message s good)) (handle_message-IsSafe m fits small v)
]

-- A prefix that fits the array may take the place of the one gathered.
reframe-IsSafe :
    {s : Resident} (rx : Bytes) (expected : ℕ)
    → length rx ≤ rx_size
    → AreBytes rx
    → IsSafe s
    → IsSafe (record s { rx = rx; rx_expected = expected })
reframe-IsSafe rx expected fits bytes v = ground (arith, v)

after_store-fits :
    (rx : Bytes) (expected : ℕ)
    → length rx ≤ rx_size
    → AreBytes rx
    → (length (after_store rx expected).0 ≤ rx_size) × AreBytes (after_store rx expected).0
unfolding after_store
after_store-fits rx expected fits bytes = ground arith

-- The state with a byte stored, as `accept_byte` hands it on.
abbrev stored : ℕ → Resident → Resident
stored value s =
    let (rx, expected) = after_store (s.rx ++ value ∷ []) s.rx_expected in
    record s { rx = rx; rx_expected = expected }

stored-IsSafe :
    (value : ℕ) {s : Resident}
    → value < 256
    → length s.rx < rx_size
    → IsSafe s
    → IsSafe (stored value s)
stored-IsSafe value {s} byte room v =
    let size = length-append s.rx (value ∷ []) in
    let all : AreBytes (s.rx ++ value ∷ []) =
      All-append IsByte s.rx (value ∷ []) v.rx_bytes (byte, tt) in
    let (fits, bytes) =
      after_store-fits (s.rx ++ value ∷ []) s.rx_expected (omega (arith, size)) all in
    reframe-IsSafe _ _ fits bytes v

-- How `accept_byte` ends, by what it does with the bytes gathered.
accept_byte-full :
    (value : ℕ) (s : Resident)
    → rx_size ≤ length s.rx
    → accept_byte value s ≡ record s { rx = []; rx_expected = 0 }
unfolding accept_byte
accept_byte-full value s full = ground arith

pub accept_byte-IsSafe :
    (value : ℕ) {s : Resident} → value < 256 → IsSafe s → IsSafe (accept_byte value s)
unfolding accept_byte
accept_byte-IsSafe value {s} byte v = elim (dec_lt (length s.rx) rx_size) [
  | no full ↦
      subst IsSafe (sym (accept_byte-full value s (omega arith)))
        (reframe-IsSafe [] 0 (omega arith) tt v)
  | yes room ↦
      let kept = stored-IsSafe value byte room v in
      let done = reframe-IsSafe [] 0 (omega arith) tt (handle_packet-IsSafe kept) in
      let lost : IsSafe (record s { rx = [] }) =
        reframe-IsSafe [] s.rx_expected (omega arith) tt v in
      let one : IsSafe (record s { rx = take 1 s.rx }) =
        reframe-IsSafe (take 1 s.rx) s.rx_expected (omega (arith, length-take 1 s.rx))
          (All-take IsByte 1 s.rx v.rx_bytes) v in
      ground (arith, v, kept, done, lost, one)
]
