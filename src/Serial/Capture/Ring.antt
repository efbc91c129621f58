-- ===== src/Serial/Capture/Ring.antt =====
-- The receive buffer against a list of at most 127 bytes.
use pc98imebridge.Common.{
  ℕ, zero, suc, ◌+◌, ◌-◌, ◌%◌, ◌<◌, ◌≤◌, ◌≡◌, ◌≢◌, refl, ap, ap₂, ◌∙◌, false, Option, none, some,
  [], ◌∷◌, ◌++◌, Bytes, length, get_or, set, length-set, get_or-set_self, get_or-set_ne, ltb,
  if◌then◌else◌, arith, dec_lt, append_assoc, ℕ_discrete, u8, u16, bit_and,
}
use pc98imebridge.Common.Bits.{bit_and_127, bit_and-le}
use pc98imebridge.Serial.Port.{Ports, port_in, port_out}
use pc98imebridge.Serial.Capture.{
  Capture, try_read_byte, irq_store, capture_begin, capture_end, unmasked, pic_mask_port,
}

abbrev pub size : ℕ
size = 128

-- The `n` bytes from `i` on, going round.
abbrev pub stretch : Bytes → ℕ → ℕ → Bytes
stretch buffer i zero = []
stretch buffer i (suc n) = get_or buffer i 0 ∷ stretch buffer ((i + 1) % size) n

abbrev pub held : Capture → ℕ
held c = (c.write_pos + size - c.read_pos) % size

-- The bytes captured and not yet read, oldest first.
abbrev pub captured : Capture → Bytes
captured c = stretch c.buffer c.read_pos (held c)

pub record IsRing (c : Capture) : Type 0 where
  pub read_in : c.read_pos < size
  pub write_in : c.write_pos < size
  pub buffer_size : length c.buffer ≡ size

pub length-stretch : (buffer : Bytes) (i n : ℕ) → length (stretch buffer i n) ≡ n
length-stretch buffer i zero = refl
length-stretch buffer i (suc n) = ap suc (length-stretch buffer ((i + 1) % size) n)

-- Writing just past a stretch extends it by that byte.
stretch-set :
    (buffer : Bytes) (i n at byte : ℕ)
    → length buffer ≡ size
    → i < size
    → n < size
    → at ≡ (i + n) % size
    → stretch (set buffer at byte) i (suc n) ≡ stretch buffer i n ++ byte ∷ []
stretch-set buffer i zero at byte full hi hn e =
    ap (λ b. b ∷ [])
      (ap (λ k. get_or (set buffer at byte) k 0) (omega arith)
        ∙ get_or-set_self buffer at byte 0 (omega arith))
stretch-set buffer i (suc n) at byte full hi hn e =
    ap₂ ◌∷◌ (get_or-set_ne buffer at i byte 0 (omega arith))
      (stretch-set buffer ((i + 1) % size) n at byte full (omega arith) (omega arith) (omega arith))

stretch-pos :
    (buffer : Bytes) (i n : ℕ)
    → 0 < n
    → stretch buffer i n ≡ get_or buffer i 0 ∷ stretch buffer ((i + 1) % size) (n - 1)
stretch-pos buffer i zero h = absurd (omega arith)
stretch-pos buffer i (suc n) h = ap (λ k. stretch buffer i (suc k)) (omega arith)

-- The queue that the two sides see.
unfoldable pub push : ℕ → Bytes → Bytes
push byte q = if ltb (length q) 127 then q ++ byte ∷ [] else q

unfoldable pub pop : Bytes → Option ℕ × Bytes
pop [] = (none, [])
pop (byte ∷ q) = (some byte, q)

abbrev stored : ℕ → Capture → Capture
stored byte c = record c {
  buffer = set c.buffer c.write_pos byte;
  write_pos = (c.write_pos + 1) % size;
  stored_count = u16 (c.stored_count + 1);
}

irq_store-room :
    (byte : ℕ) (c : Capture) → IsRing c → held c < 127 → irq_store byte c ≡ stored byte c
unfolding irq_store
irq_store-room byte c v room =
    let next = bit_and_127 (u8 (c.write_pos + 1)) in
    let place : bit_and (u8 (c.write_pos + 1)) 127 ≡ (c.write_pos + 1) % size =
      omega (arith, next, v.write_in) in
    let apart : (c.write_pos + 1) % size ≢ c.read_pos = omega (arith, v.read_in, v.write_in) in
    ground (arith, place, apart)

irq_store-full : (byte : ℕ) (c : Capture) → IsRing c → 127 ≤ held c → irq_store byte c ≡ c
unfolding irq_store
irq_store-full byte c v full = ground (arith, bit_and_127 (u8 (c.write_pos + 1)))

stored-IsRing : (byte : ℕ) (c : Capture) → IsRing c → IsRing (stored byte c)
stored-IsRing byte c v = record {
  read_in = v.read_in;
  write_in = omega arith;
  buffer_size = length-set c.buffer c.write_pos byte ∙ v.buffer_size;
}

captured-stored :
    (byte : ℕ) (c : Capture)
    → IsRing c
    → held c < 127
    → captured (stored byte c) ≡ captured c ++ byte ∷ []
captured-stored byte c v room =
    let more : held (stored byte c) ≡ suc (held c) = omega (arith, v.read_in, v.write_in) in
    ap (stretch (set c.buffer c.write_pos byte) c.read_pos) more
    ∙ stretch-set c.buffer c.read_pos (held c) c.write_pos byte v.buffer_size v.read_in
        (omega arith) (omega (arith, v.read_in, v.write_in))

-- On a valid buffer the interrupt's store appends its byte if fewer than 127 are held, and drops it
-- otherwise; the buffer stays valid.
pub irq_store_refines :
    (byte : ℕ) (c : Capture)
    → IsRing c
    → (captured (irq_store byte c) ≡ push byte (captured c)) × IsRing (irq_store byte c)
unfolding push
irq_store_refines byte c v =
    let len : length (captured c) ≡ held c = length-stretch c.buffer c.read_pos (held c) in
    elim (dec_lt (held c) 127) [
      | yes room ↦
          rw (irq_store-room byte c v room)
            (ground (arith, captured-stored byte c v room, len), stored-IsRing byte c v)
      | no full ↦ rw (irq_store-full byte c v (omega arith)) (ground (arith, len), v)
    ]

pub try_read_byte-empty : (c : Capture) → c.read_pos ≡ c.write_pos → try_read_byte c ≡ (none, c)
unfolding try_read_byte
try_read_byte-empty c e = ground arith

try_read_byte-some :
    (c : Capture)
    → c.read_pos ≢ c.write_pos
    → try_read_byte c
      ≡ (some (get_or c.buffer c.read_pos 0), record c { read_pos = (c.read_pos + 1) % size })
unfolding try_read_byte
try_read_byte-some c ne = ground (arith, bit_and_127 (c.read_pos + 1))

-- On a valid buffer `try_read_byte` returns and removes the oldest byte, or returns -1 when none is
-- held; the buffer stays valid, nothing changes when none is held, and nothing but the place to read
-- from in any case.
pub try_read_byte_refines :
    (c : Capture)
    → IsRing c
    → let (byte, c') = try_read_byte c in
      ((byte, captured c') ≡ pop (captured c))
      × IsRing c'
      × (captured c ≡ [] → c' ≡ c)
      × (c' ≡ record c { read_pos = c'.read_pos })
unfolding pop
try_read_byte_refines c v = elim (ℕ_discrete c.read_pos c.write_pos) [
  | yes empty ↦
      let nothing : captured c ≡ [] =
        ap (stretch c.buffer c.read_pos) {y = 0} (omega (arith, v.read_in)) in
      rw (try_read_byte-empty c empty, nothing) (refl, v, λ _. refl, refl)
  | no some_bytes ↦
      let rest : held (record c { read_pos = (c.read_pos + 1) % size }) ≡ held c - 1 =
        omega (arith, v.read_in, v.write_in) in
      let split = stretch-pos c.buffer c.read_pos (held c) (omega (arith, v.read_in, v.write_in)) in
      rw (try_read_byte-some c some_bytes, split)
        (
          ap
              (λ n.
                (some (get_or c.buffer c.read_pos 0), stretch c.buffer ((c.read_pos + 1) % size) n))
              rest,
          record { read_in = omega arith; write_in = v.write_in; buffer_size = v.buffer_size },
          λ none_held. absurd (ground arith),
          refl,
        )
]

-- A session of capture ends with the interrupt mask that it began with: it writes that mask with
-- the COM1 bit cleared at the start and unchanged at the end, and leaves no byte behind.
pub capture_end-capture_begin :
    (c : Capture) (p : Ports)
    → let mask = (port_in pic_mask_port p).0 in
      let (c1, p1) = capture_begin c p in
      let (c2, p2) = capture_end c1 p1 in
      (p2.writes ≡ p.writes ++ (pic_mask_port, unmasked mask) ∷ (pic_mask_port, mask) ∷ [])
      × (c2.capture ≡ false)
      × (c2.pic_mask_saved ≡ false)
      × (captured c2 ≡ [])
unfolding port_in port_out capture_begin capture_end
capture_end-capture_begin c p =
    let mask : ℕ = u8 (p.answer p.reads pic_mask_port) in
    let first : u8 (unmasked mask) ≡ unmasked mask = omega (arith, bit_and-le mask 0xef) in
    let second : u8 mask ≡ mask = omega arith in
    (
      append_assoc p.writes _ _
          ∙ ap₂ (λ x y. p.writes ++ (pic_mask_port, x) ∷ (pic_mask_port, y) ∷ []) first second,
      refl,
      refl,
      refl,
    )
