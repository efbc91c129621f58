-- ===== src/Resident/Receive/Stream.antt =====
-- Whole packets in the byte stream that `accept_byte` takes, behind noise.
use pc98imebridge.Common.{
  ℕ, ◌<◌, ◌≤◌, ◌≡◌, ◌≢◌, refl, sym, subst, ap, ap₂, ◌∙◌, ◌⊎◌, inl, inr, Bool, true, false, ◌&&◌,
  ◌||◌, some, none, [], ◌∷◌, ◌++◌, Bytes, length, arith, ◌==◌, if◌then◌else◌, ℕ_discrete,
}
use pc98imebridge.Protocol.Packet.{Packet, build, parse, magic0, magic1, byte_at, max_payload}
use pc98imebridge.Protocol.Packet.RoundTrip.{
  IsMessage, parse-build, build-some, whole, length-whole,
}
use pc98imebridge.Resident.State.{Resident, rx_size}
use pc98imebridge.Resident.Receive.{accept_byte, expected_length, handle_packet, handle_message}
use pc98imebridge.Resident.Receive.Framing.{
  accept_bytes, framed, handled, accept_byte-noise, accept_byte-first, accept_byte-again,
  accept_byte-lost, accept_byte-second, accept_byte-header, accept_byte-eighth, accept_bytes-body,
}

-- The magic bytes stand side by side somewhere.
unfoldable pub has_magic : Bytes → Bool
has_magic [] = false
has_magic (a ∷ []) = false
has_magic (a ∷ b ∷ rest) = (a == magic0 && b == magic1) || has_magic (b ∷ rest)

no_magic_behind : (v : ℕ) (w : Bytes) → has_magic (v ∷ w) ≡ false → has_magic w ≡ false
unfolding has_magic
no_magic_behind v [] h = refl
no_magic_behind v (x ∷ w) h = ground arith

-- The bytes of one packet, the header written out: the length that the header gives is that of the
-- whole, beyond the header and within the buffer.
module _ (a2 a3 a4 a5 a6 a7 : ℕ) (rest : Bytes) where
  abbrev pub packet_of : Bytes
  packet_of = magic0 ∷ magic1 ∷ a2 ∷ a3 ∷ a4 ∷ a5 ∷ a6 ∷ a7 ∷ rest

  abbrev header : Bytes
  header = magic0 ∷ magic1 ∷ a2 ∷ a3 ∷ a4 ∷ a5 ∷ a6 ∷ a7 ∷ []

  tail_after_first : Bytes
  tail_after_first = magic1 ∷ a2 ∷ a3 ∷ a4 ∷ a5 ∷ a6 ∷ a7 ∷ rest

  -- From the first magic byte on.
  accept_bytes-from_first :
      (s : Resident)
      → expected_length packet_of ≡ length packet_of
      → 8 < length packet_of
      → length packet_of ≤ rx_size
      → accept_bytes (magic1 ∷ a2 ∷ a3 ∷ a4 ∷ a5 ∷ a6 ∷ a7 ∷ rest) (framed s (magic0 ∷ []) 0)
        ≡ handled s packet_of
  unfolding accept_bytes
  accept_bytes-from_first s e lo hi =
      rw
        (
          accept_byte-second s,
          accept_byte-header s a2 (magic0 ∷ magic1 ∷ []) (omega arith) (omega arith),
          accept_byte-header s a3 (magic0 ∷ magic1 ∷ a2 ∷ []) (omega arith) (omega arith),
          accept_byte-header s a4 (magic0 ∷ magic1 ∷ a2 ∷ a3 ∷ []) (omega arith) (omega arith),
          accept_byte-header s a5 (magic0 ∷ magic1 ∷ a2 ∷ a3 ∷ a4 ∷ []) (omega arith) (omega arith),
          accept_byte-header s a6 (magic0 ∷ magic1 ∷ a2 ∷ a3 ∷ a4 ∷ a5 ∷ []) (omega arith)
              (omega arith),
          accept_byte-eighth s a7 (magic0 ∷ magic1 ∷ a2 ∷ a3 ∷ a4 ∷ a5 ∷ a6 ∷ []) refl
              (omega (arith, e)) (omega (arith, e)),
        )
        (accept_bytes-body s header rest _ (omega arith) (omega arith) (omega (arith, e))
          (omega (arith, e)))

accept_bytes-append :
    (xs ys : Bytes) (s : Resident) → accept_bytes (xs ++ ys) s ≡ accept_bytes ys (accept_bytes xs s)
unfolding accept_bytes
accept_bytes-append [] ys s = refl
accept_bytes-append (x ∷ xs) ys s = accept_bytes-append xs ys (accept_byte x s)

-- Nothing gathered, or only a first byte of the magic.
abbrev Waiting : Resident → Resident → Type 0
Waiting s t = (t ≡ framed s [] 0) ⊎ (t ≡ framed s (magic0 ∷ []) 0)

accept_bytes-cons :
    (v : ℕ) (w : Bytes) (s t u : Resident)
    → accept_byte v t ≡ u
    → accept_bytes (v ∷ w) t ≡ accept_bytes w u
unfolding accept_bytes
accept_bytes-cons v w s t u e = ap (accept_bytes w) e

accept_byte-magic0 :
    (s t : Resident) (v : ℕ) → v ≡ magic0 → Waiting s t → accept_byte v t ≡ framed s (magic0 ∷ []) 0
accept_byte-magic0 s t v e (inl p) =
    ap (λ b. accept_byte b t) e ∙ ap (accept_byte magic0) p ∙ accept_byte-first s
accept_byte-magic0 s t v e (inr p) =
    ap (λ b. accept_byte b t) e ∙ ap (accept_byte magic0) p ∙ accept_byte-again s

abbrev so_far : Bool → Bytes
so_far one = if one then magic0 ∷ [] else []

-- Noise without the magic leaves at most a first byte of it gathered.
module _ (s : Resident) where
  so_far-Waiting : (one : Bool) → Waiting s (framed s (so_far one) 0)
  so_far-Waiting false = inl refl
  so_far-Waiting true = inr refl

  has_magic-later :
      (one : Bool) (v : ℕ) (w : Bytes)
      → has_magic (so_far one ++ v ∷ w) ≡ false
      → has_magic (v ∷ w) ≡ false
  has_magic-later false v w h = h
  has_magic-later true v w h = no_magic_behind magic0 (v ∷ w) h

  accept_byte-other :
      (one : Bool) (v : ℕ) (w : Bytes)
      → has_magic (so_far one ++ v ∷ w) ≡ false
      → v ≢ magic0
      → accept_byte v (framed s (so_far one) 0) ≡ framed s [] 0
  unfolding has_magic
  accept_byte-other false v w h ne = accept_byte-noise s v ne
  accept_byte-other true v w h ne = accept_byte-lost s v ne (ground arith)

  noise-Waiting :
      (w : Bytes) (one : Bool)
      → has_magic (so_far one ++ w) ≡ false
      → Waiting s (accept_bytes w (framed s (so_far one) 0))
  noise-Waiting [] one h = unfold accept_bytes in so_far-Waiting one
  noise-Waiting (v ∷ w) one h = elim (ℕ_discrete v magic0) [
    | yes e ↦
        subst (Waiting s)
          (sym (accept_bytes-cons v w s _ _ (accept_byte-magic0 s _ v e (so_far-Waiting one))))
          (noise-Waiting w true
            (subst (λ b. has_magic (b ∷ w) ≡ false) e (has_magic-later one v w h)))
    | no ne ↦
        subst (Waiting s) (sym (accept_bytes-cons v w s _ _ (accept_byte-other one v w h ne)))
          (noise-Waiting w false (no_magic_behind v w (has_magic-later one v w h)))
  ]

-- A whole packet by its first bytes and the length in its header.
pub record IsFrame (packet : Bytes) : Type 0 where
  pub first : byte_at packet 0 ≡ magic0
  pub second : byte_at packet 1 ≡ magic1
  pub measured : expected_length packet ≡ length packet
  pub beyond : 8 < length packet
  pub fits : length packet ≤ rx_size

accept_bytes-started :
    (packet : Bytes) (s t : Resident)
    → IsFrame packet
    → Waiting s t
    → accept_bytes packet t ≡ handled s packet
accept_bytes-started (b0 ∷ b1 ∷ a2 ∷ a3 ∷ a4 ∷ a5 ∷ a6 ∷ a7 ∷ rest) s t f w =
    accept_bytes-cons b0 _ s _ _ (accept_byte-magic0 s t b0 f.first w)
    ∙ ap (λ b. accept_bytes (b ∷ a2 ∷ a3 ∷ a4 ∷ a5 ∷ a6 ∷ a7 ∷ rest) (framed s (magic0 ∷ []) 0))
        f.second
    ∙ accept_bytes-from_first a2 a3 a4 a5 a6 a7 rest s f.measured f.beyond f.fits
    ∙ ap₂ (λ x y. handled s (x ∷ y ∷ a2 ∷ a3 ∷ a4 ∷ a5 ∷ a6 ∷ a7 ∷ rest)) (sym f.first)
        (sym f.second)
accept_bytes-started packet s t f w = absurd (omega (arith, f.beyond))

-- Behind noise without the magic, a whole packet is handled once and the gathering starts afresh.
pub accept_bytes-frame :
    (noise packet : Bytes) (s : Resident)
    → has_magic noise ≡ false
    → IsFrame packet
    → accept_bytes (noise ++ packet) (framed s [] 0) ≡ handled s packet
accept_bytes-frame noise packet s quiet f =
    accept_bytes-append noise packet (framed s [] 0)
    ∙ accept_bytes-started packet s _ f (noise-Waiting s noise false quiet)

whole-IsFrame :
    (kind sequence : ℕ) (payload : Bytes)
    → length payload ≤ max_payload
    → IsFrame (whole kind sequence payload)
whole-IsFrame kind sequence payload small =
    let size = length-whole kind sequence payload in
    record {
      first = refl;
      second = refl;
      measured = omega (arith, size);
      beyond = omega (arith, size);
      fits = omega (arith, size);
    }

handle_packet-message :
    (s : Resident) (m : Packet) → parse s.rx ≡ some m → handle_packet s ≡ handle_message m s
unfolding handle_packet
handle_packet-message s m e = ground arith

handle_packet-refused : (s : Resident) → parse s.rx ≡ none → handle_packet s ≡ s
unfolding handle_packet
handle_packet-refused s e = ground arith

-- With nothing gathered before, and behind noise without the magic, the bytes that
-- `ime_packet_build` made of a message whose fields fit their C types reach `handle_message` as that
-- message, once, and the gathering starts afresh.
pub accept_bytes-message :
    (noise packet : Bytes) (m : Packet) (s : Resident)
    → has_magic noise ≡ false
    → IsMessage m
    → build m.kind m.sequence m.payload ≡ some packet
    → accept_bytes (noise ++ packet) (framed s [] 0)
      ≡ framed (handle_message m (framed s packet (length packet))) [] 0
accept_bytes-message noise packet m s quiet ok built =
    let (small, shape) = build-some m.kind m.sequence m.payload built in
    let frame : IsFrame packet =
      subst IsFrame (sym shape) (whole-IsFrame m.kind m.sequence m.payload small) in
    accept_bytes-frame noise packet s quiet frame
    ∙ ap (λ t. framed t [] 0) (handle_packet-message _ m (parse-build m packet ok built))

-- With nothing gathered before, and behind noise without the magic, a packet of at most 522
-- bytes whose header gives its length but which `ime_packet_parse` refuses changes nothing, and the gathering starts afresh.
pub accept_bytes-refused :
    (noise packet : Bytes) (s : Resident)
    → has_magic noise ≡ false
    → IsFrame packet
    → parse packet ≡ none
    → accept_bytes (noise ++ packet) (framed s [] 0) ≡ framed s [] 0
accept_bytes-refused noise packet s quiet f bad =
    accept_bytes-frame noise packet s quiet f
    ∙ ap (λ t. framed t [] 0) (handle_packet-refused (framed s packet (length packet)) bad)
